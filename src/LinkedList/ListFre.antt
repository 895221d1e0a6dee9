-- ===== src/LinkedList/ListFre.antt =====
-- src/lib/linkedList.hpp: `ListFre`, the values pushed so far with how often each was, as the
-- sequence that its nodes hold from head to tail.
use proyecto_estructura.Prelude.{
  ℕ, zero, suc, ◌+◌, ◌-◌, Option, none, some, List, [], ◌∷◌, ltb, if◌then◌else◌, Eq,
}

pub record FreValue {ℓ} (T : Type ℓ) : Type ℓ where
  pub value : T
  pub fre : ℕ

module _ {ℓ} {T : Type ℓ} ⦃eq : Eq T⦄ where
  -- `push`: the walk of `for_each` and, when it finds no node, `push_ft` or `push_bk`
  unfoldable pub push_count : T → List (FreValue T) → List (FreValue T)
  push_count v [] = record { value = v; fre = 1 } ∷ []
  push_count v (e ∷ l) =
      if eq.beq e.value v then record e { fre = e.fre + 1 } ∷ l else e ∷ push_count v l

  -- `pop`
  unfoldable pub pop_count : T → List (FreValue T) → List (FreValue T)
  pop_count v [] = []
  pop_count v (e ∷ l) =
      if eq.beq e.value v
      then if ltb 1 e.fre then record e { fre = e.fre - 1 } ∷ l else l
      else e ∷ pop_count v l

module _ {ℓ} {T : Type ℓ} where
  -- `get`, by position
  unfoldable pub get_count : ℕ → List (FreValue T) → Option (FreValue T)
  get_count i [] = none
  get_count zero (e ∷ l) = some e
  get_count (suc i) (e ∷ l) = get_count i l
