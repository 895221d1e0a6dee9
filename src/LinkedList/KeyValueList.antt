-- ===== src/LinkedList/KeyValueList.antt =====
-- src/lib/linkedList.hpp: `KeyValueList`, as the sequence of the pairs that its nodes hold from
-- head to tail. Each operation walks the nodes with `for_each_node` and stops at the first match.
pub mod Laws
pub mod Unique
pub mod Refinement
use proyecto_estructura.Prelude.{
  ℕ, zero, suc, Bool, true, false, Option, none, some, List, [], ◌∷◌, ◌++◌, Eq, if◌then◌else◌,
}

pub record KeyValue {ℓ} (K V : Type ℓ) : Type ℓ where
  pub key : K
  pub value : V

abbrev pub KeyValueList {ℓ} : Type ℓ → Type ℓ → Type ℓ
KeyValueList K V = List (KeyValue K V)

abbrev pub pair {ℓ} : {K V : Type ℓ} → K → V → KeyValue K V
pair k v = record { key = k; value = v }

module _ {ℓ} {K V : Type ℓ} where
  -- `push_bk`
  unfoldable pub push_back : KeyValue K V → KeyValueList K V → KeyValueList K V
  push_back e l = l ++ e ∷ []

  unfoldable pub get_at : ℕ → KeyValueList K V → Option (KeyValue K V)
  get_at i [] = none
  get_at zero (e ∷ l) = some e
  get_at (suc i) (e ∷ l) = get_at i l

module _ {ℓ} {K V : Type ℓ} ⦃eq : Eq K⦄ where
  -- `g`
  unfoldable pub get : K → KeyValueList K V → Option V
  get k [] = none
  get k (e ∷ l) = if eq.beq e.key k then some e.value else get k l

  -- the walk that `i_u` and `u` share: writes the value of the first node with the key
  unfoldable pub overwrite : K → V → KeyValueList K V → KeyValueList K V
  overwrite k v [] = []
  overwrite k v (e ∷ l) = if eq.beq e.key k then record e { value = v } ∷ l else e ∷ overwrite k v l

  -- `pop_k`: the rest of the list, and whether a node was deleted
  unfoldable pub delete_key : K → KeyValueList K V → KeyValueList K V × Bool
  delete_key k [] = ([], false)
  delete_key k (e ∷ l) =
      let (l', done) = delete_key k l in if eq.beq e.key k then (l, true) else (e ∷ l', done)

  -- `i_u`
  unfoldable pub insert_update : K → V → KeyValueList K V → KeyValueList K V × Bool
  unfolding get overwrite push_back
  insert_update k v l = elim (get k l) [
    | none ↦ (push_back (pair k v) l, true)
    | some _ ↦ (overwrite k v l, false)
  ]

  -- `u`
  unfoldable pub update : K → V → KeyValueList K V → KeyValueList K V × Bool
  unfolding get overwrite
  update k v l = elim (get k l) [ none ↦ (l, false) | some _ ↦ (overwrite k v l, true) ]

  -- `i`
  unfoldable pub insert : K → V → KeyValueList K V → KeyValueList K V × Bool
  unfolding get push_back
  insert k v l = elim (get k l) [ none ↦ (push_back (pair k v) l, true) | some _ ↦ (l, false) ]
