-- ===== src/LinkedList/ListBase/Sorted.antt =====
-- `push_ord` and the order of the nodes.
use proyecto_estructura.Prelude.{◌≡◌, refl, Bool, true, false, not, ◌&&◌, List, [], ◌∷◌, arith}
use proyecto_estructura.Outcome.{ok}
use proyecto_estructura.LinkedList.ListBase.{ListBase, Ord, push_ord}
use proyecto_estructura.LinkedList.ListBase.Linked.{Slot, Represents}
use proyecto_estructura.LinkedList.ListBase.Push.{fresh_slot}
use proyecto_estructura.LinkedList.ListBase.Order.{stops, insert_slot, push_ord-Represents}

module _ {ℓ ℓ'} {T : Type ℓ} {V : Type ℓ'} (greater lesser : V → V → Bool) (key : T → V) where
  -- no node must stand before the one in front of it
  abbrev pub is_sorted : Ord → List (Slot T) → Bool
  is_sorted ord [] = true
  is_sorted ord (c ∷ []) = true
  is_sorted ord (c ∷ d ∷ cs) =
      not (stops greater lesser key ord d.value c.value) && is_sorted ord (d ∷ cs)

  -- of two values at most one stands before the other
  abbrev pub Asymmetric : Ord → Type ℓ
  Asymmetric ord =
      (v w : T) → stops greater lesser key ord v w ≡ true → stops greater lesser key ord w v ≡ false

  is_sorted-insert_slot :
      (ord : Ord) (s : Slot T) (cs : List (Slot T))
      → Asymmetric ord
      → is_sorted ord cs ≡ true
      → is_sorted ord (insert_slot greater lesser key ord s cs) ≡ true
  is_sorted-insert_slot ord s [] a h = refl
  is_sorted-insert_slot ord s (c ∷ []) a h = ground (arith, a s.value c.value)
  is_sorted-insert_slot ord s (c ∷ d ∷ cs) a h =
      ground
        (arith, h, a s.value c.value, a s.value d.value, is_sorted-insert_slot ord s (d ∷ cs) a)

  -- `push_ord` on a list object whose nodes are in order gives one whose nodes are in order, if of
  -- two values at most one stands before the other.
  pub push_ord-is_sorted :
      (v : T) (ord : Ord) (l : ListBase T) (cs : List (Slot T))
      → Asymmetric ord
      → Represents l cs
      → is_sorted ord cs ≡ true
      → (let cs' = insert_slot greater lesser key ord (fresh_slot v l) cs in
          (l' : ListBase T) × (push_ord greater lesser key v ord l ≡ ok l')
          × Represents l' cs'
          × (is_sorted ord cs' ≡ true))
  push_ord-is_sorted v ord l cs a r h =
      let (l', e, r') = push_ord-Represents greater lesser key v ord l cs r in
      (l', e, r', is_sorted-insert_slot ord (fresh_slot v l) cs a h)
