-- ===== src/LinkedList/ListBase/Walk.antt =====
-- `List::get` on the sequence of nodes.
use proyecto_estructura.Prelude.{
  ℕ, zero, suc, ◌<◌, ◌≤◌, ◌≡◌, refl, false, Option, none, some, List, [], ◌∷◌, arith, length,
  get_elem?, get_elem?-out, leb, leb→le, inl, inr, Bool-cases, ap, ◌∙◌,
}
use proyecto_estructura.Outcome.{ok}
use proyecto_estructura.LinkedList.ListBase.{Pointer, Heap, ListBase, advance, get_node}
use proyecto_estructura.LinkedList.ListBase.Linked.{Slot, first, Linked, Represents}
use proyecto_estructura.LinkedList.ListBase.Splice.{follow-some}

not_leb : (a b : ℕ) → leb a b ≡ false → b < a
not_leb a b h = ground arith

module _ {ℓ} {T : Type ℓ} where
  abbrev pub address_of : Option (Slot T) → Pointer
  address_of none = none
  address_of (some c) = some c.address

  advance-Linked :
      (h : Heap T) (p q : Pointer) (cs : List (Slot T)) (i : ℕ)
      → i < length cs
      → Linked h p cs q
      → advance i h (first cs q) ≡ ok (address_of (get_elem? cs i))
  unfolding advance
  advance-Linked h p q [] i b l = absurd (omega arith)
  advance-Linked h p q (c ∷ cs) zero b l = refl
  advance-Linked h p q (c ∷ []) (suc i) b l = absurd (omega arith)
  advance-Linked h p q (c ∷ d ∷ cs) (suc i) b (l, ls) =
      rw (follow-some h c.address _ l)
        (advance-Linked h (some c.address) q (d ∷ cs) i (omega arith) ls)

  -- `get` on a list object whose nodes are a sequence follows no null pointer; it gives the node at
  -- the position, and null past the end.
  pub get_node-Represents :
      (l : ListBase T) (cs : List (Slot T)) (i : ℕ)
      → Represents l cs
      → get_node i l ≡ ok (address_of (get_elem? cs i))
  unfolding get_node
  get_node-Represents l cs i r = elim (Bool-cases (leb l.size i)) [
    | inl h ↦
        let past : length cs ≤ i = omega (arith, leb→le l.size i h, r.size) in
        rw (h, get_elem?-out cs i past) refl
    | inr h ↦
        let within : i < length cs = omega (arith, not_leb l.size i h, r.size) in
        rw h (ap (advance i l.heap) r.head ∙ advance-Linked l.heap none none cs i within r.linked)
  ]
