-- ===== src/LinkedList/ListBase/Destroy.antt =====
-- `~ListBase` on the sequence of nodes.
use proyecto_estructura.Prelude.{
  ℕ, zero, suc, ◌≤◌, ◌≡◌, refl, ◌∙◌, true, false, ◌||◌, ◌==◌, inl, inr, Bool-cases, none, some,
  List, [], ◌∷◌, arith, length,
}
use proyecto_estructura.Outcome.{ok}
use proyecto_estructura.LinkedList.ListBase.{
  Pointer, Heap, ListBase, put_node, delete_nodes, destroy,
}
use proyecto_estructura.LinkedList.ListBase.Linked.{
  Slot, first, Linked, Linked-frame, has_address, distinct, Represents,
}
use proyecto_estructura.LinkedList.ListBase.Splice.{follow-some, put_node-same, put_node-other}
use proyecto_estructura.LinkedList.ListBase.Insert.{absent}

module _ {ℓ} {T : Type ℓ} where
  -- a heap without the nodes of a sequence, and else as before
  abbrev Without : Heap T → List (Slot T) → Heap T → Type ℓ
  Without h cs h' =
      ((x : ℕ) → has_address x cs ≡ true → h'.at x ≡ none)
      × ((x : ℕ) → has_address x cs ≡ false → h'.at x ≡ h.at x)

  in_neither :
      (a x : ℕ) (cs : List (Slot T))
      → (x == a || has_address x cs) ≡ false
      → ((x == a) ≡ false) × (has_address x cs ≡ false)
  in_neither a x cs k = ground arith

  delete_nodes-Linked :
      (rounds : ℕ) (h : Heap T) (p : Pointer) (cs : List (Slot T))
      → length cs ≤ rounds
      → distinct cs ≡ true
      → Linked h p cs none
      → (h' : Heap T) × (delete_nodes rounds h (first cs none) ≡ ok h') × Without h cs h'
  unfolding delete_nodes
  delete_nodes-Linked zero h p [] b d l = (h, refl, ((λ x k. ground arith), λ x k. refl))
  delete_nodes-Linked (suc rounds) h p [] b d l = (h, refl, ((λ x k. ground arith), λ x k. refl))
  delete_nodes-Linked zero h p (c ∷ cs) b d l = absurd (omega arith)
  delete_nodes-Linked (suc rounds) h p (c ∷ cs) b d (l, ls) =
      let h1 = put_node c.address none h in
      let new : has_address c.address cs ≡ false = ground (arith, d) in
      let ds : distinct cs ≡ true = ground (arith, d) in
      let ls1 =
        Linked-frame h h1 (some c.address) none cs
          (λ x k. put_node-other h c.address x none (absent c.address x cs new k)) ls in
      let (h', e, (gone, kept)) =
        delete_nodes-Linked rounds h1 (some c.address) cs (omega arith) ds ls1 in
      let here : h'.at c.address ≡ none = kept c.address new ∙ put_node-same h c.address none in
      (
        h',
        rw (follow-some h c.address _ l) e,
        (
          (λ x k. elim (Bool-cases (has_address x cs)) [
            | inl m ↦ gone x m
            | inr m ↦ ground (arith, k, m, here)
          ]),
          λ x k.
              let (other, out) = in_neither c.address x cs k in
              kept x out ∙ put_node-other h c.address x none other,
        ),
      )

  destroy-some :
      (l : ListBase T) (c : Slot T) (cs : List (Slot T))
      → l.head ≡ some c.address
      → l.size ≡ length (c ∷ cs)
      → destroy l ≡ delete_nodes (length (c ∷ cs)) l.heap (some c.address)
  unfolding destroy
  destroy-some l c cs e k = ground (arith, e, k)

  destroy-none : (l : ListBase T) → l.size ≡ 0 → destroy l ≡ ok l.heap
  unfolding destroy
  destroy-none l e = ground (arith, e)

  -- `~ListBase` on a list object whose nodes are a sequence ends and follows no null pointer and
  -- none to a node that it has freed; it frees the nodes of the sequence and no other.
  pub destroy-Represents :
      (l : ListBase T) (cs : List (Slot T))
      → Represents l cs
      → (h' : Heap T) × (destroy l ≡ ok h')
        × ((x : ℕ) → has_address x cs ≡ true → h'.at x ≡ none)
        × ((x : ℕ) → has_address x cs ≡ false → h'.at x ≡ l.heap.at x)
  destroy-Represents l [] r = (l.heap, destroy-none l r.size, (λ x k. ground arith), λ x k. refl)
  destroy-Represents l (c ∷ cs) r =
      let (h', e, (gone, kept)) =
        delete_nodes-Linked (length (c ∷ cs)) l.heap none (c ∷ cs) (omega arith) r.distinct
          r.linked in
      (h', destroy-some l c cs r.head r.size ∙ e, gone, kept)
