-- ===== src/LinkedList/ListBase/Order.antt =====
-- `push_ord` on the sequence of nodes.
use proyecto_estructura.Prelude.{
  ℕ, zero, suc, ◌+◌, ◌≤◌, ◌≡◌, ◌⊎◌, inl, inr, refl, sym, ap, ◌∙◌, Bool, true, none, some, List, [],
  ◌∷◌, ◌++◌, arith, length, length-append, Bool-cases, if◌then◌else◌,
}
use proyecto_estructura.Outcome.{ok}
use proyecto_estructura.LinkedList.ListBase.{
  Pointer, Heap, ListBase, Ord, is_pointer, new_node, push_bk, join_tail, join_before, join_at,
  stands_before, find_place, push_ord,
}
use proyecto_estructura.LinkedList.ListBase.Linked.{
  Slot, first, Linked, distinct, below, Represents, last-append, has_address-append, below-append,
  has_address-free, distinct-insert,
}
use proyecto_estructura.LinkedList.ListBase.Splice.{follow-some}
use proyecto_estructura.LinkedList.ListBase.Insert.{push_before-Linked}
use proyecto_estructura.LinkedList.ListBase.Push.{
  new_node-at, new_node-Linked, fresh_slot, below-new, below-fresh, push_bk-empty,
  push_bk-Represents,
}

module _ {ℓ} {T : Type ℓ} where
  -- the head of the list object once a node stands before `c`
  head-insert :
      (us vs : List (Slot T)) (c s : Slot T)
      → distinct (us ++ c ∷ vs) ≡ true
      → (let p = first (us ++ c ∷ vs) none in if is_pointer c.address p then some s.address else p)
        ≡ first (us ++ s ∷ c ∷ vs) none
  head-insert [] vs c s d = ground arith
  head-insert (u ∷ us) vs c s d = ground (arith, has_address-append u.address us (c ∷ vs))

  below-insert :
      (n : ℕ) (us vs : List (Slot T)) (s : Slot T)
      → below n (us ++ vs) ≡ true
      → below n (s ∷ []) ≡ true
      → below n (us ++ s ∷ vs) ≡ true
  below-insert n us vs s h k = ground (arith, below-append n us vs, below-append n us (s ∷ vs))

  join_before-Represents :
      (v : T) (l : ListBase T) (us vs : List (Slot T)) (c : Slot T)
      → Represents l (us ++ c ∷ vs)
      → (l' : ListBase T) × (join_before l.heap.free c.address (new_node v l.heap) l ≡ ok l')
        × Represents l' (us ++ fresh_slot v l ∷ c ∷ vs)
  unfolding join_before
  join_before-Represents v l us vs c r =
      let cs = us ++ c ∷ vs in
      let s = fresh_slot v l in
      let h = new_node v l.heap in
      let new = has_address-free l.heap.free cs r.below in
      let parts = has_address-append l.heap.free us (c ∷ vs) in
      let (h', e, f, k) =
        push_before-Linked h us vs c l.heap.free (record { value = v; next = none; prev = none })
          (new_node-Linked v l.heap none none cs r.below r.linked) r.distinct new
          (new_node-at v l.heap) in
      (
        record l {
          heap = h';
          head = if is_pointer c.address l.head then some l.heap.free else l.head;
          size = l.size + 1;
        },
        rw e refl,
        record {
          linked = k;
          head =
              ap (λ p. if is_pointer c.address p then some l.heap.free else p) r.head
              ∙ head-insert us vs c s r.distinct;
          tail = r.tail ∙ last-append none us (c ∷ vs) ∙ sym (last-append none us (s ∷ c ∷ vs));
          size = omega (arith, r.size, length-append us (c ∷ vs), length-append us (s ∷ c ∷ vs));
          distinct =
              distinct-insert us (c ∷ vs) s r.distinct (ground (arith, new, parts))
                (ground (arith, new, parts));
          below =
              ap (λ n. below n (us ++ s ∷ c ∷ vs)) f
              ∙ below-insert h.free us (c ∷ vs) s (below-new v l.heap cs r.below) (below-fresh v l);
        },
      )

  -- behind the last of a list with a node, `push_ord` does what `push_bk` does
  join_tail-Represents :
      (v : T) (l : ListBase T) (cs : List (Slot T)) (c : Slot T)
      → Represents l (c ∷ cs)
      → (l' : ListBase T) × (join_tail l.heap.free (new_node v l.heap) l ≡ ok l')
        × Represents l' ((c ∷ cs) ++ fresh_slot v l ∷ [])
  join_tail-Represents v l cs c r =
      let (l', e, r') = push_bk-Represents v l (c ∷ cs) r in
      let same : push_bk v l ≡ join_tail l.heap.free (new_node v l.heap) l =
        unfold push_bk in rw r.head refl in
      (l', sym same ∙ e, r')

module _ {ℓ ℓ'} {T : Type ℓ} {V : Type ℓ'} (greater lesser : V → V → Bool) (key : T → V) where
  abbrev pub stops : Ord → T → T → Bool
  stops = stands_before greater lesser key

  -- a slot before the first whose value it stands before, or at the end
  abbrev pub insert_slot : Ord → Slot T → List (Slot T) → List (Slot T)
  insert_slot ord s [] = s ∷ []
  insert_slot ord s (c ∷ cs) =
      let rest = insert_slot ord s cs in if stops ord s.value c.value then s ∷ c ∷ cs else c ∷ rest

  -- where the loop of `push_ord` stops
  abbrev Found : Ord → ℕ → Slot T → Heap T → List (Slot T) → Type ℓ
  Found ord rounds s h cs =
      (us : List (Slot T)) × (vs : List (Slot T)) × (c : Slot T) × (cs ≡ us ++ c ∷ vs)
      × (find_place greater lesser key rounds ord s.value h (first cs none) ≡ ok (some c.address))
      × (insert_slot ord s cs ≡ us ++ s ∷ c ∷ vs)

  abbrev Passed : Ord → ℕ → Slot T → Heap T → List (Slot T) → Type ℓ
  Passed ord rounds s h cs =
      (find_place greater lesser key rounds ord s.value h (first cs none) ≡ ok none)
      × (insert_slot ord s cs ≡ cs ++ s ∷ [])

  find_place-Linked :
      (ord : Ord) (rounds : ℕ) (s : Slot T) (h : Heap T) (p : Pointer) (cs : List (Slot T))
      → length cs ≤ rounds
      → Linked h p cs none
      → Found ord rounds s h cs ⊎ Passed ord rounds s h cs
  unfolding find_place
  find_place-Linked ord zero s h p [] b l = inr (refl, refl)
  find_place-Linked ord (suc rounds) s h p [] b l = inr (refl, refl)
  find_place-Linked ord zero s h p (c ∷ cs) b l = absurd (omega arith)
  find_place-Linked ord (suc rounds) s h p (c ∷ cs) b (l, ls) =
      let here = follow-some h c.address _ l in
      elim (Bool-cases (stops ord s.value c.value)) [
        | inl e ↦ inl ([], cs, c, refl, rw (here, e) refl, rw e refl)
        | inr e ↦ elim (find_place-Linked ord rounds s h (some c.address) cs (omega arith) ls) [
          | inl (us, vs, d, z, k, i) ↦
              inl (c ∷ us, vs, d, ap (◌∷◌ c) z, rw (here, e) k, rw e (ap (◌∷◌ c) i))
          | inr (k, i) ↦ inr (rw (here, e) k, rw e (ap (◌∷◌ c) i))
        ]
      ]

  push_ord-empty :
      (v : T) (ord : Ord) (l : ListBase T)
      → l.head ≡ none
      → push_ord greater lesser key v ord l ≡ push_bk v l
  unfolding push_ord push_bk
  push_ord-empty v ord l e = ground (arith, e)

  push_ord-some :
      (v : T) (ord : Ord) (l : ListBase T) (p : ℕ) (place : Pointer)
      → l.head ≡ some p
      → find_place greater lesser key l.size ord v (new_node v l.heap) (some p) ≡ ok place
      → push_ord greater lesser key v ord l
        ≡ join_at greater lesser key l.heap.free (new_node v l.heap) l place
  unfolding push_ord
  push_ord-some v ord l p place e k = ground (arith, e, k)

  -- `push_ord` on a list object whose nodes are a sequence follows no null pointer, ends, and gives
  -- one whose nodes are the sequence with the new value before the first node that it stands before
  -- in the order, or behind all when there is none.
  pub push_ord-Represents :
      (v : T) (ord : Ord) (l : ListBase T) (cs : List (Slot T))
      → Represents l cs
      → (l' : ListBase T) × (push_ord greater lesser key v ord l ≡ ok l')
        × Represents l' (insert_slot ord (fresh_slot v l) cs)
  push_ord-Represents v ord l [] r =
      let (l', e, r', _) = push_bk-empty v l r in (l', push_ord-empty v ord l r.head ∙ e, r')
  push_ord-Represents v ord l (c ∷ cs) r =
      let s = fresh_slot v l in
      let h = new_node v l.heap in
      let linked = new_node-Linked v l.heap none none (c ∷ cs) r.below r.linked in
      elim (find_place-Linked ord l.size s h none (c ∷ cs) (omega (arith, r.size)) linked) [
        | inl (us, vs, d, z, k, i) ↦
            let (l', e, r') = join_before-Represents v l us vs d (rw z at r) in
            let ends = push_ord-some v ord l c.address (some d.address) r.head k in
            (l', ends ∙ unfold join_at in e, rw i r')
        | inr (k, i) ↦
            let (l', e, r') = join_tail-Represents v l cs c r in
            let ends = push_ord-some v ord l c.address none r.head k in
            (l', ends ∙ unfold join_at in e, rw i r')
      ]
