-- ===== src/LinkedList/ListBase/Push.antt =====
-- `push_ft` and `push_bk` on the sequence of nodes.
use mathlib.Core.List.{append_assoc, append-nil}
use proyecto_estructura.Prelude.{
  both_true, ℕ, ◌+◌, ◌≡◌, inl, inr, refl, sym, ap, ◌∙◌, true, false, ◌==◌, ltb, none, some, List,
  [], ◌∷◌, ◌++◌, arith, length-append,
}
use proyecto_estructura.Outcome.{ok}
use proyecto_estructura.LinkedList.ListBase.{Pointer, Heap, ListBase, new_node, push_ft, push_bk}
use proyecto_estructura.LinkedList.ListBase.Linked.{
  Slot, first, Linked, has_address, below, Represents, Linked-frame, last-append,
  has_address-append, below-append, has_address-free, below-suc, distinct-insert, snoc-cases,
}
use proyecto_estructura.LinkedList.ListBase.Splice.{put_node-other}
use proyecto_estructura.LinkedList.ListBase.Insert.{
  slot, absent, push_after-Linked, push_before-Linked,
}

pub not_given : (x n : ℕ) → ltb x n ≡ true → (x == n) ≡ false
not_given x n h = ground (arith, h)

module _ {ℓ} {T : Type ℓ} where
  pub new_node-at :
      (v : T) (h : Heap T)
      → (new_node v h).at h.free ≡ some (record { value = v; next = none; prev = none })
  unfolding new_node
  new_node-at v h = ground arith

  -- `new` leaves the nodes of a list as they are
  pub new_node-Linked :
      (v : T) (h : Heap T) (p q : Pointer) (cs : List (Slot T))
      → below h.free cs ≡ true
      → Linked h p cs q
      → Linked (new_node v h) p cs q
  unfolding new_node
  new_node-Linked v h p q cs b l =
      Linked-frame h (new_node v h) p q cs
        (λ x k. put_node-other h h.free x _ (absent h.free x cs (has_address-free h.free cs b) k)) l

  abbrev pub fresh_slot : T → ListBase T → Slot T
  fresh_slot v l = slot l.heap.free v

  -- the list object of one node
  abbrev single : T → ListBase T → ListBase T
  single v l =
      let p = some l.heap.free in
      record { heap = new_node v l.heap; head = p; tail = p; size = l.size + 1 }

  single-Represents :
      (v : T) (l : ListBase T) → Represents l [] → Represents (single v l) (fresh_slot v l ∷ [])
  unfolding new_node
  single-Represents v l r = record {
    linked = (new_node-at v l.heap, tt);
    head = refl;
    tail = refl;
    size = omega (arith, r.size);
    distinct = refl;
    below = ground arith;
  }

  pub below-new :
      (v : T) (h : Heap T) (cs : List (Slot T))
      → below h.free cs ≡ true
      → below (new_node v h).free cs ≡ true
  unfolding new_node
  below-new v h cs b = below-suc h.free cs b

  pub below-fresh :
      (v : T) (l : ListBase T) → below (new_node v l.heap).free (fresh_slot v l ∷ []) ≡ true
  unfolding new_node
  below-fresh v l = ground arith

  absent_parts :
      (a : ℕ) (us : List (Slot T)) (c : Slot T)
      → has_address a (us ++ c ∷ []) ≡ false
      → (has_address a us ≡ false) × ((c.address == a) ≡ false)
  absent_parts a us c h = ground (arith, has_address-append a us (c ∷ []))

  absent_last :
      (x : ℕ) (us : List (Slot T)) (c : Slot T)
      → has_address x (us ++ c ∷ []) ≡ false
      → (x == c.address) ≡ false
  absent_last x us c h = ground (arith, has_address-append x us (c ∷ []))

  first-append :
      (us vs ws : List (Slot T)) (c : Slot T) (p q : Pointer)
      → first (us ++ c ∷ vs) p ≡ first (us ++ c ∷ ws) q
  first-append [] vs ws c p q = refl
  first-append (u ∷ us) vs ws c p q = refl

  first-some : (us : List (Slot T)) (c : Slot T) → (p : ℕ) × (first (us ++ c ∷ []) none ≡ some p)
  first-some [] c = (c.address, refl)
  first-some (u ∷ us) c = (u.address, refl)

  -- `push_ft` on a list object whose nodes are a sequence follows no null pointer and gives one
  -- whose nodes are the new value in front of the sequence.
  push_ft-Represents :
      (v : T) (l : ListBase T) (cs : List (Slot T))
      → Represents l cs
      → (l' : ListBase T) × (push_ft v l ≡ ok l') × Represents l' (fresh_slot v l ∷ cs)
  unfolding push_ft
  push_ft-Represents v l [] r = (single v l, rw r.head refl, single-Represents v l r)
  push_ft-Represents v l (c ∷ cs) r =
      let h = new_node v l.heap in
      let absent_new = has_address-free l.heap.free (c ∷ cs) r.below in
      let (h', e, f, k) =
        push_before-Linked h [] cs c l.heap.free (record { value = v; next = none; prev = none })
          (new_node-Linked v l.heap none none (c ∷ cs) r.below r.linked) r.distinct absent_new
          (new_node-at v l.heap) in
      (
        record l { heap = h'; head = some l.heap.free; size = l.size + 1 },
        rw (r.head, e) refl,
        record {
          linked = k;
          head = refl;
          tail = r.tail;
          size = omega (arith, r.size);
          distinct = distinct-insert [] (c ∷ cs) (fresh_slot v l) r.distinct refl absent_new;
          below =
              ap (λ n. below n (fresh_slot v l ∷ c ∷ cs)) f
              ∙ below-append h.free (fresh_slot v l ∷ []) (c ∷ cs)
              ∙ both_true (below-fresh v l) (below-new v l.heap (c ∷ cs) r.below);
        },
      )

  -- What `push_bk` leaves: the nodes elsewhere, and the address behind the one that it takes.
  pub record Kept (l l' : ListBase T) (cs : List (Slot T)) : Type ℓ where
    pub others :
        (x : ℕ) → ltb x l.heap.free ≡ true → has_address x cs ≡ false → l'.heap.at x ≡ l.heap.at x
    pub free : l'.heap.free ≡ l.heap.free + 1

  new_node-other : (v : T) (h : Heap T) (x : ℕ) → ltb x h.free ≡ true → (new_node v h).at x ≡ h.at x
  unfolding new_node
  new_node-other v h x k = put_node-other h h.free x _ (ground (arith, k))

  new_node-free : (v : T) (h : Heap T) → (new_node v h).free ≡ h.free + 1
  unfolding new_node
  new_node-free v h = refl

  pub push_bk-empty :
      (v : T) (l : ListBase T)
      → Represents l []
      → (l' : ListBase T) × (push_bk v l ≡ ok l')
        × Represents l' (fresh_slot v l ∷ [])
        × Kept l l' []
  unfolding push_bk
  push_bk-empty v l r = (
    single v l,
    rw r.head refl,
    single-Represents v l r,
    record { others = λ x k m. new_node-other v l.heap x k; free = new_node-free v l.heap },
  )

  push_bk-last :
      (v : T) (l : ListBase T) (us : List (Slot T)) (c : Slot T)
      → Represents l (us ++ c ∷ [])
      → (l' : ListBase T) × (push_bk v l ≡ ok l')
        × Represents l' ((us ++ c ∷ []) ++ fresh_slot v l ∷ [])
        × Kept l l' (us ++ c ∷ [])
  unfolding push_bk
  push_bk-last v l us c r =
      let cs = us ++ c ∷ [] in
      let d = fresh_slot v l in
      let h = new_node v l.heap in
      let new = has_address-free l.heap.free cs r.below in
      let (absent_us, other_c) = absent_parts l.heap.free us c new in
      let (p, start) = first-some us c in
      let end : l.tail ≡ some c.address = r.tail ∙ last-append none us (c ∷ []) in
      let (h', e, f, k, g) =
        push_after-Linked h us c l.heap.free (record { value = v; next = none; prev = none })
          (new_node-Linked v l.heap none none cs r.below r.linked) r.distinct absent_us other_c
          (new_node-at v l.heap) in
      (
        record l { heap = h'; tail = some l.heap.free; size = l.size + 1 },
        rw (r.head, start, end, e) refl,
        record {
          linked = rw (append_assoc us (c ∷ []) (d ∷ [])) k;
          head =
              r.head
              ∙ first-append us [] (d ∷ []) c none none
              ∙ ap (λ x. first x none) (sym (append_assoc us (c ∷ []) (d ∷ [])));
          tail = sym (last-append none cs (d ∷ []));
          size = omega (arith, r.size, length-append cs (d ∷ []));
          distinct = distinct-insert cs [] d (rw (append-nil cs) r.distinct) new refl;
          below =
              ap (λ n. below n (cs ++ d ∷ [])) f
              ∙ below-append h.free cs (d ∷ [])
              ∙ both_true (below-new v l.heap cs r.below) (below-fresh v l);
        },
        record {
          others = λ x b m.
              g x (not_given x l.heap.free b) (absent_last x us c m) ∙ new_node-other v l.heap x b;
          free = f ∙ new_node-free v l.heap;
        },
      )

  pub push_bk-Kept :
      (v : T) (l : ListBase T) (cs : List (Slot T))
      → Represents l cs
      → (l' : ListBase T) × (push_bk v l ≡ ok l')
        × Represents l' (cs ++ fresh_slot v l ∷ [])
        × Kept l l' cs
  push_bk-Kept v l cs r = elim (snoc-cases cs) [
    | inl z ↦ rw z (push_bk-empty v l (rw z at r))
    | inr (us, c, z) ↦ rw z (push_bk-last v l us c (rw z at r))
  ]

  -- `push_bk` on a list object whose nodes are a sequence follows no null pointer and gives one
  -- whose nodes are the sequence with the new value behind it.
  pub push_bk-Represents :
      (v : T) (l : ListBase T) (cs : List (Slot T))
      → Represents l cs
      → (l' : ListBase T) × (push_bk v l ≡ ok l') × Represents l' (cs ++ fresh_slot v l ∷ [])
  push_bk-Represents v l cs r = let (l', e, r', _) = push_bk-Kept v l cs r in (l', e, r')
