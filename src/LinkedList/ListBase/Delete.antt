-- ===== src/LinkedList/ListBase/Delete.antt =====
-- `delete_node` on the sequence of nodes.
use mathlib.Core.Path.{subst}
use mathlib.Core.List.{append-nil}
use proyecto_estructura.Prelude.{
  ℕ, ◌-◌, ◌≡◌, inl, inr, refl, sym, ap, ◌∙◌, true, false, if◌then◌else◌, none, some, List, [], ◌∷◌,
  ◌++◌, arith, length-append,
}
use proyecto_estructura.Outcome.{ok}
use proyecto_estructura.LinkedList.ListBase.{
  Pointer, Node, Heap, ListBase, put_node, link_next, link_prev, is_pointer, delete_node, delete_at,
  pop_back, pop_front,
}
use proyecto_estructura.LinkedList.ListBase.Linked.{
  Slot, first, last, Linked, has_address, distinct, below, Represents, Linked-frame, Linked-append,
  Linked-split, last-append, has_address-append, below-append, apart, distinct-parts, snoc-cases,
}
use proyecto_estructura.LinkedList.ListBase.Splice.{
  put_node-same, put_node-other, follow-some, set_next-some, set_prev-some,
}
use proyecto_estructura.LinkedList.ListBase.Insert.{differs, absent}

module _ {ℓ} {T : Type ℓ} where
  -- `node->prev->next = q`, where `us` ends with `node->prev`
  link_next-Linked :
      (h : Heap T) (us : List (Slot T)) (q q' : Pointer)
      → distinct us ≡ true
      → Linked h none us q
      → (h' : Heap T) × (link_next h (last none us) q' ≡ ok h')
        × (h'.free ≡ h.free)
        × Linked h' none us q'
        × ((x : ℕ) → has_address x us ≡ false → h'.at x ≡ h.at x)
  unfolding link_next
  link_next-Linked h us q q' d l = elim (snoc-cases us) [
    | inl z ↦ rw z (h, refl, refl, tt, λ x k. refl)
    | inr (ws, w, z) ↦ rw z (tail_next ws w (rw z at d) (rw z at l))
  ]
    where
      tail_next :
          (ws : List (Slot T)) (w : Slot T)
          → distinct (ws ++ w ∷ []) ≡ true
          → Linked h none (ws ++ w ∷ []) q
          → (h' : Heap T) × (link_next h (last none (ws ++ w ∷ [])) q' ≡ ok h')
            × (h'.free ≡ h.free)
            × Linked h' none (ws ++ w ∷ []) q'
            × ((x : ℕ) → has_address x (ws ++ w ∷ []) ≡ false → h'.at x ≡ h.at x)
      tail_next ws w d l =
          let (lws, (lw, _)) = Linked-split h none q ws (w ∷ []) l in
          let n : Node T = record { value = w.value; next = q'; prev = last none ws } in
          let h' = put_node w.address (some n) h in
          (
            h',
            ap (λ p. link_next h p q') (last-append none ws (w ∷ []))
                ∙ set_next-some h w.address q' _ lw,
            refl,
            Linked-append h' none q' ws (w ∷ [])
                (Linked-frame h h' none (some w.address) ws
                  (λ x k. put_node-other h w.address x _ (differs ws [] w x d k)) lws)
                (put_node-same h w.address _, tt),
            λ x k.
                put_node-other h w.address x _ (ground (arith, has_address-append x ws (w ∷ []))),
          )

  -- `node->next->prev = p`, where `vs` begins with `node->next`
  link_prev-Linked :
      (h : Heap T) (vs : List (Slot T)) (p p' : Pointer)
      → distinct vs ≡ true
      → Linked h p vs none
      → (h' : Heap T) × (link_prev h (first vs none) p' ≡ ok h')
        × (h'.free ≡ h.free)
        × Linked h' p' vs none
        × ((x : ℕ) → has_address x vs ≡ false → h'.at x ≡ h.at x)
  unfolding link_prev
  link_prev-Linked h [] p p' d l = (h, refl, refl, tt, λ x k. refl)
  link_prev-Linked h (v ∷ vs) p p' d (lv, lvs) =
      let n : Node T = record { value = v.value; next = first vs none; prev = p' } in
      let h' = put_node v.address (some n) h in
      (
        h',
        set_prev-some h v.address p' _ lv,
        refl,
        (
          put_node-same h v.address _,
          Linked-frame h h' (some v.address) none vs
              (λ x k. put_node-other h v.address x _ (absent v.address x vs (ground (arith, d)) k))
              lvs,
        ),
        λ x k. put_node-other h v.address x _ (ground arith),
      )

  distinct-delete :
      (us vs : List (Slot T)) (c : Slot T)
      → distinct (us ++ c ∷ vs) ≡ true
      → distinct (us ++ vs) ≡ true
  distinct-delete [] vs c h = ground arith
  distinct-delete (u ∷ us) vs c h = ground (
    arith,
    distinct-delete us vs c,
    has_address-append u.address us (c ∷ vs),
    has_address-append u.address us vs,
  )

  below-delete :
      (n : ℕ) (us vs : List (Slot T)) (c : Slot T)
      → below n (us ++ c ∷ vs) ≡ true
      → below n (us ++ vs) ≡ true
  below-delete n us vs c h = ground (arith, below-append n us (c ∷ vs), below-append n us vs)

  not_before :
      (us vs : List (Slot T)) (c : Slot T)
      → distinct (us ++ c ∷ vs) ≡ true
      → has_address c.address us ≡ false
  not_before us vs c h = ground (arith, apart us (c ∷ vs) c.address h)

  behind :
      (us vs : List (Slot T)) (c : Slot T) (x : ℕ)
      → distinct (us ++ c ∷ vs) ≡ true
      → has_address x vs ≡ true
      → has_address x us ≡ false
  behind us vs c x h k = ground (arith, apart us (c ∷ vs) x h)

  before :
      (us vs : List (Slot T)) (c : Slot T) (x : ℕ)
      → distinct (us ++ c ∷ vs) ≡ true
      → has_address x us ≡ true
      → has_address x vs ≡ false
  before us vs c x h k = ground (arith, apart us (c ∷ vs) x h k)

  head-delete :
      (us vs : List (Slot T)) (c : Slot T)
      → has_address c.address us ≡ false
      → (let p = first (us ++ c ∷ vs) none in if is_pointer c.address p then first vs none else p)
        ≡ first (us ++ vs) none
  head-delete [] vs c h = ground arith
  head-delete (u ∷ us) vs c h = ground arith

  last-apart :
      (p : Pointer) (v : Slot T) (vs : List (Slot T)) (a : ℕ)
      → has_address a (v ∷ vs) ≡ false
      → is_pointer a (last p (v ∷ vs)) ≡ false
  last-apart p v [] a h = ground arith
  last-apart p v (w ∷ vs) a h = last-apart (some v.address) w vs a (ground arith)

  tail-delete :
      (us vs : List (Slot T)) (c : Slot T)
      → has_address c.address vs ≡ false
      → (let p = last (some c.address) vs in if is_pointer c.address p then last none us else p)
        ≡ last (last none us) vs
  tail-delete us [] c h = ground arith
  tail-delete us (v ∷ vs) c h = ground (arith, last-apart (some c.address) v vs c.address h)

  -- `delete_node` on a node of a sequence follows no null pointer, frees the node and gives a list
  -- object whose nodes are the others in their order.
  pub delete_node-Represents :
      (l : ListBase T) (us vs : List (Slot T)) (c : Slot T)
      → Represents l (us ++ c ∷ vs)
      → (l' : ListBase T) × (delete_node c.address l ≡ ok l')
        × Represents l' (us ++ vs)
        × (l'.heap.at c.address ≡ none)
  unfolding delete_node
  delete_node-Represents l us vs c r =
      let h = l.heap in
      let (dus, dcv) = distinct-parts us (c ∷ vs) r.distinct in
      let (lus, (lc, lvs)) = Linked-split h none none us (c ∷ vs) r.linked in
      let n : Node T = record { value = c.value; next = first vs none; prev = last none us } in
      let (h1, e1, f1, lus1, g1) = link_next-Linked h us (some c.address) (first vs none) dus lus in
      let cu = not_before us vs c r.distinct in
      let cv : has_address c.address vs ≡ false = ground (arith, dcv) in
      let dvs : distinct vs ≡ true = ground (arith, dcv) in
      let lc1 = g1 c.address cu ∙ lc in
      let lvs1 =
        Linked-frame h h1 (some c.address) none vs (λ x k. g1 x (behind us vs c x r.distinct k))
          lvs in
      let (h2, e2, f2, lvs2, g2) =
        link_prev-Linked h1 vs (some c.address) (last none us) dvs lvs1 in
      let h3 = put_node c.address none h2 in
      let lus3 =
        Linked-frame h1 h3 none (first vs none) us
          (λ x k.
            put_node-other h2 c.address x none (absent c.address x us cu k)
            ∙ g2 x (before us vs c x r.distinct k))
          lus1 in
      let lvs3 =
        Linked-frame h2 h3 (last none us) none vs
          (λ x k. put_node-other h2 c.address x none (absent c.address x vs cv k)) lvs2 in
      let l' : ListBase T = record {
        heap = h3;
        head = if is_pointer c.address l.head then first vs none else l.head;
        tail = if is_pointer c.address l.tail then last none us else l.tail;
        size = l.size - 1;
      } in
      (
        l',
        rw (follow-some h c.address n lc, e1, follow-some h1 c.address n lc1, e2) refl,
        record {
          linked = Linked-append h3 none none us vs lus3 lvs3;
          head =
              ap (λ p. if is_pointer c.address p then first vs none else p) r.head
              ∙ head-delete us vs c cu;
          tail =
              ap (λ p. if is_pointer c.address p then last none us else p)
                (r.tail ∙ last-append none us (c ∷ vs))
              ∙ tail-delete us vs c cv
              ∙ sym (last-append none us vs);
          size = omega (arith, r.size, length-append us (c ∷ vs), length-append us vs);
          distinct = distinct-delete us vs c r.distinct;
          below = ap (λ n. below n (us ++ vs)) (f2 ∙ f1) ∙ below-delete h.free us vs c r.below;
        },
        put_node-same h2 c.address none,
      )

  -- `pop_back` and `pop_front` both delete the last node of a sequence that has one.
  pub pop-Represents :
      (l : ListBase T) (us : List (Slot T)) (c : Slot T)
      → Represents l (us ++ c ∷ [])
      → (l' : ListBase T) × (pop_back l ≡ ok l') × (pop_front l ≡ ok l') × Represents l' us
  unfolding pop_back pop_front delete_at
  pop-Represents l us c r =
      let (l', e, r', _) = delete_node-Represents l us [] c r in
      let end = r.tail ∙ last-append none us (c ∷ []) in
      let pops = ap (λ p. delete_at p l) end ∙ e in
      (l', pops, pops, subst (Represents l') (append-nil us) r')
