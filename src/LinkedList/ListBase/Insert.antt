-- ===== src/LinkedList/ListBase/Insert.antt =====
-- A node put before or behind a node of a list.
use proyecto_estructura.Prelude.{
  ℕ, ◌≡◌, inl, inr, refl, ap, ◌∙◌, true, false, ◌==◌, none, some, List, [], ◌∷◌, ◌++◌, arith,
}
use proyecto_estructura.Outcome.{ok}
use proyecto_estructura.LinkedList.ListBase.{
  Pointer, Node, Heap, put_node, link_next, link_prev, push_before, push_after,
}
use proyecto_estructura.LinkedList.ListBase.Linked.{
  Slot, first, last, Linked, has_address, distinct, Linked-frame, Linked-append, Linked-split,
  last-append, has_address-append, apart, distinct-parts, snoc-cases,
}
use proyecto_estructura.LinkedList.ListBase.Splice.{
  put_node-same, put_node-other, set_next-some, after_heap, before_heap, push_after-heap,
  push_before-heap,
}

module _ {ℓ} {T : Type ℓ} where
  abbrev pub slot : ℕ → T → Slot T
  slot p v = record { address = p; value = v }

  after_heap-other :
      (node at x : ℕ) (a n : Node T) (q : Pointer) (h : Heap T)
      → (x == node) ≡ false
      → (x == at) ≡ false
      → (after_heap node at a n q h).at x ≡ h.at x
  after_heap-other node at x a n q h d e = ground arith

  before_heap-other :
      (node at x : ℕ) (a n : Node T) (q : Pointer) (h : Heap T)
      → (x == node) ≡ false
      → (x == at) ≡ false
      → (before_heap node at a n q h).at x ≡ h.at x
  before_heap-other node at x a n q h d e = ground arith

  after_heap-node :
      (node at : ℕ) (a n : Node T) (q : Pointer) (h : Heap T)
      → (at == node) ≡ false
      → (after_heap node at a n q h).at node ≡ some (record n { next = q; prev = some at })
  after_heap-node node at a n q h d = ground arith

  before_heap-node :
      (node at : ℕ) (a n : Node T) (q : Pointer) (h : Heap T)
      → (at == node) ≡ false
      → (before_heap node at a n q h).at node ≡ some (record n { next = some at; prev = q })
  before_heap-node node at a n q h d = ground arith

  after_heap-at :
      (node at : ℕ) (a n : Node T) (q : Pointer) (h : Heap T)
      → (after_heap node at a n q h).at at ≡ some (record a { next = some node })
  after_heap-at node at a n q h = ground arith

  before_heap-at :
      (node at : ℕ) (a n : Node T) (q : Pointer) (h : Heap T)
      → (before_heap node at a n q h).at at ≡ some (record a { prev = some node })
  before_heap-at node at a n q h = ground arith

  -- An address of `us` is another than those of `vs`.
  pub differs :
      (us vs : List (Slot T)) (c : Slot T) (x : ℕ)
      → distinct (us ++ c ∷ vs) ≡ true
      → has_address x us ≡ true
      → (x == c.address) ≡ false
  differs us vs c x h k = ground (arith, apart us (c ∷ vs) x h k)

  pub absent :
      (node x : ℕ) (cs : List (Slot T))
      → has_address node cs ≡ false
      → has_address x cs ≡ true
      → (x == node) ≡ false
  absent node x [] h k = ground arith
  absent node x (c ∷ cs) h k = ground (arith, absent node x cs)

  -- `push_after(node, tail)`
  pub push_after-Linked :
      (h : Heap T) (us : List (Slot T)) (c : Slot T) (node : ℕ) (n : Node T)
      → Linked h none (us ++ c ∷ []) none
      → distinct (us ++ c ∷ []) ≡ true
      → has_address node us ≡ false
      → (c.address == node) ≡ false
      → h.at node ≡ some n
      → (h' : Heap T) × (push_after node c.address h ≡ ok h')
        × (h'.free ≡ h.free)
        × Linked h' none (us ++ c ∷ slot node n.value ∷ []) none
        × ((x : ℕ) → (x == node) ≡ false → (x == c.address) ≡ false → h'.at x ≡ h.at x)
  unfolding link_prev
  push_after-Linked h us c node n l d f g e =
      let (lus, (lc, _)) = Linked-split h none none us (c ∷ []) l in
      let a : Node T = record { value = c.value; next = none; prev = last none us } in
      let h' = after_heap node c.address a n none h in
      let same : Linked h' none us (some c.address) =
        Linked-frame h h' none (some c.address) us
          (λ x k.
            after_heap-other node c.address x a n none h (absent node x us f k)
              (differs us [] c x d k))
          lus in
      (
        h',
        push_after-heap h h node c.address a a n g lc refl lc e,
        refl,
        Linked-append h' none none us (c ∷ slot node n.value ∷ []) same (
          after_heap-at node c.address a n none h,
          (after_heap-node node c.address a n none h g, tt),
        ),
        λ x k m. after_heap-other node c.address x a n none h k m,
      )

  -- the node of a slot between others
  abbrev node_at : List (Slot T) → Slot T → List (Slot T) → Node T
  node_at us c vs = record { value = c.value; next = first vs none; prev = last none us }

  -- The parts around a node that is put before another, in the heap that results.
  before-Linked :
      (h h1 : Heap T) (us vs : List (Slot T)) (c : Slot T) (node : ℕ) (n : Node T)
      → Linked h1 none us (some node)
      → ((x : ℕ) → has_address x vs ≡ true → h1.at x ≡ h.at x)
      → Linked h (some c.address) vs none
      → distinct (us ++ c ∷ vs) ≡ true
      → has_address node (us ++ c ∷ vs) ≡ false
      → Linked
          (before_heap node c.address (node_at us c vs) n (last none us) h1)
          none
          (us ++ slot node n.value ∷ c ∷ vs)
          none
  before-Linked h h1 us vs c node n lus f lvs d g =
      let b = node_at us c vs in
      let h' = before_heap node c.address b n b.prev h1 in
      let gs = has_address-append node us (c ∷ vs) in
      let gu : has_address node us ≡ false = ground arith in
      let gv : has_address node vs ≡ false = ground arith in
      let gc : (c.address == node) ≡ false = ground arith in
      let dv = distinct-parts us (c ∷ vs) d in
      let cv : has_address c.address vs ≡ false = ground arith in
      let us' : Linked h' none us (some node) =
        Linked-frame h1 h' none (some node) us
          (λ x k.
            before_heap-other node c.address x b n b.prev h1 (absent node x us gu k)
              (differs us vs c x d k))
          lus in
      let vs' : Linked h' (some c.address) vs none =
        Linked-frame h h' (some c.address) none vs
          (λ x k.
            before_heap-other node c.address x b n b.prev h1 (absent node x vs gv k)
              (absent c.address x vs cv k)
            ∙ f x k)
          lvs in
      Linked-append h' none none us (slot node n.value ∷ c ∷ vs) us' (
        before_heap-node node c.address b n b.prev h1 gc,
        (before_heap-at node c.address b n b.prev h1, vs'),
      )

  push_before-first :
      (h : Heap T) (vs : List (Slot T)) (c : Slot T) (node : ℕ) (n : Node T)
      → Linked h none (c ∷ vs) none
      → distinct (c ∷ vs) ≡ true
      → has_address node (c ∷ vs) ≡ false
      → h.at node ≡ some n
      → (h' : Heap T) × (push_before node c.address h ≡ ok h')
        × (h'.free ≡ h.free)
        × Linked h' none (slot node n.value ∷ c ∷ vs) none
  unfolding link_next
  push_before-first h vs c node n (lc, lvs) d g e =
      let b = node_at [] c vs in
      let gc : (c.address == node) ≡ false = ground arith in
      (
        before_heap node c.address b n none h,
        push_before-heap h h node c.address b b n gc lc refl lc e,
        refl,
        before-Linked h h [] vs c node n tt (λ x k. refl) lvs d g,
      )

  push_before-middle :
      (h : Heap T) (ws vs : List (Slot T)) (w c : Slot T) (node : ℕ) (n : Node T)
      → (let us = ws ++ w ∷ [] in
          Linked h none (us ++ c ∷ vs) none
          → distinct (us ++ c ∷ vs) ≡ true
          → has_address node (us ++ c ∷ vs) ≡ false
          → h.at node ≡ some n
          → (h' : Heap T) × (push_before node c.address h ≡ ok h')
            × (h'.free ≡ h.free)
            × Linked h' none (us ++ slot node n.value ∷ c ∷ vs) none)
  unfolding link_next
  push_before-middle h ws vs w c node n l d g e =
      let us = ws ++ w ∷ [] in
      let b = node_at us c vs in
      let (lus, (lc, lvs)) = Linked-split h none none us (c ∷ vs) l in
      let (lws, (lw, _)) = Linked-split h none (some c.address) ws (w ∷ []) lus in
      let gs = has_address-append node us (c ∷ vs) in
      let gw = has_address-append node ws (w ∷ []) in
      let mine = has_address-append w.address ws (w ∷ []) in
      let gc : (c.address == node) ≡ false = ground arith in
      let nw : (node == w.address) ≡ false = ground arith in
      let wu : has_address w.address us ≡ true = ground arith in
      let wv : has_address w.address (c ∷ vs) ≡ false = apart us (c ∷ vs) w.address d wu in
      let cw : (c.address == w.address) ≡ false = ground arith in
      let h1 =
        put_node w.address
          (some (record { value = w.value; next = some node; prev = last none ws })) h in
      let link : link_next h b.prev (some node) ≡ ok h1 =
        ap (λ p. link_next h p (some node)) (last-append none ws (w ∷ []))
        ∙ set_next-some h w.address (some node) _ lw in
      let dus = (distinct-parts us (c ∷ vs) d).0 in
      let lus' : Linked h1 none us (some node) =
        Linked-append h1 none (some node) ws (w ∷ [])
          (Linked-frame h h1 none (some w.address) ws
            (λ x k. put_node-other h w.address x _ (differs ws [] w x dus k)) lws)
          (put_node-same h w.address _, tt) in
      let others : (x : ℕ) → has_address x vs ≡ true → h1.at x ≡ h.at x =
        λ x k. put_node-other h w.address x _ (absent w.address x (c ∷ vs) wv (ground arith)) in
      (
        before_heap node c.address b n b.prev h1,
        push_before-heap h h1 node c.address b b n gc lc link
            (put_node-other h w.address c.address _ cw ∙ lc)
            (put_node-other h w.address node _ nw ∙ e),
        refl,
        before-Linked h h1 us vs c node n lus' others lvs d g,
      )

  -- `push_before(node, at)`
  pub push_before-Linked :
      (h : Heap T) (us vs : List (Slot T)) (c : Slot T) (node : ℕ) (n : Node T)
      → Linked h none (us ++ c ∷ vs) none
      → distinct (us ++ c ∷ vs) ≡ true
      → has_address node (us ++ c ∷ vs) ≡ false
      → h.at node ≡ some n
      → (h' : Heap T) × (push_before node c.address h ≡ ok h')
        × (h'.free ≡ h.free)
        × Linked h' none (us ++ slot node n.value ∷ c ∷ vs) none
  push_before-Linked h us vs c node n l d g e = elim (snoc-cases us) [
    | inl z ↦ rw z (push_before-first h vs c node n (rw z at l) (rw z at d) (rw z at g) e)
    | inr (ws, w, z) ↦
        rw z (push_before-middle h ws vs w c node n (rw z at l) (rw z at d) (rw z at g) e)
  ]
