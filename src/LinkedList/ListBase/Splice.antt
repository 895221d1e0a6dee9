-- ===== src/LinkedList/ListBase/Splice.antt =====
-- What the pointer assignments of `push_before`, `push_after` and `delete_node` do to the heap.
use proyecto_estructura.Prelude.{ℕ, ◌≡◌, refl, ◌∙◌, false, ◌==◌, some, Option, arith}
use proyecto_estructura.Outcome.{ok}
use proyecto_estructura.LinkedList.ListBase.{
  Pointer, Node, Heap, follow, put_node, set_next, set_prev, link_next, link_prev, push_before,
  push_after,
}

module _ {ℓ} {T : Type ℓ} where
  pub put_node-same : (h : Heap T) (p : ℕ) (n : Option (Node T)) → (put_node p n h).at p ≡ n
  put_node-same h p n = ground arith

  pub put_node-other :
      (h : Heap T) (p x : ℕ) (n : Option (Node T))
      → (x == p) ≡ false
      → (put_node p n h).at x ≡ h.at x
  put_node-other h p x n d = ground arith

  pub follow-some : (h : Heap T) (p : ℕ) (n : Node T) → h.at p ≡ some n → follow h (some p) ≡ ok n
  unfolding follow
  follow-some h p n e = rw e refl

  pub set_next-some :
      (h : Heap T) (p : ℕ) (q : Pointer) (n : Node T)
      → h.at p ≡ some n
      → set_next h p q ≡ ok (put_node p (some (record n { next = q })) h)
  unfolding set_next
  set_next-some h p q n e = rw (follow-some h p n e) refl

  pub set_prev-some :
      (h : Heap T) (p : ℕ) (q : Pointer) (n : Node T)
      → h.at p ≡ some n
      → set_prev h p q ≡ ok (put_node p (some (record n { prev = q })) h)
  unfolding set_prev
  set_prev-some h p q n e = rw (follow-some h p n e) refl

  -- `push_after` on the heap that its first assignment leaves
  abbrev pub after_heap : ℕ → ℕ → Node T → Node T → Pointer → Heap T → Heap T
  after_heap node at a n q h = put_node at (some (record a { next = some node })) (
      put_node node (some (record n { next = q; prev = some at }))
        (put_node node (some (record n { next = q })) h))

  abbrev pub before_heap : ℕ → ℕ → Node T → Node T → Pointer → Heap T → Heap T
  before_heap node at a n q h = put_node at (some (record a { prev = some node })) (
      put_node node (some (record n { next = some at; prev = q }))
        (put_node node (some (record n { prev = q })) h))

  pub push_after-heap :
      (h h1 : Heap T) (node at : ℕ) (a b n : Node T)
      → (at == node) ≡ false
      → h.at at ≡ some a
      → link_prev h a.next (some node) ≡ ok h1
      → h1.at at ≡ some b
      → h1.at node ≡ some n
      → push_after node at h ≡ ok (after_heap node at b n b.next h1)
  unfolding push_after
  push_after-heap h h1 node at a b n d e l e1 f =
      let n' : Node T = record n { next = b.next } in
      let h2 = put_node node (some n') h1 in
      let h3 = put_node node (some (record n' { prev = some at })) h2 in
      rw
        (
          follow-some h at a e,
          l,
          follow-some h1 at b e1,
          set_next-some h1 node b.next n f,
          set_prev-some h2 node (some at) n' (put_node-same h1 node (some n')),
        )
        (set_next-some h3 at (some node) b
          (put_node-other h2 node at _ d ∙ put_node-other h1 node at _ d ∙ e1))

  pub push_before-heap :
      (h h1 : Heap T) (node at : ℕ) (a b n : Node T)
      → (at == node) ≡ false
      → h.at at ≡ some a
      → link_next h a.prev (some node) ≡ ok h1
      → h1.at at ≡ some b
      → h1.at node ≡ some n
      → push_before node at h ≡ ok (before_heap node at b n b.prev h1)
  unfolding push_before
  push_before-heap h h1 node at a b n d e l e1 f =
      let n' : Node T = record n { prev = b.prev } in
      let h2 = put_node node (some n') h1 in
      let h3 = put_node node (some (record n' { next = some at })) h2 in
      rw
        (
          follow-some h at a e,
          l,
          follow-some h1 at b e1,
          set_prev-some h1 node b.prev n f,
          set_next-some h2 node (some at) n' (put_node-same h1 node (some n')),
        )
        (set_prev-some h3 at (some node) b
          (put_node-other h2 node at _ d ∙ put_node-other h1 node at _ d ∙ e1))
