-- ===== src/LinkedList/ListBase.antt =====
-- src/lib/linkedList.hpp: `Node`, `ListBase` and `List` on an explicit heap. A pointer is none when
-- it is null. Following a null pointer or one to a node that was deleted is undefined behaviour.
pub mod Linked
pub mod Splice
pub mod Insert
pub mod Push
pub mod Delete
pub mod Walk
pub mod Order
pub mod Sorted
pub mod Destroy
pub mod Copy
use proyecto_estructura.Prelude.{
  ℕ, zero, suc, ◌+◌, ◌-◌, ◌==◌, leb, ltb, if◌then◌else◌, Bool, true, false, Option, none, some,
}
use proyecto_estructura.Outcome.{Outcome, ok, thrown, ◌>>=◌, deref, undefined_behaviour, diverges}

abbrev pub Pointer : Type 0
Pointer = Option ℕ

pub record Node {ℓ} (T : Type ℓ) : Type ℓ where
  pub value : T
  pub next : Pointer
  pub prev : Pointer

-- The nodes by their addresses. `new` gives the address `free` and those behind it.
pub record Heap {ℓ} (T : Type ℓ) : Type ℓ where
  pub at : ℕ → Option (Node T)
  pub free : ℕ

pub record ListBase {ℓ} (T : Type ℓ) : Type ℓ where
  pub heap : Heap T
  pub head : Pointer
  pub tail : Pointer
  pub size : ℕ

-- `p == q` on pointers, when `p` is not null
abbrev pub is_pointer : ℕ → Pointer → Bool
is_pointer p none = false
is_pointer p (some q) = p == q

module _ {ℓ} {T : Type ℓ} where
  -- `*p`
  unfoldable pub follow : Heap T → Pointer → Outcome (Node T)
  follow h none = thrown undefined_behaviour
  follow h (some p) = deref (h.at p)

  abbrev pub put_node : ℕ → Option (Node T) → Heap T → Heap T
  put_node p n h = record h { at = λ q. if q == p then n else h.at q }

  -- `p->next = q` and `p->prev = q`
  unfoldable pub set_next : Heap T → ℕ → Pointer → Outcome (Heap T)
  set_next h p q = do n ← follow h (some p); ok (put_node p (some (record n { next = q })) h)

  unfoldable pub set_prev : Heap T → ℕ → Pointer → Outcome (Heap T)
  set_prev h p q = do n ← follow h (some p); ok (put_node p (some (record n { prev = q })) h)

  -- `if (p != nullptr) p->next = q;` and the same for `prev`
  unfoldable pub link_next : Heap T → Pointer → Pointer → Outcome (Heap T)
  link_next h none q = ok h
  link_next h (some p) q = set_next h p q

  unfoldable pub link_prev : Heap T → Pointer → Pointer → Outcome (Heap T)
  link_prev h none q = ok h
  link_prev h (some p) q = set_prev h p q

  -- `new Node<T>(value)`
  unfoldable pub new_node : T → Heap T → Heap T
  new_node v h =
      record (put_node h.free (some (record { value = v; next = none; prev = none })) h) {
        free = h.free + 1;
      }

  unfoldable pub push_before : ℕ → ℕ → Heap T → Outcome (Heap T)
  push_before node at h = do
    a ← follow h (some at)
    h1 ← link_next h a.prev (some node)
    b ← follow h1 (some at)
    h2 ← set_prev h1 node b.prev
    h3 ← set_next h2 node (some at)
    set_prev h3 at (some node)

  unfoldable pub push_after : ℕ → ℕ → Heap T → Outcome (Heap T)
  push_after node at h = do
    a ← follow h (some at)
    h1 ← link_prev h a.next (some node)
    b ← follow h1 (some at)
    h2 ← set_next h1 node b.next
    h3 ← set_prev h2 node (some at)
    set_next h3 at (some node)

  -- `push_before(node, p)` and `push_after(node, p)` follow `p`
  unfoldable pub push_ft : T → ListBase T → Outcome (ListBase T)
  push_ft v l =
      let node = l.heap.free in
      let h = new_node v l.heap in
      elim l.head [
        | none ↦ ok (record { heap = h; head = some node; tail = some node; size = l.size + 1 })
        | some p ↦ (do
          h' ← push_before node p h
          ok (record l { heap = h'; head = some node; size = l.size + 1 }))
      ]

  -- `push_after(node, tail); tail = node;` and the `size++` behind it
  unfoldable pub join_tail : ℕ → Heap T → ListBase T → Outcome (ListBase T)
  join_tail node h l = elim l.tail [
    | none ↦ thrown undefined_behaviour
    | some q ↦ (do
      h' ← push_after node q h
      ok (record l { heap = h'; tail = some node; size = l.size + 1 }))
  ]

  -- `push_before(node, current); if (current == head) head = node; size++;`
  unfoldable pub join_before : ℕ → ℕ → Heap T → ListBase T → Outcome (ListBase T)
  join_before node current h l = do
    h' ← push_before node current h
    ok (record l {
      heap = h';
      head = if is_pointer current l.head then some node else l.head;
      size = l.size + 1;
    })

  unfoldable pub push_bk : T → ListBase T → Outcome (ListBase T)
  unfolding join_tail
  push_bk v l =
      let node = l.heap.free in
      let h = new_node v l.heap in
      elim l.head [
        | none ↦ ok (record { heap = h; head = some node; tail = some node; size = l.size + 1 })
        | some p ↦ join_tail node h l
      ]

  -- `while (current != nullptr) { next_current = current->next; push_bk(current->value); ... }`
  unfoldable pub copy_nodes : ℕ → Pointer → ListBase T → Outcome (ListBase T)
  unfolding push_bk
  copy_nodes rounds none l = ok l
  copy_nodes zero (some p) l = thrown diverges
  copy_nodes (suc rounds) (some p) l = do
    n ← follow l.heap (some p)
    l' ← push_bk n.value l
    copy_nodes rounds n.next l'

  -- `ListBase(const ListBase &other)`: the copy, whose heap still has the nodes of `other`
  unfoldable pub copy_list : ListBase T → Outcome (ListBase T)
  unfolding copy_nodes
  copy_list other =
      copy_nodes other.size other.head
        (record { heap = other.heap; head = none; tail = none; size = 0 })

  unfoldable pub delete_node : ℕ → ListBase T → Outcome (ListBase T)
  delete_node p l = do
    n ← follow l.heap (some p)
    h1 ← link_next l.heap n.prev n.next
    m ← follow h1 (some p)
    h2 ← link_prev h1 m.next m.prev
    ok (record {
      heap = put_node p none h2;
      head = if is_pointer p l.head then n.next else l.head;
      tail = if is_pointer p l.tail then n.prev else l.tail;
      size = l.size - 1;
    })

  -- `delete_node` of a pointer, which it follows
  unfoldable pub delete_at : Pointer → ListBase T → Outcome (ListBase T)
  delete_at none l = thrown undefined_behaviour
  delete_at (some p) l = delete_node p l

  unfoldable pub pop_back : ListBase T → Outcome (ListBase T)
  pop_back l = delete_at l.tail l

  unfoldable pub pop_front : ListBase T → Outcome (ListBase T)
  pop_front l = delete_at l.tail l

  -- `for (size_t i = 0; i < index; i++) current = current->next;`
  unfoldable pub advance : ℕ → Heap T → Pointer → Outcome Pointer
  advance zero h p = ok p
  advance (suc i) h p = do n ← follow h p; advance i h n.next

  -- `List::get`
  unfoldable pub get_node : ℕ → ListBase T → Outcome Pointer
  get_node i l = if leb l.size i then ok none else advance i l.heap l.head

  -- `while (current != nullptr) { next_current = current->next; delete current; ... }`
  unfoldable pub delete_nodes : ℕ → Heap T → Pointer → Outcome (Heap T)
  delete_nodes rounds h none = ok h
  delete_nodes zero h (some p) = thrown diverges
  delete_nodes (suc rounds) h (some p) = do
    n ← follow h (some p)
    delete_nodes rounds (put_node p none h) n.next

  -- `~ListBase`: the heap that is left
  unfoldable pub destroy : ListBase T → Outcome (Heap T)
  unfolding delete_nodes
  destroy l = if ltb 0 l.size then delete_nodes l.size l.heap l.head else ok l.heap

pub data Ord : Type 0 where
  asc des : Ord

-- `push_ord` with the operators of `V` and `get_value_from_node`
module _ {ℓ ℓ'} {T : Type ℓ} {V : Type ℓ'} (greater lesser : V → V → Bool) (key : T → V) where
  -- whether the new value stands before `w`
  unfoldable pub stands_before : Ord → T → T → Bool
  stands_before Ord.asc v w = greater (key w) (key v)
  stands_before Ord.des v w = lesser (key w) (key v)

  -- the loop over `current`, up to its first return
  unfoldable pub find_place : ℕ → Ord → T → Heap T → Pointer → Outcome Pointer
  unfolding stands_before
  find_place rounds ord v h none = ok none
  find_place zero ord v h (some p) = thrown diverges
  find_place (suc rounds) ord v h (some p) = do
    n ← follow h (some p)
    if stands_before ord v n.value then ok (some p) else find_place rounds ord v h n.next

  unfoldable pub join_at : ℕ → Heap T → ListBase T → Pointer → Outcome (ListBase T)
  unfolding join_tail join_before
  join_at node h l none = join_tail node h l
  join_at node h l (some current) = join_before node current h l

  unfoldable pub push_ord : T → Ord → ListBase T → Outcome (ListBase T)
  unfolding find_place join_at
  push_ord v ord l =
      let node = l.heap.free in
      let h = new_node v l.heap in
      elim l.head [
        | none ↦ ok (record { heap = h; head = some node; tail = some node; size = l.size + 1 })
        | some p ↦ (do place ← find_place l.size ord v h (some p); join_at node h l place)
      ]
