-- ===== src/Tests/Nodes.antt =====
-- A concrete list of nodes.
use proyecto_estructura.Prelude.{
  ℕ, zero, suc, Option, ◌≡◌, refl, none, some, List, [], ◌∷◌, Bool, true, false, ltb, arith,
}
use proyecto_estructura.Outcome.{ok}
use proyecto_estructura.LinkedList.ListBase.{
  Node, ListBase, Ord, stands_before, push_ord, Heap, destroy, copy_list, push_bk, delete_node,
  pop_back, pop_front, get_node,
}
use proyecto_estructura.LinkedList.ListBase.Linked.{Slot, Represents, has_address}
use proyecto_estructura.LinkedList.ListBase.Insert.{slot}
use proyecto_estructura.LinkedList.ListBase.Push.{push_bk-Represents}
use proyecto_estructura.LinkedList.ListBase.Delete.{delete_node-Represents, pop-Represents}
use proyecto_estructura.LinkedList.ListBase.Walk.{get_node-Represents}
use proyecto_estructura.LinkedList.ListBase.Order.{push_ord-Represents}
use proyecto_estructura.LinkedList.ListBase.Destroy.{destroy-Represents}
use proyecto_estructura.LinkedList.ListBase.Copy.{values, Apart, copy_list-Represents}
use proyecto_estructura.LinkedList.ListBase.Sorted.{is_sorted, Asymmetric, push_ord-is_sorted}

abbrev nodes : ℕ → Option (Node ℕ)
nodes zero = some (record { value = 7; next = some 1; prev = none })
nodes (suc zero) = some (record { value = 8; next = none; prev = some 0 })
nodes (suc (suc p)) = none

-- the nodes 7 and 8 at the addresses 0 and 1
abbrev two_nodes : ListBase ℕ
two_nodes = record {
  heap = record { at = nodes; free = 2 };
  head = some 0;
  tail = some 1;
  size = 2;
}

two_nodes-Represents : Represents two_nodes (slot 0 7 ∷ slot 1 8 ∷ [])
two_nodes-Represents = record {
  linked = (refl, (refl, tt));
  head = refl;
  tail = refl;
  size = refl;
  distinct = refl;
  below = refl;
}

push_bk-Represents_example :
    (l : ListBase ℕ) × (push_bk 9 two_nodes ≡ ok l)
    × Represents l (slot 0 7 ∷ slot 1 8 ∷ slot 2 9 ∷ [])
push_bk-Represents_example = push_bk-Represents 9 two_nodes _ two_nodes-Represents

delete_node-Represents_example :
    (l : ListBase ℕ) × (delete_node 0 two_nodes ≡ ok l)
    × Represents l (slot 1 8 ∷ [])
    × (l.heap.at 0 ≡ none)
delete_node-Represents_example =
    delete_node-Represents two_nodes [] (slot 1 8 ∷ []) (slot 0 7) two_nodes-Represents

pop-Represents_example :
    (l : ListBase ℕ) × (pop_back two_nodes ≡ ok l)
    × (pop_front two_nodes ≡ ok l)
    × Represents l (slot 0 7 ∷ [])
pop-Represents_example = pop-Represents two_nodes (slot 0 7 ∷ []) (slot 1 8) two_nodes-Represents

get_node-Represents_example : get_node 1 two_nodes ≡ ok (some 1)
get_node-Represents_example = get_node-Represents two_nodes _ 1 two_nodes-Represents

-- `>` on unsigned integers
abbrev above : ℕ → ℕ → Bool
above a b = ltb b a

push_ord-Represents_example :
    (l : ListBase ℕ) × (push_ord above ltb (λ n. n) 7 Ord.asc two_nodes ≡ ok l)
    × Represents l (slot 0 7 ∷ slot 2 7 ∷ slot 1 8 ∷ [])
unfolding stands_before
push_ord-Represents_example =
    push_ord-Represents above ltb (λ n. n) 7 Ord.asc two_nodes _ two_nodes-Represents

above-Asymmetric : Asymmetric above ltb (λ n. n) Ord.asc
unfolding stands_before
above-Asymmetric v w h = ground arith

two_nodes-is_sorted : is_sorted above ltb (λ n. n) Ord.asc (slot 0 7 ∷ slot 1 8 ∷ []) ≡ true
unfolding stands_before
two_nodes-is_sorted = refl

push_ord-is_sorted_example :
    (l : ListBase ℕ) × (push_ord above ltb (λ n. n) 7 Ord.asc two_nodes ≡ ok l)
    × Represents l (slot 0 7 ∷ slot 2 7 ∷ slot 1 8 ∷ [])
    × (is_sorted above ltb (λ n. n) Ord.asc (slot 0 7 ∷ slot 2 7 ∷ slot 1 8 ∷ []) ≡ true)
unfolding stands_before
push_ord-is_sorted_example =
    push_ord-is_sorted above ltb (λ n. n) 7 Ord.asc two_nodes _ above-Asymmetric
      two_nodes-Represents two_nodes-is_sorted

destroy-Represents_example :
    (h : Heap ℕ) × (destroy two_nodes ≡ ok h)
    × ((x : ℕ) → has_address {T = ℕ} x (slot 0 7 ∷ slot 1 8 ∷ []) ≡ true → h.at x ≡ none)
    × ((x : ℕ) → has_address {T = ℕ} x (slot 0 7 ∷ slot 1 8 ∷ []) ≡ false → h.at x ≡ nodes x)
destroy-Represents_example = destroy-Represents two_nodes _ two_nodes-Represents

copy_list-Represents_example :
    (l : ListBase ℕ) × (ds : List (Slot ℕ)) × (copy_list two_nodes ≡ ok l)
    × Represents l ds
    × (values ds ≡ 7 ∷ 8 ∷ [])
    × Apart (slot 0 7 ∷ slot 1 8 ∷ []) ds
    × Represents (record two_nodes { heap = l.heap }) (slot 0 7 ∷ slot 1 8 ∷ [])
copy_list-Represents_example = copy_list-Represents two_nodes _ two_nodes-Represents
