-- ===== src/LinkedList/ListBase/Copy.antt =====
-- The copy constructor of `ListBase` on the sequence of nodes.
use mathlib.Core.Path.{subst}
use mathlib.Core.Bool.{false≢true}
use mathlib.Core.List.{append_assoc, append-nil}
use proyecto_estructura.Prelude.{
  ℕ, zero, suc, ◌≤◌, ◌≡◌, refl, sym, ap, ◌∙◌, Bool, true, false, ◌==◌, ltb, none, some, List, [],
  ◌∷◌, ◌++◌, map, arith, length, Bool-cases, inl, inr,
}
use proyecto_estructura.Outcome.{ok}
use proyecto_estructura.LinkedList.ListBase.{Pointer, ListBase, copy_nodes, copy_list}
use proyecto_estructura.LinkedList.ListBase.Linked.{
  Slot, first, Linked, Linked-frame, has_address, has_address-append, below, below-suc, Represents,
}
use proyecto_estructura.LinkedList.ListBase.Splice.{follow-some}
use proyecto_estructura.LinkedList.ListBase.Push.{not_given, fresh_slot, Kept, push_bk-Kept}

new_absent : {a b : Bool} → a ≡ true → (b ≡ true → a ≡ false) → b ≡ false
new_absent {a} {b} h k = elim (Bool-cases b) [
  | inl e ↦ absurd (false≢true (sym (k e) ∙ h))
  | inr e ↦ e
]

module _ {ℓ} {T : Type ℓ} where
  abbrev pub values : List (Slot T) → List T
  values cs = map (λ c. c.value) cs

  -- no node stands in both
  abbrev pub Apart : List (Slot T) → List (Slot T) → Type 0
  Apart cs us = (x : ℕ) → has_address x cs ≡ true → has_address x us ≡ false

  address-below :
      (n x : ℕ) (cs : List (Slot T)) → below n cs ≡ true → has_address x cs ≡ true → ltb x n ≡ true
  address-below n x [] b h = ground arith
  address-below n x (c ∷ cs) b h = ground (arith, address-below n x cs)

  below_mono : (n m : ℕ) (cs : List (Slot T)) → n ≤ m → below n cs ≡ true → below m cs ≡ true
  below_mono n m [] h b = refl
  below_mono n m (c ∷ cs) h b = ground (arith, h, below_mono n m cs h)

  Apart-tail : (c : Slot T) (cs us : List (Slot T)) → Apart (c ∷ cs) us → Apart cs us
  Apart-tail c cs us a x h = a x (ground (arith, h))

  absent_behind :
      (x : ℕ) (us : List (Slot T)) (s : Slot T)
      → has_address x us ≡ false
      → (x == s.address) ≡ false
      → has_address x (us ++ s ∷ []) ≡ false
  absent_behind x us s h k = ground (arith, has_address-append x us (s ∷ []))

  -- What the loop has done when it has copied the nodes `cs` to `ds`, behind those of `us`.
  record Copied (l l' : ListBase T) (us cs ds : List (Slot T)) : Type ℓ where
    represents : Represents l' (us ++ ds)
    same : values ds ≡ values cs
    others :
        (x : ℕ) → ltb x l.heap.free ≡ true → has_address x us ≡ false → l'.heap.at x ≡ l.heap.at x
    fresh : (x : ℕ) → has_address x ds ≡ true → ltb x l.heap.free ≡ false
    grown : l.heap.free ≤ l'.heap.free

  none-Copied : (l : ListBase T) (us : List (Slot T)) → Represents l us → Copied l l us [] []
  none-Copied l us r = record {
    represents = subst (Represents l) (sym (append-nil us)) r;
    same = refl;
    others = λ x b k. refl;
    fresh = λ x k. ground arith;
    grown = omega arith;
  }

  one-Copied :
      (l l1 l' : ListBase T) (us cs ds : List (Slot T)) (c : Slot T)
      → Kept l l1 us
      → Copied l1 l' (us ++ fresh_slot c.value l ∷ []) cs ds
      → Copied l l' us (c ∷ cs) (fresh_slot c.value l ∷ ds)
  one-Copied l l1 l' us cs ds c k d =
      let s = fresh_slot c.value l in
      record {
        represents = subst (Represents l') (append_assoc us (s ∷ []) ds) d.represents;
        same = ap (◌∷◌ c.value) d.same;
        others = λ x b m.
            d.others x (ground (arith, k.free, b))
              (absent_behind x us s m (not_given x l.heap.free b))
            ∙ k.others x b m;
        fresh = λ x h. ground (arith, h, k.free, d.fresh x);
        grown = omega (arith, k.free, d.grown);
      }

  copy_nodes-Copied :
      (rounds : ℕ) (l : ListBase T) (p : Pointer) (us cs : List (Slot T))
      → length cs ≤ rounds
      → Represents l us
      → Linked l.heap p cs none
      → below l.heap.free cs ≡ true
      → Apart cs us
      → (l' : ListBase T) × (ds : List (Slot T)) × (copy_nodes rounds (first cs none) l ≡ ok l')
        × Copied l l' us cs ds
  unfolding copy_nodes
  copy_nodes-Copied zero l p us [] n r k b a = (l, [], refl, none-Copied l us r)
  copy_nodes-Copied (suc rounds) l p us [] n r k b a = (l, [], refl, none-Copied l us r)
  copy_nodes-Copied zero l p us (c ∷ cs) n r k b a = absurd (omega arith)
  copy_nodes-Copied (suc rounds) l p us (c ∷ cs) n r (k, ks) b a =
      let s = fresh_slot c.value l in
      let (l1, e, r1, kept) = push_bk-Kept c.value l us r in
      let bs : below l.heap.free cs ≡ true = ground (arith, b) in
      let old : (x : ℕ) → has_address x cs ≡ true → ltb x l.heap.free ≡ true =
        λ x h. address-below l.heap.free x cs bs h in
      let ks1 =
        Linked-frame l.heap l1.heap (some c.address) none cs
          (λ x h. kept.others x (old x h) (Apart-tail c cs us a x h)) ks in
      let bs1 = ap (λ m. below m cs) kept.free ∙ below-suc l.heap.free cs bs in
      let a1 : Apart cs (us ++ s ∷ []) = λ x h.
        absent_behind x us s (Apart-tail c cs us a x h) (not_given x l.heap.free (old x h)) in
      let (l', ds, e', d) =
        copy_nodes-Copied rounds l1 (some c.address) (us ++ s ∷ []) cs (omega arith) r1 ks1 bs1
          a1 in
      (
        l',
        s ∷ ds,
        rw (follow-some l.heap c.address _ k, e) e',
        one-Copied l l1 l' us cs ds c kept d,
      )

  -- The copy constructor on a list object whose nodes are a sequence ends and follows no null
  -- pointer; it gives a list object whose nodes are others, with the same values in the same order,
  -- and leaves those of the original as they are.
  pub copy_list-Represents :
      (other : ListBase T) (cs : List (Slot T))
      → Represents other cs
      → (l' : ListBase T) × (ds : List (Slot T)) × (copy_list other ≡ ok l')
        × Represents l' ds
        × (values ds ≡ values cs)
        × Apart cs ds
        × Represents (record other { heap = l'.heap }) cs
  unfolding copy_list
  copy_list-Represents other cs r =
      let start : ListBase T = record { heap = other.heap; head = none; tail = none; size = 0 } in
      let empty : Represents start [] = record {
        linked = tt;
        head = refl;
        tail = refl;
        size = refl;
        distinct = refl;
        below = refl;
      } in
      let (l', ds, e, d) =
        copy_nodes-Copied (length cs) start none [] cs (omega arith) empty r.linked r.below
          (λ x h. refl) in
      let old : (x : ℕ) → has_address x cs ≡ true → ltb x other.heap.free ≡ true =
        λ x h. address-below other.heap.free x cs r.below h in
      (
        l',
        ds,
        rw (r.size, r.head) e,
        d.represents,
        d.same,
        (λ x h. new_absent (old x h) (d.fresh x)),
        record {
          linked =
              Linked-frame other.heap l'.heap none none cs (λ x h. d.others x (old x h) refl)
                r.linked;
          head = r.head;
          tail = r.tail;
          size = r.size;
          distinct = r.distinct;
          below = below_mono other.heap.free l'.heap.free cs d.grown r.below;
        },
      )
