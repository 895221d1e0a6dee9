-- ===== src/LinkedList/ListBase/Linked.antt =====
-- When the nodes of a heap are a doubly linked list.
use proyecto_estructura.Prelude.{
  ℕ, ◌+◌, ◌≡◌, ◌⊎◌, inl, inr, refl, ap, ◌∙◌, Bool, true, false, not, ◌&&◌, ◌||◌, ◌==◌, ltb, none,
  some, List, [], ◌∷◌, ◌++◌, arith, length,
}
use proyecto_estructura.LinkedList.ListBase.{Pointer, Heap, ListBase}

-- A node by its address and its value.
pub record Slot {ℓ} (T : Type ℓ) : Type ℓ where
  pub address : ℕ
  pub value : T

module _ {ℓ} {T : Type ℓ} where
  -- the address that a list begins with, before `q`
  abbrev pub first : List (Slot T) → Pointer → Pointer
  first [] q = q
  first (c ∷ cs) q = some c.address

  -- the address that it ends with, behind `p`
  abbrev pub last : Pointer → List (Slot T) → Pointer
  last p [] = p
  last p (c ∷ cs) = last (some c.address) cs

  -- The slots are nodes that point at each other, the first back at `p` and the last on at `q`.
  abbrev pub Linked : Heap T → Pointer → List (Slot T) → Pointer → Type ℓ
  Linked h p [] q = Unit
  Linked h p (c ∷ cs) q =
      (h.at c.address ≡ some (record { value = c.value; next = first cs q; prev = p }))
      × Linked h (some c.address) cs q

  abbrev pub has_address : ℕ → List (Slot T) → Bool
  has_address a [] = false
  has_address a (c ∷ cs) = (a == c.address) || has_address a cs

  abbrev pub distinct : List (Slot T) → Bool
  distinct [] = true
  distinct (c ∷ cs) = not (has_address c.address cs) && distinct cs

  -- the addresses have been given by `new`
  abbrev pub below : ℕ → List (Slot T) → Bool
  below n [] = true
  below n (c ∷ cs) = ltb c.address n && below n cs

  -- The list object with its nodes is the sequence of slots.
  pub record Represents (l : ListBase T) (cs : List (Slot T)) : Type ℓ where
    pub linked : Linked l.heap none cs none
    pub head : l.head ≡ first cs none
    pub tail : l.tail ≡ last none cs
    pub size : l.size ≡ length cs
    pub distinct : distinct cs ≡ true
    pub below : below l.heap.free cs ≡ true

  -- What is elsewhere in the heap does not matter.
  pub Linked-frame :
      (h h' : Heap T) (p q : Pointer) (cs : List (Slot T))
      → ((a : ℕ) → has_address a cs ≡ true → h'.at a ≡ h.at a)
      → Linked h p cs q
      → Linked h' p cs q
  Linked-frame h h' p q [] f k = tt
  Linked-frame h h' p q (c ∷ cs) f (k, ks) = (
    f c.address (ground arith) ∙ k,
    Linked-frame h h' (some c.address) q cs (λ a e. f a (ground arith)) ks,
  )

  pub Linked-append :
      (h : Heap T) (p q : Pointer) (us vs : List (Slot T))
      → Linked h p us (first vs q)
      → Linked h (last p us) vs q
      → Linked h p (us ++ vs) q
  Linked-append h p q [] vs k m = m
  Linked-append h p q (c ∷ []) vs (k, ks) m = (k, m)
  Linked-append h p q (c ∷ d ∷ us) vs (k, ks) m =
      (k, Linked-append h (some c.address) q (d ∷ us) vs ks m)

  pub Linked-split :
      (h : Heap T) (p q : Pointer) (us vs : List (Slot T))
      → Linked h p (us ++ vs) q
      → Linked h p us (first vs q) × Linked h (last p us) vs q
  Linked-split h p q [] vs k = (tt, k)
  Linked-split h p q (c ∷ []) vs (k, ks) = ((k, tt), ks)
  Linked-split h p q (c ∷ d ∷ us) vs (k, ks) =
      let (l, r) = Linked-split h (some c.address) q (d ∷ us) vs ks in ((k, l), r)

  pub last-append : (p : Pointer) (us vs : List (Slot T)) → last p (us ++ vs) ≡ last (last p us) vs
  last-append p [] vs = refl
  last-append p (c ∷ us) vs = last-append (some c.address) us vs

  pub has_address-append :
      (a : ℕ) (us vs : List (Slot T))
      → has_address a (us ++ vs) ≡ (has_address a us || has_address a vs)
  has_address-append a [] vs = refl
  has_address-append a (c ∷ us) vs = ground (arith, has_address-append a us vs)

  pub below-append :
      (n : ℕ) (us vs : List (Slot T)) → below n (us ++ vs) ≡ (below n us && below n vs)
  below-append n [] vs = refl
  below-append n (c ∷ us) vs = ground (arith, below-append n us vs)

  -- an address that `new` has not given is in no list
  pub has_address-free : (n : ℕ) (cs : List (Slot T)) → below n cs ≡ true → has_address n cs ≡ false
  has_address-free n [] h = refl
  has_address-free n (c ∷ cs) h = ground (arith, has_address-free n cs)

  pub below-suc : (n : ℕ) (cs : List (Slot T)) → below n cs ≡ true → below (n + 1) cs ≡ true
  below-suc n [] h = refl
  below-suc n (c ∷ cs) h = ground (arith, below-suc n cs)

  -- no address stands in two parts of a list of distinct ones
  pub apart :
      (us vs : List (Slot T)) (a : ℕ)
      → distinct (us ++ vs) ≡ true
      → has_address a us ≡ true
      → has_address a vs ≡ false
  apart [] vs a h k = ground arith
  apart (c ∷ us) vs a h k = ground (arith, apart us vs a, has_address-append c.address us vs)

  pub distinct-parts :
      (us vs : List (Slot T))
      → distinct (us ++ vs) ≡ true
      → (distinct us ≡ true) × (distinct vs ≡ true)
  distinct-parts [] vs h = (refl, h)
  distinct-parts (c ∷ us) vs h =
      ground (arith, distinct-parts us vs, has_address-append c.address us vs)

  pub distinct-insert :
      (us vs : List (Slot T)) (c : Slot T)
      → distinct (us ++ vs) ≡ true
      → has_address c.address us ≡ false
      → has_address c.address vs ≡ false
      → distinct (us ++ c ∷ vs) ≡ true
  distinct-insert [] vs c h k m = ground arith
  distinct-insert (d ∷ us) vs c h k m = ground (
    arith,
    distinct-insert us vs c,
    has_address-append d.address us (c ∷ vs),
    has_address-append d.address us vs,
  )

  pub snoc-cases :
      (us : List (Slot T)) → (us ≡ []) ⊎ ((ws : List (Slot T)) × (d : Slot T) × (us ≡ ws ++ d ∷ []))
  snoc-cases [] = inl refl
  snoc-cases (c ∷ us) = elim (snoc-cases us) [
    | inl e ↦ inr ([], c, ap (◌∷◌ c) e)
    | inr (ws, d, e) ↦ inr (c ∷ ws, d, ap (◌∷◌ c) e)
  ]
