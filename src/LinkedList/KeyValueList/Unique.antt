-- ===== src/LinkedList/KeyValueList/Unique.antt =====
-- No key stands twice in a `KeyValueList`, and what that gives the deletion of a key.
use proyecto_estructura.Prelude.{
  ◌≡◌, refl, Bool, true, none, some, [], ◌∷◌, ◌++◌, Eq, if◌then◌else◌, arith, not, is_some, ◌&&◌,
  Option-cases, inl, inr,
}
use proyecto_estructura.LinkedList.KeyValueList.{
  KeyValueList, pair, push_back, get, overwrite, delete_key, insert_update, update, insert,
}
use proyecto_estructura.LinkedList.KeyValueList.Laws.{get-append, get-overwrite}

module _ {ℓ} {K V : Type ℓ} ⦃eq : Eq K⦄ where
  unfoldable pub is_unique : KeyValueList K V → Bool
  unfolding get
  is_unique [] = true
  is_unique (e ∷ l) = not (is_some (get e.key l)) && is_unique l

  is_unique-append :
      (k : K) (v : V) (l : KeyValueList K V)
      → get k l ≡ none
      → is_unique l ≡ true
      → is_unique (l ++ pair k v ∷ []) ≡ true
  unfolding is_unique get
  is_unique-append k v [] g h = ground arith
  is_unique-append k v (e ∷ l) g h = ground (
    arith,
    is_unique-append k v l,
    get-append e.key l (pair k v ∷ []),
    eq.beq_iff e.key k,
    eq.beq_iff k e.key,
  )

  is_some-overwrite :
      (j k : K) (v : V) (l : KeyValueList K V)
      → is_some (get j (overwrite k v l)) ≡ is_some (get j l)
  unfolding get overwrite
  is_some-overwrite j k v [] = refl
  is_some-overwrite j k v (e ∷ l) = ground (arith, is_some-overwrite j k v l)

  pub is_unique-overwrite :
      (k : K) (v : V) (l : KeyValueList K V)
      → is_unique l ≡ true
      → is_unique (overwrite k v l) ≡ true
  unfolding is_unique overwrite
  is_unique-overwrite k v [] h = refl
  is_unique-overwrite k v (e ∷ l) h =
      ground (arith, is_unique-overwrite k v l, is_some-overwrite e.key k v l)

  get-delete_key :
      (k j : K) (l : KeyValueList K V)
      → is_unique l ≡ true
      → get j (delete_key k l).0 ≡ (if eq.beq k j then none else get j l)
  unfolding get delete_key is_unique
  get-delete_key k j [] h = ground arith
  get-delete_key k j (e ∷ l) h =
      ground (arith, get-delete_key k j l, eq.beq_iff k j, eq.beq_iff e.key j, eq.beq_iff e.key k)

  is_unique-delete_key :
      (k : K) (l : KeyValueList K V) → is_unique l ≡ true → is_unique (delete_key k l).0 ≡ true
  unfolding is_unique delete_key
  is_unique-delete_key k [] h = refl
  is_unique-delete_key k (e ∷ l) h =
      ground (arith, is_unique-delete_key k l, get-delete_key k e.key l)

  -- `insert`, `insert_update`, `update` and `delete_key` keep the keys of a list distinct.
  pub operations_keep_unique :
      (k : K) (v : V) (l : KeyValueList K V)
      → is_unique l ≡ true
      → (is_unique (insert k v l).0 ≡ true)
        × (is_unique (insert_update k v l).0 ≡ true)
        × (is_unique (update k v l).0 ≡ true)
        × (is_unique (delete_key k l).0 ≡ true)
  unfolding insert insert_update update push_back
  operations_keep_unique k v l h = (
    ground (arith, is_unique-append k v l),
    ground (arith, is_unique-append k v l, is_unique-overwrite k v l),
    ground (arith, is_unique-overwrite k v l),
    is_unique-delete_key k l h,
  )

  deleted-get : (k : K) (l : KeyValueList K V) → (delete_key k l).1 ≡ is_some (get k l)
  unfolding delete_key get
  deleted-get k [] = refl
  deleted-get k (e ∷ l) = ground (arith, deleted-get k l)

  -- In a list of distinct keys `delete_key` takes away the value of its key and of no other, and
  -- reports whether there was one.
  pub delete_key_lem :
      (k j : K) (l : KeyValueList K V)
      → is_unique l ≡ true
      → (get j (delete_key k l).0 ≡ (if eq.beq k j then none else get j l))
        × ((delete_key k l).1 ≡ is_some (get k l))
  delete_key_lem k j l h = (get-delete_key k j l h, deleted-get k l)

  -- `update` sets the value of its key if there is one, of no other key, and reports whether it did.
  pub get-update :
      (k j : K) (v : V) (l : KeyValueList K V)
      → (get j (update k v l).0
          ≡ (if eq.beq k j then elim (get k l) [ none ↦ none | some w ↦ some v ] else get j l))
        × ((update k v l).1 ≡ is_some (get k l))
  unfolding update
  get-update k j v l = elim (Option-cases (get k l)) [
    | inl e ↦ (ground (arith, eq.beq_iff k j), ground arith)
    | inr (w, e) ↦ (ground (arith, get-overwrite k j v w l e), ground arith)
  ]
