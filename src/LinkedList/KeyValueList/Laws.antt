-- ===== src/LinkedList/KeyValueList/Laws.antt =====
-- Laws of `KeyValueList`: what each operation does to the value of every key.
use proyecto_estructura.Prelude.{
  ◌≡◌, refl, none, some, [], ◌∷◌, ◌++◌, Eq, if◌then◌else◌, arith, not, is_some, Option-cases, inl,
  inr,
}
use proyecto_estructura.LinkedList.KeyValueList.{
  KeyValueList, pair, push_back, get, overwrite, insert_update, insert,
}

module _ {ℓ} {K V : Type ℓ} ⦃eq : Eq K⦄ where
  pub get-append :
      (k : K) (l m : KeyValueList K V)
      → get k (l ++ m) ≡ elim (get k l) [ none ↦ get k m | some v ↦ some v ]
  unfolding get
  get-append k [] m = refl
  get-append k (e ∷ l) m = ground (arith, get-append k l m)

  pub get-overwrite :
      (k j : K) (v w : V) (l : KeyValueList K V)
      → get k l ≡ some w
      → get j (overwrite k v l) ≡ (if eq.beq k j then some v else get j l)
  unfolding get overwrite
  get-overwrite k j v w [] h = ground arith
  get-overwrite k j v w (e ∷ l) h =
      ground
        (arith, get-overwrite k j v w l, eq.beq_iff e.key k, eq.beq_iff e.key j, eq.beq_iff k j)

  -- `insert_update` sets the value of its key and of no other, and reports whether the key is new.
  pub get-insert_update :
      (k j : K) (v : V) (l : KeyValueList K V)
      → (get j (insert_update k v l).0 ≡ (if eq.beq k j then some v else get j l))
        × ((insert_update k v l).1 ≡ not (is_some (get k l)))
  unfolding insert_update get push_back
  get-insert_update k j v l = elim (Option-cases (get k l)) [
    | inl e ↦
        rw (e, insert_update) (ground (arith, get-append j l (pair k v ∷ []), eq.beq_iff k j), refl)
    | inr (w, e) ↦ rw (e, insert_update) (get-overwrite k j v w l e, refl)
  ]

  -- `insert` keeps the value of a key that is there, and of every other key.
  pub get-insert :
      (k j : K) (v : V) (l : KeyValueList K V)
      → get j (insert k v l).0
        ≡ (if eq.beq k j then elim (get k l) [ none ↦ some v | some w ↦ some w ] else get j l)
  unfolding insert get push_back
  get-insert k j v l = ground (arith, get-append j l (pair k v ∷ []), eq.beq_iff k j)
