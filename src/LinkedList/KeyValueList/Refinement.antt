-- ===== src/LinkedList/KeyValueList/Refinement.antt =====
-- A `KeyValueList` as a partial function from keys to values, which forgets the order of the pairs.
use mathlib.Core.Path.{fun_ext}
use proyecto_estructura.Prelude.{◌≡◌, true, none, some, Option, Eq, if◌then◌else◌, arith}
use proyecto_estructura.LinkedList.KeyValueList.{
  KeyValueList, get, delete_key, insert_update, update, insert,
}
use proyecto_estructura.LinkedList.KeyValueList.Laws.{get-insert_update, get-insert}
use proyecto_estructura.LinkedList.KeyValueList.Unique.{is_unique, delete_key_lem, get-update}

module _ {ℓ} {K V : Type ℓ} ⦃eq : Eq K⦄ where
  abbrev pub view : KeyValueList K V → K → Option V
  view l k = get k l

  abbrev pub put : K → V → (K → Option V) → K → Option V
  put k v f j = if eq.beq k j then some v else f j

  abbrev pub remove : K → (K → Option V) → K → Option V
  remove k f j = if eq.beq k j then none else f j

  -- only if the key has no value
  abbrev pub put_new : K → V → (K → Option V) → K → Option V
  put_new k v f = elim (f k) [ none ↦ put k v f | some w ↦ f ]

  -- only if the key has a value
  abbrev pub replace : K → V → (K → Option V) → K → Option V
  replace k v f = elim (f k) [ none ↦ f | some w ↦ put k v f ]

  -- The list operations are those of a partial function: `insert_update` puts a value, `insert` only
  -- at a new key, `update` only at an old one, and `delete_key` removes it, in a list of distinct
  -- keys.
  pub operations_refine :
      (k : K) (v : V) (l : KeyValueList K V)
      → is_unique l ≡ true
      → (view (insert_update k v l).0 ≡ put k v (view l))
        × (view (insert k v l).0 ≡ put_new k v (view l))
        × (view (update k v l).0 ≡ replace k v (view l))
        × (view (delete_key k l).0 ≡ remove k (view l))
  operations_refine k v l h = (
    fun_ext λ j. (get-insert_update k j v l).0,
    fun_ext λ j. ground (arith, get-insert k j v l, eq.beq_iff k j),
    fun_ext λ j. ground (arith, (get-update k j v l).0, eq.beq_iff k j),
    fun_ext λ j. (delete_key_lem k j l h).0,
  )
