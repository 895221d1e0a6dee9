-- ===== src/LinkedList/Cortina.antt =====
-- src/lib/linkedList.hpp: `Cortina`, a `KeyValueList` of lists.
use proyecto_estructura.Prelude.{none, some, List, [], ◌∷◌, ◌++◌, Eq}
use proyecto_estructura.LinkedList.KeyValueList.{KeyValueList, get, insert, overwrite}

abbrev pub Cortina {ℓ} : Type ℓ → Type ℓ → Type ℓ
Cortina K V = KeyValueList K (List V)

module _ {ℓ} {K V : Type ℓ} ⦃eq : Eq K⦄ where
  -- `append`, and `insert` and `insert_append`, which have the same text: `list` points into the
  -- first node with the key
  unfoldable pub append_value : K → V → Cortina K V → Cortina K V
  append_value k v l = elim (get k l) [
    | none ↦ (insert k (v ∷ []) l).0
    | some vs ↦ overwrite k (vs ++ v ∷ []) l
  ]
