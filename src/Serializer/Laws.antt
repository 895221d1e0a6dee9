-- ===== src/Serializer/Laws.antt =====
-- Laws of `Layout`.
use proyecto_estructura.Prelude.{◌≡◌, ◌↔◌, true, arith}
use proyecto_estructura.Parser.Compare.{bool_eq}
use proyecto_estructura.Serializer.Layout.{ColumnType, Layout, column_type_index, layout_eq}

type_eq : (t u : ColumnType) → column_type_index t ≡ column_type_index u → t ≡ u
type_eq t u h = ground arith

-- `operator==` of layouts, which counts the fields that agree, is equality.
pub layout_eq_exact : (a b : Layout) → (layout_eq a b ≡ true) ↔ (a ≡ b)
unfolding layout_eq bool_eq
layout_eq_exact a b = ground (arith, type_eq a.type b.type)
