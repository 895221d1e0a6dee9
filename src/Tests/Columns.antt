-- ===== src/Tests/Columns.antt =====
-- Concrete lists of columns, cells, rows and column files.
use proyecto_estructura.Prelude.{ℕ, ◌≡◌, ◌↔◌, refl, true, List, [], ◌∷◌, Str, codes, key_eq, nat_eq}
use proyecto_estructura.Outcome.{ok, thrown, aborted, undefined_behaviour, safe}
use proyecto_estructura.LinkedList.KeyValueList.{KeyValueList, pair, get, insert_update, insert}
use proyecto_estructura.Parser.Tokens.{TypeE}
use proyecto_estructura.Serializer.Layout.{ColumnType, Layout, layout}
use proyecto_estructura.Automata.Actions.{Value}
use proyecto_estructura.Column.Cast.{Cell, cast, cast_messages}
use proyecto_estructura.Column.Range.{Stores, cast_exact}
use proyecto_estructura.Table.TypeCheck.{type_check}
use proyecto_estructura.Table.Row.{Row, type_check_exact, type_check-safe}
use proyecto_estructura.LinkedList.KeyValueList.{update, delete_key}
use proyecto_estructura.LinkedList.KeyValueList.Unique.{is_unique}
use proyecto_estructura.Serializer.Layout.{layout_eq, from_parser_type}
use proyecto_estructura.Serializer.Laws.{layout_eq_exact}
use proyecto_estructura.Column.Width.{Accepts, sign, FitsBytes, cast-FitsBytes}
use proyecto_estructura.Prelude.{arith}
use proyecto_estructura.Prelude.Int.{pos, negsuc}
use proyecto_estructura.Column.Codec.{HasBytes, serialize, deserialize}
use proyecto_estructura.Column.File.{load, decode, append_cells}
use proyecto_estructura.Column.RoundTrip.{has_no_nul, cast-deserialize, i64_back}
use proyecto_estructura.Column.Reload.{Given, load-append_cells}
use proyecto_estructura.Tests.LittleEndian.{little_endian, little_endian-Documented}
use proyecto_estructura.Tests.Data.{inserted}
use proyecto_estructura.LinkedList.KeyValueList.Refinement.{
  view, put, put_new, replace, remove, operations_refine,
}
use proyecto_estructura.Column.Aborts.{Wraps, AllRead, load-safe}

abbrev counts : KeyValueList ℕ ℕ
counts = pair 3 30 ∷ pair 4 40 ∷ []

cast_exact_example :
    (cast cast_messages (Value.uint 200) (layout 1 ColumnType.u8) ≡ ok (Cell.u8 200))
    ↔ Stores (Value.uint 200) (layout 1 ColumnType.u8) (Cell.u8 200)
cast_exact_example =
    cast_exact cast_messages (Value.uint 200) (layout 1 ColumnType.u8) (Cell.u8 200)

abbrev price_columns : KeyValueList Str Layout
price_columns =
    pair (codes "price") (layout 1 ColumnType.u8)
    ∷ pair (codes "name") (layout 5 ColumnType.str)
    ∷ []

type_check_exact_example :
    (type_check inserted.values price_columns ≡ ok (Cell.u8 7 ∷ Cell.str (codes "pear") ∷ []))
    ↔ Row inserted.values price_columns (Cell.u8 7 ∷ Cell.str (codes "pear") ∷ [])
type_check_exact_example =
    type_check_exact inserted.values price_columns (Cell.u8 7 ∷ Cell.str (codes "pear") ∷ [])

type_check-safe_example : safe (type_check inserted.values price_columns) ≡ true
type_check-safe_example = type_check-safe inserted.values price_columns

layout_eq_exact_example :
    (layout_eq (layout 1 ColumnType.u8) (layout 1 ColumnType.i8) ≡ true)
    ↔ (layout 1 ColumnType.u8 ≡ layout 1 ColumnType.i8)
layout_eq_exact_example = layout_eq_exact (layout 1 ColumnType.u8) (layout 1 ColumnType.i8)

cast-FitsBytes_example :
    (Accepts cast_messages (Value.uint 200) (from_parser_type TypeE.i8)
      ↔ FitsBytes (sign TypeE.i8) (from_parser_type TypeE.i8).size (Value.uint 200))
    × (Accepts cast_messages (Value.int (negsuc 127)) (from_parser_type TypeE.i8)
        ↔ FitsBytes (sign TypeE.i8) (from_parser_type TypeE.i8).size (Value.int (negsuc 127)))
cast-FitsBytes_example = cast-FitsBytes cast_messages TypeE.i8 200 (negsuc 127)

abbrev name_layout : Layout
name_layout = layout 5 ColumnType.str

pear_cast :
    cast cast_messages (Value.string (codes "pear")) name_layout ≡ ok (Cell.str (codes "pear"))
unfolding cast
pear_cast = refl

cast-deserialize_example :
    deserialize little_endian ColumnType.str (serialize little_endian (Cell.str (codes "pear")) 5)
    ≡ ok (Cell.str (codes "pear"))
cast-deserialize_example =
    cast-deserialize little_endian little_endian-Documented cast_messages
      (Value.string (codes "pear")) name_layout (Cell.str (codes "pear")) pear_cast (ground arith)
      (unfold has_no_nul in refl)

-- 2 ^ 32
i64_back_example :
    (deserialize little_endian ColumnType.i64
        (serialize little_endian (Cell.i64 (pos 4294967296)) 8)
      ≡ ok (Cell.i64 (pos 4294967296)))
    ↔ HasBytes 4 (pos 4294967296)
i64_back_example = i64_back little_endian little_endian-Documented (pos 4294967296) 8 (ground arith)

abbrev two_pears : List Cell
two_pears = Cell.str (codes "pear") ∷ Cell.str [] ∷ []

two_pears-Given : Given name_layout two_pears
unfolding has_no_nul
two_pears-Given = (
  (Value.string (codes "pear"), ((refl, ground arith), refl), refl),
  ((Value.string [], ((refl, ground arith), refl), refl), tt),
)

load-append_cells_example :
    load little_endian name_layout (append_cells little_endian [] 5 two_pears) ≡ ok two_pears
load-append_cells_example =
    load-append_cells little_endian little_endian-Documented name_layout (refl, ground arith)
      (Cell.str (codes "pear")) (Cell.str [] ∷ []) two_pears-Given

operations_refine_example :
    (view (insert_update 4 44 counts).0 ≡ put 4 44 (view counts))
    × (view (insert 4 44 counts).0 ≡ put_new 4 44 (view counts))
    × (view (update 4 44 counts).0 ≡ replace 4 44 (view counts))
    × (view (delete_key 4 counts).0 ≡ remove 4 (view counts))
operations_refine_example = operations_refine 4 44 counts (unfold is_unique get in refl)

abbrev flag_layout : Layout
flag_layout = layout 1 ColumnType.rbool

-- no Boolean is written as 2
flags-abort : load little_endian flag_layout (1 ∷ 2 ∷ []) ≡ thrown aborted
unfolding load decode deserialize
flags-abort = refl

-- the size of a `str` that makes the width of a cell zero
wide-divides :
    load little_endian (layout 18446744073709551608 ColumnType.str) (1 ∷ [])
    ≡ thrown undefined_behaviour
unfolding load
wide-divides = refl

load-safe_example :
    (safe (load little_endian flag_layout (1 ∷ 2 ∷ [])) ≡ true)
    ↔ ((Wraps flag_layout → ⊥) × AllRead little_endian flag_layout (1 ∷ 2 ∷ []))
load-safe_example = load-safe little_endian flag_layout (1 ∷ 2 ∷ []) (refl, ground arith)
