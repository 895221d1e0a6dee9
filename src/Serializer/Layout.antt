-- ===== src/Serializer/Layout.antt =====
-- src/lib/serializer.hpp and src/lib/table.cpp: the layout of a column.
use proyecto_estructura.Prelude.{ℕ, ◌+◌, Bool, false, ◌==◌, if◌then◌else◌}
use proyecto_estructura.Parser.Tokens.{TypeE}
use proyecto_estructura.Parser.Compare.{bool_eq}

pub data ColumnType : Type 0 where
  u8 u16 u32 u64 i8 i16 i32 i64 f32 f64 str rbool : ColumnType

-- The values of the enumerators.
abbrev pub column_type_index : ColumnType → ℕ
column_type_index ColumnType.u8 = 1
column_type_index ColumnType.u16 = 2
column_type_index ColumnType.u32 = 11
column_type_index ColumnType.u64 = 3
column_type_index ColumnType.i8 = 4
column_type_index ColumnType.i16 = 5
column_type_index ColumnType.i32 = 10
column_type_index ColumnType.i64 = 6
column_type_index ColumnType.f32 = 7
column_type_index ColumnType.f64 = 8
column_type_index ColumnType.str = 9
column_type_index ColumnType.rbool = 12

pub record Layout : Type 0 where
  pub size : ℕ
  pub optional : Bool
  pub type : ColumnType

abbrev pub layout : ℕ → ColumnType → Layout
layout n t = record { size = n; optional = false; type = t }

-- The `switch` has a case for every `TypeE`, so its `throw` is never reached.
unfoldable pub from_parser_type : TypeE → Layout
from_parser_type TypeE.u8 = layout 1 ColumnType.u8
from_parser_type TypeE.u16 = layout 2 ColumnType.u16
from_parser_type TypeE.u32 = layout 4 ColumnType.u32
from_parser_type TypeE.u64 = layout 8 ColumnType.u64
from_parser_type TypeE.i8 = layout 1 ColumnType.i8
from_parser_type TypeE.i16 = layout 2 ColumnType.i16
from_parser_type TypeE.i32 = layout 4 ColumnType.i32
from_parser_type TypeE.i64 = layout 8 ColumnType.i64
from_parser_type TypeE.f64 = layout 8 ColumnType.f64
from_parser_type TypeE.str = layout 0 ColumnType.str
from_parser_type TypeE.bool = layout 1 ColumnType.rbool

-- `operator==`: how many fields agree, compared with 3.
unfoldable pub layout_eq : Layout → Layout → Bool
unfolding bool_eq
layout_eq a b =
    (if a.size == b.size then 1 else 0)
      + (if bool_eq a.optional b.optional then 1 else 0)
      + (if column_type_index a.type == column_type_index b.type then 1 else 0)
    == 3
