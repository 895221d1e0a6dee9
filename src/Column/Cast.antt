-- ===== src/Column/Cast.antt =====
-- src/lib/columnInstance.hpp, `ColumnInstance::resolve_value`, and the same chain of tests in
-- `DatabaseTable::try_insert` of src/lib/table.hpp: the two differ in their messages only, so the
-- messages are an argument here.
use Prim.Native.String.{String}
use proyecto_estructura.Prelude.{ℕ, Bool, ltb, ◌||◌, if◌then◌else◌, Str, length}
use proyecto_estructura.Prelude.Int.{ℤ, pos}
use proyecto_estructura.Outcome.{Outcome, ok, fail}
use proyecto_estructura.Serializer.Layout.{ColumnType, Layout}
use proyecto_estructura.Parser.Tokens.{Double}
use proyecto_estructura.Automata.Actions.{Value}
use proyecto_estructura.Column.Stream.{
  u8_max, u16_max, u32_max, u64_max, i8_max, i16_max, i32_max, i64_max, read_unsigned, read_signed,
  to_uint8, to_int8, out_of_range,
}

-- `std::variant<uint8_t, ..., int64_t, std::string, double, bool>`
pub data Cell : Type 0 where
  u8 u16 u32 u64 : ℕ → Cell
  i8 i16 i32 i64 : ℤ → Cell
  str : Str → Cell
  f64 : Double → Cell
  bool : Bool → Cell

pub record Messages : Type 0 where
  pub string_too_long : String
  -- of a string and of a double
  pub string_mismatch : String
  pub uint_overflow : String
  pub uint_mismatch : String
  pub int_overflow : String
  pub int_mismatch : String
  pub bool_mismatch : String

-- the messages of `resolve_value`
abbrev pub cast_messages : Messages
cast_messages = record {
  string_too_long = "Cannot cast string {} bytes long to field which takes a {}";
  string_mismatch = "Cannot cast string to field which takes a {}";
  uint_overflow =
      "Cannot cast uint to field which takes a {} because the value is too big (overflows)";
  uint_mismatch = "Cannot cast uint to field which takes a {}";
  int_overflow = "Cannot cast int to field which takes a {} because the value overflows";
  int_mismatch = "Cannot cast int to field which takes a {}";
  bool_mismatch = "Cannot cast bool to field which takes a {}";
}

-- the messages of `try_insert`
abbrev pub push_messages : Messages
push_messages = record {
  string_too_long = "Cannot push string {} bytes long to field {} which takes a {}";
  string_mismatch = "Cannot push string to field {} which takes a {}";
  uint_overflow =
      "Cannot push uint to field {} which takes a {} because the value is too big (overflows)";
  uint_mismatch = "Cannot push uint to field {} which takes a {}";
  int_overflow = "Cannot push int to field {} which takes a {} because the value overflows";
  int_mismatch = "Cannot push int to field {} which takes a {}";
  bool_mismatch = "Cannot push bool to field {} which takes a {}";
}

-- `if (temp.fail() || value > limit) return cpp::fail(...); else return value;`
abbrev settle : Bool → String → Cell → Outcome Cell
settle bad e c = if bad then fail e else ok c

module _ (m : Messages) where
  unfoldable pub cast_string : Str → Layout → Outcome Cell
  cast_string s l = elim l.type [
    | ColumnType.str ↦ if ltb l.size (length s) then fail m.string_too_long else ok (Cell.str s)
    | _ ↦ fail m.string_mismatch
  ]

  unfoldable pub cast_double : Double → Layout → Outcome Cell
  cast_double d l = elim l.type [ ColumnType.f64 ↦ ok (Cell.f64 d) | _ ↦ fail m.string_mismatch ]

  -- an 8-bit value is read as a 16-bit one and then narrowed
  unfoldable pub cast_uint : ℕ → ColumnType → Outcome Cell
  unfolding read_unsigned read_signed to_uint8 to_int8
  cast_uint n ColumnType.u8 =
      let raw = read_unsigned u16_max n in
      settle (raw.failed || ltb u8_max n) m.uint_overflow (Cell.u8 (to_uint8 raw.value))
  cast_uint n ColumnType.u16 =
      let raw = read_unsigned u16_max n in
      settle (raw.failed || ltb u16_max n) m.uint_overflow (Cell.u16 raw.value)
  cast_uint n ColumnType.u32 =
      let raw = read_unsigned u32_max n in
      settle (raw.failed || ltb u32_max n) m.uint_overflow (Cell.u32 raw.value)
  cast_uint n ColumnType.u64 =
      let raw = read_unsigned u64_max n in
      settle (raw.failed || ltb u64_max n) m.uint_overflow (Cell.u64 raw.value)
  cast_uint n ColumnType.i8 =
      let raw = read_signed i16_max (pos n) in
      settle (raw.failed || ltb i8_max n) m.uint_overflow (Cell.i8 (to_int8 raw.value))
  cast_uint n ColumnType.i16 =
      let raw = read_signed i16_max (pos n) in
      settle (raw.failed || ltb i16_max n) m.uint_overflow (Cell.i16 raw.value)
  cast_uint n ColumnType.i32 =
      let raw = read_signed i32_max (pos n) in
      settle (raw.failed || ltb i32_max n) m.uint_overflow (Cell.i32 raw.value)
  cast_uint n ColumnType.i64 =
      let raw = read_signed i64_max (pos n) in
      settle (raw.failed || ltb i64_max n) m.uint_overflow (Cell.i64 raw.value)
  cast_uint n _ = fail m.uint_mismatch

  unfoldable pub cast_int : ℤ → ColumnType → Outcome Cell
  unfolding read_signed to_int8
  cast_int z ColumnType.i8 =
      let raw = read_signed i16_max z in
      settle (raw.failed || out_of_range i8_max z) m.int_overflow (Cell.i8 (to_int8 raw.value))
  cast_int z ColumnType.i16 =
      let raw = read_signed i16_max z in
      settle (raw.failed || out_of_range i16_max z) m.int_overflow (Cell.i16 raw.value)
  cast_int z ColumnType.i32 =
      let raw = read_signed i32_max z in
      settle (raw.failed || out_of_range i32_max z) m.int_overflow (Cell.i32 raw.value)
  cast_int z ColumnType.i64 =
      let raw = read_signed i64_max z in
      settle (raw.failed || out_of_range i64_max z) m.int_overflow (Cell.i64 raw.value)
  cast_int z _ = fail m.int_mismatch

  unfoldable pub cast_bool : Bool → Layout → Outcome Cell
  cast_bool b l = elim l.type [ ColumnType.rbool ↦ ok (Cell.bool b) | _ ↦ fail m.bool_mismatch ]

  unfoldable pub cast : Value → Layout → Outcome Cell
  unfolding cast_string cast_double cast_uint cast_int cast_bool
  cast (Value.string s) l = cast_string s l
  cast (Value.double d) l = cast_double d l
  cast (Value.uint n) l = cast_uint n l.type
  cast (Value.int z) l = cast_int z l.type
  cast (Value.bool b) l = cast_bool b l

-- `ColumnInstance::resolve_value`
unfoldable pub resolve_value : Value → Layout → Outcome Cell
unfolding cast
resolve_value = cast cast_messages
