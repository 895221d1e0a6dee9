-- ===== src/Column/Range.antt =====
-- Which literals a column takes, and that it keeps their value.
use proyecto_estructura.Prelude.{
  ℕ, ◌≤◌, ◌≡◌, ◌↔◌, Bool, true, Option, none, some, Str, length, arith,
}
use proyecto_estructura.Prelude.Int.{ℤ, pos, negsuc, ◌≤ℤ◌}
use proyecto_estructura.Outcome.{ok, safe}
use proyecto_estructura.Serializer.Layout.{ColumnType, Layout}
use proyecto_estructura.Parser.Tokens.{Double}
use proyecto_estructura.Automata.Actions.{Value}
use proyecto_estructura.Column.Stream.{
  u8_max, u16_max, u32_max, u64_max, i8_max, i16_max, i32_max, i64_max,
}
use proyecto_estructura.Column.Cast.{
  Cell, Messages, cast, cast_uint, cast_int, cast_string, cast_double, cast_bool,
}

-- The integers that a column type holds, from the least to the greatest.
abbrev pub Bounds : Type 0
Bounds = ℤ × ℤ

abbrev pub signed_bounds : ColumnType → Option Bounds
signed_bounds ColumnType.i8 = some (negsuc i8_max, pos i8_max)
signed_bounds ColumnType.i16 = some (negsuc i16_max, pos i16_max)
signed_bounds ColumnType.i32 = some (negsuc i32_max, pos i32_max)
signed_bounds ColumnType.i64 = some (negsuc i64_max, pos i64_max)
signed_bounds _ = none

abbrev pub bounds : ColumnType → Option Bounds
bounds ColumnType.u8 = some (pos 0, pos u8_max)
bounds ColumnType.u16 = some (pos 0, pos u16_max)
bounds ColumnType.u32 = some (pos 0, pos u32_max)
bounds ColumnType.u64 = some (pos 0, pos u64_max)
bounds t = signed_bounds t

-- The integer that a cell stands for, and the type of the column that it belongs to.
abbrev pub integer : Cell → Option ℤ
integer (Cell.u8 n) = some (pos n)
integer (Cell.u16 n) = some (pos n)
integer (Cell.u32 n) = some (pos n)
integer (Cell.u64 n) = some (pos n)
integer (Cell.i8 z) = some z
integer (Cell.i16 z) = some z
integer (Cell.i32 z) = some z
integer (Cell.i64 z) = some z
integer _ = none

abbrev pub cell_type : Cell → ColumnType
cell_type (Cell.u8 _) = ColumnType.u8
cell_type (Cell.u16 _) = ColumnType.u16
cell_type (Cell.u32 _) = ColumnType.u32
cell_type (Cell.u64 _) = ColumnType.u64
cell_type (Cell.i8 _) = ColumnType.i8
cell_type (Cell.i16 _) = ColumnType.i16
cell_type (Cell.i32 _) = ColumnType.i32
cell_type (Cell.i64 _) = ColumnType.i64
cell_type (Cell.str _) = ColumnType.str
cell_type (Cell.f64 _) = ColumnType.f64
cell_type (Cell.bool _) = ColumnType.rbool

abbrev pub Within : Option Bounds → ℤ → Type 0
Within none z = ⊥
Within (some (a, b)) z = (a ≤ℤ z) × (z ≤ℤ b)

-- `c` is the integer `z` in a column of type `t`, whose bounds are `b`.
abbrev pub Kept : Option Bounds → ColumnType → ℤ → Cell → Type 0
Kept b t z c = (Within b z × (integer c ≡ some z)) × (cell_type c ≡ t)

-- `c` is what a column with the layout `l` keeps of a literal. A column of an unsigned type takes no
-- literal with a sign.
abbrev pub Stores : Value → Layout → Cell → Type 0
Stores (Value.string s) l c = ((l.type ≡ ColumnType.str) × (length s ≤ l.size)) × (c ≡ Cell.str s)
Stores (Value.double d) l c = (l.type ≡ ColumnType.f64) × (c ≡ Cell.f64 d)
Stores (Value.uint n) l c = Kept (bounds l.type) l.type (pos n) c
Stores (Value.int z) l c = Kept (signed_bounds l.type) l.type z c
Stores (Value.bool b) l c = (l.type ≡ ColumnType.rbool) × (c ≡ Cell.bool b)

module _ (m : Messages) where
  uint-Kept :
      (n : ℕ) (t : ColumnType) (c : Cell) → cast_uint m n t ≡ ok c → Kept (bounds t) t (pos n) c
  unfolding cast_uint
  uint-Kept n ColumnType.u8 c h = ((ground arith, ground arith), ground arith)
  uint-Kept n ColumnType.u16 c h = ((ground arith, ground arith), ground arith)
  uint-Kept n ColumnType.u32 c h = ((ground arith, ground arith), ground arith)
  uint-Kept n ColumnType.u64 c h = ((ground arith, ground arith), ground arith)
  uint-Kept n ColumnType.i8 c h = ((ground arith, ground arith), ground arith)
  uint-Kept n ColumnType.i16 c h = ((ground arith, ground arith), ground arith)
  uint-Kept n ColumnType.i32 c h = ((ground arith, ground arith), ground arith)
  uint-Kept n ColumnType.i64 c h = ((ground arith, ground arith), ground arith)
  uint-Kept n t c h = ground arith

  int-Kept :
      (z : ℤ) (t : ColumnType) (c : Cell) → cast_int m z t ≡ ok c → Kept (signed_bounds t) t z c
  unfolding cast_int
  int-Kept (pos n) ColumnType.i8 c h = ((ground arith, ground arith), ground arith)
  int-Kept (pos n) ColumnType.i16 c h = ((ground arith, ground arith), ground arith)
  int-Kept (pos n) ColumnType.i32 c h = ((ground arith, ground arith), ground arith)
  int-Kept (pos n) ColumnType.i64 c h = ((ground arith, ground arith), ground arith)
  int-Kept (negsuc n) ColumnType.i8 c h = ((ground arith, ground arith), ground arith)
  int-Kept (negsuc n) ColumnType.i16 c h = ((ground arith, ground arith), ground arith)
  int-Kept (negsuc n) ColumnType.i32 c h = ((ground arith, ground arith), ground arith)
  int-Kept (negsuc n) ColumnType.i64 c h = ((ground arith, ground arith), ground arith)
  int-Kept n t c h = ground arith

  Kept-uint :
      (n : ℕ) (t : ColumnType) (c : Cell) → Kept (bounds t) t (pos n) c → cast_uint m n t ≡ ok c
  unfolding cast_uint
  Kept-uint n ColumnType.u8 c h = ground arith
  Kept-uint n ColumnType.u16 c h = ground arith
  Kept-uint n ColumnType.u32 c h = ground arith
  Kept-uint n ColumnType.u64 c h = ground arith
  Kept-uint n ColumnType.i8 c h = ground arith
  Kept-uint n ColumnType.i16 c h = ground arith
  Kept-uint n ColumnType.i32 c h = ground arith
  Kept-uint n ColumnType.i64 c h = ground arith
  Kept-uint n t c h = ground arith

  Kept-int :
      (n : ℤ) (t : ColumnType) (c : Cell) → Kept (signed_bounds t) t n c → cast_int m n t ≡ ok c
  unfolding cast_int
  Kept-int (pos n) ColumnType.u8 c h = ground arith
  Kept-int (pos n) ColumnType.u16 c h = ground arith
  Kept-int (pos n) ColumnType.u32 c h = ground arith
  Kept-int (pos n) ColumnType.u64 c h = ground arith
  Kept-int (pos n) ColumnType.i8 c h = ground arith
  Kept-int (pos n) ColumnType.i16 c h = ground arith
  Kept-int (pos n) ColumnType.i32 c h = ground arith
  Kept-int (pos n) ColumnType.i64 c h = ground arith
  Kept-int (negsuc n) ColumnType.u8 c h = ground arith
  Kept-int (negsuc n) ColumnType.u16 c h = ground arith
  Kept-int (negsuc n) ColumnType.u32 c h = ground arith
  Kept-int (negsuc n) ColumnType.u64 c h = ground arith
  Kept-int (negsuc n) ColumnType.i8 c h = ground arith
  Kept-int (negsuc n) ColumnType.i16 c h = ground arith
  Kept-int (negsuc n) ColumnType.i32 c h = ground arith
  Kept-int (negsuc n) ColumnType.i64 c h = ground arith
  Kept-int n t c h = ground arith

  string-Stores :
      (s : Str) (l : Layout) (c : Cell) → (cast_string m s l ≡ ok c) ↔ Stores (Value.string s) l c
  unfolding cast_string
  string-Stores s l c = ground arith

  double-Stores :
      (d : Double) (l : Layout) (c : Cell)
      → (cast_double m d l ≡ ok c) ↔ Stores (Value.double d) l c
  unfolding cast_double
  double-Stores d l c = ground arith

  bool-Stores :
      (b : Bool) (l : Layout) (c : Cell) → (cast_bool m b l ≡ ok c) ↔ Stores (Value.bool b) l c
  unfolding cast_bool
  bool-Stores b l c = ground arith

  -- A literal becomes a cell of a column exactly when the column's type takes it: a string that is
  -- no longer than the size, a double, a bool, an unsigned integer within the bounds of an integer
  -- column, a signed integer within the bounds of a signed one. The cell has the column's type and
  -- the literal's value, for every set of messages.
  pub cast_exact : (v : Value) (l : Layout) (c : Cell) → (cast m v l ≡ ok c) ↔ Stores v l c
  unfolding cast
  cast_exact (Value.string s) l c = string-Stores s l c
  cast_exact (Value.double d) l c = double-Stores d l c
  cast_exact (Value.uint n) l c = (uint-Kept n l.type c, Kept-uint n l.type c)
  cast_exact (Value.int z) l c = (int-Kept z l.type c, Kept-int z l.type c)
  cast_exact (Value.bool b) l c = bool-Stores b l c

  uint-answers : (n : ℕ) (t : ColumnType) → safe (cast_uint m n t) ≡ true
  unfolding cast_uint
  uint-answers n t = ground arith

  int-answers : (z : ℤ) (t : ColumnType) → safe (cast_int m z t) ≡ true
  unfolding cast_int
  int-answers z t = ground arith

  -- No literal makes the cast to a column's type throw.
  pub cast-safe : (v : Value) (l : Layout) → safe (cast m v l) ≡ true
  unfolding cast cast_string cast_double cast_bool
  cast-safe (Value.string s) l = ground arith
  cast-safe (Value.double s) l = ground arith
  cast-safe (Value.bool s) l = ground arith
  cast-safe (Value.int s) l = int-answers s l.type
  cast-safe (Value.uint s) l = uint-answers s l.type
