-- ===== src/Column/Width.antt =====
-- Which integers the casts to a column take, by its size in bytes.
use proyecto_estructura.Prelude.{ℕ, ◌^◌, ◌<◌, ◌≡◌, ◌↔◌, arith}
use proyecto_estructura.Prelude.Int.{ℤ, pos, negsuc}
use proyecto_estructura.Outcome.{ok}
use proyecto_estructura.Parser.Tokens.{TypeE}
use proyecto_estructura.Serializer.Layout.{Layout, from_parser_type}
use proyecto_estructura.Automata.Actions.{Value}
use proyecto_estructura.Column.Cast.{Cell, Messages, cast, cast_uint, cast_int}
use proyecto_estructura.Column.Codec.{HasBytes}

-- how a type that a query names holds integers: not, without or with a sign
pub data Sign : Type 0 where
  no_integer unsigned signed : Sign

abbrev pub sign : TypeE → Sign
sign TypeE.i8 = Sign.signed
sign TypeE.i16 = Sign.signed
sign TypeE.i32 = Sign.signed
sign TypeE.i64 = Sign.signed
sign TypeE.u8 = Sign.unsigned
sign TypeE.u16 = Sign.unsigned
sign TypeE.u32 = Sign.unsigned
sign TypeE.u64 = Sign.unsigned
sign _ = Sign.no_integer

-- an integer literal that fits `n` bytes: all their bits for an unsigned type, which takes no literal
-- with a minus, and two's complement for a signed one
abbrev pub FitsBytes : Sign → ℕ → Value → Type 0
FitsBytes Sign.unsigned n (Value.uint k) = k < 256 ^ n
FitsBytes Sign.signed n (Value.uint k) = HasBytes n (pos k)
FitsBytes Sign.signed n (Value.int z) = HasBytes n z
FitsBytes _ n v = ⊥

-- whether the cast gives a cell
abbrev pub Accepts : Messages → Value → Layout → Type 0
Accepts m v l = (c : Cell) × (cast m v l ≡ ok c)

module _ (m : Messages) where
  cast_uint-FitsBytes :
      (k : ℕ) (t : TypeE)
      → let l = from_parser_type t in
        ((c : Cell) × (cast_uint m k l.type ≡ ok c)) ↔ FitsBytes (sign t) l.size (Value.uint k)
  unfolding from_parser_type cast_uint
  cast_uint-FitsBytes k TypeE.u8 =
      (λ (c, h). ground (arith, h), λ h. (Cell.u8 k, ground (arith, h)))
  cast_uint-FitsBytes k TypeE.u16 =
      (λ (c, h). ground (arith, h), λ h. (Cell.u16 k, ground (arith, h)))
  cast_uint-FitsBytes k TypeE.u32 =
      (λ (c, h). ground (arith, h), λ h. (Cell.u32 k, ground (arith, h)))
  cast_uint-FitsBytes k TypeE.u64 =
      (λ (c, h). ground (arith, h), λ h. (Cell.u64 k, ground (arith, h)))
  cast_uint-FitsBytes k TypeE.i8 =
      (λ (c, h). ground (arith, h), λ h. (Cell.i8 (pos k), ground (arith, h)))
  cast_uint-FitsBytes k TypeE.i16 =
      (λ (c, h). ground (arith, h), λ h. (Cell.i16 (pos k), ground (arith, h)))
  cast_uint-FitsBytes k TypeE.i32 =
      (λ (c, h). ground (arith, h), λ h. (Cell.i32 (pos k), ground (arith, h)))
  cast_uint-FitsBytes k TypeE.i64 =
      (λ (c, h). ground (arith, h), λ h. (Cell.i64 (pos k), ground (arith, h)))
  cast_uint-FitsBytes k TypeE.f64 = (λ (c, h). ground (arith, h), λ h. absurd h)
  cast_uint-FitsBytes k TypeE.bool = (λ (c, h). ground (arith, h), λ h. absurd h)
  cast_uint-FitsBytes k TypeE.str = (λ (c, h). ground (arith, h), λ h. absurd h)

  cast_int-FitsBytes :
      (z : ℤ) (t : TypeE)
      → let l = from_parser_type t in
        ((c : Cell) × (cast_int m z l.type ≡ ok c)) ↔ FitsBytes (sign t) l.size (Value.int z)
  unfolding from_parser_type cast_int
  cast_int-FitsBytes z TypeE.u8 = (λ (c, h). ground (arith, h), λ h. absurd h)
  cast_int-FitsBytes z TypeE.u16 = (λ (c, h). ground (arith, h), λ h. absurd h)
  cast_int-FitsBytes z TypeE.u32 = (λ (c, h). ground (arith, h), λ h. absurd h)
  cast_int-FitsBytes z TypeE.u64 = (λ (c, h). ground (arith, h), λ h. absurd h)
  cast_int-FitsBytes z TypeE.f64 = (λ (c, h). ground (arith, h), λ h. absurd h)
  cast_int-FitsBytes z TypeE.bool = (λ (c, h). ground (arith, h), λ h. absurd h)
  cast_int-FitsBytes z TypeE.str = (λ (c, h). ground (arith, h), λ h. absurd h)
  cast_int-FitsBytes (pos n) TypeE.i8 =
      (λ (c, h). ground (arith, h), λ h. (Cell.i8 (pos n), ground (arith, h)))
  cast_int-FitsBytes (negsuc n) TypeE.i8 =
      (λ (c, h). ground (arith, h), λ h. (Cell.i8 (negsuc n), ground (arith, h)))
  cast_int-FitsBytes (pos n) TypeE.i16 =
      (λ (c, h). ground (arith, h), λ h. (Cell.i16 (pos n), ground (arith, h)))
  cast_int-FitsBytes (negsuc n) TypeE.i16 =
      (λ (c, h). ground (arith, h), λ h. (Cell.i16 (negsuc n), ground (arith, h)))
  cast_int-FitsBytes (pos n) TypeE.i32 =
      (λ (c, h). ground (arith, h), λ h. (Cell.i32 (pos n), ground (arith, h)))
  cast_int-FitsBytes (negsuc n) TypeE.i32 =
      (λ (c, h). ground (arith, h), λ h. (Cell.i32 (negsuc n), ground (arith, h)))
  cast_int-FitsBytes (pos n) TypeE.i64 =
      (λ (c, h). ground (arith, h), λ h. (Cell.i64 (pos n), ground (arith, h)))
  cast_int-FitsBytes (negsuc n) TypeE.i64 =
      (λ (c, h). ground (arith, h), λ h. (Cell.i64 (negsuc n), ground (arith, h)))

  -- For each type that a query can name, the cast of an integer literal to its column gives a cell
  -- exactly when the literal fits the bytes that the type has on disk: all their bits for an unsigned
  -- type, which takes no literal with a minus, and two's complement for a signed one. No other type
  -- takes an integer.
  pub cast-FitsBytes :
      (t : TypeE) (k : ℕ) (z : ℤ)
      → let l = from_parser_type t in
        (Accepts m (Value.uint k) l ↔ FitsBytes (sign t) l.size (Value.uint k))
        × (Accepts m (Value.int z) l ↔ FitsBytes (sign t) l.size (Value.int z))
  unfolding cast
  cast-FitsBytes t k z = (cast_uint-FitsBytes k t, cast_int-FitsBytes z t)
