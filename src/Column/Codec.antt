-- ===== src/Column/Codec.antt =====
-- src/lib/table.hpp (the `ENCODE` of `DatabaseTable::try_insert`), src/lib/columnInstance.hpp (the
-- `DECODE` of `ColumnInstance::load_column`), src/lib/serializer.hpp and serializer/src/lib.rs: a
-- cell as the bytes of a column file.
use proyecto_estructura.Prelude.{
  ℕ, zero, suc, ◌+◌, ◌-◌, ◌*◌, Option, some, ◌%◌, ◌<◌, ◌^◌, ◌≡◌, ◌==◌, Bool, List, [], ◌∷◌, Str,
  length, ltb, if◌then◌else◌,
}
use proyecto_estructura.Prelude.Int.{ℤ, pos, negsuc}
use proyecto_estructura.Outcome.{Outcome, ok, fail, unwrap, ◌>>=◌}
use proyecto_estructura.Parser.Tokens.{Double}
use proyecto_estructura.Serializer.Layout.{ColumnType}
use proyecto_estructura.Column.Stream.{i32_max}
use proyecto_estructura.Column.Cast.{Cell}

-- The third-party library bincode: numbers as a fixed count of bytes, which the first argument
-- gives, and vectors of bytes. A read fails on bytes that are no value of its type.
pub record Bincode : Type 0 where
  pub uint_bytes : ℕ → ℕ → List ℕ
  pub read_uint : ℕ → List ℕ → Option ℕ
  pub int_bytes : ℕ → ℤ → List ℕ
  pub read_int : ℕ → List ℕ → Option ℤ
  pub double_bytes : Double → List ℕ
  pub read_double : List ℕ → Option Double
  pub bool_bytes : Bool → List ℕ
  pub read_bool : List ℕ → Option Bool
  pub vec_bytes : List ℕ → List ℕ
  pub read_vec : List ℕ → Option (List ℕ)

-- The integers of `n` bytes in two's complement.
abbrev pub HasBytes : ℕ → ℤ → Type 0
HasBytes n (pos k) = 2 * k < 256 ^ n
HasBytes n (negsuc k) = 2 * k + 1 < 256 ^ n

-- What its documentation says: a number that fits is read as it was written, and so is a vector,
-- which has its length in 8 bytes in front.
pub record Documented (b : Bincode) : Type 0 where
  pub uint_size : (n k : ℕ) → length (b.uint_bytes n k) ≡ n
  pub int_size : (n : ℕ) (z : ℤ) → length (b.int_bytes n z) ≡ n
  pub double_size : (d : Double) → length (b.double_bytes d) ≡ 8
  pub bool_size : (t : Bool) → length (b.bool_bytes t) ≡ 1
  pub uint_back : (n k : ℕ) → k < 256 ^ n → b.read_uint n (b.uint_bytes n k) ≡ some k
  pub int_back : (n : ℕ) (z : ℤ) → HasBytes n z → b.read_int n (b.int_bytes n z) ≡ some z
  pub double_back : (d : Double) → d.bits < 256 ^ 8 → b.read_double (b.double_bytes d) ≡ some d
  pub bool_back : (t : Bool) → b.read_bool (b.bool_bytes t) ≡ some t
  pub vec_size : (xs : List ℕ) → length (b.vec_bytes xs) ≡ 8 + length xs
  pub vec_back : (xs : List ℕ) → length xs < 256 ^ 8 → b.read_vec (b.vec_bytes xs) ≡ some xs

-- The bytes before the first zero.
unfoldable pub c_str : List ℕ → Str
c_str [] = []
c_str (x ∷ xs) = let rest = c_str xs in if x == 0 then [] else x ∷ rest

-- `chain(repeat(0)).take(size)`
unfoldable pub pad : ℕ → List ℕ → List ℕ
pad zero xs = []
pad (suc n) [] = 0 ∷ pad n []
pad (suc n) (x ∷ xs) = x ∷ pad n xs

abbrev pub take : ℕ → List ℕ → List ℕ
take zero xs = []
take (suc n) [] = []
take (suc n) (x ∷ xs) = x ∷ take n xs

-- `rsp_::di64` is declared to return `int32_t`: the low 32 bits, in two's complement.
abbrev signed_word : ℕ → ℤ
signed_word m = if ltb i32_max m then negsuc (4294967295 - m) else pos m

unfoldable pub to_int32 : ℤ → ℤ
to_int32 (pos n) = signed_word (n % 4294967296)
to_int32 (negsuc n) = signed_word (4294967295 - n % 4294967296)

module _ (b : Bincode) where
  unfoldable pub serialize_str : Str → ℕ → List ℕ
  unfolding c_str pad
  serialize_str s size = b.vec_bytes (pad size (c_str s))

  unfoldable pub deserialize_str : List ℕ → Outcome Str
  unfolding c_str
  deserialize_str bytes = do xs ← unwrap (b.read_vec bytes); ok (c_str xs)

  -- `Serialized::serialize`, for the string with the size of its column
  unfoldable pub serialize : Cell → ℕ → List ℕ
  unfolding serialize_str
  serialize (Cell.u8 n) size = b.uint_bytes 1 n
  serialize (Cell.u16 n) size = b.uint_bytes 2 n
  serialize (Cell.u32 n) size = b.uint_bytes 4 n
  serialize (Cell.u64 n) size = b.uint_bytes 8 n
  serialize (Cell.i8 z) size = b.int_bytes 1 z
  serialize (Cell.i16 z) size = b.int_bytes 2 z
  serialize (Cell.i32 z) size = b.int_bytes 4 z
  serialize (Cell.i64 z) size = b.int_bytes 8 z
  serialize (Cell.str s) size = serialize_str s size
  serialize (Cell.f64 d) size = b.double_bytes d
  serialize (Cell.bool t) size = b.bool_bytes t

  -- `DECODE`: the element that `load_column` pushes for the bytes of one cell. There is none for
  -- an `f32` column, which no query can create, so that `data_array` stays null.
  unfoldable pub deserialize : ColumnType → List ℕ → Outcome Cell
  unfolding deserialize_str to_int32
  deserialize ColumnType.u8 bytes = do n ← unwrap (b.read_uint 1 bytes); ok (Cell.u8 n)
  deserialize ColumnType.u16 bytes = do n ← unwrap (b.read_uint 2 bytes); ok (Cell.u16 n)
  deserialize ColumnType.u32 bytes = do n ← unwrap (b.read_uint 4 bytes); ok (Cell.u32 n)
  deserialize ColumnType.u64 bytes = do n ← unwrap (b.read_uint 8 bytes); ok (Cell.u64 n)
  deserialize ColumnType.i8 bytes = do z ← unwrap (b.read_int 1 bytes); ok (Cell.i8 z)
  deserialize ColumnType.i16 bytes = do z ← unwrap (b.read_int 2 bytes); ok (Cell.i16 z)
  deserialize ColumnType.i32 bytes = do z ← unwrap (b.read_int 4 bytes); ok (Cell.i32 z)
  deserialize ColumnType.i64 bytes = do z ← unwrap (b.read_int 8 bytes); ok (Cell.i64 (to_int32 z))
  deserialize ColumnType.str bytes = do s ← deserialize_str bytes; ok (Cell.str s)
  deserialize ColumnType.f64 bytes = do d ← unwrap (b.read_double bytes); ok (Cell.f64 d)
  deserialize ColumnType.rbool bytes = do t ← unwrap (b.read_bool bytes); ok (Cell.bool t)
  deserialize ColumnType.f32 bytes = fail "Failed to load contents for column {} from {}.{}"
