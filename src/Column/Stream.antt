-- ===== src/Column/Stream.antt =====
-- What `std::stringstream` and `static_cast` do to the integers of a column. Writing an integer to
-- a stream and reading it back into a type that it does not fit stores the nearest limit of the
-- type and sets `failbit`.
use proyecto_estructura.Prelude.{ℕ, ◌-◌, ◌%◌, Bool, true, false, ltb, if◌then◌else◌}
use proyecto_estructura.Prelude.Int.{ℤ, pos, negsuc}

-- `std::numeric_limits`: the greatest values of the unsigned types.
abbrev pub u8_max : ℕ
u8_max = 255

abbrev pub u16_max : ℕ
u16_max = 65535

abbrev pub u32_max : ℕ
u32_max = 4294967295

abbrev pub u64_max : ℕ
u64_max = 18446744073709551615

-- A signed type holds -(limit + 1) to limit.
abbrev pub i8_max : ℕ
i8_max = 127

abbrev pub i16_max : ℕ
i16_max = 32767

abbrev pub i32_max : ℕ
i32_max = 2147483647

abbrev pub i64_max : ℕ
i64_max = 9223372036854775807

-- The value that a read leaves in the variable, and `fail()`.
pub record Read {ℓ} (A : Type ℓ) : Type ℓ where
  pub value : A
  pub failed : Bool

-- `temp >> value` for an unsigned type with the given limit, from the digits of `n`
unfoldable pub read_unsigned : ℕ → ℕ → Read ℕ
read_unsigned limit n =
    if ltb limit n
    then record { value = limit; failed = true }
    else record { value = n; failed = false }

-- `temp >> value` for a signed type
unfoldable pub read_signed : ℕ → ℤ → Read ℤ
read_signed limit (pos n) =
    if ltb limit n
    then record { value = pos limit; failed = true }
    else record { value = pos n; failed = false }
read_signed limit (negsuc n) =
    if ltb limit n
    then record { value = negsuc limit; failed = true }
    else record { value = negsuc n; failed = false }

-- `static_cast<uint8_t>`
unfoldable pub to_uint8 : ℕ → ℕ
to_uint8 n = n % 256

-- `static_cast<int8_t>`: the value modulo 256 between -128 and 127
abbrev signed_byte : ℕ → ℤ
signed_byte m = if ltb i8_max m then negsuc (255 - m) else pos m

unfoldable pub to_int8 : ℤ → ℤ
to_int8 (pos n) = signed_byte (n % 256)
to_int8 (negsuc n) = signed_byte (255 - n % 256)

-- `value > limit || value < -(limit + 1)` on `int64_t`
abbrev pub out_of_range : ℕ → ℤ → Bool
out_of_range limit (pos n) = ltb limit n
out_of_range limit (negsuc n) = ltb limit n
