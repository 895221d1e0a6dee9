-- ===== src/Column/RoundTrip.antt =====
-- A cell is read back from its bytes.
use mathlib.Core.Path.{subst}
use proyecto_estructura.Prelude.{
  sym, ◌↔◌, ℕ, zero, suc, ◌≤◌, ◌<◌, ◌^◌, ◌≡◌, ◌==◌, refl, ap, ◌∙◌, Bool, true, not, ◌&&◌, some,
  List, [], ◌∷◌, ◌++◌, Str, length, drop, arith,
}
use proyecto_estructura.Prelude.Int.{ℤ, pos, negsuc}
use proyecto_estructura.Serializer.Layout.{ColumnType, Layout}
use proyecto_estructura.Automata.Actions.{Value}
use proyecto_estructura.Column.Cast.{Cell, Messages, cast}
use proyecto_estructura.Outcome.{ok, unwrap, ◌>>=◌}
use proyecto_estructura.Column.Range.{
  Stores, cast_exact, Within, cell_type, integer, bounds, signed_bounds,
}
use proyecto_estructura.Column.Codec.{
  Bincode, Documented, HasBytes, c_str, pad, take, to_int32, serialize_str, deserialize_str,
  serialize, deserialize,
}

-- no zero byte
unfoldable pub has_no_nul : Str → Bool
has_no_nul [] = true
has_no_nul (x ∷ s) = not (x == 0) && has_no_nul s

-- A cell that fits its column.
abbrev pub Fits : Cell → ℕ → Type 0
Fits (Cell.u8 n) size = n < 256 ^ 1
Fits (Cell.u16 n) size = n < 256 ^ 2
Fits (Cell.u32 n) size = n < 256 ^ 4
Fits (Cell.u64 n) size = n < 256 ^ 8
Fits (Cell.i8 z) size = HasBytes 1 z
Fits (Cell.i16 z) size = HasBytes 2 z
Fits (Cell.i32 z) size = HasBytes 4 z
Fits (Cell.i64 z) size = HasBytes 8 z
Fits (Cell.str s) size = length s ≤ size
Fits _ size = Unit

-- What is written is what is read: a string without a zero byte, an integer of 64 bits that has
-- 32, a double of 64 bits.
abbrev pub Readable : Cell → Type 0
Readable (Cell.str s) = has_no_nul s ≡ true
Readable (Cell.i64 z) = HasBytes 4 z
Readable (Cell.f64 d) = d.bits < 256 ^ 8
Readable _ = Unit

c_str-id : (s : Str) → has_no_nul s ≡ true → c_str s ≡ s
unfolding c_str has_no_nul
c_str-id [] h = refl
c_str-id (x ∷ s) h = ground (arith, c_str-id s)

c_str-pad : (s : Str) (n : ℕ) → has_no_nul s ≡ true → length s ≤ n → c_str (pad n s) ≡ s
unfolding c_str pad has_no_nul
c_str-pad [] zero h l = refl
c_str-pad [] (suc n) h l = refl
c_str-pad (x ∷ s) zero h l = absurd (omega (arith, l))
c_str-pad (x ∷ s) (suc n) h l = ground (arith, c_str-pad s n)

pub length-pad : (n : ℕ) (s : Str) → length (pad n s) ≡ n
unfolding pad
length-pad zero s = refl
length-pad (suc n) [] = ap (λ k. suc k) (length-pad n [])
length-pad (suc n) (x ∷ s) = ap (λ k. suc k) (length-pad n s)

pub take-append : (xs ys : List ℕ) (n : ℕ) → length xs ≡ n → take n (xs ++ ys) ≡ xs
take-append [] ys zero h = refl
take-append [] ys (suc n) h = absurd (omega (arith, h))
take-append (x ∷ xs) ys zero h = absurd (omega (arith, h))
take-append (x ∷ xs) ys (suc n) h = ap (λ l. x ∷ l) (take-append xs ys n (omega (arith, h)))

pub drop-append : (xs ys : List ℕ) (n : ℕ) → length xs ≡ n → drop n (xs ++ ys) ≡ ys
drop-append [] ys zero h = refl
drop-append [] ys (suc n) h = absurd (omega (arith, h))
drop-append (x ∷ xs) ys zero h = absurd (omega (arith, h))
drop-append (x ∷ xs) ys (suc n) h = drop-append xs ys n (omega (arith, h))

take-all : (xs : List ℕ) (n : ℕ) → length xs ≡ n → take n xs ≡ xs
take-all [] zero h = refl
take-all [] (suc n) h = absurd (omega (arith, h))
take-all (x ∷ xs) zero h = absurd (omega (arith, h))
take-all (x ∷ xs) (suc n) h = ap (λ l. x ∷ l) (take-all xs n (omega (arith, h)))

to_int32-id : (z : ℤ) → HasBytes 4 z → to_int32 z ≡ z
unfolding to_int32
to_int32-id (pos n) h = ground arith
to_int32-id (negsuc n) h = ground arith

module _ (b : Bincode) (d : Documented b) where
  string_back :
      (s : Str) (size : ℕ)
      → size < 256 ^ 8
      → length s ≤ size
      → has_no_nul s ≡ true
      → deserialize_str b (serialize_str b s size) ≡ ok s
  unfolding serialize_str deserialize_str
  string_back s size k l h =
      let e = length-pad size (c_str s) in
      rw (d.vec_back (pad size (c_str s)) (omega (arith, e, k)))
        (ap ok (ap (λ t. c_str (pad size t)) (c_str-id s h) ∙ c_str-pad s size h l))

  i64_kept :
      (z : ℤ)
      → HasBytes 8 z
      → HasBytes 4 z
      → deserialize b ColumnType.i64 (b.int_bytes 8 z) ≡ ok (Cell.i64 z)
  unfolding deserialize
  i64_kept z f r =
      ap (λ o. unwrap o >>= λ x. ok (Cell.i64 (to_int32 x))) (d.int_back 8 z f)
      ∙ ap (λ x. ok (Cell.i64 x)) (to_int32-id z r)

  deserialize-serialize :
      (c : Cell) (size : ℕ)
      → size < 256 ^ 8
      → Fits c size
      → Readable c
      → deserialize b (cell_type c) (serialize b c size) ≡ ok c
  unfolding deserialize serialize
  deserialize-serialize (Cell.u8 n) size k f r =
      ap (λ o. unwrap o >>= λ x. ok (Cell.u8 x)) (d.uint_back 1 n f)
  deserialize-serialize (Cell.u16 n) size k f r =
      ap (λ o. unwrap o >>= λ x. ok (Cell.u16 x)) (d.uint_back 2 n f)
  deserialize-serialize (Cell.u32 n) size k f r =
      ap (λ o. unwrap o >>= λ x. ok (Cell.u32 x)) (d.uint_back 4 n f)
  deserialize-serialize (Cell.u64 n) size k f r =
      ap (λ o. unwrap o >>= λ x. ok (Cell.u64 x)) (d.uint_back 8 n f)
  deserialize-serialize (Cell.i8 z) size k f r =
      ap (λ o. unwrap o >>= λ x. ok (Cell.i8 x)) (d.int_back 1 z f)
  deserialize-serialize (Cell.i16 z) size k f r =
      ap (λ o. unwrap o >>= λ x. ok (Cell.i16 x)) (d.int_back 2 z f)
  deserialize-serialize (Cell.i32 z) size k f r =
      ap (λ o. unwrap o >>= λ x. ok (Cell.i32 x)) (d.int_back 4 z f)
  deserialize-serialize (Cell.i64 z) size k f r = i64_kept z f r
  deserialize-serialize (Cell.str s) size k f r =
      ap (λ m. m >>= λ x. ok (Cell.str x)) (string_back s size k f r)
  deserialize-serialize (Cell.f64 t) size k f r =
      ap (λ o. unwrap o >>= λ x. ok (Cell.f64 x)) (d.double_back t r)
  deserialize-serialize (Cell.bool t) size k f r =
      ap (λ o. unwrap o >>= λ x. ok (Cell.bool x)) (d.bool_back t)

to_int32-HasBytes : (z : ℤ) → HasBytes 4 (to_int32 z)
unfolding to_int32
to_int32-HasBytes (pos n) = ground arith
to_int32-HasBytes (negsuc n) = ground arith

pub Stores-cell_type : (v : Value) (l : Layout) (c : Cell) → Stores v l c → cell_type c ≡ l.type
Stores-cell_type (Value.string s) l c h = ground arith
Stores-cell_type (Value.double s) l c h = ground arith
Stores-cell_type (Value.bool s) l c h = ground arith
Stores-cell_type (Value.uint s) l c (h, e) = e
Stores-cell_type (Value.int s) l c (h, e) = e

integer-Fits :
    (z : ℤ) (c : Cell) (size : ℕ)
    → integer c ≡ some z
    → Within (bounds (cell_type c)) z
    → Fits c size
integer-Fits z (Cell.u8 n) size h w = ground arith
integer-Fits z (Cell.u16 n) size h w = ground arith
integer-Fits z (Cell.u32 n) size h w = ground arith
integer-Fits z (Cell.u64 n) size h w = ground arith
integer-Fits z (Cell.i8 (pos n)) size h w = ground arith
integer-Fits z (Cell.i8 (negsuc n)) size h w = ground arith
integer-Fits z (Cell.i16 (pos n)) size h w = ground arith
integer-Fits z (Cell.i16 (negsuc n)) size h w = ground arith
integer-Fits z (Cell.i32 (pos n)) size h w = ground arith
integer-Fits z (Cell.i32 (negsuc n)) size h w = ground arith
integer-Fits z (Cell.i64 (pos n)) size h w = ground arith
integer-Fits z (Cell.i64 (negsuc n)) size h w = ground arith
integer-Fits z (Cell.str s) size h w = ground arith
integer-Fits z (Cell.f64 s) size h w = tt
integer-Fits z (Cell.bool s) size h w = tt

Within-signed : (t : ColumnType) (z : ℤ) → Within (signed_bounds t) z → Within (bounds t) z
Within-signed t z h = ground arith

Stores-Fits : (v : Value) (l : Layout) (c : Cell) → Stores v l c → Fits c l.size
Stores-Fits (Value.string s) l c ((t, n), e) = subst (λ x. Fits x l.size) (sym e) n
Stores-Fits (Value.double s) l c (t, e) = subst (λ x. Fits x l.size) (sym e) tt
Stores-Fits (Value.bool s) l c (t, e) = subst (λ x. Fits x l.size) (sym e) tt
Stores-Fits (Value.uint n) l c ((w, i), e) =
    integer-Fits (pos n) c l.size i (subst (λ t. Within (bounds t) (pos n)) (sym e) w)
Stores-Fits (Value.int z) l c ((w, i), e) =
    integer-Fits z c l.size i (subst (λ t. Within (bounds t) z) (sym e) (Within-signed l.type z w))

module _ (b : Bincode) (d : Documented b) where
  pub Stores-deserialize :
      (v : Value) (l : Layout) (c : Cell)
      → Stores v l c
      → l.size < 256 ^ 8
      → Readable c
      → deserialize b l.type (serialize b c l.size) ≡ ok c
  Stores-deserialize v l c s k r =
      subst (λ t. deserialize b t (serialize b c l.size) ≡ ok c) (Stores-cell_type v l c s)
        (deserialize-serialize b d c l.size k (Stores-Fits v l c s) r)

  -- The cell that a cast gives is read back from the bytes that are written for it, if it is
  -- readable: a string has no zero byte, an integer of an i64 column 32 bits, a double 64.
  pub cast-deserialize :
      (m : Messages) (v : Value) (l : Layout) (c : Cell)
      → cast m v l ≡ ok c
      → l.size < 256 ^ 8
      → Readable c
      → deserialize b l.type (serialize b c l.size) ≡ ok c
  cast-deserialize m v l c h k r = Stores-deserialize v l c ((cast_exact m v l c).0 h) k r

  -- An integer of an i64 column is read back exactly if it has 32 bits: `di64` is declared to
  -- return `int32_t`.
  pub i64_back :
      (z : ℤ) (size : ℕ)
      → HasBytes 8 z
      → (deserialize b ColumnType.i64 (serialize b (Cell.i64 z) size) ≡ ok (Cell.i64 z))
        ↔ HasBytes 4 z
  unfolding deserialize serialize
  i64_back z size f = (
    λ h.
        let e : to_int32 z ≡ z = ground (arith, h, d.int_back 8 z f) in
        subst (HasBytes 4) e (to_int32-HasBytes z),
    λ k. i64_kept b d z f k,
  )
