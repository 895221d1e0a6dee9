-- ===== src/Column/Reload.antt =====
-- A column file is loaded as the cells that were appended to it.
use mathlib.Core.List.{append_assoc, append-nil}
use native.Mathlib.Nat.{mul-mod_left}
use proyecto_estructura.Prelude.{
  ℕ, zero, suc, ◌+◌, ◌*◌, ◌%◌, ◌^◌, ◌<◌, ◌≤◌, ◌≡◌, ◌==◌, refl, sym, ap, ◌∙◌, false, List, [], ◌∷◌,
  ◌++◌, length, length-append, arith,
}
use proyecto_estructura.Outcome.{ok}
use proyecto_estructura.Serializer.Layout.{ColumnType, Layout}
use proyecto_estructura.Automata.Actions.{Value}
use proyecto_estructura.Column.Cast.{Cell}
use proyecto_estructura.Column.Range.{Stores, cell_type}
use proyecto_estructura.Column.Codec.{
  Bincode, Documented, pad, c_str, serialize_str, serialize, deserialize,
}
use proyecto_estructura.Column.RoundTrip.{
  Readable, take-append, drop-append, length-pad, Stores-deserialize, Stores-cell_type,
}
use proyecto_estructura.Column.File.{width, decode, load, append_cells}

-- the size of a type in bytes; a string may have any
abbrev bytes : ColumnType → ℕ → ℕ
bytes ColumnType.u8 n = 1
bytes ColumnType.u16 n = 2
bytes ColumnType.u32 n = 4
bytes ColumnType.u64 n = 8
bytes ColumnType.i8 n = 1
bytes ColumnType.i16 n = 2
bytes ColumnType.i32 n = 4
bytes ColumnType.i64 n = 8
bytes ColumnType.f32 n = 4
bytes ColumnType.f64 n = 8
bytes ColumnType.rbool n = 1
bytes ColumnType.str n = n

-- A layout that a query can create: the size is that of the type.
abbrev pub Regular : Layout → Type 0
Regular l = (l.size ≡ bytes l.type l.size) × (l.size < 2 ^ 64)

-- one whose cells have a width that fits a `uint64_t`
abbrev pub Bounded : Layout → Type 0
Bounded l = (l.size ≡ bytes l.type l.size) × (l.size + 8 < 2 ^ 64)

fits : (n : ℕ) → n + 8 < 2 ^ 64 → (n + 8) % 2 ^ 64 ≡ n + 8
fits n h = omega (arith, h)

Bounded-width : (l : Layout) → Bounded l → (width l == 0) ≡ false
Bounded-width l (h, k) = ground (arith, fits l.size k)

module _ (b : Bincode) (d : Documented b) where
  length-serialize_str : (s : List ℕ) (size : ℕ) → length (serialize_str b s size) ≡ size + 8
  unfolding serialize_str
  length-serialize_str s size =
      d.vec_size (pad size (c_str s)) ∙ omega (arith, length-pad size (c_str s))

  length-serialize :
      (c : Cell) (l : Layout)
      → Bounded l
      → cell_type c ≡ l.type
      → length (serialize b c l.size) ≡ width l
  unfolding serialize
  length-serialize (Cell.u8 n) l r e = ground (arith, d.uint_size 1 n)
  length-serialize (Cell.u16 n) l r e = ground (arith, d.uint_size 2 n)
  length-serialize (Cell.u32 n) l r e = ground (arith, d.uint_size 4 n)
  length-serialize (Cell.u64 n) l r e = ground (arith, d.uint_size 8 n)
  length-serialize (Cell.i8 n) l r e = ground (arith, d.int_size 1 n)
  length-serialize (Cell.i16 n) l r e = ground (arith, d.int_size 2 n)
  length-serialize (Cell.i32 n) l r e = ground (arith, d.int_size 4 n)
  length-serialize (Cell.i64 n) l r e = ground (arith, d.int_size 8 n)
  length-serialize (Cell.str s) l r e =
      ground (arith, length-serialize_str s l.size, fits l.size r.1)
  length-serialize (Cell.f64 n) l r e = ground (arith, d.double_size n)
  length-serialize (Cell.bool t) l r e = ground (arith, d.bool_size t)

  append_cells-append :
      (xs ys : List ℕ) (size : ℕ) (cs : List Cell)
      → append_cells b (xs ++ ys) size cs ≡ xs ++ append_cells b ys size cs
  unfolding append_cells
  append_cells-append xs ys size [] = refl
  append_cells-append xs ys size (c ∷ cs) =
      ap (λ l. append_cells b l size cs) (append_assoc xs ys (serialize b c size))
      ∙ append_cells-append xs (ys ++ serialize b c size) size cs

  append_cells-first :
      (size : ℕ) (c : Cell) (cs : List Cell)
      → append_cells b [] size (c ∷ cs) ≡ serialize b c size ++ append_cells b [] size cs
  unfolding append_cells
  append_cells-first size c cs =
      ap (λ l. append_cells b l size cs) (sym (append-nil (serialize b c size)))
      ∙ append_cells-append (serialize b c size) [] size cs

-- Cells that casts of literals give, each of them readable.
abbrev pub Given : Layout → List Cell → Type 0
Given l [] = Unit
Given l (c ∷ cs) = ((v : Value) × Stores v l c × Readable c) × Given l cs

module _ (b : Bincode) (d : Documented b) (l : Layout) (r : Bounded l) where
  given-size :
      (c : Cell) → (v : Value) × Stores v l c × Readable c → length (serialize b c l.size) ≡ width l
  given-size c (v, s, h) = length-serialize b d c l r (Stores-cell_type v l c s)

  given-back :
      (c : Cell)
      → (v : Value) × Stores v l c × Readable c
      → deserialize b l.type (serialize b c l.size) ≡ ok c
  given-back c (v, s, h) = Stores-deserialize b d v l c s (omega (arith, r.1)) h

  length-append_cells :
      (cs : List Cell) → Given l cs → length (append_cells b [] l.size cs) ≡ length cs * width l
  unfolding append_cells
  length-append_cells [] g = omega arith
  length-append_cells (c ∷ cs) (s, g) =
      ap length (append_cells-first b d l.size c cs)
      ∙ length-append (serialize b c l.size) (append_cells b [] l.size cs)
      ∙ omega (arith, given-size c s, length-append_cells cs g)

  -- one round of `decode`
  decode-first :
      (c : Cell) (cs : List Cell) (n : ℕ) (xs rest : List ℕ)
      → length xs ≡ width l
      → deserialize b l.type xs ≡ ok c
      → decode b n l.type (width l) rest ≡ ok cs
      → decode b (suc n) l.type (width l) (xs ++ rest) ≡ ok (c ∷ cs)
  unfolding decode
  decode-first c cs n xs rest e back k =
      let long : (length (xs ++ rest) == 0) ≡ false =
        ground (arith, length-append xs rest, Bounded-width l r) in
      let one = ap (deserialize b l.type) (take-append xs rest (width l) e) ∙ back in
      let others = ap (decode b n l.type (width l)) (drop-append xs rest (width l) e) ∙ k in
      ground (arith, long, one, others)

  decode-append_cells :
      (n : ℕ) (cs : List Cell)
      → length cs ≤ n
      → Given l cs
      → decode b n l.type (width l) (append_cells b [] l.size cs) ≡ ok cs
  unfolding append_cells decode
  decode-append_cells zero [] h g = refl
  decode-append_cells (suc n) [] h g = refl
  decode-append_cells zero (c ∷ cs) h g = absurd (omega (arith, h))
  decode-append_cells (suc n) (c ∷ cs) h (s, g) =
      ap (decode b (suc n) l.type (width l)) (append_cells-first b d l.size c cs)
      ∙ decode-first c cs n (serialize b c l.size) (append_cells b [] l.size cs) (given-size c s)
          (given-back c s) (decode-append_cells n cs (omega (arith, h)) g)

  load-decode :
      (contents : List ℕ) (c : Cell) (cs : List Cell)
      → cell_type c ≡ l.type
      → length contents % width l ≡ 0
      → (length contents == 0) ≡ false
      → decode b (length contents) l.type (width l) contents ≡ ok cs
      → load b l contents ≡ ok cs
  unfolding load
  load-decode contents c cs e m h k = ground (arith, Bounded-width l r)

  times-width : (n : ℕ) → n ≤ n * width l
  times-width zero = omega arith
  times-width (suc n) = ground (arith, times-width n, Bounded-width l r)

  -- A column file that begins empty and to which one or more cells are appended is loaded as these
  -- cells in their order. The layout is one that a query can create, of a size below 2^64 - 8,
  -- each cell comes from the cast of a literal to it and is readable, and bincode reads back what it
  -- writes.
  pub load-append_cells :
      (c : Cell) (cs : List Cell)
      → Given l (c ∷ cs)
      → load b l (append_cells b [] l.size (c ∷ cs)) ≡ ok (c ∷ cs)
  load-append_cells c cs g =
      let contents = append_cells b [] l.size (c ∷ cs) in
      let size : length contents ≡ length (c ∷ cs) * width l = length-append_cells (c ∷ cs) g in
      let many : length (c ∷ cs) ≤ length contents =
        omega (arith, size, times-width (length (c ∷ cs))) in
      load-decode contents c (c ∷ cs) (Stores-cell_type g.0.0 l c g.0.1)
        (ap (λ n. n % width l) size ∙ mul-mod_left (length (c ∷ cs)) (width l))
        (ground (arith, many)) (decode-append_cells (length contents) (c ∷ cs) many g)
