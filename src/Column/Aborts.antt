-- ===== src/Column/Aborts.antt =====
-- Which column files `load_column` reads without a crash.
use mathlib.Core.Bool.{false≢true}
use proyecto_estructura.Prelude.{
  ℕ, ◌+◌, ◌*◌, ◌%◌, ◌^◌, ◌<◌, ◌≡◌, ◌↔◌, refl, sym, ap, ◌∙◌, Bool, true, false, not, ◌==◌, List,
  length, drop, if◌then◌else◌, arith, inl, inr, Bool-cases,
}
use proyecto_estructura.Outcome.{Outcome, fail, thrown, fails, safe, undefined_behaviour}
use proyecto_estructura.Serializer.Layout.{ColumnType, Layout}
use proyecto_estructura.Column.Cast.{Cell}
use proyecto_estructura.Column.Codec.{Bincode, take, deserialize, deserialize_str}
use proyecto_estructura.Column.File.{width, decode, load}
use proyecto_estructura.Column.Reload.{Regular}
use proyecto_estructura.Column.Cells.{Reads, decode-Reads}

abbrev has_decoder : ColumnType → Bool
has_decoder ColumnType.f32 = false
has_decoder _ = true

-- the one size of a string for which the width of a cell is zero
abbrev pub Wraps : Layout → Type 0
Wraps l = (l.type ≡ ColumnType.str) × (l.size ≡ 18446744073709551608)

wraps_zero : (n : ℕ) → n ≡ 18446744073709551608 → (n + 8) % 2 ^ 64 ≡ 0
wraps_zero n h = omega (arith, h)

zero_wraps : (n : ℕ) → n < 2 ^ 64 → (n + 8) % 2 ^ 64 ≡ 0 → n ≡ 18446744073709551608
zero_wraps n h k = omega (arith, h, k)

Wraps-width : (l : Layout) → Wraps l → width l ≡ 0
Wraps-width l (h, k) = ground (arith, wraps_zero l.size k)

width-Wraps : (l : Layout) → Regular l → width l ≡ 0 → Wraps l
width-Wraps l (r, s) h = ground (arith, zero_wraps l.size s)

module _ (b : Bincode) where
  deserialize-fails :
      (t : ColumnType) (xs : List ℕ) → has_decoder t ≡ true → fails (deserialize b t xs) ≡ false
  unfolding deserialize deserialize_str
  deserialize-fails t xs h = ground arith

  abbrev tested : Layout → List ℕ → Outcome (List Cell)
  tested l contents =
      if width l == 0
      then thrown undefined_behaviour
      else if not (length contents % width l == 0)
      then fail "The column {} is not a multiple of the size of the column type."
      else if length contents == 0
      then fail "The column {} is empty."
      else decode b (length contents) l.type (width l) contents

  load-tested :
      (l : Layout) (contents : List ℕ)
      → has_decoder l.type ≡ true
      → load b l contents ≡ tested l contents
  unfolding load
  load-tested l contents h = ground (arith, h)

  load-f32 :
      (l : Layout) (contents : List ℕ)
      → has_decoder l.type ≡ false
      → safe (load b l contents) ≡ true
  unfolding load
  load-f32 l contents h = ground (arith, h)

  Reads-f32 :
      (t : ColumnType) (w : ℕ) (contents : List ℕ) (i : ℕ)
      → has_decoder t ≡ false
      → Reads b t w contents i
  unfolding deserialize
  Reads-f32 t w contents i h k = ground (arith, h)

  -- every cell is there in full and is read
  abbrev pub AllRead : Layout → List ℕ → Type 0
  AllRead l contents =
      length contents % width l ≡ 0
      → (i : ℕ) → i * width l < length contents
      → safe (deserialize b l.type (take (width l) (drop (i * width l) contents))) ≡ true

  tested-AllRead :
      (l : Layout) (contents : List ℕ)
      → has_decoder l.type ≡ true
      → (width l == 0) ≡ false
      → (safe (tested l contents) ≡ true) ↔ AllRead l contents
  tested-AllRead l contents h w = elim (Bool-cases (length contents % width l == 0)) [
    | inr m ↦ (λ _ e. absurd (ground (arith, m, e)), λ _. rw (w, m) refl)
    | inl m ↦ elim (Bool-cases (length contents == 0)) [
      | inl e ↦ (λ _ _ i k. absurd (ground (arith, e, k)), λ _. rw (w, m, e) refl)
      | inr e ↦
          let positive : 0 < width l = ground (arith, w) in
          let (there, back) =
            decode-Reads b l.type (width l) (λ xs. deserialize-fails l.type xs h) positive
              (length contents) contents (omega arith) in
          let same : tested l contents ≡ decode b (length contents) l.type (width l) contents =
            rw (w, m, e) refl in
          (λ k _. there (sym (ap safe same) ∙ k), λ r. ap safe same ∙ back (r (ground (arith, m))))
    ]
  ]

  -- For a layout that a query can create, `load_column` reads a file without a crash exactly when
  -- the layout is not a `str` of 2^64 - 8 bytes, for which it divides by zero, and bincode reads
  -- each cell of a file that holds whole cells. It then gives cells or fails with a message.
  pub load-safe :
      (l : Layout) (contents : List ℕ)
      → Regular l
      → (safe (load b l contents) ≡ true) ↔ ((Wraps l → ⊥) × AllRead l contents)
  load-safe l contents r = elim (Bool-cases (has_decoder l.type)) [
    | inr h ↦ (
      λ _. (λ z. ground (arith, h, z.0), λ _ i. Reads-f32 l.type (width l) contents i h),
      λ _. load-f32 l contents h,
    )
    | inl h ↦
        let same = ap safe (load-tested l contents h) in
        elim (Bool-cases (width l == 0)) [
          | inl w ↦
              let zero_width : width l ≡ 0 = ground (arith, w) in
              let crash : tested l contents ≡ thrown undefined_behaviour = rw w refl in
              (
                λ k. absurd (false≢true (sym (same ∙ ap safe crash) ∙ k)),
                λ (n, _). absurd (n (width-Wraps l r zero_width)),
              )
          | inr w ↦
              let (there, back) = tested-AllRead l contents h w in
              (
                λ k. (λ z. absurd (ground (arith, w, Wraps-width l z)), there (sym same ∙ k)),
                λ (_, a). same ∙ back a,
              )
        ]
  ]
