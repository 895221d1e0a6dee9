-- ===== src/Column/File.antt =====
-- src/lib/columnInstance.hpp, `ColumnInstance::load_column`, from the contents of the file on; and
-- the appends of `DatabaseTable::try_insert` in src/lib/table.hpp.
use proyecto_estructura.Prelude.{
  ℕ, zero, suc, ◌+◌, ◌%◌, ◌^◌, ◌==◌, List, [], ◌∷◌, ◌++◌, length, drop, not, if◌then◌else◌,
}
use proyecto_estructura.Outcome.{Outcome, ok, fail, thrown, undefined_behaviour, ◌>>=◌}
use proyecto_estructura.Serializer.Layout.{ColumnType, Layout}
use proyecto_estructura.Column.Cast.{Cell}
use proyecto_estructura.Column.Codec.{Bincode, take, serialize, deserialize}

-- The bytes of one cell, in a `uint64_t`; a string has its length in front.
abbrev pub width : Layout → ℕ
width l = elim l.type [ ColumnType.str ↦ (l.size + 8) % 2 ^ 64 | _ ↦ l.size ]

module _ (b : Bincode) where
  -- `for (i = 0; i < contents.size(); i += width)`, by the rounds that are left
  unfoldable pub decode : ℕ → ColumnType → ℕ → List ℕ → Outcome (List Cell)
  unfolding deserialize
  decode zero t w contents = ok []
  decode (suc rounds) t w contents =
      let rest = decode rounds t w (drop w contents) in
      if length contents == 0
      then ok []
      else (do c ← deserialize b t (take w contents); cs ← rest; ok (c ∷ cs))

  -- The tests of the contents. Their order is that of the code: the remainder by a width of zero
  -- comes first, and is undefined.
  unfoldable pub load : Layout → List ℕ → Outcome (List Cell)
  unfolding decode
  load l contents = elim l.type [
    | ColumnType.f32 ↦ fail "Failed to load contents for column {} from {}.{}"
    | _ ↦
        if width l == 0
        then thrown undefined_behaviour
        else if not (length contents % width l == 0)
        then fail "The column {} is not a multiple of the size of the column type."
        else if length contents == 0
        then fail "The column {} is empty."
        else decode (length contents) l.type (width l) contents
  ]

  -- `append_to_file`, for one cell after the other
  unfoldable pub append_cells : List ℕ → ℕ → List Cell → List ℕ
  unfolding serialize
  append_cells contents size [] = contents
  append_cells contents size (c ∷ cs) = append_cells (contents ++ serialize b c size) size cs
