-- ===== src/Server/Select/Compared.antt =====
-- What a restriction with an unsigned literal asks of a column, by its type.
use proyecto_estructura.Prelude.{
  ℕ, zero, suc, ◌+◌, ◌%◌, ◌≡◌, ◌≢◌, ◌<◌, ◌≤◌, ◌↔◌, refl, ap, ◌∙◌, Bool, true, false, List, [], ◌∷◌,
  ◌++◌, map, arith, Str, length, key_eq,
}
use proyecto_estructura.Outcome.{ok}
use proyecto_estructura.LinkedList.KeyValueList.{KeyValue}
use proyecto_estructura.LinkedList.Cortina.{Cortina}
use proyecto_estructura.Serializer.Layout.{ColumnType, Layout}
use proyecto_estructura.Parser.Tokens.{OperatorE, NameAndSub}
use proyecto_estructura.Automata.Actions.{Value, Restriction, ShowSelect}
use proyecto_estructura.Column.Stream.{u8_max, u16_max, u32_max, u64_max, read_unsigned, to_uint8}
use proyecto_estructura.Column.Cast.{Cell, cast, cast_uint, resolve_value}
use proyecto_estructura.Column.Codec.{Bincode}
use proyecto_estructura.Server.Compare.{compare_cells}
use proyecto_estructura.Server.Databases.{Databases, Files, ColumnInstance}
use proyecto_estructura.Server.Select.{Display, is_supported, judge, load_restricted, display}
use proyecto_estructura.Server.Select.Answer.{Answer, resolve_select}
use proyecto_estructura.Server.Select.Counts.{passes}
use proyecto_estructura.Server.Select.Holds.{holds, all_hold}
use proyecto_estructura.Server.Select.Shown.{kept}
use proyecto_estructura.Server.Select.Tally.{mark_at}
use proyecto_estructura.Server.Select.Runs.{Loads}
use proyecto_estructura.Server.Select.Table.{Square}
use proyecto_estructura.Server.Select.Exact.{resolve_select_exact}

-- The unsigned types: their cells and their greatest values.
pub data Unsigned : ColumnType → (ℕ → Cell) → ℕ → Type 0 where
  u8 : Unsigned ColumnType.u8 Cell.u8 u8_max
  u16 : Unsigned ColumnType.u16 Cell.u16 u16_max
  u32 : Unsigned ColumnType.u32 Cell.u32 u32_max
  u64 : Unsigned ColumnType.u64 Cell.u64 u64_max

-- What an operator asks of two numbers.
abbrev pub Relates : OperatorE → ℕ → ℕ → Type 0
Relates OperatorE.equal m n = m ≡ n
Relates OperatorE.not_equal m n = m ≢ n
Relates OperatorE.less m n = m < n
Relates OperatorE.great m n = n < m
Relates OperatorE.less_equal m n = m ≤ n
Relates OperatorE.great_equal m n = n ≤ m
Relates OperatorE.and m n = ⊥
Relates OperatorE.or m n = ⊥

-- A cell of an unsigned column passes a restriction with an unsigned literal exactly when the
-- literal fits the type of the column and the two numbers stand in the relation of the operator.
pub passes-Unsigned :
    (t : ColumnType) (cell : ℕ → Cell) (limit : ℕ) (size m n : ℕ) (optional : Bool) (op : OperatorE)
    (c : NameAndSub)
    → Unsigned t cell limit
    → (passes
          (record { column = c; operator = op; value = Value.uint n })
          (record { size = size; optional = optional; type = t })
          (cell m)
        ≡ true)
      ↔ ((n ≤ limit) × Relates op m n)
unfolding judge resolve_value cast cast_uint read_unsigned to_uint8 compare_cells
passes-Unsigned t cell limit size m n optional op c u8 =
    let small : n ≤ u8_max → n % 256 ≡ n = λ h. omega (arith, h) in ground (arith, small)
passes-Unsigned t cell limit size m n optional op c u16 = ground arith
passes-Unsigned t cell limit size m n optional op c u32 = ground arith
passes-Unsigned t cell limit size m n optional op c u64 = ground arith

kept-none {ℓ} :
    {A : Type ℓ} (P : ℕ → Bool) (i : ℕ) (vs : List A) → ((j : ℕ) → P j ≡ false) → kept P i vs ≡ []
kept-none P i [] h = refl
kept-none P i (v ∷ vs) h = ground (arith, h i, kept-none P (i + 1) vs h)

module _ (b : Bincode) (files : Files) (dbs : Databases) (database : Str) where
  none-pass :
      (r : Restriction) (l : Layout) (cs : List Cell) (j : ℕ)
      → is_supported l.type ≡ false
      → mark_at (map (passes r l) cs) j ≡ false
  unfolding judge
  none-pass r l [] j h = refl
  none-pass r l (c ∷ cs) zero h = ground arith
  none-pass r l (c ∷ cs) (suc j) h = none-pass r l cs j h

  -- no row satisfies a restriction on a column of a signed type
  holds-unsupported :
      (r : Restriction) (i : ColumnInstance) (j : ℕ)
      → load_restricted b files dbs database r ≡ ok i
      → is_supported i.layout.type ≡ false
      → holds b files dbs database r j ≡ false
  holds-unsupported r i j e h = rw e (none-pass r i.layout i.cells j h)

  all_hold-unsupported :
      (us vs : List Restriction) (r : Restriction) (i : ColumnInstance) (j : ℕ)
      → load_restricted b files dbs database r ≡ ok i
      → is_supported i.layout.type ≡ false
      → all_hold b files dbs database (us ++ r ∷ vs) j ≡ false
  all_hold-unsupported [] vs r i j e h = ground (arith, holds-unsupported r i j e h)
  all_hold-unsupported (u ∷ us) vs r i j e h = ground (arith, all_hold-unsupported us vs r i j e h)

-- Under the conditions of `resolve_select_exact`, a `Show_Select` with a restriction on a column of a
-- signed integer type is answered with no rows, whatever the columns hold.
pub resolve_select_unsupported :
    (b : Bincode) (files : Files) (dbs : Databases) (text : Cell → Str) (arg : ShowSelect)
    (d : Display) (c : KeyValue Str (List Str)) (cs : Cortina Str Str) (us vs : List Restriction)
    (r : Restriction) (i : ColumnInstance)
    → display b files dbs text arg.database arg.tables (record { columns = []; sent = [] }) ≡ ok d
    → d.columns ≡ c ∷ cs
    → Square (length c.value) (c ∷ cs)
    → Loads b files dbs arg.database arg.restrictions
    → arg.restrictions ≡ us ++ r ∷ vs
    → load_restricted b files dbs arg.database r ≡ ok i
    → is_supported i.layout.type ≡ false
    → (a : Answer) × (resolve_select b files dbs text arg ≡ ok a) × (a.rows ≡ [])
resolve_select_unsupported b files dbs text arg d c cs us vs r i h e s l p q n =
    let (rs, a, _, k, z) = resolve_select_exact b files dbs text arg d c cs h e s l in
    let never : (j : ℕ) → all_hold b files dbs arg.database arg.restrictions j ≡ false = λ j.
      ap (λ x. all_hold b files dbs arg.database x j) p
      ∙ all_hold-unsupported b files dbs arg.database us vs r i j q n in
    (a, k, z ∙ kept-none _ 0 rs never)
