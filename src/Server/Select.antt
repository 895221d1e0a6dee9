-- ===== src/Server/Select.antt =====
-- src/main.cpp: the answer of `resolve` to a `Show_Select`. Of the text that it sends, the error
-- messages are kept, as their literal text, and the rows of the last table.
pub mod Answer
pub mod Tally
pub mod Counts
pub mod Holds
pub mod Shown
pub mod Table
pub mod Runs
pub mod Exact
pub mod Missing
pub mod Compared
use Prim.Native.String.{String}
use proyecto_estructura.Prelude.{
  ℕ, zero, suc, ◌+◌, ◌-◌, Bool, true, false, ◌==◌, if◌then◌else◌, Option, none, some, List, [], ◌∷◌,
  ◌++◌, map, Str, length, get_elem?, key_eq, nat_eq,
}
use proyecto_estructura.Outcome.{Outcome, ok, fail, thrown, ◌>>=◌, undefined_behaviour}
use proyecto_estructura.LinkedList.KeyValueList.{KeyValueList, KeyValue, get}
use proyecto_estructura.LinkedList.ListFre.{FreValue, push_count, get_count}
use proyecto_estructura.LinkedList.Cortina.{Cortina, append_value}
use proyecto_estructura.Serializer.Layout.{ColumnType, Layout}
use proyecto_estructura.Parser.Tokens.{NameAndSub}
use proyecto_estructura.Automata.Actions.{Restriction, ShowSelect}
use proyecto_estructura.Column.Cast.{Cell, resolve_value}
use proyecto_estructura.Column.Codec.{Bincode}
use proyecto_estructura.Server.Databases.{
  DatabaseTable, Databases, Files, ColumnInstance, load_column,
}
use proyecto_estructura.Server.Compare.{compare_cells}

-- `dbs.dbs.get(database)` and `(*db)->tables.get(table)`
unfoldable pub find_table : Databases → Str → Str → Outcome DatabaseTable
find_table dbs database table = elim (get database dbs) [
  | none ↦ fail "Database {} does not exist"
  | some db ↦ elim (get table db.tables) [
    | none ↦ fail "DatabaseTable {} does not exist in {}"
    | some t ↦ ok t
  ]
]

-- `holds_alternative<T>(r.value())`, for the `T` of the column's type
abbrev pub holds_alternative : ColumnType → Cell → Bool
holds_alternative ColumnType.u8 (Cell.u8 n) = true
holds_alternative ColumnType.u16 (Cell.u16 n) = true
holds_alternative ColumnType.u32 (Cell.u32 n) = true
holds_alternative ColumnType.u64 (Cell.u64 n) = true
holds_alternative ColumnType.f64 (Cell.f64 d) = true
holds_alternative ColumnType.str (Cell.str s) = true
holds_alternative ColumnType.rbool (Cell.bool b) = true
holds_alternative _ _ = false

-- the types with a `case` in the `switch`
abbrev pub is_supported : ColumnType → Bool
is_supported ColumnType.i8 = false
is_supported ColumnType.i16 = false
is_supported ColumnType.i32 = false
is_supported ColumnType.i64 = false
is_supported ColumnType.f32 = false
is_supported _ = true

-- One round of the loop over the rows: whether the row is pushed to `indexes`, or the error sent.
unfoldable pub judge : Restriction → Layout → Cell → Outcome Bool
judge r l c =
    if is_supported l.type
    then (do
      v ← resolve_value r.value l
      if holds_alternative l.type v
          then ok (compare_cells r.operator c v)
          else fail "Value {} is not of type {}")
    else fail "Type {} not supported"

-- `indexes`, and the errors sent
pub record Filter : Type 0 where
  pub indexes : List (FreValue ℕ)
  pub sent : List String

-- what follows for row `i`
unfoldable pub filter_judged : ℕ → Outcome Bool → Filter → Outcome Filter
filter_judged i (ok true) s = ok (record s { indexes = push_count i s.indexes })
filter_judged i (ok false) s = ok s
filter_judged i (fail e) s = ok (record s { sent = s.sent ++ e ∷ [] })
filter_judged i (thrown x) s = thrown x

unfoldable pub filter_row : Restriction → Layout → ℕ → Cell → Filter → Outcome Filter
filter_row r l i c s = filter_judged i (judge r l c) s

-- `for (int i = 0; i < result.value().size; i++)`
unfoldable pub filter_rows : Restriction → Layout → ℕ → List Cell → Filter → Outcome Filter
filter_rows r l i [] s = ok s
filter_rows r l i (c ∷ cs) s = do t ← filter_row r l i c s; filter_rows r l (i + 1) cs t

-- what follows once the column of a restriction is loaded, or is not
unfoldable pub filter_loaded : Restriction → Outcome ColumnInstance → Filter → Outcome Filter
filter_loaded r (ok c) s = filter_rows r c.layout 0 c.cells s
filter_loaded r (fail e) s = ok (record s { sent = s.sent ++ e ∷ [] })
filter_loaded r (thrown x) s = thrown x

-- `for (size_t i = 0; i < ...len(); i++) indexes.push(i);`, by the rounds that are left
unfoldable pub push_all : ℕ → ℕ → List (FreValue ℕ) → List (FreValue ℕ)
push_all zero i l = l
push_all (suc rounds) i l = push_all rounds (i + 1) (push_count i l)

-- The columns to display, and the errors sent.
pub record Display : Type 0 where
  pub columns : Cortina Str Str
  pub sent : List String

-- `fmt::format("{}.{}", name, sub)`
abbrev pub column_key : NameAndSub → Str
column_key c = c.name ++ b'.' ∷ c.sub

unfoldable pub append_all : Str → List Str → Cortina Str Str → Cortina Str Str
append_all k [] l = l
append_all k (v ∷ vs) l = append_all k vs (append_value k v l)

-- The parameters are bincode, the column files and the databases, and below how `{fmt}` writes a
-- value.
module _ (b : Bincode) (files : Files) (dbs : Databases) where
  unfoldable pub load_restricted : Str → Restriction → Outcome ColumnInstance
  load_restricted database r = do
    t ← find_table dbs database r.column.name
    load_column b files database r.column.name r.column.sub t

  -- the body of the loop over `arg.restrictions`
  unfoldable pub filter_restriction : Str → Restriction → Filter → Outcome Filter
  filter_restriction database r s = filter_loaded r (load_restricted database r) s

  unfoldable pub filter : Str → List Restriction → Filter → Outcome Filter
  filter database [] s = ok s
  filter database (r ∷ rs) s = do t ← filter_restriction database r s; filter database rs t

module _ (b : Bincode) (files : Files) (dbs : Databases) (text : Cell → Str) where
  -- a column to display whose table is found and that is not there yet
  unfoldable pub display_new : Str → NameAndSub → DatabaseTable → Display → Outcome Display
  display_new database c t s = elim (load_column b files database c.name c.sub t) [
    | ok i ↦ ok (record s { columns = append_all (column_key c) (map text i.cells) s.columns })
    | fail e ↦ ok (record s { sent = s.sent ++ e ∷ [] })
    | thrown x ↦ thrown x
  ]

  -- the body of the loop over `arg.tables`
  unfoldable pub display_column : Str → NameAndSub → Display → Outcome Display
  display_column database c s = elim (find_table dbs database c.name) [
    | ok t ↦ elim (get (column_key c) s.columns) [
      | none ↦ display_new database c t s
      | some vs ↦ ok s
    ]
    | fail e ↦ ok (record s { sent = s.sent ++ e ∷ [] })
    | thrown x ↦ thrown x
  ]

  unfoldable pub display : Str → List NameAndSub → Display → Outcome Display
  display database [] s = ok s
  display database (c ∷ cs) s = do t ← display_column database c s; display database cs t
