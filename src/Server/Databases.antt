-- ===== src/Server/Databases.antt =====
-- src/lib/databases.hpp, database.hpp and table.hpp: the databases in memory, and the files of
-- columns, as far as `ColumnInstance::load_column` of src/lib/columnInstance.hpp reads them.
use proyecto_estructura.Prelude.{ℕ, none, some, List, Str, key_eq}
use proyecto_estructura.Outcome.{Outcome, ok, fail, ◌>>=◌}
use proyecto_estructura.LinkedList.KeyValueList.{KeyValueList, get}
use proyecto_estructura.Serializer.Layout.{Layout}
use proyecto_estructura.Column.Cast.{Cell}
use proyecto_estructura.Column.Codec.{Bincode}
use proyecto_estructura.Column.File.{load}

pub record DatabaseTable : Type 0 where
  pub columns : KeyValueList Str Layout

pub record DataBase : Type 0 where
  pub tables : KeyValueList Str DatabaseTable

abbrev pub Databases : Type 0
Databases = KeyValueList Str DataBase

-- What is at a path.
pub data Entry : Type 0 where
  missing : Entry
  other : Entry
  file : List ℕ → Entry

-- The column files, `data/<database>/<table>/<column>.col`.
abbrev pub Files : Type 0
Files = Str → Str → Str → Entry

-- `ColumnInstance`: `data` and `size` are the cells.
pub record ColumnInstance : Type 0 where
  pub layout : Layout
  pub cells : List Cell

unfoldable pub load_column :
    Bincode → Files → Str → Str → Str → DatabaseTable → Outcome ColumnInstance
load_column b files database table column descriptor = elim (get column descriptor.columns) [
  | none ↦ fail "Column {} does not exist in {}.{}"
  | some l ↦ elim (files database table column) [
    | Entry.missing ↦ fail "Failed to get path to column {}, path {} does not exist"
    | Entry.other ↦ fail "The column path {} is not a file."
    | Entry.file contents ↦ (do cs ← load b l contents; ok (record { layout = l; cells = cs }))
  ]
]
