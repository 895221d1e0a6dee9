-- ===== src/Tests/Rows.antt =====
-- A concrete table and its selections.
use proyecto_estructura.Prelude.{
  ℕ, ◌≡◌, ◌↔◌, ◌≤◌, ◌<◌, ◌==◌, ◌-◌, some, ap, arith, refl, true, false, List, [], ◌∷◌, Str, codes,
  str_eq, key_eq, nat_eq,
}
use proyecto_estructura.Outcome.{ok, thrown, undefined_behaviour, safe}
use proyecto_estructura.LinkedList.KeyValueList.{pair}
use proyecto_estructura.LinkedList.Cortina.{Cortina}
use proyecto_estructura.Serializer.Layout.{ColumnType, layout}
use proyecto_estructura.Parser.Tokens.{OperatorE, NameAndSub}
use proyecto_estructura.Automata.Actions.{Value, Restriction, ShowSelect}
use proyecto_estructura.Column.Cast.{Cell}
use proyecto_estructura.Server.Databases.{Databases, Entry, Files, load_column}
use proyecto_estructura.LinkedList.KeyValueList.{get, overwrite, insert}
use proyecto_estructura.LinkedList.ListFre.{FreValue, push_count, get_count}
use proyecto_estructura.LinkedList.Cortina.{append_value}
use proyecto_estructura.Column.File.{load}
use proyecto_estructura.Column.Cast.{cast, cast_uint, resolve_value}
use proyecto_estructura.Prelude.Int.{pos}
use proyecto_estructura.Server.Compare.{compare_cells}
use proyecto_estructura.Server.Select.{
  display, display_column, display_new, append_all, find_table, load_restricted, push_all, filter,
  filter_restriction, filter_loaded, filter_rows, filter_row, filter_judged, judge,
}
use proyecto_estructura.Server.Select.Compared.{
  Unsigned, passes-Unsigned, resolve_select_unsupported,
}
use proyecto_estructura.Server.Select.Counts.{passes}
use proyecto_estructura.Server.Select.Answer.{
  Answer, table_of, resolve_select, answer, show_columns, show_column, table_rows, table_row,
}
use proyecto_estructura.Server.Select.Holds.{all_hold, filter-get_count}
use proyecto_estructura.Server.Select.Shown.{kept}
use proyecto_estructura.Server.Select.Exact.{resolve_select_exact}
use proyecto_estructura.Server.Select.Missing.{NoneLoads, resolve_select-NoneLoads}
use proyecto_estructura.Tests.LittleEndian.{little_endian}
use proyecto_estructura.Tests.Data.{shop, fruits}

-- `fruits` has an unsigned and a signed column
abbrev stock : NameAndSub
stock = record { name = codes "fruits"; sub = codes "stock" }

abbrev shops : Databases
shops =
    pair shop (record {
      tables =
          pair (codes "fruits") (record {
            columns =
                pair (codes "price") (layout 1 ColumnType.u8)
                ∷ pair (codes "stock") (layout 1 ColumnType.i8)
                ∷ [];
          })
          ∷ [];
    })
    ∷ []

-- each column file has three cells
abbrev three : Files
three d t c = Entry.file (5 ∷ 9 ∷ 6 ∷ [])

-- one byte for each value
abbrev digits : Cell → Str
digits (Cell.u8 n) = n ∷ []
digits _ = []

abbrev cheap : Restriction
cheap = record { column = fruits; operator = OperatorE.less; value = Value.uint 7 }

abbrev cheap_fruits : ShowSelect
cheap_fruits = record { database = shop; tables = fruits ∷ []; restrictions = cheap ∷ [] }

abbrev prices : Cortina Str Str
prices = pair (codes "fruits.price") ((5 ∷ []) ∷ (9 ∷ []) ∷ (6 ∷ []) ∷ []) ∷ []

cheap-display :
    display little_endian three shops digits shop (fruits ∷ []) (record { columns = []; sent = [] })
    ≡ ok (record { columns = prices; sent = [] })
unfolding display display_column display_new append_all append_value find_table load_column get
    overwrite insert str_eq load
cheap-display = refl

cheap-load :
    load_restricted little_endian three shops shop cheap
    ≡ ok
        (record { layout = layout 1 ColumnType.u8; cells = Cell.u8 5 ∷ Cell.u8 9 ∷ Cell.u8 6 ∷ [] })
unfolding load_restricted find_table load_column get str_eq load
cheap-load = refl

resolve_select_exact_example :
    (rs : List (List Str)) × (a : Answer) × (table_of prices ≡ ok rs)
    × (resolve_select little_endian three shops digits cheap_fruits ≡ ok a)
    × (a.rows ≡ kept (all_hold little_endian three shops shop (cheap ∷ [])) 0 rs)
resolve_select_exact_example =
    resolve_select_exact little_endian three shops digits cheap_fruits
      (record { columns = prices; sent = [] }) _ _ cheap-display refl (refl, tt)
      (ap safe cheap-load, tt)

-- the first and the third row are displayed
cheap_fruits-runs :
    resolve_select little_endian three shops digits cheap_fruits
    ≡ ok (record {
      sent = [];
      header = codes "fruits.price" ∷ [];
      rows = ((5 ∷ []) ∷ []) ∷ ((6 ∷ []) ∷ []) ∷ [];
    })
unfolding resolve_select answer show_columns show_column table_rows table_row table_of push_all
    push_count get_count filter filter_restriction filter_loaded filter_rows filter_row
    filter_judged judge resolve_value cast cast_uint compare_cells load_restricted display
    display_column display_new append_all append_value find_table load_column get overwrite insert
    str_eq load
cheap_fruits-runs = refl

-- `fruits.stock < 7`
abbrev low : Restriction
low = record { column = stock; operator = OperatorE.less; value = Value.uint 7 }

low-load :
    load_restricted little_endian three shops shop low
    ≡ ok (record {
      layout = layout 1 ColumnType.i8;
      cells = Cell.i8 (pos 5) ∷ Cell.i8 (pos 9) ∷ Cell.i8 (pos 6) ∷ [];
    })
unfolding load_restricted find_table load_column get str_eq load
low-load = refl

abbrev low_fruits : ShowSelect
low_fruits = record { database = shop; tables = fruits ∷ []; restrictions = low ∷ [] }

resolve_select_unsupported_example :
    (a : Answer) × (resolve_select little_endian three shops digits low_fruits ≡ ok a)
    × (a.rows ≡ [])
resolve_select_unsupported_example =
    resolve_select_unsupported little_endian three shops digits low_fruits
      (record { columns = prices; sent = [] }) _ _ [] [] low _ cheap-display refl (refl, tt)
      (ap safe low-load, tt) refl low-load refl

abbrev nowhere : ShowSelect
nowhere = record { database = codes "mars"; tables = fruits ∷ []; restrictions = [] }

nowhere-NoneLoads : NoneLoads little_endian three shops (codes "mars") (fruits ∷ [])
unfolding find_table get str_eq
nowhere-NoneLoads = (refl, tt)

resolve_select-NoneLoads_example :
    resolve_select little_endian three shops digits nowhere ≡ thrown undefined_behaviour
resolve_select-NoneLoads_example =
    resolve_select-NoneLoads little_endian three shops digits nowhere nowhere-NoneLoads

passes-Unsigned_example :
    (passes cheap (layout 1 ColumnType.u8) (Cell.u8 5) ≡ true) ↔ ((7 ≤ 255) × (5 < 7))
passes-Unsigned_example =
    passes-Unsigned ColumnType.u8 Cell.u8 255 1 5 7 false OperatorE.less fruits Unsigned.u8

cheap-filter :
    filter little_endian three shops shop
      (cheap ∷ [])
      (record { indexes = push_all 3 0 []; sent = [] })
    ≡ ok (record {
      indexes =
          record { value = 0; fre = 2 }
          ∷ record { value = 1; fre = 1 }
          ∷ record { value = 2; fre = 2 }
          ∷ [];
      sent = [];
    })
unfolding push_all push_count filter filter_restriction filter_loaded filter_rows filter_row
    filter_judged judge resolve_value cast cast_uint compare_cells load_restricted find_table
    load_column get str_eq load
cheap-filter = refl

filter-get_count_example :
    (e : FreValue ℕ) × (get_count 2 (
        record { value = 0; fre = 2 }
        ∷ record { value = 1; fre = 1 }
        ∷ record { value = 2; fre = 2 }
        ∷ [])
      ≡ some e)
    × (e.value ≡ 2)
    × ((e.fre - 1 == 1) ≡ all_hold little_endian three shops shop (cheap ∷ []) 2)
filter-get_count_example =
    filter-get_count little_endian three shops shop (cheap ∷ []) 3 2 [] _ (omega arith) cheap-filter
