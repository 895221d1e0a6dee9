-- ===== src/Automata/Identifiers.antt =====
-- src/lib/analyzer/automata.cpp: the visitor of `Identifier`.
use proyecto_estructura.Prelude.{◌||◌, if◌then◌else◌, Str, none, some, [], ◌∷◌, ◌++◌, key_eq}
use proyecto_estructura.Outcome.{
  Outcome, ok, fail, ◌>>=◌, ◌>>◌, value, deref, require, require_next,
}
use proyecto_estructura.LinkedList.KeyValueList
use proyecto_estructura.Serializer.Layout.{ColumnType, Layout, layout, from_parser_type}
use proyecto_estructura.Parser.Tokens.{
  KeywordE, SymbolE, TypeE, NameAndSub, Identifier, Token, type,
}
use proyecto_estructura.Parser.Compare.{same_variant_and_value}
use proyecto_estructura.Automata.Actions.{Action, Context}
use proyecto_estructura.Automata.State.{
  State, Window, is_keyword, is_symbol, is_type, get_type, get_uint, get_create_table,
  get_show_select,
}

-- the five contexts whose identifier ends the query
unfoldable pub before_semicolon : State → Window → Outcome (Unit {0})
before_semicolon s w =
    let check =
      require_next w.next "Expected semicolon after identifier but got nothing."
        (is_symbol SymbolE.semicolon) "Expected semicolon after identifier but got `{}`." in
    elim s.ctx [
      | Context.create_database_e ↦ check
      | Context.delete_database_e ↦ check
      | Context.delete_table_e ↦ check
      | Context.show_database_e ↦ check
      | Context.show_table_e ↦ check
      | _ ↦ ok tt
    ]

-- A column of a `SELECT`, before `,` or `WHERE`.
unfoldable pub select_column : State → Window → NameAndSub → Outcome State
select_column s w n = elim w.next [
  | none ↦ fail "Expected `table.row` OR `,` identifier but got nothing."
  | some t ↦ do
    require (is_symbol SymbolE.coma t || is_keyword KeywordE.where_ t)
        "Expected `WHERE` or `,` after `TABLE.COLUMN` identifier but got nothing."
    a ← value s.variant
    sel ← get_show_select a
    ok (record {
      ctx = if is_keyword KeywordE.where_ t then Context.where_e else s.ctx;
      variant = some (Action.show_select (record sel { tables = sel.tables ++ n ∷ [] }));
    })
]

unfoldable pub in_select : State → Window → Identifier → Outcome State
unfolding select_column
in_select s w (Identifier.name n) = ok s
in_select s w (Identifier.name_and_sub n) = elim s.ctx [
  | Context.select_e ↦ select_column s w n
  | _ ↦ ok s
]

abbrev pub set_variant : State → Action → State
set_variant s a = record s { variant = some a }

-- `variant = {CreateTable{...}}` between `TABLE` and `(`
unfoldable pub open_table : State → Window → NameAndSub → Outcome State
open_table s w n = do
  require_next w.prev "Expected `CREATE TABLE` but got nothing." (is_keyword KeywordE.table)
      "Expected `TABLE` but got `{}`."
  require_next w.next "Expected `(` but got nothing." (is_symbol SymbolE.opening_par)
      "Expected `(` but got `{}`."
  ok (set_variant s (Action.create_table (record { db = n.name; name = n.sub; columns = [] })))

-- `var.columns.insert(name, l)`: a name that is there already keeps its layout.
unfoldable pub insert_column : State → Str → Layout → Outcome State
insert_column s n l = do
  a ← value s.variant
  c ← get_create_table a
  ok (
      set_variant s
        (Action.create_table (record c { columns = (KeyValueList.insert n l c.columns).0 })))

-- `STR` and a size
unfoldable pub sized_string : Window → Token → Outcome Layout
sized_string w p = do
  q ← deref w.prevm1
  if same_variant_and_value q (type TypeE.str)
      then (do n ← get_uint p; ok (layout n ColumnType.str))
      else fail "Something went wrong while extracting types."

-- The layout of a column from the tokens before its name: a type, or `STR` and a size.
unfoldable pub column_layout : Window → Outcome Layout
unfolding sized_string
column_layout w = do
  p ← deref w.prev
  if is_type p then (do t ← get_type p; ok (from_parser_type t)) else sized_string w p

unfoldable pub table_column : State → Window → Str → Outcome State
unfolding insert_column column_layout
table_column s w n = do
  require_next w.next "Expected `)` or `,` but got nothing."
      (λ t. is_symbol SymbolE.closing_par t || is_symbol SymbolE.coma t)
      "Expected `)` or `,` but got `{}`."
  l ← column_layout w
  insert_column s n l

-- `variant = {Insert{...}}` between `INTO` and `(`
unfoldable pub open_insert : State → Window → NameAndSub → Outcome State
open_insert s w n = do
  require_next w.prev "Expected `DATABASE.TABLE` identifier but got nothing."
      (is_keyword KeywordE.into) "Expected `DATABASE.TABLE` identifier but got `{}`."
  require_next w.next "Expected `(` but got nothing." (is_symbol SymbolE.opening_par)
      "Expected `(` but got `{}`."
  ok (set_variant s (Action.insert (record { database = n.name; table = n.sub; values = [] })))

-- What a name does in each context.
unfoldable pub on_name : State → Window → Str → Outcome State
unfolding table_column
on_name s w n = elim s.ctx [
  | Context.show_database_e ↦ ok (set_variant s (Action.show_database n))
  | Context.show_table_e ↦ fail "Expected table name but got `{}`."
  | Context.create_database_e ↦ ok (set_variant s (Action.create_database n))
  | Context.delete_database_e ↦ ok (set_variant s (Action.delete_database n))
  | Context.delete_table_e ↦ fail "Expected table name but got `{}`."
  | Context.create_table_e ↦ table_column s w n
  | _ ↦ ok s
]

-- What a `NAME.SUB` does in each context.
unfoldable pub on_name_and_sub : State → Window → NameAndSub → Outcome State
unfolding open_table open_insert
on_name_and_sub s w n = elim s.ctx [
  | Context.show_column_values_e ↦ do
    require_next w.next "Expected `;` after `TABLE.COLUMN` identifier but got nothing."
        (is_symbol SymbolE.semicolon) "Expected `;` after `TABLE.COLUMN` identifier but got `{}`."
    ok s
  | Context.show_database_e ↦ fail "Expected database name but got `{}`."
  | Context.show_table_e ↦ ok (set_variant s (Action.show_table n.name n.sub))
  | Context.create_database_e ↦ fail "Expected database name but got `{}`."
  | Context.delete_database_e ↦ fail "Expected database name but got `{}`."
  | Context.delete_table_e ↦ ok (set_variant s (Action.delete_table n.name n.sub))
  | Context.create_table_e ↦ open_table s w n
  | Context.insert_e ↦ open_insert s w n
  | _ ↦ ok s
]

unfoldable pub on_identifier : State → Window → Identifier → Outcome State
unfolding before_semicolon in_select on_name on_name_and_sub
on_identifier s w i = do
  before_semicolon s w
  s' ← in_select s w i
  elim i [ Identifier.name n ↦ on_name s' w n | Identifier.name_and_sub n ↦ on_name_and_sub s' w n ]
