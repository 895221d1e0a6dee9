-- ===== src/Automata/Symbols.antt =====
-- src/lib/analyzer/automata.cpp: the visitors of `Symbol` and `Type`.
use proyecto_estructura.Prelude.{◌||◌, none, some}
use proyecto_estructura.Outcome.{Outcome, ok, fail, ◌>>=◌, ◌>>◌, deref, require, require_next}
use proyecto_estructura.Parser.Tokens.{SymbolE, TypeE}
use proyecto_estructura.Automata.Actions.{Context}
use proyecto_estructura.Automata.State.{State, Window, is_symbol, is_name, is_type, is_literal}

unfoldable pub on_semicolon : State → Window → Outcome State
on_semicolon s w = elim w.next [
  | none ↦ ok s
  | some _ ↦ fail "Expected end of query after semicolon but got `{}`"
]

unfoldable pub on_opening_par : State → Window → Outcome State
on_opening_par s w = elim s.ctx [
  | Context.create_table_e ↦ do
    require_next w.next
        "Expected type after opening parenthesis in `CREATE TABLE` context but got nothing" is_type
        "Expected type after opening parenthesis in `CREATE TABLE` context but got `{}`"
    ok s
  | Context.insert_e ↦ do
    require_next w.next
        "Expected str, uint, int, bool or double literal after opening parenthesis in `INSERT INTO` context but got nothing"
        is_literal
        "Expected str, uint, int, bool or double literal after opening parenthesis in `INSERT INTO` context but got `{}`"
    ok s
  | _ ↦ ok s
]

unfoldable pub on_coma : State → Window → Outcome State
on_coma s w = elim s.ctx [
  | Context.create_table_e ↦ do
    require_next w.next "Expected type or `)` in `CREATE TABLE` context but got nothing"
        (λ t. is_symbol SymbolE.closing_par t || is_type t)
        "Expected type or `)` in `CREATE TABLE` context but got `{}`"
    ok s
  | Context.insert_e ↦ do
    require_next w.next "Expected value or `)` in `INSERT INTO` context but got nothing"
        (λ t. is_symbol SymbolE.closing_par t || is_literal t)
        "Expected value or `)` in `INSERT INTO` context but got `{}`"
    ok s
  | _ ↦ ok s
]

unfoldable pub on_closing_par : State → Window → Outcome State
on_closing_par s w = elim s.ctx [
  | Context.create_table_e ↦ do
    require_next w.next "Expected `;` in `CREATE TABLE` context but got nothing"
        (is_symbol SymbolE.semicolon) "Expected `;` in `CREATE TABLE` context but got `{}`"
    ok s
  | Context.insert_e ↦ do
    require_next w.next "Expected `;` in `INSERT INTO` context but got nothing"
        (is_symbol SymbolE.semicolon) "Expected `;` in `INSERT INTO` context but got `{}`"
    ok s
  | _ ↦ ok s
]

unfoldable pub on_symbol : State → Window → SymbolE → Outcome State
unfolding on_semicolon on_opening_par on_coma on_closing_par
on_symbol s w SymbolE.semicolon = on_semicolon s w
on_symbol s w SymbolE.opening_par = on_opening_par s w
on_symbol s w SymbolE.coma = on_coma s w
on_symbol s w SymbolE.closing_par = on_closing_par s w
on_symbol s w SymbolE.all = ok s

-- In `CREATE TABLE` a type must be followed by a name; for `STR` the size stands in between. The
-- message of a missing name prints `*next`.
unfoldable pub column_type : State → Window → TypeE → Outcome State
column_type s w TypeE.str = elim w.nextp1 [
  | none ↦ do
    t ← deref w.next
    fail "Expected name after type str{} in `CREATE TABLE` context but got nothing"
  | some u ↦ do
    require (is_name u) "Expected name after type str{} in `CREATE TABLE` context but got `{}`"
    ok s
]
column_type s w _ = do
  require_next w.next "Expected name after type `{}` in `CREATE TABLE` context but got nothing"
      is_name "Expected name after type `{}` in `CREATE TABLE` context but got `{}`"
  ok s

unfoldable pub on_type : State → Window → TypeE → Outcome State
unfolding column_type
on_type s w t = elim s.ctx [ Context.create_table_e ↦ column_type s w t | _ ↦ ok s ]
