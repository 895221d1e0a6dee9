-- ===== src/Automata/Keywords/Clauses.antt =====
-- src/lib/analyzer/automata.cpp: the keywords inside a query.
use proyecto_estructura.Prelude.{not, ◌||◌, ◌==◌, if◌then◌else◌, none, some, []}
use proyecto_estructura.Outcome.{Outcome, ok, fail, ◌>>=◌, ◌>>◌, value, require, require_next}
use proyecto_estructura.Parser.Tokens.{KeywordE, SymbolE, Token}
use proyecto_estructura.Automata.Actions.{Action, Context}
use proyecto_estructura.Automata.State.{
  State, Window, is_keyword, is_symbol, is_any_symbol, is_name, is_name_and_sub, get_name,
  get_name_and_sub, get_show_column_values,
}

unfoldable pub on_select : State → Window → Outcome State
on_select s w = elim s.ctx [
  | Context.select_e ↦ do
    require (not (w.token_number == 0)) "Found `Select` keyword not as the query root."
    require_next w.next "Expected `table.row` table.row but got nothing." is_name_and_sub
        "Expected `table.row` table.row but got nothing."
    ok s
  | _ ↦ ok s
]

-- `next.value()` is called before `next.has_value()` is asked for.
unfoldable pub on_where : State → Window → Outcome State
on_where s w = elim s.ctx [
  | Context.where_e ↦ do
    t ← value w.next
    require (is_name_and_sub t) "Expected `table.row` table.row but got nothing."
    ok s
  | _ ↦ ok s
]

-- `FROM DATABASE.TABLE;`
unfoldable pub from_table : State → Window → Token → Outcome State
from_table s w t = do
  require_next w.nextp1 "Expected `;` after `FROM DATABASE.TABLE` but got nothing." is_any_symbol
      "Expected `;` after `FROM DATABASE.TABLE` but got `{}`."
  n ← get_name_and_sub t
  ok (record s { variant = some (Action.show_table_data n.name n.sub) })

-- `FROM DATABASE TABLE.COLUMN;`
unfoldable pub from_column : State → Window → Token → Outcome State
from_column s w t = do
  require_next w.nextp1 "Expected `TABLE.COLUMN` after `FROM DATABASE` but got nothing."
      is_name_and_sub "Expected `TABLE.COLUMN` after `FROM DATABASE` but got `{}`."
  d ← get_name t
  u ← value w.nextp1
  n ← get_name_and_sub u
  ok (record s {
    ctx = Context.show_column_values_e;
    variant =
        some (Action.show_column_values (record { database = d; table = n.name; column = n.sub }));
  })

unfoldable pub on_from : State → Window → Outcome State
unfolding from_table from_column
on_from s w = elim s.ctx [
  | Context.unknown ↦ do
    require (not (w.token_number == 0)) "Found `FROM` keyword not as the query root."
    require_next w.next
        "Expected `Database name` identifier after `FROM` but got something incorrect."
        (λ t. is_name_and_sub t || is_name t)
        "Expected `DATABASE.TABLE` or `DATABASE` identifier after `FROM` but got `{}`."
    t ← value w.next
    if is_name_and_sub t then from_table s w t else if is_name t then from_column s w t else ok s
  | _ ↦ ok s
]

unfoldable pub on_column : State → Window → Outcome State
on_column s w = elim s.ctx [
  | Context.show_column_values_e ↦ do
    require_next w.next "Expected `TABLE.COLUMN` identifier after `COLUMN` but got nothing."
        is_name_and_sub "Expected `TABLE.COLUMN` identifier after `COLUMN` but got `{}`."
    require_next w.nextp1 "Expected `;` after `TABLE.COLUMN` but got nothing." is_any_symbol
        "Expected `;` after `TABLE.COLUMN` but got `{}`."
    a ← value s.variant
    c ← get_show_column_values a
    t ← value w.next
    n ← get_name_and_sub t
    ok (record s {
      variant = some (Action.show_column_values (record c { table = n.name; column = n.sub }));
    })
  | _ ↦ ok s
]

unfoldable pub on_into : State → Window → Outcome State
on_into s w = do
  require_next w.next "Expected `DATABASE.TABLE` identifier after `INTO` but got nothing."
      is_name_and_sub "Expected `DATABASE.TABLE` identifier after `INTO` but got `{}`."
  ok s

unfoldable pub on_table : State → Window → Outcome State
on_table s w = elim s.ctx [
  | Context.create_table_e ↦ do
    require_next w.next "Expected `DATABASE.TABLE` identifier after `CREATE TABLE` but got nothing."
        is_name_and_sub "Expected `DATABASE.TABLE` identifier after `CREATE TABLE` but got `{}`."
    ok s
  | Context.delete_table_e ↦ do
    require_next w.next "Expected `DATABASE.TABLE` identifier after `DELETE TABLE` but got nothing."
        is_name_and_sub "Expected `DATABASE.TABLE` identifier after `DELETE TABLE` but got `{}`."
    ok s
  | _ ↦ ok s
]

-- The name that must follow `DATABASE`.
unfoldable pub database_name : Window → Outcome Token
database_name w = do
  require_next w.next "Expected `DATABASE` name after `DATABASE` keyword but got nothing." is_name
      "Expected `DATABASE` name after `DATABASE` keyword but got `{}`."
  value w.next

unfoldable pub on_database : State → Window → Outcome State
unfolding database_name
on_database s w = elim s.ctx [
  | Context.create_database_e ↦ do t ← database_name w; ok s
  | Context.delete_database_e ↦ do t ← database_name w; ok s
  | Context.show_column_values_e ↦ do
    t ← database_name w
    n ← get_name t
    ok (record s {
      variant = some (Action.show_column_values (record { database = []; table = n; column = [] }));
    })
  | Context.show_table_data_e ↦ do
    t ← database_name w
    n ← get_name t
    ok (record s {
      variant =
          some (Action.show_column_values (record { database = []; table = []; column = [] }));
    })
  | _ ↦ ok s
]

-- `SHOW DATABASES ;` with both neighbours present
unfoldable pub show_databases : State → Token → Token → Outcome State
show_databases s p n = do
  require (is_keyword KeywordE.show p) "Expected `SHOW` keyword before `DATABASES` but got `{}`."
  require (is_symbol SymbolE.semicolon n) "Expected `;` after `DATABASES` but got `{}`."
  ok (record s { variant = some Action.show_databases })

unfoldable pub on_databases : State → Window → Outcome State
unfolding show_databases
on_databases s w = elim s.ctx [
  | Context.show_databases_e ↦ elim w.prev [
    | none ↦ fail "Expected `SHOW DATABASES;`."
    | some p ↦ elim w.next [
      | none ↦ fail "Expected `SHOW DATABASES;`."
      | some n ↦ show_databases s p n
    ]
  ]
  | _ ↦ ok s
]
