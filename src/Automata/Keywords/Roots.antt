-- ===== src/Automata/Keywords/Roots.antt =====
-- src/lib/analyzer/automata.cpp: the keywords that begin a query.
use proyecto_estructura.Prelude.{◌||◌, ◌==◌, if◌then◌else◌, none, some, []}
use proyecto_estructura.Outcome.{Outcome, ok, fail, ◌>>=◌, ◌>>◌, value, require, require_next}
use proyecto_estructura.Parser.Tokens.{KeywordE, Token}
use proyecto_estructura.Automata.Actions.{Action, Context}
use proyecto_estructura.Automata.State.{State, Window, is_keyword, is_name, get_name}

-- `if (ctx == Context::Unknown) ctx = c;`
abbrev pub when_unknown : Context → Context → Context
when_unknown Context.unknown c = c
when_unknown ctx c = ctx

abbrev pub enter : State → Context → State
enter s c = record s { ctx = when_unknown s.ctx c }

unfoldable pub on_create : State → Window → Outcome State
on_create s w = do
  require (w.token_number == 0) "Found `CREATE` keyword not as the query root."
  require_next w.next "Expected `DATABASE` or `TABLE` after `CREATE` but got nothing."
      (λ t. is_keyword KeywordE.database t || is_keyword KeywordE.table t)
      "Expected `DATABASE` or `TABLE` after `CREATE` but got `{}`."
  t ← value w.next
  ok (
      enter s (
        if is_keyword KeywordE.database t
        then Context.create_database_e
        else Context.create_table_e))

unfoldable pub on_delete : State → Window → Outcome State
on_delete s w = do
  require (w.token_number == 0) "Found `DELETE` keyword not as the query root."
  require_next w.next "Expected `DATABASE` or `TABLE` after `DELETE` but got nothing."
      (λ t. is_keyword KeywordE.database t || is_keyword KeywordE.table t)
      "Expected `DATABASE` or `TABLE` after `DELETE` but got `{}`."
  t ← value w.next
  ok (
      enter s (
        if is_keyword KeywordE.database t
        then Context.delete_database_e
        else Context.delete_table_e))

-- `SHOW FROM` leaves the context unknown.
abbrev pub show_context : Token → Context
show_context t =
    if is_keyword KeywordE.database t
    then Context.show_database_e
    else if is_keyword KeywordE.databases t
    then Context.show_databases_e
    else if is_keyword KeywordE.table t
    then Context.show_table_e
    else Context.unknown

unfoldable pub on_show : State → Window → Outcome State
on_show s w = do
  require (w.token_number == 0) "Found `SHOW` keyword not as the query root."
  require_next w.next
      "Expected `DATABASE`, `DATABASES`, `FROM` or `TABLE` after `SHOW` but got nothing."
      (λ t.
        is_keyword KeywordE.database t
        || is_keyword KeywordE.table t
        || is_keyword KeywordE.from t
        || is_keyword KeywordE.databases t)
      "Expected `DATABASE`, `DATABASES`, `FROM` or `TABLE` after `SHOW` but got `{}`."
  t ← value w.next
  ok (enter s (show_context t))

unfoldable pub on_insert : State → Window → Outcome State
on_insert s w = do
  require (w.token_number == 0) "Found `INSERT` keyword not as the query root."
  require_next w.next "Expected `INTO` after `INSERT` but got nothing." (is_keyword KeywordE.into)
      "Expected `INTO` after `INSERT` but got `{}`."
  ok (enter s Context.insert_e)

-- The database of a `SELECT`; anything but a name leaves the context unknown.
unfoldable pub select_from : State → Token → Outcome State
select_from s t = elim s.ctx [
  | Context.unknown ↦
      if is_name t
      then (do
        n ← get_name t
        ok (record s {
          ctx = Context.select_e;
          variant =
              some (Action.show_select (record { database = n; tables = []; restrictions = [] }));
        }))
      else ok s
  | _ ↦ ok s
]

unfoldable pub on_using : State → Window → Outcome State
unfolding select_from
on_using s w = do
  require (w.token_number == 0) "Found `Select` keyword not as the query root."
  elim w.next [ none ↦ fail "Expected `database` name but got nothing." | some t ↦ select_from s t ]
