-- ===== src/Automata/Keywords.antt =====
-- src/lib/analyzer/automata.cpp: the visitor of `Keyword`, a function for each `case`.
mod Roots
mod Clauses
unfoldable pub use Roots.*
unfoldable pub use Clauses.*
use proyecto_estructura.Outcome.{Outcome, ok}
use proyecto_estructura.Parser.Tokens.{KeywordE}
use proyecto_estructura.Automata.State.{State, Window}

unfoldable pub on_keyword : State → Window → KeywordE → Outcome State
unfolding on_create on_using on_delete on_show on_insert on_select on_where on_from on_column
    on_into on_table on_database on_databases
on_keyword s w KeywordE.create = on_create s w
on_keyword s w KeywordE.using = on_using s w
on_keyword s w KeywordE.select = on_select s w
on_keyword s w KeywordE.where_ = on_where s w
on_keyword s w KeywordE.delete = on_delete s w
on_keyword s w KeywordE.show = on_show s w
on_keyword s w KeywordE.from = on_from s w
on_keyword s w KeywordE.column = on_column s w
on_keyword s w KeywordE.into = on_into s w
on_keyword s w KeywordE.insert = on_insert s w
on_keyword s w KeywordE.table = on_table s w
on_keyword s w KeywordE.database = on_database s w
on_keyword s w KeywordE.databases = on_databases s w
on_keyword s w _ = ok s
