-- ===== src/Server/Select/Answer.antt =====
-- src/main.cpp: the rows that the answer to a `Show_Select` displays.
use Prim.Native.String.{String}
use proyecto_estructura.Prelude.{
  ℕ, zero, suc, ◌+◌, ◌-◌, ◌==◌, if◌then◌else◌, List, [], ◌∷◌, map, Str, length, get_elem?, head?,
  key_eq, nat_eq,
}
use proyecto_estructura.Outcome.{Outcome, ok, ◌>>=◌, deref}
use proyecto_estructura.LinkedList.ListFre.{FreValue, get_count}
use proyecto_estructura.LinkedList.Cortina.{Cortina, append_value}
use proyecto_estructura.Automata.Actions.{ShowSelect}
use proyecto_estructura.Column.Cast.{Cell}
use proyecto_estructura.Column.Codec.{Bincode}
use proyecto_estructura.Server.Databases.{Databases, Files}
use proyecto_estructura.Server.Select.{Display, push_all, display, filter}

-- `columns->value.value.for_each_node` from row `i` on, with as many restrictions as `n`
unfoldable pub show_column :
    ℕ → List (FreValue ℕ) → Str → ℕ → List Str → Cortina Str Str → Outcome (Cortina Str Str)
show_column n indexes k i [] final = ok final
show_column n indexes k i (v ∷ vs) final = do
  e ← deref (get_count i indexes)
  show_column n indexes k (i + 1) vs (if e.fre - 1 == n then append_value k v final else final)

-- `display_columns.for_each_node`
unfoldable pub show_columns :
    ℕ → List (FreValue ℕ) → Cortina Str Str → Cortina Str Str → Outcome (Cortina Str Str)
show_columns n indexes [] final = ok final
show_columns n indexes (c ∷ cs) final = do
  f ← show_column n indexes c.key 0 c.value final
  show_columns n indexes cs f

-- `for (int i = 0; i < display_columns_final.len(); i++)`: one row of the table
unfoldable pub table_row : ℕ → Cortina Str Str → Outcome (List Str)
table_row j [] = ok []
table_row j (c ∷ cs) = do v ← deref (get_elem? c.value j); vs ← table_row j cs; ok (v ∷ vs)

-- `for (int j = 0; ...; j++)`, by the rounds that are left
unfoldable pub table_rows : ℕ → ℕ → Cortina Str Str → Outcome (List (List Str))
table_rows zero j final = ok []
table_rows (suc rounds) j final = do
  r ← table_row j final
  rs ← table_rows rounds (j + 1) final
  ok (r ∷ rs)

-- the rows of the table: as many as the first column has
unfoldable pub table_of : Cortina Str Str → Outcome (List (List Str))
table_of [] = ok []
table_of (c ∷ cs) = table_rows (length c.value) 0 (c ∷ cs)

-- The errors sent, and the header and the rows of the table.
pub record Answer : Type 0 where
  pub sent : List String
  pub header : List Str
  pub rows : List (List Str)

module _ (b : Bincode) (files : Files) (dbs : Databases) where
  -- what the handler does once the columns are loaded, `n` being the length of the first
  unfoldable pub answer : ShowSelect → Display → ℕ → Outcome Answer
  answer arg d n = do
    f ←
        filter b files dbs arg.database arg.restrictions
          (record { indexes = push_all n 0 []; sent = d.sent })
    final ← show_columns (length arg.restrictions) f.indexes d.columns []
    rs ← table_of final
    ok (record { sent = f.sent; header = map (λ c. c.key) final; rows = rs })

module _ (b : Bincode) (files : Files) (dbs : Databases) (text : Cell → Str) where
  unfoldable pub resolve_select : ShowSelect → Outcome Answer
  resolve_select arg = do
    d ← display b files dbs text arg.database arg.tables (record { columns = []; sent = [] })
    first ← deref (head? d.columns)
    answer b files dbs arg d (length first.value)
