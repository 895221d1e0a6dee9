-- ===== src/Automata/Operators.antt =====
-- src/lib/analyzer/automata.cpp: the visitors of `Operator` and `Unknown`.
use proyecto_estructura.Prelude.{Str}
use proyecto_estructura.Outcome.{Outcome, ok, fail, ◌>>=◌, ◌>>◌, value, require, require_next}
use proyecto_estructura.Parser.Tokens.{OperatorE}
use proyecto_estructura.Automata.Actions.{Context}
use proyecto_estructura.Automata.State.{State, Window, is_literal, is_name_and_sub}

-- `AND` and `OR` stand between a value and a column.
unfoldable pub connective : State → Window → Outcome State
connective s w = do
  require_next w.prev "Expected value but got nothing." is_literal "Expected value but got `{}`."
  require_next w.next "Expected table.column identifier but got nothing." is_name_and_sub
      "Expected table.column identifier but got `{}`."
  ok s

-- The other operators stand between a column and a value.
unfoldable pub comparison : State → Window → Outcome State
comparison s w = do
  p ← value w.prev
  require (is_name_and_sub p) "Expected `TABLE.ROW` identifier but got nothing."
  require_next w.next "Expected string, int, uint, bool or f64 value but got nothing." is_literal
      "Expected string, int, uint, bool or f64 value but got {}."
  ok s

unfoldable pub where_operator : State → Window → OperatorE → Outcome State
unfolding connective comparison
where_operator s w OperatorE.and = connective s w
where_operator s w OperatorE.or = connective s w
where_operator s w _ = comparison s w

unfoldable pub on_operator : State → Window → OperatorE → Outcome State
unfolding where_operator
on_operator s w o = elim s.ctx [ Context.where_e ↦ where_operator s w o | _ ↦ ok s ]

unfoldable pub on_unknown : State → Window → Str → Outcome State
on_unknown s w u = fail "Found unknown token `{}`."
