-- ===== src/Automata/Values.antt =====
-- src/lib/analyzer/automata.cpp: the visitors of `Bool`, `String` and `Numbers`, which end alike.
use proyecto_estructura.Prelude.{Bool, ◌||◌, Str, some, [], ◌∷◌, ◌++◌}
use proyecto_estructura.Outcome.{Outcome, ok, ◌>>=◌, ◌>>◌, value, deref, require_next}
use proyecto_estructura.Parser.Tokens.{OperatorE, SymbolE, Numbers}
use proyecto_estructura.Automata.Actions.{Value, Action, Context}
use proyecto_estructura.Automata.State.{
  State, Window, is_symbol, is_operator, get_operator, get_name_and_sub, get_insert,
  get_show_select,
}

-- In `InsertE`: the value must be followed by `)` or `,`, and joins the row.
unfoldable pub insert_value : State → Window → Value → Outcome State
insert_value s w v = do
  require_next w.next "Expected `)` or `,` but got nothing."
      (λ t. is_symbol SymbolE.closing_par t || is_symbol SymbolE.coma t)
      "Expected `)` or `,` but got `{}`."
  a ← value s.variant
  i ← get_insert a
  ok (record s { variant = some (Action.insert (record i { values = i.values ++ v ∷ [] })) })

-- In `WhereE`: the value ends a restriction with the operator and the column before it.
unfoldable pub restrict_value : State → Window → Value → Outcome State
restrict_value s w v = do
  require_next w.next "Expected `;`, `AND` or `OR` but got nothing."
      (λ t.
        is_symbol SymbolE.semicolon t || is_operator OperatorE.and t || is_operator OperatorE.or t)
      "Expected `;`, `AND` or `OR`  but got `{}`."
  a ← value s.variant
  sel ← get_show_select a
  p ← deref w.prev
  o ← get_operator p
  q ← deref w.prevm1
  n ← get_name_and_sub q
  ok (record s {
    variant = some (
        Action.show_select (record sel {
          restrictions = sel.restrictions ++ record { column = n; operator = o; value = v } ∷ [];
        }));
  })

unfoldable pub on_value : State → Window → Value → Outcome State
unfolding insert_value restrict_value
on_value s w v = elim s.ctx [
  | Context.insert_e ↦ insert_value s w v
  | Context.where_e ↦ restrict_value s w v
  | _ ↦ ok s
]

unfoldable pub on_bool : State → Window → Bool → Outcome State
unfolding on_value
on_bool s w b = on_value s w (Value.bool b)

unfoldable pub on_string : State → Window → Str → Outcome State
unfolding on_value
on_string s w t = on_value s w (Value.string t)

abbrev pub value_of_numbers : Numbers → Value
value_of_numbers (Numbers.int n) = Value.int n
value_of_numbers (Numbers.uint n) = Value.uint n
value_of_numbers (Numbers.double d) = Value.double d

unfoldable pub on_numbers : State → Window → Numbers → Outcome State
unfolding on_value
on_numbers s w n = on_value s w (value_of_numbers n)
