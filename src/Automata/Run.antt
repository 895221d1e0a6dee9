-- ===== src/Automata/Run.antt =====
-- src/lib/analyzer/automata.cpp: `get_action_struct`.
use proyecto_estructura.Prelude.{
  ℕ, zero, suc, ◌+◌, ◌-◌, ltb, if◌then◌else◌, none, some, List, length, get_elem?,
}
use proyecto_estructura.Outcome.{Outcome, ok, fail, ◌>>=◌}
use proyecto_estructura.Parser.Tokens.{
  Token, operator, keyword, type, symbol, string, numbers, identifier, unknown, bool,
}
use proyecto_estructura.Automata.Actions.{Action}
use proyecto_estructura.Automata.State.{State, Window, initial}
use proyecto_estructura.Automata.Values.{on_bool, on_string, on_numbers}
use proyecto_estructura.Automata.Symbols.{on_symbol, on_type}
use proyecto_estructura.Automata.Keywords.{on_keyword}
use proyecto_estructura.Automata.Identifiers.{on_identifier}
use proyecto_estructura.Automata.Operators.{on_operator, on_unknown}

-- `std::visit(visitor, *curr)`
unfoldable pub visit : State → Window → Token → Outcome State
unfolding on_bool on_string on_numbers on_symbol on_type on_keyword on_identifier on_operator
    on_unknown
visit s w (bool b) = on_bool s w b
visit s w (keyword k) = on_keyword s w k
visit s w (type t) = on_type s w t
visit s w (symbol t) = on_symbol s w t
visit s w (string t) = on_string s w t
visit s w (numbers n) = on_numbers s w n
visit s w (identifier i) = on_identifier s w i
visit s w (operator o) = on_operator s w o
visit s w (unknown u) = on_unknown s w u

-- The tokens around position `n`; `in.size() - 1` does not wrap, as `n` is a position of `ts`.
unfoldable pub window : List Token → ℕ → Token → Window
window ts n t = record {
  token_number = n;
  prevm1 = if ltb 1 n then get_elem? ts (n - 2) else none;
  prev = if ltb 0 n then get_elem? ts (n - 1) else none;
  curr = t;
  next = if ltb n (length ts - 1) then get_elem? ts (n + 1) else none;
  nextp1 = if ltb (n + 1) (length ts - 1) then get_elem? ts (n + 2) else none;
}

-- `for (token_number = 0; token_number < in.size(); token_number++)`, by the rounds that are left
unfoldable pub loop : List Token → ℕ → ℕ → State → Outcome State
unfolding window
loop ts zero n s = ok s
loop ts (suc rounds) n s = elim (get_elem? ts n) [
  | none ↦ ok s
  | some t ↦ (do s' ← visit s (window ts n t) t; loop ts rounds (n + 1) s')
]

abbrev pub finish : State → Outcome Action
finish s = elim s.variant [ none ↦ fail "Unknown query." | some a ↦ ok a ]

unfoldable pub get_action_struct : List Token → Outcome Action
unfolding loop
get_action_struct ts = do s ← loop ts (length ts) 0 initial; finish s
