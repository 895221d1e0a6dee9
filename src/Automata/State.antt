-- ===== src/Automata/State.antt =====
-- src/lib/analyzer/automata.cpp: the variables of `get_action_struct`, the tokens in view, and
-- the tests and accesses that its visitors share.
use proyecto_estructura.Prelude.{ℕ, Bool, false, ◌||◌, Option, none, [], Str}
use proyecto_estructura.Prelude.Int.{pos}
use proyecto_estructura.Outcome.{Outcome, ok, thrown, bad_variant_access}
use proyecto_estructura.Parser.Tokens.{
  OperatorE, KeywordE, SymbolE, TypeE, NameAndSub, Identifier, Numbers, Token, operator, keyword,
  type, symbol, string, numbers, identifier, bool,
}
use proyecto_estructura.Parser.Compare.{same_variant, same_variant_and_value}
use proyecto_estructura.Automata.Actions.{
  CreateTable, Insert, ShowSelect, ShowColumnValues, Action, Context,
}

-- `ctx` and `variant`
pub record State : Type 0 where
  pub ctx : Context
  pub variant : Option Action

abbrev pub initial : State
initial = record { ctx = Context.unknown; variant = none }

-- `token_number` and the tokens around it
pub record Window : Type 0 where
  pub token_number : ℕ
  pub prevm1 : Option Token
  pub prev : Option Token
  pub curr : Token
  pub next : Option Token
  pub nextp1 : Option Token

-- `same_variant_and_value(t, Token{Keyword{k}})`, and so for the other kinds
abbrev pub is_keyword : KeywordE → Token → Bool
is_keyword k t = same_variant_and_value t (keyword k)

abbrev pub is_symbol : SymbolE → Token → Bool
is_symbol s t = same_variant_and_value t (symbol s)

abbrev pub is_operator : OperatorE → Token → Bool
is_operator o t = same_variant_and_value t (operator o)

-- the tests by `same_variant` against a token of the kind, by the code's choice of that token
unfoldable pub is_name_and_sub : Token → Bool
unfolding same_variant
is_name_and_sub t =
    same_variant t (identifier (Identifier.name_and_sub (record { name = []; sub = [] })))

unfoldable pub is_name : Token → Bool
unfolding same_variant
is_name t = same_variant t (identifier (Identifier.name []))

unfoldable pub is_type : Token → Bool
unfolding same_variant
is_type t = same_variant t (type TypeE.i8)

unfoldable pub is_any_symbol : Token → Bool
unfolding same_variant
is_any_symbol t = same_variant t (symbol SymbolE.semicolon)

-- string, int, uint, double or bool
unfoldable pub is_literal : Token → Bool
unfolding same_variant
is_literal t =
    same_variant t (string [])
    || same_variant t (numbers (Numbers.int (pos 0)))
    || same_variant t (numbers (Numbers.uint 0))
    || same_variant t (numbers (Numbers.double (record { bits = 0 })))
    || same_variant t (bool false)

-- `std::get<T>`
abbrev pub get_operator : Token → Outcome OperatorE
get_operator (operator o) = ok o
get_operator _ = thrown bad_variant_access

abbrev pub get_type : Token → Outcome TypeE
get_type (type t) = ok t
get_type _ = thrown bad_variant_access

abbrev pub get_name : Token → Outcome Str
get_name (identifier (Identifier.name n)) = ok n
get_name _ = thrown bad_variant_access

abbrev pub get_name_and_sub : Token → Outcome NameAndSub
get_name_and_sub (identifier (Identifier.name_and_sub n)) = ok n
get_name_and_sub _ = thrown bad_variant_access

abbrev pub get_uint : Token → Outcome ℕ
get_uint (numbers (Numbers.uint n)) = ok n
get_uint _ = thrown bad_variant_access

abbrev pub get_insert : Action → Outcome Insert
get_insert (Action.insert i) = ok i
get_insert _ = thrown bad_variant_access

abbrev pub get_create_table : Action → Outcome CreateTable
get_create_table (Action.create_table c) = ok c
get_create_table _ = thrown bad_variant_access

abbrev pub get_show_select : Action → Outcome ShowSelect
get_show_select (Action.show_select s) = ok s
get_show_select _ = thrown bad_variant_access

abbrev pub get_show_column_values : Action → Outcome ShowColumnValues
get_show_column_values (Action.show_column_values c) = ok c
get_show_column_values _ = thrown bad_variant_access
