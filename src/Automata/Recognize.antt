-- ===== src/Automata/Recognize.antt =====
-- What a token is, from the test that it passes.
use proyecto_estructura.Prelude.{◌≡◌, refl, true, arith, Str}
use proyecto_estructura.Parser.Compare.{same_variant_and_value}
use proyecto_estructura.Parser.Tokens.{
  KeywordE, SymbolE, TypeE, NameAndSub, Identifier, Numbers, Token, keyword, type, symbol, string,
  numbers, identifier, bool,
}
use proyecto_estructura.Automata.Actions.{Value}
use proyecto_estructura.Automata.State.{
  is_keyword, is_symbol, is_name, is_name_and_sub, is_type, is_literal,
}

-- The token of a literal.
abbrev pub value_token : Value → Token
value_token (Value.string s) = string s
value_token (Value.uint n) = numbers (Numbers.uint n)
value_token (Value.int n) = numbers (Numbers.int n)
value_token (Value.double d) = numbers (Numbers.double d)
value_token (Value.bool b) = bool b

pub is_keyword-eq : (k : KeywordE) (t : Token) → is_keyword k t ≡ true → t ≡ keyword k
unfolding same_variant_and_value
is_keyword-eq k t h = ground arith

pub is_symbol-eq : (k : SymbolE) (t : Token) → is_symbol k t ≡ true → t ≡ symbol k
unfolding same_variant_and_value
is_symbol-eq k t h = ground arith

pub is_name-eq : (t : Token) → is_name t ≡ true → (n : Str) × (t ≡ identifier (Identifier.name n))
unfolding is_name
is_name-eq t h = ground arith

pub is_name_and_sub-eq :
    (t : Token)
    → is_name_and_sub t ≡ true
    → (n : NameAndSub) × (t ≡ identifier (Identifier.name_and_sub n))
unfolding is_name_and_sub
is_name_and_sub-eq t h = ground arith

pub is_type-eq : (t : Token) → is_type t ≡ true → (u : TypeE) × (t ≡ type u)
unfolding is_type
is_type-eq t h = ground arith

pub is_literal-eq : (t : Token) → is_literal t ≡ true → (v : Value) × (t ≡ value_token v)
unfolding is_literal
is_literal-eq (string s) h = (Value.string s, refl)
is_literal-eq (bool b) h = (Value.bool b, refl)
is_literal-eq (numbers (Numbers.int n)) h = (Value.int n, refl)
is_literal-eq (numbers (Numbers.uint n)) h = (Value.uint n, refl)
is_literal-eq (numbers (Numbers.double n)) h = (Value.double n, refl)
is_literal-eq t h = absurd (ground arith)

pub is_literal-value_token : (v : Value) → is_literal (value_token v) ≡ true
unfolding is_literal
is_literal-value_token v = ground arith
