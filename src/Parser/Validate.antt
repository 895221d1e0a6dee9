-- ===== src/Parser/Validate.antt =====
-- src/lib/analyzer/tokenizer.cpp: `validate`.
pub mod Agrees
use Prim.Native.String.{String}
use proyecto_estructura.Prelude.{
  Bool, true, false, ◌||◌, if◌then◌else◌, Option, none, some, List, [], ◌∷◌, ◌++◌, Str, codes,
  is_some,
}
use proyecto_estructura.Outcome.{Outcome, ok, ◌>>=◌}
use proyecto_estructura.Parser.Patterns.{
  is_name_text, is_integer, split_name, is_decimal, is_quoted,
}
use proyecto_estructura.Parser.Parse.{is_one_of, valid_keywords, ◌or_else◌}
use proyecto_estructura.Parser.Tokenizer.{tokenize}

pub data TokenType : Type 0 where
  keyword identifier type token string number operator : TokenType

abbrev pub valid_tokens : List String
valid_tokens = "(" ∷ ")" ∷ ";" ∷ "*" ∷ []

abbrev pub valid_operators : List String
valid_operators = "==" ∷ ">" ∷ "<" ∷ "!" ∷ "<=" ∷ ">=" ∷ "," ∷ "&&" ∷ "||" ∷ "AND" ∷ "0R" ∷ []

abbrev pub valid_types : List String
valid_types =
    "i8" ∷ "i16" ∷ "i32" ∷ "i64" ∷ "u8" ∷ "u16" ∷ "u32" ∷ "u64" ∷ "str" ∷ "f32" ∷ "f64" ∷ "bool"
    ∷ []

-- `if (found_in_...) current_type = ...;`
abbrev pub found : Bool → TokenType → Option TokenType
found true t = some t
found false t = none

-- the branches that match regular expressions
unfoldable pub free_type : Str → Option TokenType
free_type s =
    found (is_decimal s || is_integer s) TokenType.number
    or_else found (is_quoted s) TokenType.string
    or_else found (is_name_text s || is_some (split_name s)) TokenType.identifier

-- What `current_type` becomes; none when the token is invalid.
unfoldable pub current_type : Str → Option TokenType
current_type s =
    found (is_one_of valid_tokens s) TokenType.token
    or_else found (is_one_of valid_operators s) TokenType.operator
    or_else found (is_one_of valid_keywords s) TokenType.keyword
    or_else found (is_one_of valid_types s) TokenType.type
    or_else free_type s

-- `std::tuple<bool, std::optional<std::string>>`
pub record Validation : Type 0 where
  pub accepted : Bool
  pub message : Option Str

-- `for (auto &token : tokens)`
unfoldable pub validate_tokens : List Str → Validation
unfolding current_type
validate_tokens [] = record { accepted = true; message = none }
validate_tokens (w ∷ ws) = elim (current_type w) [
  | none ↦ record { accepted = false; message = some (codes "Invalid token: " ++ w) }
  | some t ↦ validate_tokens ws
]

unfoldable pub validate : Str → Outcome Validation
unfolding tokenize validate_tokens
validate s = do ws ← tokenize s; ok (validate_tokens ws)
