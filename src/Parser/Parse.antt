-- ===== src/Parser/Parse.antt =====
-- src/lib/analyzer/parser.cpp: `parse`. `std::stod` is a parameter: none stands for the
-- `std::out_of_range` that it throws.
pub mod Sized
pub mod Decimal
pub mod Phrases
pub mod Print
pub mod Words
pub mod Read
pub mod RoundTrip
use Prim.Native.String.{String}
use proyecto_estructura.Prelude.{
  ℕ, zero, suc, Bool, true, false, ◌&&◌, ◌||◌, ◌==◌, if◌then◌else◌, Option, none, some, List, [],
  ◌∷◌, ◌++◌, Str, codes, str_eq,
}
use proyecto_estructura.Prelude.Int.{ℤ, pos, negsuc}
use proyecto_estructura.Outcome.{Outcome, ok, thrown, out_of_range, ◌>>=◌}
use proyecto_estructura.Column.Stream.{u64_max, i64_max, read_unsigned, read_signed}
use proyecto_estructura.Parser.Tokens.{
  OperatorE, KeywordE, TypeE, SymbolE, Double, Identifier, Numbers, Token, operator, keyword, type,
  symbol, string, numbers, identifier, unknown, bool,
}
use proyecto_estructura.Parser.Patterns.{
  is_name_text, is_integer, unsigned, split_name, is_decimal, is_quoted, unquote, str_digits,
  read_decimal,
}
use proyecto_estructura.Parser.Tokenizer.{tokenize}

-- `std::find` in a vector of words
unfoldable pub is_one_of : List String → Str → Bool
is_one_of [] s = false
is_one_of (w ∷ ws) s = str_eq (codes w) s || is_one_of ws s

pub record Case {ℓ} (A : Type ℓ) : Type ℓ where
  pub text : String
  pub token : A

infix 2 ◌↠◌
abbrev pub ◌↠◌ {ℓ} : {A : Type ℓ} → String → A → Case A
w ↠ a = record { text = w; token = a }

-- a chain of `if (*it == w) { ...; continue; }`
unfoldable pub first_case {ℓ} : {A : Type ℓ} → List (Case A) → Str → Option A
first_case [] s = none
first_case (c ∷ cs) s = if str_eq (codes c.text) s then some c.token else first_case cs s

-- `if (it != valid.end())` around such a chain
unfoldable pub find_case {ℓ} : {A : Type ℓ} → List String → List (Case A) → Str → Option A
unfolding is_one_of first_case
find_case valid cases s = if is_one_of valid s then first_case cases s else none

abbrev pub parse_symbols : List String
parse_symbols = "(" ∷ ")" ∷ ";" ∷ "*" ∷ "," ∷ []

abbrev pub symbol_cases : List (Case Token)
symbol_cases =
    ("*" ↠ symbol SymbolE.all)
    ∷ ("ALL" ↠ symbol SymbolE.all)
    ∷ ("(" ↠ symbol SymbolE.opening_par)
    ∷ (")" ↠ symbol SymbolE.closing_par)
    ∷ (";" ↠ symbol SymbolE.semicolon)
    ∷ ("," ↠ symbol SymbolE.coma)
    ∷ []

abbrev pub parse_operators : List String
parse_operators = "==" ∷ ">" ∷ "<" ∷ "!" ∷ "<=" ∷ ">=" ∷ "&&" ∷ "||" ∷ "AND" ∷ "0R" ∷ []

abbrev pub operator_cases : List (Case Token)
operator_cases =
    ("==" ↠ operator OperatorE.equal)
    ∷ ("!=" ↠ operator OperatorE.not_equal)
    ∷ ("&&" ↠ operator OperatorE.and)
    ∷ ("AND" ↠ operator OperatorE.and)
    ∷ ("||" ↠ operator OperatorE.or)
    ∷ ("0R" ↠ operator OperatorE.or)
    ∷ (">=" ↠ operator OperatorE.great_equal)
    ∷ ("<=" ↠ operator OperatorE.less_equal)
    ∷ ("<" ↠ operator OperatorE.less)
    ∷ (">" ↠ operator OperatorE.great)
    ∷ []

-- also the keywords of `validate`
abbrev pub valid_keywords : List String
valid_keywords =
    "CREATE" ∷ "DATABASE" ∷ "DATABASES" ∷ "TABLE" ∷ "INSERT" ∷ "INTO" ∷ "VALUES" ∷ "SELECT" ∷ "FROM"
    ∷ "WHERE" ∷ "UPDATE" ∷ "SET" ∷ "DELETE" ∷ "DROP" ∷ "PK" ∷ "UN" ∷ "SHOW" ∷ "COLUMN" ∷ "USING"
    ∷ []

abbrev pub keyword_cases : List (Case Token)
keyword_cases =
    ("SELECT" ↠ keyword KeywordE.select)
    ∷ ("USING" ↠ keyword KeywordE.using)
    ∷ ("INSERT" ↠ keyword KeywordE.insert)
    ∷ ("UPDATE" ↠ keyword KeywordE.update)
    ∷ ("DELETE" ↠ keyword KeywordE.delete)
    ∷ ("SHOW" ↠ keyword KeywordE.show)
    ∷ ("DROP" ↠ keyword KeywordE.drop)
    ∷ ("CREATE" ↠ keyword KeywordE.create)
    ∷ ("TABLE" ↠ keyword KeywordE.table)
    ∷ ("DATABASE" ↠ keyword KeywordE.database)
    ∷ ("DATABASES" ↠ keyword KeywordE.databases)
    ∷ ("VALUES" ↠ keyword KeywordE.values)
    ∷ ("FROM" ↠ keyword KeywordE.from)
    ∷ ("WHERE" ↠ keyword KeywordE.where_)
    ∷ ("COLUMN" ↠ keyword KeywordE.column)
    ∷ ("SET" ↠ keyword KeywordE.set)
    ∷ ("PK" ↠ keyword KeywordE.pk)
    ∷ ("UN" ↠ keyword KeywordE.un)
    ∷ ("INTO" ↠ keyword KeywordE.into)
    ∷ []

abbrev pub parse_types : List String
parse_types =
    "i8" ∷ "i16" ∷ "i32" ∷ "i64" ∷ "u8" ∷ "u16" ∷ "u32" ∷ "u64" ∷ "str" ∷ "f64" ∷ "bool" ∷ []

abbrev pub type_cases : List (Case Token)
type_cases =
    ("i8" ↠ type TypeE.i8)
    ∷ ("i16" ↠ type TypeE.i16)
    ∷ ("i32" ↠ type TypeE.i32)
    ∷ ("i64" ↠ type TypeE.i64)
    ∷ ("u8" ↠ type TypeE.u8)
    ∷ ("u16" ↠ type TypeE.u16)
    ∷ ("u32" ↠ type TypeE.u32)
    ∷ ("u64" ↠ type TypeE.u64)
    ∷ ("f64" ↠ type TypeE.f64)
    ∷ ("bool" ↠ type TypeE.bool)
    ∷ []

-- the next attempt, when the one before did not `continue`
infixr 3 ◌or_else◌
abbrev pub ◌or_else◌ {ℓ} : {A : Type ℓ} → Option A → Option A → Option A
some a or_else o = some a
none or_else o = o

-- The four lists of fixed words, in the order in which `parse` searches them.
unfoldable pub fixed_word : Str → Option Token
fixed_word s =
    find_case parse_symbols symbol_cases s
    or_else find_case valid_keywords keyword_cases s
    or_else find_case parse_operators operator_cases s
    or_else find_case parse_types type_cases s

abbrev pub negate : ℕ → ℤ
negate zero = pos 0
negate (suc n) = negsuc n

-- `num >> n`: an unsigned number unless there is a minus
unfoldable pub read_integer : Str → Numbers
unfolding read_decimal unsigned read_unsigned read_signed
read_integer [] = Numbers.uint (read_unsigned u64_max (read_decimal 0 [])).value
read_integer (c ∷ s) =
    let n = read_decimal 0 (unsigned (c ∷ s)) in
    if c == b'-'
    then Numbers.int (read_signed i64_max (negate n)).value
    else Numbers.uint (read_unsigned u64_max n).value

-- `true`, `false` and names
unfoldable pub word_token : Str → Option Token
word_token s =
    if str_eq s (codes "true")
    then some (bool true)
    else if str_eq s (codes "false")
    then some (bool false)
    else if is_name_text s
    then some (identifier (Identifier.name s))
    else elim (split_name s) [
      | none ↦ none
      | some p ↦ some (identifier (Identifier.name_and_sub p))
    ]

-- `resultado.emplace_back(t); continue;`, or what stands behind
abbrev pub or_free : Option Token → Outcome (List Token) → Outcome (List Token)
or_free (some t) m = ok (t ∷ [])
or_free none m = m

module _ (stod : Str → Option Double) where
  unfoldable pub double_token : Str → Outcome (List Token)
  double_token s =
      if is_decimal s
      then elim (stod s) [
        | none ↦ thrown out_of_range
        | some d ↦ ok (numbers (Numbers.double d) ∷ [])
      ]
      else ok (unknown s ∷ [])

  -- the tokens behind the fixed words
  unfoldable pub free_token : Str → Outcome (List Token)
  free_token s = elim (str_digits s) [
    | some ds ↦ ok (
        type TypeE.str
        ∷ numbers (Numbers.uint (read_unsigned u64_max (read_decimal 0 ds)).value)
        ∷ [])
    | none ↦
        if is_integer s
        then ok (numbers (read_integer s) ∷ [])
        else if is_quoted s
        then ok (string (unquote s) ∷ [])
        else or_free (word_token s) (double_token s)
  ]

  -- one round of the loop of `parse`: what it appends to `resultado`
  unfoldable pub parse_token : Str → Outcome (List Token)
  parse_token s = or_free (fixed_word s) (free_token s)

  unfoldable pub parse_tokens : List Str → Outcome (List Token)
  unfolding parse_token
  parse_tokens [] = ok []
  parse_tokens (w ∷ ws) = do ts ← parse_token w; us ← parse_tokens ws; ok (ts ++ us)

  unfoldable pub parse : Str → Outcome (List Token)
  unfolding tokenize parse_tokens
  parse s = do ws ← tokenize s; parse_tokens ws
