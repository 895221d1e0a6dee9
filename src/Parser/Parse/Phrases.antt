-- ===== src/Parser/Parse/Phrases.antt =====
-- What the tokens of a query are written as.
use proyecto_estructura.Prelude.{
  ℕ, Bool, true, false, not, ◌&&◌, leb, List, [], ◌∷◌, ◌++◌, Str, codes, str_eq, is_some,
}
use proyecto_estructura.Column.Stream.{u64_max, i64_max}
use proyecto_estructura.Parser.Tokens.{
  OperatorE, KeywordE, TypeE, SymbolE, Identifier, Numbers, NameAndSub, Token, operator, keyword,
  type, symbol, numbers, identifier, bool,
}
use proyecto_estructura.Parser.Patterns.{is_name_text, str_digits}
use proyecto_estructura.Parser.Parse.{fixed_word, negate}
use proyecto_estructura.Parser.Parse.Decimal.{digits}
use proyecto_estructura.Parser.Tokenizer.Lexemes.{Joined, Separator, Lexeme}

-- A keyword, a symbol, an operator, a type, a type with a size, a number, a number with a minus, a
-- Boolean, a name or two names with a dot.
pub data Phrase : Type 0 where
  word : KeywordE → Phrase
  mark : SymbolE → Phrase
  test : OperatorE → Phrase
  kind : TypeE → Phrase
  sized uint minus : ℕ → Phrase
  flag : Bool → Phrase
  name : Str → Phrase
  member : NameAndSub → Phrase

abbrev pub keyword_text : KeywordE → Str
keyword_text KeywordE.create = codes "CREATE"
keyword_text KeywordE.database = codes "DATABASE"
keyword_text KeywordE.table = codes "TABLE"
keyword_text KeywordE.insert = codes "INSERT"
keyword_text KeywordE.into = codes "INTO"
keyword_text KeywordE.values = codes "VALUES"
keyword_text KeywordE.select = codes "SELECT"
keyword_text KeywordE.from = codes "FROM"
keyword_text KeywordE.where_ = codes "WHERE"
keyword_text KeywordE.update = codes "UPDATE"
keyword_text KeywordE.set = codes "SET"
keyword_text KeywordE.delete = codes "DELETE"
keyword_text KeywordE.drop = codes "DROP"
keyword_text KeywordE.pk = codes "PK"
keyword_text KeywordE.un = codes "UN"
keyword_text KeywordE.show = codes "SHOW"
keyword_text KeywordE.databases = codes "DATABASES"
keyword_text KeywordE.column = codes "COLUMN"
keyword_text KeywordE.using = codes "USING"

abbrev pub symbol_lexeme : SymbolE → Lexeme
symbol_lexeme SymbolE.coma = Lexeme.single Separator.comma
symbol_lexeme SymbolE.semicolon = Lexeme.single Separator.semicolon
symbol_lexeme SymbolE.all = Lexeme.plain (codes "*")
symbol_lexeme SymbolE.closing_par = Lexeme.single Separator.closing
symbol_lexeme SymbolE.opening_par = Lexeme.single Separator.opening

abbrev pub operator_lexeme : OperatorE → Lexeme
operator_lexeme OperatorE.and = Lexeme.plain (codes "AND")
operator_lexeme OperatorE.or = Lexeme.plain (codes "||")
operator_lexeme OperatorE.equal = Lexeme.joined Joined.equality
operator_lexeme OperatorE.great_equal = Lexeme.joined Joined.at_least
operator_lexeme OperatorE.less_equal = Lexeme.joined Joined.at_most
operator_lexeme OperatorE.not_equal = Lexeme.joined Joined.inequality
operator_lexeme OperatorE.less = Lexeme.single Separator.less
operator_lexeme OperatorE.great = Lexeme.single Separator.greater

abbrev pub type_text : TypeE → Str
type_text TypeE.i8 = codes "i8"
type_text TypeE.i16 = codes "i16"
type_text TypeE.i32 = codes "i32"
type_text TypeE.i64 = codes "i64"
type_text TypeE.u8 = codes "u8"
type_text TypeE.u16 = codes "u16"
type_text TypeE.u32 = codes "u32"
type_text TypeE.u64 = codes "u64"
type_text TypeE.f64 = codes "f64"
type_text TypeE.bool = codes "bool"
type_text TypeE.str = codes "str"

abbrev pub flag_text : Bool → Str
flag_text true = codes "true"
flag_text false = codes "false"

abbrev pub lexeme : Phrase → Lexeme
lexeme (Phrase.word k) = Lexeme.plain (keyword_text k)
lexeme (Phrase.mark s) = symbol_lexeme s
lexeme (Phrase.test o) = operator_lexeme o
lexeme (Phrase.kind t) = Lexeme.plain (type_text t)
lexeme (Phrase.sized n) = Lexeme.plain (b's' ∷ b't' ∷ b'r' ∷ digits n)
lexeme (Phrase.uint n) = Lexeme.plain (digits n)
lexeme (Phrase.minus n) = Lexeme.plain (b'-' ∷ digits n)
lexeme (Phrase.flag b) = Lexeme.plain (flag_text b)
lexeme (Phrase.name s) = Lexeme.plain s
lexeme (Phrase.member p) = Lexeme.plain (p.name ++ b'.' ∷ p.sub)

abbrev pub tokens : Phrase → List Token
tokens (Phrase.word k) = keyword k ∷ []
tokens (Phrase.mark s) = symbol s ∷ []
tokens (Phrase.test o) = operator o ∷ []
tokens (Phrase.kind t) = type t ∷ []
tokens (Phrase.sized n) = type TypeE.str ∷ numbers (Numbers.uint n) ∷ []
tokens (Phrase.uint n) = numbers (Numbers.uint n) ∷ []
tokens (Phrase.minus n) = numbers (Numbers.int (negate n)) ∷ []
tokens (Phrase.flag b) = bool b ∷ []
tokens (Phrase.name s) = identifier (Identifier.name s) ∷ []
tokens (Phrase.member p) = identifier (Identifier.name_and_sub p) ∷ []

-- a name that nothing else reads
abbrev pub is_plain_name : Str → Bool
is_plain_name s =
    is_name_text s
    && (not (is_some (fixed_word s))
        && (not (is_some (str_digits s))
            && (not (str_eq s (codes "true")) && not (str_eq s (codes "false")))))

abbrev pub is_phrase : Phrase → Bool
is_phrase (Phrase.test OperatorE.not_equal) = false
is_phrase (Phrase.kind TypeE.str) = false
is_phrase (Phrase.sized n) = leb n u64_max
is_phrase (Phrase.uint n) = leb n u64_max
is_phrase (Phrase.minus n) = leb n i64_max
is_phrase (Phrase.name s) = is_plain_name s
is_phrase (Phrase.member p) = is_name_text p.name && is_name_text p.sub
is_phrase _ = true

abbrev pub are_phrases : List Phrase → Bool
are_phrases [] = true
are_phrases (p ∷ ps) = is_phrase p && are_phrases ps

abbrev pub all_tokens : List Phrase → List Token
all_tokens [] = []
all_tokens (p ∷ ps) = tokens p ++ all_tokens ps
