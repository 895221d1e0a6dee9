-- ===== src/Tests/Texts.antt =====
-- Concrete texts of queries.
use proyecto_estructura.Prelude.{
  ◌≡◌, ◌↔◌, refl, true, false, Option, none, some, length, ltb, if◌then◌else◌, List, [], ◌∷◌, map,
  Str, codes, str_eq,
}
use proyecto_estructura.Outcome.{ok, safe}
use proyecto_estructura.Parser.Tokens.{
  KeywordE, SymbolE, TypeE, Double, Identifier, Numbers, keyword, symbol, type, numbers, identifier,
}
use proyecto_estructura.Parser.Compare.{same_variant_and_value}
use proyecto_estructura.Parser.Tokenizer.{
  tokenize, make_tokens_explicit, explicit_loop, insert_space, rejoin, next_word, after_word,
  split_loop,
}
use proyecto_estructura.Parser.Tokenizer.Reference.{split_words, spaced, tokenize_lem}
use proyecto_estructura.Parser.Tokenizer.Bytes.{concat, strip, are_tokens, tokenize-concat}
use proyecto_estructura.Parser.Parse.{
  parse, parse_tokens, parse_token, fixed_word, find_case, first_case, is_one_of, free_token,
  read_integer, word_token, double_token,
}
use proyecto_estructura.Parser.Patterns.{
  is_digits, is_name_text, unsigned, is_integer, split_name, split_dot, is_decimal, is_quoted,
  unquote, str_digits, read_decimal,
}
use proyecto_estructura.Column.Stream.{read_unsigned, read_signed}
use proyecto_estructura.Parser.Validate.{Validation, validate}
use proyecto_estructura.Parser.Validate.Agrees.{all_named, validate_exact}
use proyecto_estructura.Server.Query.{trimmed, trim_front, trim_back, read_query}
use proyecto_estructura.Server.Query.Safe.{opens_using, reads_decimals, read_query-safe}

abbrev range_text : Str
range_text = codes "a>=7, b"

range_text-runs : tokenize range_text ≡ ok (map codes ("a" ∷ ">=" ∷ "7" ∷ "," ∷ "b" ∷ []))
unfolding tokenize make_tokens_explicit explicit_loop insert_space rejoin split_loop next_word
    after_word
range_text-runs = refl

tokenize_lem_example : tokenize range_text ≡ ok (split_words (spaced range_text))
tokenize_lem_example = tokenize_lem range_text

tokenize-concat_example :
    (ts : List Str) × (tokenize range_text ≡ ok ts)
    × (concat ts ≡ strip range_text)
    × (are_tokens ts ≡ true)
tokenize-concat_example = tokenize-concat range_text

abbrev creation : Str
creation = codes "CREATE TABLE a.b(str12 c);"

-- every double is read as zero
abbrev zero_stod : Str → Option Double
zero_stod s = some (record { bits = 0 })

creation-runs :
    parse zero_stod creation
    ≡ ok (
        keyword KeywordE.create
        ∷ keyword KeywordE.table
        ∷ identifier (Identifier.name_and_sub (record { name = codes "a"; sub = codes "b" }))
        ∷ symbol SymbolE.opening_par
        ∷ type TypeE.str
        ∷ numbers (Numbers.uint 12)
        ∷ identifier (Identifier.name (codes "c"))
        ∷ symbol SymbolE.closing_par
        ∷ symbol SymbolE.semicolon
        ∷ [])
unfolding parse parse_tokens parse_token fixed_word find_case first_case is_one_of free_token
    read_integer word_token double_token is_digits is_name_text unsigned is_integer split_name
    split_dot is_decimal is_quoted unquote str_digits read_decimal read_unsigned read_signed str_eq
    tokenize make_tokens_explicit explicit_loop insert_space rejoin split_loop next_word after_word
creation-runs = refl

validate_exact_example :
    (ws : List Str) × (v : Validation) × (tokenize creation ≡ ok ws)
    × (validate creation ≡ ok v)
    × ((v.accepted ≡ true) ↔ (all_named zero_stod ws ≡ true))
validate_exact_example = validate_exact zero_stod creation

abbrev priced : Str
priced = codes "INSERT INTO a.b (1.5, 12);"

-- a `std::stod` for which 300 bytes are too many
abbrev short_stod : Str → Option Double
short_stod s = if ltb (length s) 300 then some (record { bits = 0 }) else none

priced-opens : opens_using short_stod priced ≡ false
unfolding same_variant_and_value trimmed trim_front trim_back parse parse_tokens parse_token
    fixed_word find_case first_case is_one_of free_token read_integer word_token double_token
    is_digits is_name_text unsigned is_integer split_name split_dot is_decimal is_quoted unquote
    str_digits read_decimal read_unsigned read_signed str_eq tokenize make_tokens_explicit
    explicit_loop insert_space rejoin split_loop next_word after_word
priced-opens = refl

priced-read : reads_decimals short_stod priced ≡ true
unfolding trimmed trim_front trim_back is_digits unsigned is_integer split_dot is_decimal tokenize
    make_tokens_explicit explicit_loop insert_space rejoin split_loop next_word after_word
priced-read = refl

read_query-safe_example : safe (read_query short_stod priced) ≡ true
read_query-safe_example = read_query-safe short_stod priced priced-opens priced-read
