-- ===== src/Parser/Parse/RoundTrip.antt =====
-- The tokens of a query are read back from its text.
use mathlib.Core.Path.{ap₂}
use mathlib.Core.List.{append-nil}
use proyecto_estructura.Prelude.{
  true, ◌&&◌, ◌≡◌, refl, sym, ap, ◌∙◌, Option, List, [], ◌∷◌, ◌++◌, map, Str, arith, and_left,
  and_right,
}
use proyecto_estructura.Outcome.{ok}
use proyecto_estructura.Parser.Tokens.{Double, Numbers}
use proyecto_estructura.Parser.Patterns.{is_name_text}
use proyecto_estructura.Parser.Parse.{parse_token, parse_tokens, parse, negate}
use proyecto_estructura.Parser.Parse.Decimal.{digits_form}
use proyecto_estructura.Parser.Parse.Phrases.{
  Phrase, is_phrase, are_phrases, lexeme, tokens, all_tokens,
}
use proyecto_estructura.Parser.Parse.Print.{
  fixed_word-keyword_text, fixed_word-symbol, fixed_word-operator, fixed_word-type_text,
  digits-is_integer, minus-is_integer, str_digits-digits, str_digits-minus, read_integer-digits,
  read_integer-minus,
}
use proyecto_estructura.Parser.Tokenizer.Lexemes.{
  text, all_plain, is_plain, is_lexeme, are_lexemes, render,
}
use proyecto_estructura.Parser.Tokenizer.Plain.{plain_text}
use proyecto_estructura.Parser.Tokenizer.Spelled.{tokenize-render}
use proyecto_estructura.Parser.Parse.Words.{plain-all_digits, plain-name}
use proyecto_estructura.Parser.Parse.Read.{
  fixed_phrase, integer_phrase, sized_phrase, flag_phrase, name_phrase, member_phrase,
}

plain_sub : (s : Str) → is_name_text s ≡ true → all_plain (s ++ []) ≡ true
plain_sub s h = plain_text (s ++ []) (plain-name s [] h refl)

plain-phrase : (p : Phrase) → is_phrase p ≡ true → is_lexeme (lexeme p) ≡ true
plain-phrase (Phrase.word k) h = ground arith
plain-phrase (Phrase.mark s) h = ground arith
plain-phrase (Phrase.test o) h = ground arith
plain-phrase (Phrase.kind t) h = ground arith
plain-phrase (Phrase.sized n) h =
    let (c, t, e, k) = digits_form n in rw e (plain-all_digits (c ∷ t) k)
plain-phrase (Phrase.uint n) h =
    let (c, t, e, k) = digits_form n in rw e (plain-all_digits (c ∷ t) k)
plain-phrase (Phrase.minus n) h =
    let (c, t, e, k) = digits_form n in rw e (plain-all_digits (c ∷ t) k)
plain-phrase (Phrase.flag b) h = ground arith
plain-phrase (Phrase.name s) h =
    sym (ap is_plain (append-nil s)) ∙ plain-name s [] (and_left (is_name_text s) _ h) refl
plain-phrase (Phrase.member p) h =
    let m = and_right (is_name_text p.name) (is_name_text p.sub) h in
    plain-name p.name (b'.' ∷ p.sub) (and_left (is_name_text p.name) (is_name_text p.sub) h)
      (sym (ap all_plain (append-nil p.sub)) ∙ plain_sub p.sub m)

pub plain-phrases : (ps : List Phrase) → are_phrases ps ≡ true → are_lexemes (map lexeme ps) ≡ true
plain-phrases [] h = refl
plain-phrases (p ∷ ps) h =
    ap₂ (◌&&◌) (plain-phrase p (and_left (is_phrase p) (are_phrases ps) h))
      (plain-phrases ps (and_right (is_phrase p) (are_phrases ps) h))

module _ (stod : Str → Option Double) where
  pub parse_token-phrase :
      (p : Phrase) → is_phrase p ≡ true → parse_token stod (text (lexeme p)) ≡ ok (tokens p)
  parse_token-phrase (Phrase.word k) h = fixed_phrase stod _ _ (fixed_word-keyword_text k)
  parse_token-phrase (Phrase.mark s) h = fixed_phrase stod _ _ (fixed_word-symbol s)
  parse_token-phrase (Phrase.test o) h = fixed_phrase stod _ _ (fixed_word-operator o h)
  parse_token-phrase (Phrase.kind t) h = fixed_phrase stod _ _ (fixed_word-type_text t h)
  parse_token-phrase (Phrase.sized n) h = sized_phrase stod n h
  parse_token-phrase (Phrase.uint n) h =
      integer_phrase stod _ (Numbers.uint n) (digits-is_integer n) (str_digits-digits n)
        (read_integer-digits n h)
  parse_token-phrase (Phrase.minus n) h =
      integer_phrase stod _ (Numbers.int (negate n)) (minus-is_integer n) (str_digits-minus n)
        (read_integer-minus n h)
  parse_token-phrase (Phrase.flag b) h = flag_phrase stod b
  parse_token-phrase (Phrase.name s) h = name_phrase stod s h
  parse_token-phrase (Phrase.member p) h = member_phrase stod p h

  parse_tokens-phrases :
      (ps : List Phrase)
      → are_phrases ps ≡ true
      → parse_tokens stod (map text (map lexeme ps)) ≡ ok (all_tokens ps)
  unfolding parse_tokens
  parse_tokens-phrases [] h = refl
  parse_tokens-phrases (p ∷ ps) h =
      rw
        (
          parse_token-phrase p (and_left (is_phrase p) (are_phrases ps) h),
          parse_tokens-phrases ps (and_right (is_phrase p) (are_phrases ps) h),
        )
        refl

  -- The tokens of keywords, symbols, operators, types, integers, Booleans and names are read back
  -- from the text that writes each with a space behind it. An unsigned number is at most 2^64 - 1,
  -- a number with a minus at most 2^63 - 1, no operator is `!=`, a `str` has its size, and a name is
  -- no fixed word, no `str` with a size and no Boolean.
  pub parse-render :
      (ps : List Phrase)
      → are_phrases ps ≡ true
      → parse stod (render text (map lexeme ps)) ≡ ok (all_tokens ps)
  unfolding parse
  parse-render ps h =
      rw (tokenize-render (map lexeme ps) (plain-phrases ps h)) (parse_tokens-phrases ps h)
