-- ===== src/Parser/Parse/Print.antt =====
-- The fixed words, and the numbers behind the texts of phrases.
use mathlib.Core.Bool.{false≢true}
use Prim.Native.String.{String}
use proyecto_estructura.Prelude.{
  ℕ, zero, suc, Bool, true, false, not, ◌||◌, ◌==◌, ◌≡◌, refl, sym, ap, ◌∙◌, leb, none, some, List,
  [], ◌∷◌, ◌++◌, Str, str_eq, is_some, arith, Bool-cases, inl, inr,
}
use proyecto_estructura.Column.Stream.{u64_max, i64_max, read_unsigned, read_signed}
use proyecto_estructura.Parser.Tokens.{
  OperatorE, KeywordE, TypeE, SymbolE, Numbers, operator, keyword, type, symbol,
}
use proyecto_estructura.Parser.Patterns.{
  is_digit, is_letter, all_word, is_digits, is_integer, unsigned, is_quoted, is_name_text,
  split_dot, str_digits, read_decimal,
}
use proyecto_estructura.Parser.Parse.{
  fixed_word, find_case, first_case, is_one_of, parse_symbols, symbol_cases, valid_keywords,
  keyword_cases, parse_operators, operator_cases, parse_types, type_cases, negate, read_integer,
}
use proyecto_estructura.Parser.Parse.Decimal.{digits, digits_form, read_decimal-digits}
use proyecto_estructura.Parser.Parse.Phrases.{
  Phrase, is_phrase, keyword_text, symbol_lexeme, operator_lexeme, type_text,
}
use proyecto_estructura.Parser.Tokenizer.Lexemes.{text}
use proyecto_estructura.Parser.Validate.Agrees.{find_case-none, is_one_of-all, all_words, skip}

pub fixed_word-keyword_text : (k : KeywordE) → fixed_word (keyword_text k) ≡ some (keyword k)
unfolding fixed_word find_case first_case is_one_of str_eq
fixed_word-keyword_text KeywordE.create = refl
fixed_word-keyword_text KeywordE.database = refl
fixed_word-keyword_text KeywordE.table = refl
fixed_word-keyword_text KeywordE.insert = refl
fixed_word-keyword_text KeywordE.into = refl
fixed_word-keyword_text KeywordE.values = refl
fixed_word-keyword_text KeywordE.select = refl
fixed_word-keyword_text KeywordE.from = refl
fixed_word-keyword_text KeywordE.where_ = refl
fixed_word-keyword_text KeywordE.update = refl
fixed_word-keyword_text KeywordE.set = refl
fixed_word-keyword_text KeywordE.delete = refl
fixed_word-keyword_text KeywordE.drop = refl
fixed_word-keyword_text KeywordE.pk = refl
fixed_word-keyword_text KeywordE.un = refl
fixed_word-keyword_text KeywordE.show = refl
fixed_word-keyword_text KeywordE.databases = refl
fixed_word-keyword_text KeywordE.column = refl
fixed_word-keyword_text KeywordE.using = refl

pub fixed_word-symbol : (s : SymbolE) → fixed_word (text (symbol_lexeme s)) ≡ some (symbol s)
unfolding fixed_word find_case first_case is_one_of str_eq
fixed_word-symbol SymbolE.coma = refl
fixed_word-symbol SymbolE.semicolon = refl
fixed_word-symbol SymbolE.all = refl
fixed_word-symbol SymbolE.closing_par = refl
fixed_word-symbol SymbolE.opening_par = refl

pub fixed_word-operator :
    (o : OperatorE)
    → is_phrase (Phrase.test o) ≡ true
    → fixed_word (text (operator_lexeme o)) ≡ some (operator o)
unfolding fixed_word find_case first_case is_one_of str_eq
fixed_word-operator OperatorE.and h = refl
fixed_word-operator OperatorE.or h = refl
fixed_word-operator OperatorE.equal h = refl
fixed_word-operator OperatorE.great_equal h = refl
fixed_word-operator OperatorE.less_equal h = refl
fixed_word-operator OperatorE.not_equal h = absurd (false≢true h)
fixed_word-operator OperatorE.less h = refl
fixed_word-operator OperatorE.great h = refl

pub fixed_word-type_text :
    (t : TypeE) → is_phrase (Phrase.kind t) ≡ true → fixed_word (type_text t) ≡ some (type t)
unfolding fixed_word find_case first_case is_one_of str_eq
fixed_word-type_text TypeE.i8 h = refl
fixed_word-type_text TypeE.i16 h = refl
fixed_word-type_text TypeE.i32 h = refl
fixed_word-type_text TypeE.i64 h = refl
fixed_word-type_text TypeE.u8 h = refl
fixed_word-type_text TypeE.u16 h = refl
fixed_word-type_text TypeE.u32 h = refl
fixed_word-type_text TypeE.u64 h = refl
fixed_word-type_text TypeE.f64 h = refl
fixed_word-type_text TypeE.bool h = refl
fixed_word-type_text TypeE.str h = absurd (false≢true h)

-- A text that has a property that no fixed word has is not one.
module _ (P : Str → Bool) (s : Str) (h : P s ≡ true) where
  abbrev others : Str → Bool
  others t = not (P t)

  not_one_of : (ws : List String) → all_words others ws ≡ true → is_one_of ws s ≡ false
  not_one_of ws k = elim (Bool-cases (is_one_of ws s)) [
    | inl e ↦ absurd (false≢true (sym (ap not h) ∙ is_one_of-all others ws s k e))
    | inr e ↦ e
  ]

  fixed_word-none :
      all_words others parse_symbols ≡ true
      → all_words others valid_keywords ≡ true
      → all_words others parse_operators ≡ true
      → all_words others parse_types ≡ true
      → fixed_word s ≡ none
  unfolding fixed_word
  fixed_word-none a b c d =
      skip (find_case-none parse_symbols symbol_cases s (not_one_of parse_symbols a)) (
        skip (find_case-none valid_keywords keyword_cases s (not_one_of valid_keywords b)) (
          skip (find_case-none parse_operators operator_cases s (not_one_of parse_operators c))
            (find_case-none parse_types type_cases s (not_one_of parse_types d))))

abbrev is_sized_type : Str → Bool
is_sized_type s = is_some (str_digits s)

abbrev is_dotted : Str → Bool
is_dotted s = is_some (split_dot s)

pub fixed_word-is_integer : (s : Str) → is_integer s ≡ true → fixed_word s ≡ none
unfolding is_integer is_digits unsigned
fixed_word-is_integer s h = fixed_word-none is_integer s h refl refl refl refl

pub fixed_word-is_sized_type : (s : Str) → is_sized_type s ≡ true → fixed_word s ≡ none
unfolding str_digits is_digits
fixed_word-is_sized_type s h = fixed_word-none is_sized_type s h refl refl refl refl

pub fixed_word-is_dotted : (s : Str) → is_dotted s ≡ true → fixed_word s ≡ none
unfolding split_dot
fixed_word-is_dotted s h = fixed_word-none is_dotted s h refl refl refl refl

pub digits-is_integer : (n : ℕ) → is_integer (digits n) ≡ true
unfolding is_integer is_digits unsigned
digits-is_integer n = let (c, t, e, k) = digits_form n in rw e (ground (arith, k))

pub minus-is_integer : (n : ℕ) → is_integer (b'-' ∷ digits n) ≡ true
unfolding is_integer is_digits unsigned
minus-is_integer n = let (c, t, e, k) = digits_form n in rw e k

digits-is_digits : (n : ℕ) → is_digits (digits n) ≡ true
unfolding is_digits
digits-is_digits n = let (c, t, e, k) = digits_form n in rw e k

pub str_digits-digits : (n : ℕ) → str_digits (digits n) ≡ none
unfolding str_digits
str_digits-digits n = let (c, t, e, k) = digits_form n in rw e (ground (arith, k))

pub str_digits-sized : (n : ℕ) → str_digits (b's' ∷ b't' ∷ b'r' ∷ digits n) ≡ some (digits n)
unfolding str_digits
str_digits-sized n = rw (digits-is_digits n) refl

pub read_unsigned-fits : (n : ℕ) → leb n u64_max ≡ true → (read_unsigned u64_max n).value ≡ n
unfolding read_unsigned
read_unsigned-fits n h = ground (arith, h)

read_signed-negate :
    (n : ℕ) → leb n i64_max ≡ true → (read_signed i64_max (negate n)).value ≡ negate n
unfolding read_signed
read_signed-negate zero h = refl
read_signed-negate (suc n) h = ground (arith, h)

pub read_integer-digits : (n : ℕ) → leb n u64_max ≡ true → read_integer (digits n) ≡ Numbers.uint n
unfolding read_integer unsigned
read_integer-digits n h =
    let (c, t, e, k) = digits_form n in
    let r : read_decimal 0 (c ∷ t) ≡ n = ap (read_decimal 0) (sym e) ∙ read_decimal-digits n in
    rw e (ground (arith, k, r, read_unsigned-fits n h))

pub read_integer-minus :
    (n : ℕ) → leb n i64_max ≡ true → read_integer (b'-' ∷ digits n) ≡ Numbers.int (negate n)
unfolding read_integer unsigned
read_integer-minus n h = rw (read_decimal-digits n) (ap Numbers.int (read_signed-negate n h))

letter_first :
    (c : ℕ)
    → is_letter c ≡ true
    → ((c == b'"') ≡ false)
      × ((c == b'.') ≡ false)
      × ((c == b'+' || c == b'-') ≡ false)
      × (is_digit c ≡ false)
letter_first c h = ground arith

pub name_no_integer : (s : Str) → is_name_text s ≡ true → is_integer s ≡ false
unfolding is_integer is_digits unsigned is_name_text
name_no_integer [] h = ground arith
name_no_integer (c ∷ s) h = ground arith

pub name_no_quote : (s : Str) → is_name_text s ≡ true → is_quoted s ≡ false
unfolding is_quoted is_name_text
name_no_quote [] h = ground arith
name_no_quote (c ∷ s) h = ground arith

split_dot-all_word :
    (s u : Str)
    → all_word s ≡ true
    → split_dot (s ++ b'.' ∷ u) ≡ some (record { name = s; sub = u })
unfolding split_dot
split_dot-all_word [] u h = refl
split_dot-all_word (c ∷ s) u h = ground (arith, split_dot-all_word s u)

pub split_dot-is_name_text :
    (s u : Str)
    → is_name_text s ≡ true
    → split_dot (s ++ b'.' ∷ u) ≡ some (record { name = s; sub = u })
unfolding is_name_text
split_dot-is_name_text [] u h = ground arith
split_dot-is_name_text (c ∷ s) u h = split_dot-all_word (c ∷ s) u (ground arith)

str_digits-no_s : (c : ℕ) (s : Str) → (c == b's') ≡ false → str_digits (c ∷ s) ≡ none
unfolding str_digits is_digits
str_digits-no_s c [] h = refl
str_digits-no_s c (d ∷ []) h = refl
str_digits-no_s c (d ∷ e ∷ s) h = ground (arith, h)

pub str_digits-minus : (n : ℕ) → str_digits (b'-' ∷ digits n) ≡ none
unfolding str_digits is_digits
str_digits-minus n = let (c, t, e, k) = digits_form n in rw e (str_digits-no_s b'-' (c ∷ t) refl)
