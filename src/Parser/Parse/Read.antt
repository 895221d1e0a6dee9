-- ===== src/Parser/Parse/Read.antt =====
-- `parse` reads back each phrase.
use proyecto_estructura.Prelude.{
  ℕ, Bool, true, false, not, ◌&&◌, ◌≡◌, refl, ap, ◌∙◌, Option, none, some, [], ◌∷◌, ◌++◌, Str,
  codes, str_eq, is_some, leb, and_left, and_right,
}
use proyecto_estructura.Outcome.{ok}
use proyecto_estructura.Column.Stream.{u64_max, read_unsigned}
use proyecto_estructura.Parser.Tokens.{
  TypeE, Double, Identifier, Numbers, NameAndSub, Token, type, numbers, identifier, bool,
}
use proyecto_estructura.Parser.Patterns.{
  is_digits, unsigned, is_integer, is_quoted, is_name_text, split_dot, str_digits, read_decimal,
}
use proyecto_estructura.Parser.Parse.{
  fixed_word, find_case, first_case, is_one_of, read_integer, word_token, free_token, parse_token,
}
use proyecto_estructura.Parser.Parse.Decimal.{digits, read_decimal-digits}
use proyecto_estructura.Parser.Parse.Phrases.{flag_text, is_plain_name}
use proyecto_estructura.Parser.Parse.Print.{
  fixed_word-is_integer, fixed_word-is_sized_type, fixed_word-is_dotted, str_digits-sized,
  read_unsigned-fits, name_no_integer, name_no_quote, split_dot-is_name_text,
}
use proyecto_estructura.Parser.Parse.Words.{
  word_token-name, not_some, no_dot, str_digits-dotted, name_begins, begins_no_integer,
  begins_no_quote, split_name-dotted, word_token-member,
}

module _ (stod : Str → Option Double) where
  pub fixed_phrase :
      (s : Str) (t : Token) → fixed_word s ≡ some t → parse_token stod s ≡ ok (t ∷ [])
  unfolding parse_token
  fixed_phrase s t h = rw h refl

  free_token-integer :
      (s : Str)
      → is_integer s ≡ true
      → str_digits s ≡ none
      → free_token stod s ≡ ok (numbers (read_integer s) ∷ [])
  unfolding free_token
  free_token-integer s h k = rw (free_token, k, h) refl

  pub integer_phrase :
      (s : Str) (n : Numbers)
      → is_integer s ≡ true
      → str_digits s ≡ none
      → read_integer s ≡ n
      → parse_token stod s ≡ ok (numbers n ∷ [])
  unfolding parse_token
  integer_phrase s n h k e =
      rw (fixed_word-is_integer s h) (free_token-integer s h k ∙ ap (λ m. ok (numbers m ∷ [])) e)

  free_token-sized_type :
      (s ds : Str) (n : ℕ)
      → str_digits s ≡ some ds
      → (read_unsigned u64_max (read_decimal 0 ds)).value ≡ n
      → free_token stod s ≡ ok (type TypeE.str ∷ numbers (Numbers.uint n) ∷ [])
  unfolding free_token
  free_token-sized_type s ds n k e = rw (free_token, k, e) refl

  pub sized_phrase :
      (n : ℕ)
      → leb n u64_max ≡ true
      → parse_token stod (b's' ∷ b't' ∷ b'r' ∷ digits n)
        ≡ ok (type TypeE.str ∷ numbers (Numbers.uint n) ∷ [])
  unfolding parse_token
  sized_phrase n h =
      let d = str_digits-sized n in
      let r =
        ap (λ k. (read_unsigned u64_max k).value) (read_decimal-digits n)
        ∙ read_unsigned-fits n h in
      rw (fixed_word-is_sized_type _ (ap is_some d)) (free_token-sized_type _ (digits n) n d r)

  -- what is no number, no type with a size and no quoted text
  word_phrase :
      (s : Str) (t : Token)
      → fixed_word s ≡ none
      → str_digits s ≡ none
      → is_integer s ≡ false
      → is_quoted s ≡ false
      → word_token s ≡ some t
      → parse_token stod s ≡ ok (t ∷ [])
  unfolding parse_token free_token
  word_phrase s t f d i q w = rw (f, free_token, d, i, q, w) refl

  pub flag_phrase : (b : Bool) → parse_token stod (flag_text b) ≡ ok (bool b ∷ [])
  unfolding fixed_word find_case first_case is_one_of str_eq is_integer is_digits unsigned is_quoted
      word_token str_digits
  flag_phrase true = word_phrase (flag_text true) (bool true) refl refl refl refl refl
  flag_phrase false = word_phrase (flag_text false) (bool false) refl refl refl refl refl

  pub name_phrase :
      (s : Str)
      → is_plain_name s ≡ true
      → parse_token stod s ≡ ok (identifier (Identifier.name s) ∷ [])
  name_phrase s h =
      let n = and_left (is_name_text s) _ h in
      let h1 = and_right (is_name_text s) _ h in
      let h2 = and_right (not (is_some (fixed_word s))) _ h1 in
      let h3 = and_right (not (is_some (str_digits s))) _ h2 in
      word_phrase s (identifier (Identifier.name s)) (not_some (fixed_word s) (and_left _ _ h1))
        (not_some (str_digits s) (and_left _ _ h2)) (name_no_integer s n) (name_no_quote s n)
        (word_token-name s n (and_left _ _ h3) (and_right (not (str_eq s (codes "true"))) _ h3))

  pub member_phrase :
      (p : NameAndSub)
      → is_name_text p.name && is_name_text p.sub ≡ true
      → parse_token stod (p.name ++ b'.' ∷ p.sub) ≡ ok (identifier (Identifier.name_and_sub p) ∷ [])
  member_phrase p h =
      let n = and_left (is_name_text p.name) (is_name_text p.sub) h in
      let m = and_right (is_name_text p.name) (is_name_text p.sub) h in
      let s = p.name ++ b'.' ∷ p.sub in
      let dot : is_some (split_dot s) ≡ true = ap is_some (split_dot-is_name_text p.name p.sub n) in
      let begins = name_begins p.name (b'.' ∷ p.sub) n in
      word_phrase s (identifier (Identifier.name_and_sub p)) (fixed_word-is_dotted s dot)
        (str_digits-dotted s (no_dot s dot)) (begins_no_integer s begins) (begins_no_quote s begins)
        (word_token-member s p dot (split_name-dotted p n m))
