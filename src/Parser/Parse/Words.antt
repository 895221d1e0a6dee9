-- ===== src/Parser/Parse/Words.antt =====
-- What the texts of names and numbers are not.
use mathlib.Core.Path.{ap₂}
use mathlib.Core.Bool.{false≢true}
use proyecto_estructura.Prelude.{
  ℕ, Bool, true, false, not, ◌&&◌, ◌||◌, ◌≡◌, refl, sym, ap, ◌∙◌, Option, none, some, [], ◌∷◌, ◌++◌,
  Str, codes, str_eq, str_eq_iff, is_some, arith, and_left, and_right, Bool-cases, inl, inr,
}
use proyecto_estructura.Parser.Tokens.{Identifier, NameAndSub, identifier}
use proyecto_estructura.Parser.Patterns.{
  is_digits, unsigned, is_letter, is_digit, all_word, all_digits, is_integer, is_quoted,
  is_name_text, split_name, split_dot, str_digits,
}
use proyecto_estructura.Parser.Parse.{word_token}
use proyecto_estructura.Parser.Parse.Print.{split_dot-is_name_text}
use proyecto_estructura.Parser.Tokenizer.{is_separator}
use proyecto_estructura.Parser.Validate.Agrees.{all_word-digits}
use proyecto_estructura.Parser.Tokenizer.Bytes.{is_blank}
use proyecto_estructura.Parser.Tokenizer.Lexemes.{all_plain, is_plain}

pub plain-all_digits : (s : Str) → all_digits s ≡ true → all_plain s ≡ true
plain-all_digits [] h = refl
plain-all_digits (c ∷ s) h = ground (arith, plain-all_digits s)

plain_letter :
    (c : ℕ) → is_letter c || is_digit c ≡ true → not (is_separator c || is_blank c) ≡ true
plain_letter c h = ground (arith, h)

plain-all_word : (s u : Str) → all_word s ≡ true → all_plain u ≡ true → all_plain (s ++ u) ≡ true
plain-all_word [] u h k = k
plain-all_word (c ∷ s) u h k =
    ap₂ (◌&&◌) (plain_letter c (and_left (is_letter c || is_digit c) (all_word s) h))
      (plain-all_word s u (and_right (is_letter c || is_digit c) (all_word s) h) k)

all_word-name : (c : ℕ) (s : Str) → is_name_text (c ∷ s) ≡ true → all_word (c ∷ s) ≡ true
unfolding is_name_text
all_word-name c s h = ground (arith, h)

pub plain-name : (s u : Str) → is_name_text s ≡ true → all_plain u ≡ true → is_plain (s ++ u) ≡ true
unfolding is_name_text
plain-name [] u h k = ground arith
plain-name (c ∷ s) u h k = plain-all_word (c ∷ s) u (all_word-name c s h) k

pub word_token-name :
    (s : Str)
    → is_name_text s ≡ true
    → not (str_eq s (codes "true")) ≡ true
    → not (str_eq s (codes "false")) ≡ true
    → word_token s ≡ some (identifier (Identifier.name s))
unfolding word_token
word_token-name s n t f = ground (arith, n, t, f)

pub not_some {ℓ} : {A : Type ℓ} (o : Option A) → not (is_some o) ≡ true → o ≡ none
not_some none h = refl
not_some (some a) h = absurd (false≢true h)

-- a name has no dot
split_dot-word : (s : Str) → all_word s ≡ true → split_dot s ≡ none
unfolding split_dot
split_dot-word [] h = refl
split_dot-word (c ∷ s) h = ground (arith, split_dot-word s)

pub no_dot : (s : Str) → is_some (split_dot s) ≡ true → all_word s ≡ false
no_dot s h = elim (Bool-cases (all_word s)) [
  | inl e ↦ absurd (false≢true (sym (ap is_some (split_dot-word s e)) ∙ h))
  | inr e ↦ e
]

pub str_digits-dotted : (s : Str) → all_word s ≡ false → str_digits s ≡ none
unfolding str_digits is_digits
str_digits-dotted (s ∷ t ∷ r ∷ d ∷ ds) h = elim (Bool-cases (all_digits (d ∷ ds))) [
  | inl e ↦ ground (arith, h, all_word-digits (d ∷ ds) e)
  | inr e ↦ ground (arith, e)
]
str_digits-dotted (s ∷ t ∷ r ∷ []) h = ground arith
str_digits-dotted (s ∷ t ∷ []) h = refl
str_digits-dotted (s ∷ []) h = refl
str_digits-dotted [] h = refl

letter_no_integer : (c : ℕ) (s : Str) → is_letter c ≡ true → is_integer (c ∷ s) ≡ false
unfolding is_integer is_digits unsigned
letter_no_integer c s h = ground (arith, h)

letter_no_quote : (c : ℕ) (s : Str) → is_letter c ≡ true → is_quoted (c ∷ s) ≡ false
unfolding is_quoted
letter_no_quote c s h = ground (arith, h)

abbrev letter_begins : Str → Bool
letter_begins [] = false
letter_begins (c ∷ s) = is_letter c

pub name_begins : (s u : Str) → is_name_text s ≡ true → letter_begins (s ++ u) ≡ true
unfolding is_name_text
name_begins [] u h = ground arith
name_begins (c ∷ s) u h = and_left (is_letter c) (all_word s) h

pub begins_no_integer : (s : Str) → letter_begins s ≡ true → is_integer s ≡ false
begins_no_integer [] h = absurd (false≢true h)
begins_no_integer (c ∷ s) h = letter_no_integer c s h

pub begins_no_quote : (s : Str) → letter_begins s ≡ true → is_quoted s ≡ false
begins_no_quote [] h = absurd (false≢true h)
begins_no_quote (c ∷ s) h = letter_no_quote c s h

-- a fixed text without a dot is another
not_dotted : (s w : Str) → is_some (split_dot s) ≡ true → split_dot w ≡ none → str_eq s w ≡ false
not_dotted s w h k = elim (Bool-cases (str_eq s w)) [
  | inl e ↦
      let same = (str_eq_iff s w).0 e in
      absurd (false≢true (sym (ap is_some (ap split_dot same ∙ k)) ∙ h))
  | inr e ↦ e
]

not_name-dotted : (s : Str) → all_word s ≡ false → is_name_text s ≡ false
unfolding is_name_text
not_name-dotted [] h = refl
not_name-dotted (c ∷ s) h = ground (arith, h)

pub split_name-dotted :
    (p : NameAndSub)
    → is_name_text p.name ≡ true
    → is_name_text p.sub ≡ true
    → split_name (p.name ++ b'.' ∷ p.sub) ≡ some p
unfolding split_name
split_name-dotted p h k = rw (split_name, split_dot-is_name_text p.name p.sub h, h, k) refl

pub word_token-member :
    (s : Str) (p : NameAndSub)
    → is_some (split_dot s) ≡ true
    → split_name s ≡ some p
    → word_token s ≡ some (identifier (Identifier.name_and_sub p))
unfolding word_token
word_token-member s p h k =
    let t : str_eq s (codes "true") ≡ false =
      unfold split_dot in not_dotted s (codes "true") h refl in
    let f : str_eq s (codes "false") ≡ false =
      unfold split_dot in not_dotted s (codes "false") h refl in
    rw (word_token, t, f, not_name-dotted s (no_dot s h), k) refl
