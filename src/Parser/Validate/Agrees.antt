-- ===== src/Parser/Validate/Agrees.antt =====
-- `validate` accepts what `parse` can name.
use mathlib.Core.Path.{subst}
use Prim.Native.String.{String}
use proyecto_estructura.Prelude.{
  ◌≡◌, ◌↔◌, ◌∙◌, refl, sym, Bool, true, false, not, ◌&&◌, ◌||◌, Option, none, List, [], ◌∷◌, arith,
  Str, codes, str_eq, str_eq_iff, is_some, and_left, and_right, Bool-cases, inl, inr,
}
use proyecto_estructura.Outcome.{Outcome, ok, fail, thrown}
use proyecto_estructura.Parser.Tokens.{Double, Token, unknown}
use proyecto_estructura.Parser.Patterns.{
  all_digits, is_digits, all_word, is_name_text, is_integer, is_quoted, str_digits,
}
use proyecto_estructura.Parser.Parse.{
  is_one_of, valid_keywords, find_case, first_case, ◌or_else◌, fixed_word, parse_symbols,
  symbol_cases, keyword_cases, parse_operators, operator_cases, parse_types, type_cases, word_token,
  double_token, free_token, parse_token, Case,
}
use proyecto_estructura.Parser.Tokenizer.{tokenize}
use proyecto_estructura.Parser.Tokenizer.Reference.{split_words, spaced, tokenize_lem}
use proyecto_estructura.Parser.Validate.{
  TokenType, found, free_type, current_type, valid_tokens, valid_operators, valid_types, Validation,
  validate_tokens, validate,
}

-- A token other than Unknown.
abbrev pub is_known : Token → Bool
is_known (unknown w) = false
is_known _ = true

abbrev pub all_known : List Token → Bool
all_known [] = true
all_known (t ∷ ts) = is_known t && all_known ts

-- whether a call answers known tokens, when it answers
abbrev pub answers_known : Outcome (List Token) → Bool
answers_known (ok ts) = all_known ts
answers_known (fail e) = true
answers_known (thrown x) = true

abbrev bool_same : Bool → Bool → Bool
bool_same true b = b
bool_same false b = not b

bool_same_refl : (b : Bool) → bool_same b b ≡ true
bool_same_refl b = ground arith

pub all_word-digits : (s : Str) → all_digits s ≡ true → all_word s ≡ true
all_word-digits [] h = refl
all_word-digits (c ∷ s) h = ground (arith, all_word-digits s)

-- a type with a size is a name too
is_name_text-str_digits : (s : Str) → is_some (str_digits s) ≡ true → is_name_text s ≡ true
unfolding str_digits is_name_text is_digits
is_name_text-str_digits (s ∷ t ∷ r ∷ d ∷ ds) h = ground (arith, all_word-digits (d ∷ ds))
is_name_text-str_digits (s ∷ t ∷ r ∷ []) h = ground arith
is_name_text-str_digits (s ∷ t ∷ []) h = ground arith
is_name_text-str_digits (s ∷ []) h = ground arith
is_name_text-str_digits [] h = ground arith

is_name_text-equal : (s t : Str) → str_eq s t ≡ true → is_name_text t ≡ true → is_name_text s ≡ true
is_name_text-equal s t e h = subst (λ u. is_name_text u ≡ true) (sym ((str_eq_iff s t).0 e)) h

pub find_case-none {ℓ} :
    {A : Type ℓ} (valid : List String) (cs : List (Case A)) (s : Str)
    → is_one_of valid s ≡ false
    → find_case valid cs s ≡ none
unfolding find_case
find_case-none valid cs s h = ground arith

module _ (P : Str → Bool) where
  abbrev pub all_words : List String → Bool
  all_words [] = true
  all_words (w ∷ ws) = P (codes w) && all_words ws

  pub is_one_of-all :
      (ws : List String) (s : Str) → all_words ws ≡ true → is_one_of ws s ≡ true → P s ≡ true
  unfolding is_one_of
  is_one_of-all [] s h k = ground arith
  is_one_of-all (w ∷ ws) s h k = elim (Bool-cases (str_eq (codes w) s)) [
    | inl e ↦ subst (λ u. P u ≡ true) ((str_eq_iff (codes w) s).0 e) (and_left _ _ h)
    | inr e ↦ is_one_of-all ws s (and_right _ _ h) (ground (arith, e))
  ]

abbrev is_free : Str → Bool
is_free s = not (
    is_one_of valid_tokens s
    || is_one_of valid_operators s
    || is_one_of valid_keywords s
    || is_one_of valid_types s)

pub skip {ℓ} : {A : Type ℓ} {o p q : Option A} → o ≡ none → p ≡ q → (o or_else p) ≡ q
skip h k = rw h k

in_none :
    (a b c d : Bool)
    → not (a || b || c || d) ≡ true
    → (a ≡ false) × (b ≡ false) × (c ≡ false) × (d ≡ false)
in_none a b c d h = ground arith

-- what is in none of the lists of `validate`
record Free (s : Str) : Type 0 where
  tokens : is_one_of valid_tokens s ≡ false
  operators : is_one_of valid_operators s ≡ false
  keywords : is_one_of valid_keywords s ≡ false
  types : is_one_of valid_types s ≡ false

fixed_word-Free : (s : Str) → Free s → fixed_word s ≡ none
unfolding fixed_word
fixed_word-Free s f =
    let symbols : is_one_of parse_symbols s ≡ false =
      unfold is_one_of in ground (arith, f.tokens, f.operators) in
    let operators : is_one_of parse_operators s ≡ false =
      unfold is_one_of in ground (arith, f.operators) in
    let types : is_one_of parse_types s ≡ false = unfold is_one_of in ground (arith, f.types) in
    skip (find_case-none parse_symbols symbol_cases s symbols) (
      skip (find_case-none valid_keywords keyword_cases s f.keywords) (
        skip (find_case-none parse_operators operator_cases s operators)
          (find_case-none parse_types type_cases s types)))

found-false : {b : Bool} (t : TokenType) → b ≡ false → found b t ≡ none
found-false t h = rw h refl

current_type-Free : (s : Str) → Free s → current_type s ≡ free_type s
unfolding current_type
current_type-Free s f = skip (found-false TokenType.token f.tokens) (
    skip (found-false TokenType.operator f.operators) (
      skip (found-false TokenType.keyword f.keywords)
        (skip (found-false TokenType.type f.types) refl)))

module _ (stod : Str → Option Double) where
  abbrev agree : Str → Bool
  agree s =
      bool_same (is_some (current_type s))
        (str_eq (codes "!") s || answers_known (parse_token stod s))

  free_token-known : (s : Str) → answers_known (free_token stod s) ≡ is_some (free_type s)
  unfolding free_token word_token double_token free_type
  free_token-known s =
      let t : str_eq s (codes "true") ≡ true → is_name_text s ≡ true =
        λ e. is_name_text-equal s (codes "true") e (unfold is_name_text in refl) in
      let f : str_eq s (codes "false") ≡ true → is_name_text s ≡ true =
        λ e. is_name_text-equal s (codes "false") e (unfold is_name_text in refl) in
      ground (arith, is_name_text-str_digits s, t, f)

  agree-Free : (s : Str) → Free s → agree s ≡ true
  unfolding parse_token
  agree-Free s f =
      let bang : str_eq (codes "!") s ≡ false = unfold is_one_of in ground (arith, f.operators) in
      rw (fixed_word-Free s f, current_type-Free s f, bang, free_token-known s)
        (bool_same_refl (is_some (free_type s)))

  agree-tokens : (s : Str) → is_one_of valid_tokens s ≡ true → agree s ≡ true
  unfolding current_type parse_token fixed_word find_case first_case str_eq is_one_of
  agree-tokens s h = is_one_of-all agree valid_tokens s refl h

  agree-operators : (s : Str) → is_one_of valid_operators s ≡ true → agree s ≡ true
  unfolding current_type parse_token fixed_word find_case first_case str_eq is_one_of
  agree-operators s h = is_one_of-all agree valid_operators s refl h

  agree-keywords : (s : Str) → is_one_of valid_keywords s ≡ true → agree s ≡ true
  unfolding current_type parse_token fixed_word find_case first_case str_eq is_one_of
  agree-keywords s h = is_one_of-all agree valid_keywords s refl h

  agree-types : (s : Str) → is_one_of valid_types s ≡ true → agree s ≡ true
  unfolding current_type parse_token fixed_word free_token word_token find_case first_case str_eq
      is_one_of str_digits is_integer is_digits is_quoted is_name_text
  agree-types s h = is_one_of-all agree valid_types s refl h

  agree-all : (s : Str) → agree s ≡ true
  agree-all s = elim (Bool-cases (is_one_of valid_tokens s)) [
    | inl h ↦ agree-tokens s h
    | inr h ↦ elim (Bool-cases (is_one_of valid_operators s)) [
      | inl k ↦ agree-operators s k
      | inr k ↦ elim (Bool-cases (is_one_of valid_keywords s)) [
        | inl l ↦ agree-keywords s l
        | inr l ↦ elim (Bool-cases (is_one_of valid_types s)) [
          | inl m ↦ agree-types s m
          | inr m ↦ agree-Free s (record { tokens = h; operators = k; keywords = l; types = m })
        ]
      ]
    ]
  ]

  -- whether each token is `!` or one that `parse` can name
  abbrev pub all_named : List Str → Bool
  all_named [] = true
  all_named (w ∷ ws) = (str_eq (codes "!") w || answers_known (parse_token stod w)) && all_named ws

  validate_tokens-named : (ws : List Str) → (validate_tokens ws).accepted ≡ all_named ws
  unfolding validate_tokens
  validate_tokens-named [] = refl
  validate_tokens-named (w ∷ ws) = ground (arith, agree-all w, validate_tokens-named ws)

  -- `validate` answers on every text, and accepts it exactly when each of its tokens is `!` or one
  -- that `parse` does not make an Unknown token.
  pub validate_exact :
      (s : Str)
      → (ws : List Str) × (v : Validation) × (tokenize s ≡ ok ws)
        × (validate s ≡ ok v)
        × ((v.accepted ≡ true) ↔ (all_named ws ≡ true))
  unfolding validate
  validate_exact s =
      let ws = split_words (spaced s) in
      let e = tokenize_lem s in
      let n = validate_tokens-named ws in
      (ws, validate_tokens ws, e, rw e refl, (λ h. sym n ∙ h, λ h. n ∙ h))
