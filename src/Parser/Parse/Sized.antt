-- ===== src/Parser/Parse/Sized.antt =====
-- A size follows every `str` that `parse` makes.
use proyecto_estructura.Prelude.{
  ◌≡◌, refl, Bool, true, not, ◌&&◌, Option, none, some, List, [], ◌∷◌, ◌++◌, arith, Str,
}
use proyecto_estructura.Outcome.{Outcome, ok, fail, thrown, ◌>>=◌, bind-ok}
use proyecto_estructura.Parser.Compare.{same_variant_and_value}
use proyecto_estructura.Parser.Tokens.{Double, Token}
use proyecto_estructura.Parser.Parse.{
  Case, first_case, find_case, fixed_word, ◌or_else◌, parse_symbols, valid_keywords,
  parse_operators, parse_types, symbol_cases, keyword_cases, operator_cases, type_cases, word_token,
  or_free, double_token, free_token, parse_token, parse_tokens, parse,
}
use proyecto_estructura.Parser.Tokenizer.{tokenize}
use proyecto_estructura.Automata.Safety.Sized.{is_str, is_sized}

is_sized-append :
    (ts us : List Token) → is_sized ts ≡ true → is_sized us ≡ true → is_sized (ts ++ us) ≡ true
unfolding is_sized
is_sized-append [] us h k = k
is_sized-append (t ∷ []) [] h k = h
is_sized-append (t ∷ []) (u ∷ us) h k = ground arith
is_sized-append (t ∷ u ∷ ts) us h k = ground (arith, is_sized-append (u ∷ ts) us)

abbrev plain_cases : List (Case Token) → Bool
plain_cases [] = true
plain_cases (c ∷ cs) = not (is_str c.token) && plain_cases cs

abbrev plain : Option Token → Bool
plain none = true
plain (some t) = not (is_str t)

plain-find_case :
    (valid : List _) (cs : List (Case Token)) (s : Str)
    → plain_cases cs ≡ true
    → plain (find_case valid cs s) ≡ true
unfolding find_case first_case
plain-find_case valid [] s h = ground arith
plain-find_case valid (c ∷ cs) s h = ground (arith, plain-find_case valid cs s)

plain-or_else : (o p : Option Token) → plain o ≡ true → plain p ≡ true → plain (o or_else p) ≡ true
plain-or_else (some t) p h k = h
plain-or_else none p h k = k

plain-fixed_word : (s : Str) → plain (fixed_word s) ≡ true
unfolding fixed_word same_variant_and_value
plain-fixed_word s =
    let types = find_case parse_types type_cases s in
    let operators = find_case parse_operators operator_cases s in
    let keywords = find_case valid_keywords keyword_cases s in
    plain-or_else (find_case parse_symbols symbol_cases s)
      (keywords or_else operators or_else types) (plain-find_case parse_symbols symbol_cases s refl)
      (plain-or_else keywords (operators or_else types)
        (plain-find_case valid_keywords keyword_cases s refl)
        (plain-or_else operators types (plain-find_case parse_operators operator_cases s refl)
          (plain-find_case parse_types type_cases s refl)))

module _ (stod : Str → Option Double) where
  -- whether a size follows every `str` of what a call answers, when it answers
  abbrev answers_sized : Outcome (List Token) → Bool
  answers_sized (ok ts) = is_sized ts
  answers_sized (fail e) = true
  answers_sized (thrown x) = true

  free_token-sized : (s : Str) → answers_sized (free_token stod s) ≡ true
  unfolding free_token is_sized same_variant_and_value word_token double_token
  free_token-sized s = ground arith

  answers_sized-or_free :
      (o : Option Token) (m : Outcome (List Token))
      → plain o ≡ true
      → answers_sized m ≡ true
      → answers_sized (or_free o m) ≡ true
  unfolding is_sized
  answers_sized-or_free (some t) m h k = h
  answers_sized-or_free none m h k = k

  parse_token-sized : (s : Str) → answers_sized (parse_token stod s) ≡ true
  unfolding parse_token
  parse_token-sized s =
      answers_sized-or_free (fixed_word s) (free_token stod s) (plain-fixed_word s)
        (free_token-sized s)

  answers_sized-append :
      (m n : Outcome (List Token))
      → answers_sized m ≡ true
      → answers_sized n ≡ true
      → answers_sized (do ts ← m; us ← n; ok (ts ++ us)) ≡ true
  answers_sized-append (ok ts) (ok us) h k = is_sized-append ts us h k
  answers_sized-append (ok ts) (fail e) h k = refl
  answers_sized-append (ok ts) (thrown x) h k = refl
  answers_sized-append (fail e) n h k = refl
  answers_sized-append (thrown x) n h k = refl

  parse_tokens-sized : (ws : List Str) → answers_sized (parse_tokens stod ws) ≡ true
  unfolding parse_tokens is_sized
  parse_tokens-sized [] = refl
  parse_tokens-sized (w ∷ ws) =
      answers_sized-append (parse_token stod w) (parse_tokens stod ws) (parse_token-sized w)
        (parse_tokens-sized ws)

  -- Every `str` that `parse` makes has its size behind it.
  pub parse-sized : (s : Str) (ts : List Token) → parse stod s ≡ ok ts → is_sized ts ≡ true
  unfolding parse
  parse-sized s ts h =
      let (ws, e, k) = bind-ok (tokenize s) (parse_tokens stod) h in rw k at (parse_tokens-sized ws)
