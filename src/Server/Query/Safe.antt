-- ===== src/Server/Query/Safe.antt =====
-- Which queries `resolve` reads without an exception.
use proyecto_estructura.Prelude.{
  ◌≡◌, refl, Bool, true, false, Option, List, [], ◌∷◌, arith, Str, is_some, not, ◌||◌, ◌&&◌,
}
use proyecto_estructura.Outcome.{Outcome, ok, fail, thrown, ◌>>=◌, safe, safe-bind}
use proyecto_estructura.Parser.Tokens.{KeywordE, Double, Token}
use proyecto_estructura.Parser.Tokenizer.{rejoin_all, tokenize}
use proyecto_estructura.Parser.Patterns.{is_decimal, is_integer}
use proyecto_estructura.Parser.Tokenizer.Reference.{
  make_tokens_explicit_lem, pad_separators, tokenize_lem, split_words, spaced,
}
use proyecto_estructura.Parser.Parse.{double_token, free_token, parse_token, parse_tokens, parse}
use proyecto_estructura.Parser.Parse.Sized.{parse-sized}
use proyecto_estructura.Automata.State.{is_keyword}
use proyecto_estructura.Automata.Run.{get_action_struct}
use proyecto_estructura.Parser.Validate.{Validation, validate_tokens, validate}
use proyecto_estructura.Automata.Safety.Sized.{is_sized}
use proyecto_estructura.Automata.Safety.{get_action_struct-safe}
use proyecto_estructura.Server.Query.{
  trim_front, trim_back, trimmed, run_query, check_query, read_query,
}

get_action_struct-empty : safe (get_action_struct []) ≡ true
unfolding get_action_struct
get_action_struct-empty = refl

abbrev starts_using : List Token → Bool
starts_using [] = false
starts_using (t ∷ ts) = is_keyword KeywordE.using t

abbrev answers_using : Outcome (List Token) → Bool
answers_using (ok ts) = starts_using ts
answers_using (fail e) = false
answers_using (thrown x) = false

-- whether the first token that a query is parsed to is `USING`
abbrev pub opens_using : (Str → Option Double) → Str → Bool
opens_using stod q = answers_using (do u ← trimmed q; parse stod u)

pub trimmed_lem :
    (q : Str) → trimmed q ≡ ok (trim_back (trim_front (rejoin_all (pad_separators q))))
unfolding trimmed
trimmed_lem q = rw (make_tokens_explicit_lem q) refl

-- whether `std::stod` reads each word that `parse` gives to it: the decimals that are no integers
abbrev reads_words : (Str → Option Double) → List Str → Bool
reads_words stod [] = true
reads_words stod (w ∷ ws) =
    (not (is_decimal w) || (is_integer w || is_some (stod w))) && reads_words stod ws

abbrev answers_read : (Str → Option Double) → Outcome (List Str) → Bool
answers_read stod (ok ws) = reads_words stod ws
answers_read stod (fail e) = true
answers_read stod (thrown x) = true

-- whether it reads each decimal of the text of a query
abbrev pub reads_decimals : (Str → Option Double) → Str → Bool
reads_decimals stod q = answers_read stod (do u ← trimmed q; tokenize u)

module _ (stod : Str → Option Double) where
  double_token-safe :
      (s : Str)
      → (not (is_decimal s) || is_some (stod s)) ≡ true
      → safe (double_token stod s) ≡ true
  unfolding double_token
  double_token-safe s h = ground (arith, h)

  parse_token-safe :
      (s : Str)
      → (not (is_decimal s) || (is_integer s || is_some (stod s))) ≡ true
      → safe (parse_token stod s) ≡ true
  unfolding parse_token free_token
  parse_token-safe s h = ground (arith, h, double_token-safe s)

  parse_tokens-safe :
      (ws : List Str) → reads_words stod ws ≡ true → safe (parse_tokens stod ws) ≡ true
  unfolding parse_tokens
  parse_tokens-safe [] h = refl
  parse_tokens-safe (w ∷ ws) h = ground (arith, h, parse_token-safe w, parse_tokens-safe ws)

  parse-safe : (s : Str) → answers_read stod (tokenize s) ≡ true → safe (parse stod s) ≡ true
  unfolding parse
  parse-safe s h =
      rw (tokenize_lem s) (parse_tokens-safe (split_words (spaced s)) (rw (tokenize_lem s) at h))

  get_action_struct-first :
      (ts : List Token)
      → is_sized ts ≡ true
      → starts_using ts ≡ false
      → safe (get_action_struct ts) ≡ true
  get_action_struct-first [] z h = get_action_struct-empty
  get_action_struct-first (t ∷ ts) z h = get_action_struct-safe t ts h z

  run_query-safe :
      (u : Str)
      → answers_read stod (tokenize u) ≡ true
      → ((ts : List Token) → parse stod u ≡ ok ts → starts_using ts ≡ false)
      → safe (run_query stod u) ≡ true
  unfolding run_query
  run_query-safe u r h = safe-bind (parse stod u) _ (parse-safe u r) λ ts e.
      safe-bind (get_action_struct ts) _
        (get_action_struct-first ts (parse-sized stod u ts e) (h ts e)) λ a k. refl

  refused-message :
      (ws : List Str) (v : Validation)
      → validate_tokens ws ≡ v
      → v.accepted ≡ false
      → is_some v.message ≡ true
  unfolding validate_tokens
  refused-message [] v e h = ground arith
  refused-message (w ∷ ws) v e h = ground (arith, refused-message ws v)

  check_query-safe :
      (u : Str)
      → answers_read stod (tokenize u) ≡ true
      → ((ts : List Token) → parse stod u ≡ ok ts → starts_using ts ≡ false)
      → safe (check_query stod u) ≡ true
  unfolding check_query validate
  check_query-safe u r h =
      let ws = split_words (spaced u) in
      rw (tokenize_lem u)
        (ground (arith, run_query-safe u r h, refused-message ws (validate_tokens ws) refl))

  starts-opens :
      (m : Outcome (List Token)) (ts : List Token)
      → answers_using m ≡ false
      → m ≡ ok ts
      → starts_using ts ≡ false
  starts-opens m ts h e = rw e at h

  -- From any text `resolve` gets an action, "Invalid query", a message or its stop, with no
  -- exception and no read of what is not there, if the text does not begin with `USING` and
  -- `std::stod` reads its decimals.
  pub read_query-safe :
      (q : Str)
      → opens_using stod q ≡ false
      → reads_decimals stod q ≡ true
      → safe (read_query stod q) ≡ true
  unfolding read_query
  read_query-safe q h r =
      let u = trim_back (trim_front (rejoin_all (pad_separators q))) in
      let h' : answers_using (parse stod u) ≡ false = rw (trimmed_lem q) at h in
      let r' : answers_read stod (tokenize u) ≡ true = rw (trimmed_lem q) at r in
      rw (trimmed_lem q)
        (ground (arith, check_query-safe u r' (λ ts e. starts-opens (parse stod u) ts h' e)))
