-- ===== src/Server/Query/Printed.antt =====
-- What `resolve` gets from the text of a sequence of phrases.
use mathlib.Core.Path.{ap₂}
use proyecto_estructura.Prelude.{
  ◌≡◌, refl, sym, ap, ◌∙◌, Bool, true, ◌&&◌, ◌||◌, Option, List, [], ◌∷◌, map, arith, Str, codes,
  str_eq, and_left, and_right,
}
use proyecto_estructura.Outcome.{Outcome, ok, ◌>>=◌}
use proyecto_estructura.Parser.Tokens.{Double, Token}
use proyecto_estructura.Parser.Tokenizer.Lexemes.{text, render}
use proyecto_estructura.Parser.Tokenizer.Spelled.{tokenize-render}
use proyecto_estructura.Parser.Parse.{parse}
use proyecto_estructura.Parser.Parse.Phrases.{
  Phrase, is_phrase, are_phrases, lexeme, tokens, all_tokens,
}
use proyecto_estructura.Parser.Parse.RoundTrip.{parse_token-phrase, plain-phrases, parse-render}
use proyecto_estructura.Parser.Validate.{Validation, validate}
use proyecto_estructura.Parser.Validate.Agrees.{answers_known, all_known, all_named, validate_exact}
use proyecto_estructura.Automata.Run.{get_action_struct}
use proyecto_estructura.Server.Query.{Reply, run_query, check_query}

tokens-known : (p : Phrase) → all_known (tokens p) ≡ true
tokens-known p = ground arith

or_true : (a b : Bool) → b ≡ true → a || b ≡ true
or_true a b h = ground arith

module _ (stod : Str → Option Double) where
  abbrev named_words : Outcome (List Str) → Bool
  named_words (ok ws) = all_named stod ws
  named_words _ = true

  phrases-named :
      (ps : List Phrase) → are_phrases ps ≡ true → all_named stod (map text (map lexeme ps)) ≡ true
  phrases-named [] h = refl
  phrases-named (p ∷ ps) h =
      let one = parse_token-phrase stod p (and_left (is_phrase p) (are_phrases ps) h) in
      ap₂ (◌&&◌)
        (or_true (str_eq (codes "!") (text (lexeme p))) _ (ap answers_known one ∙ tokens-known p))
        (phrases-named ps (and_right (is_phrase p) (are_phrases ps) h))

  accepted_runs :
      (u : Str) (v : Validation)
      → validate u ≡ ok v
      → v.accepted ≡ true
      → check_query stod u ≡ run_query stod u
  unfolding check_query
  accepted_runs u v e a = rw (e, a) refl

  runs-tokens :
      (u : Str) (ts : List Token)
      → parse stod u ≡ ok ts
      → run_query stod u ≡ (do a ← get_action_struct ts; ok (Reply.answered a))
  unfolding run_query
  runs-tokens u ts e = rw e refl

  -- The text that writes each phrase of a query (keywords, symbols, operators, types, integers,
  -- Booleans, names) with a space behind it is accepted, and what comes of it is what
  -- get_action_struct makes of the tokens of the phrases. An unsigned number is at most 2^64 - 1,
  -- a number with a minus at most 2^63 - 1, no operator is `!=`, a `str` has its size, and a name
  -- is no fixed word, no `str` with a size and no Boolean.
  pub check_query-render :
      (ps : List Phrase)
      → are_phrases ps ≡ true
      → check_query stod (render text (map lexeme ps))
        ≡ (do a ← get_action_struct (all_tokens ps); ok (Reply.answered a))
  check_query-render ps h =
      let u = render text (map lexeme ps) in
      let (ws, v, t, e, accepts) = validate_exact stod u in
      let same : ok (map text (map lexeme ps)) ≡ ok ws =
        sym (tokenize-render (map lexeme ps) (plain-phrases ps h)) ∙ t in
      let named : all_named stod ws ≡ true = ap named_words (sym same) ∙ phrases-named ps h in
      accepted_runs u v e (accepts.1 named) ∙ runs-tokens u (all_tokens ps) (parse-render stod ps h)
