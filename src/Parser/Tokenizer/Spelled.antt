-- ===== src/Parser/Tokenizer/Spelled.antt =====
-- The tokenizer gives back the words and separators of a text.
use proyecto_estructura.Prelude.{ℕ, ◌≡◌, refl, ap, ◌∙◌, true, List, [], ◌∷◌, ◌++◌, map, arith, Str}
use proyecto_estructura.Outcome.{ok}
use proyecto_estructura.Parser.Tokenizer.{rejoin, rejoin_all, tokenize}
use proyecto_estructura.Parser.Tokenizer.Reference.{
  pad_separators, words, split_words, spaced, tokenize_lem,
}
use proyecto_estructura.Parser.Tokenizer.Lexemes.{
  Joined, Separator, Lexeme, text, all_plain, is_plain, is_lexeme, are_lexemes, render, padded,
  padded-render, is_apart, Apart, rejoin-render, lexemes_parts, separator_byte, first_byte,
}
use proyecto_estructura.Parser.Tokenizer.Plain.{
  plain_byte, final, after_equal, after_bang, after_less, plain_apart, plain_steps,
}

apart_path : (c : ℕ) {u w : Str} → u ≡ w → is_apart c w ≡ true → is_apart c u ≡ true
apart_path c e h = ap (is_apart c) e ∙ h

Apart-padded : Apart b'=' padded
unfolding pad_separators
Apart-padded (Lexeme.plain w) h = apart_path b'=' (plain_steps w h).0 (plain_apart b'=' w refl h)
Apart-padded (Lexeme.single c) h = ground arith
Apart-padded (Lexeme.joined j) h = ground arith

Apart-equal : Apart b'!' after_equal
unfolding pad_separators rejoin
Apart-equal (Lexeme.plain w) h = apart_path b'!' (plain_steps w h).1 (plain_apart b'!' w refl h)
Apart-equal (Lexeme.single c) h = ground arith
Apart-equal (Lexeme.joined j) h = ground arith

Apart-bang : Apart b'<' after_bang
unfolding pad_separators rejoin
Apart-bang (Lexeme.plain w) h = apart_path b'<' (plain_steps w h).2 (plain_apart b'<' w refl h)
Apart-bang (Lexeme.single c) h = ground arith
Apart-bang (Lexeme.joined j) h = ground arith

Apart-less : Apart b'>' after_less
unfolding pad_separators rejoin
Apart-less (Lexeme.plain w) h = apart_path b'>' (plain_steps w h).3 (plain_apart b'>' w refl h)
Apart-less (Lexeme.single c) h = ground arith
Apart-less (Lexeme.joined j) h = ground arith

after_all : (l : Lexeme) → is_lexeme l ≡ true → rejoin b'>' (after_less l) ≡ final l
unfolding pad_separators rejoin
after_all (Lexeme.plain w) h = (plain_steps w h).4
after_all (Lexeme.single c) h = ground arith
after_all (Lexeme.joined j) h = ground arith

render-cong :
    (f g : Lexeme → Str) (ls : List Lexeme)
    → ((l : Lexeme) → is_lexeme l ≡ true → f l ≡ g l)
    → are_lexemes ls ≡ true
    → render f ls ≡ render g ls
render-cong f g [] e h = refl
render-cong f g (l ∷ ls) e h =
    let (one, others) = lexemes_parts l ls h in rw (e l one, render-cong f g ls e others) refl

spaced-render :
    (ls : List Lexeme) → are_lexemes ls ≡ true → spaced (render text ls) ≡ render final ls
spaced-render ls h =
    ap rejoin_all (padded-render ls)
    ∙ ap (λ s. rejoin b'>' (rejoin b'<' (rejoin b'!' s)))
        (rejoin-render b'=' padded ls refl Apart-padded h)
    ∙ ap (λ s. rejoin b'>' (rejoin b'<' s)) (rejoin-render b'!' after_equal ls refl Apart-equal h)
    ∙ ap (rejoin b'>') (rejoin-render b'<' after_bang ls refl Apart-bang h)
    ∙ rejoin-render b'>' after_less ls refl Apart-less h
    ∙ render-cong _ final ls after_all h

split_space : (s : Str) → split_words (b' ' ∷ s) ≡ split_words s
unfolding split_words words
split_space s = refl

words_plain :
    (w s : Str)
    → all_plain w ≡ true
    → words (w ++ b' ' ∷ s) ≡ record { first = w; rest = split_words s }
unfolding words split_words
words_plain [] s h = refl
words_plain (c ∷ w) s h =
    let (e, f, k) = plain_byte c w h in rw (words_plain w s k) (ground (arith, f))

split_plain : (w s : Str) → is_plain w ≡ true → split_words (w ++ b' ' ∷ s) ≡ w ∷ split_words s
unfolding split_words
split_plain [] s h = ground arith
split_plain (c ∷ w) s h = rw (words_plain (c ∷ w) s h) refl

split_single :
    (c : Separator) (s : Str)
    → split_words (b' ' ∷ separator_byte c ∷ b' ' ∷ b' ' ∷ s)
      ≡ (separator_byte c ∷ []) ∷ split_words s
unfolding split_words words
split_single c s = ground arith

split_joined :
    (j : Joined) (s : Str)
    → split_words (b' ' ∷ first_byte j ∷ b'=' ∷ b' ' ∷ b' ' ∷ s)
      ≡ (first_byte j ∷ b'=' ∷ []) ∷ split_words s
unfolding split_words words
split_joined j s = ground arith

split_final :
    (l : Lexeme) (s : Str)
    → is_lexeme l ≡ true
    → split_words (final l ++ b' ' ∷ s) ≡ text l ∷ split_words s
split_final (Lexeme.plain w) s h = split_plain w s h
split_final (Lexeme.single c) s h = split_single c s
split_final (Lexeme.joined j) s h = split_joined j s

split_words-render :
    (ls : List Lexeme) → are_lexemes ls ≡ true → split_words (render final ls) ≡ map text ls
split_words-render [] h = unfold split_words words in refl
split_words-render (l ∷ ls) h =
    let (one, others) = lexemes_parts l ls h in
    split_final l (render final ls) one ∙ ap (◌∷◌ (text l)) (split_words-render ls others)

-- A text of plain words, separators and the equality operators, with a space behind each, is cut
-- into these. A plain word is not empty and has no separator and no blank.
pub tokenize-render :
    (ls : List Lexeme) → are_lexemes ls ≡ true → tokenize (render text ls) ≡ ok (map text ls)
tokenize-render ls h =
    tokenize_lem (render text ls)
    ∙ ap (λ s. ok (split_words s)) (spaced-render ls h)
    ∙ ap ok (split_words-render ls h)
