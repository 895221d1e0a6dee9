-- ===== src/Parser/Tokenizer/Bytes.antt =====
-- The tokens hold every byte of the query but its blanks, in order.
use proyecto_estructura.Prelude.{
  ℕ, ◌≡◌, refl, ◌∙◌, Bool, true, false, not, ◌&&◌, ◌||◌, ◌==◌, if◌then◌else◌, List, [], ◌∷◌, ◌++◌,
  map, arith, Str, and_left, and_right,
}
use proyecto_estructura.Outcome.{ok}
use proyecto_estructura.Parser.Tokenizer.{blank, rejoin, keep_word, tokenize}
use proyecto_estructura.Parser.Tokenizer.Reference.{
  pad_separators, words, split_words, spaced, tokenize_lem,
}

abbrev pub is_blank : ℕ → Bool
is_blank c = c == b' ' || c == b'\t' || c == b'\n'

abbrev pub strip : Str → Str
strip [] = []
strip (c ∷ s) = if is_blank c then strip s else c ∷ strip s

abbrev strip_spaces : Str → Str
strip_spaces [] = []
strip_spaces (c ∷ s) = if c == b' ' then strip_spaces s else c ∷ strip_spaces s

abbrev pub concat : List Str → Str
concat [] = []
concat (w ∷ ws) = w ++ concat ws

-- A token is not empty and holds no space.
abbrev pub is_clean : Str → Bool
is_clean [] = true
is_clean (c ∷ s) = not (c == b' ') && is_clean s

abbrev pub is_token : Str → Bool
is_token [] = false
is_token s = is_clean s

abbrev pub are_tokens : List Str → Bool
are_tokens [] = true
are_tokens (w ∷ ws) = is_token w && are_tokens ws

strip-blank : (s : Str) → strip_spaces (map blank s) ≡ strip s
strip-blank [] = refl
strip-blank (c ∷ s) = ground (arith, strip-blank s)

strip-pad_separators : (s : Str) → strip_spaces (pad_separators s) ≡ strip_spaces s
unfolding pad_separators
strip-pad_separators [] = refl
strip-pad_separators (c ∷ s) = ground (arith, strip-pad_separators s)

strip-rejoin : (c : ℕ) (s : Str) → strip_spaces (rejoin c s) ≡ strip_spaces s
unfolding rejoin
strip-rejoin c [] = refl
strip-rejoin c (a ∷ []) = refl
strip-rejoin c (a ∷ x ∷ []) = refl
strip-rejoin c (a ∷ x ∷ y ∷ []) = refl
strip-rejoin c (a ∷ x ∷ y ∷ e ∷ s) =
    ground (arith, strip-rejoin c s, strip-rejoin c (x ∷ y ∷ e ∷ s))

strip-spaced : (s : Str) → strip_spaces (spaced s) ≡ strip s
strip-spaced s =
    strip-rejoin _ _
    ∙ strip-rejoin _ _
    ∙ strip-rejoin _ _
    ∙ strip-rejoin _ _
    ∙ strip-pad_separators _
    ∙ strip-blank s

concat-keep_word : (w : Str) (ws : List Str) → concat (keep_word w ws) ≡ w ++ concat ws
concat-keep_word [] ws = refl
concat-keep_word (c ∷ w) ws = refl

concat-words : (s : Str) → (words s).first ++ concat (words s).rest ≡ strip_spaces s
unfolding words
concat-words [] = refl
concat-words (c ∷ s) =
    ground (arith, concat-words s, concat-keep_word (words s).first (words s).rest)

are_tokens-keep_word :
    (w : Str) (ws : List Str)
    → is_clean w ≡ true
    → are_tokens ws ≡ true
    → are_tokens (keep_word w ws) ≡ true
are_tokens-keep_word [] ws h k = k
are_tokens-keep_word (c ∷ w) ws h k = ground arith

are_tokens-words : (s : Str) → (is_clean (words s).first && are_tokens (words s).rest) ≡ true
unfolding words
are_tokens-words [] = refl
are_tokens-words (c ∷ s) =
    let w = words s in
    let k = are_tokens-words s in
    let a : is_clean w.first ≡ true = and_left (is_clean w.first) (are_tokens w.rest) k in
    let b : are_tokens w.rest ≡ true = and_right (is_clean w.first) (are_tokens w.rest) k in
    ground (arith, are_tokens-keep_word w.first w.rest a b)

-- The tokenizer ends on every text and answers tokens that are not empty and hold no space; put
-- one behind the other they are the text without its spaces, tabs and newlines: no other byte is
-- lost, added or moved.
pub tokenize-concat :
    (s : Str)
    → (ts : List Str) × (tokenize s ≡ ok ts) × (concat ts ≡ strip s) × (are_tokens ts ≡ true)
unfolding split_words
tokenize-concat s =
    let w = words (spaced s) in
    let k = are_tokens-words (spaced s) in
    (
      split_words (spaced s),
      tokenize_lem s,
      concat-keep_word w.first w.rest ∙ concat-words (spaced s) ∙ strip-spaced s,
      are_tokens-keep_word w.first w.rest (and_left _ _ k) (and_right _ _ k),
    )
