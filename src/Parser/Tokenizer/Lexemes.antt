-- ===== src/Parser/Tokenizer/Lexemes.antt =====
-- A text of words and separators with a space behind each is cut into these words and separators.
use proyecto_estructura.Prelude.{
  ℕ, and_left, and_right, ◌≡◌, refl, ap, ◌∙◌, Bool, true, false, not, ◌&&◌, ◌||◌, ◌==◌, List, [],
  ◌∷◌, ◌++◌, map, arith, Str,
}
use proyecto_estructura.Parser.Tokenizer.{blank, is_separator, rejoin}
use proyecto_estructura.Parser.Tokenizer.Reference.{pad_separators}
use proyecto_estructura.Parser.Tokenizer.Bytes.{is_blank}
use proyecto_estructura.Parser.Tokenizer.Rejoin.{ends_with, begins_with, rejoin-append}

pub data Joined : Type 0 where
  equality inequality at_most at_least : Joined

abbrev pub first_byte : Joined → ℕ
first_byte Joined.equality = b'='
first_byte Joined.inequality = b'!'
first_byte Joined.at_most = b'<'
first_byte Joined.at_least = b'>'

pub data Separator : Type 0 where
  equal bang less greater opening closing comma semicolon : Separator

abbrev pub separator_byte : Separator → ℕ
separator_byte Separator.equal = b'='
separator_byte Separator.bang = b'!'
separator_byte Separator.less = b'<'
separator_byte Separator.greater = b'>'
separator_byte Separator.opening = b'('
separator_byte Separator.closing = b')'
separator_byte Separator.comma = b','
separator_byte Separator.semicolon = b';'

-- What a query is cut into: a word with no separator, a separator, or one with `=` behind it.
pub data Lexeme : Type 0 where
  plain : Str → Lexeme
  single : Separator → Lexeme
  joined : Joined → Lexeme

abbrev pub text : Lexeme → Str
text (Lexeme.plain w) = w
text (Lexeme.single c) = separator_byte c ∷ []
text (Lexeme.joined j) = first_byte j ∷ b'=' ∷ []

abbrev pub all_plain : Str → Bool
all_plain [] = true
all_plain (c ∷ s) = not (is_separator c || is_blank c) && all_plain s

abbrev pub is_plain : Str → Bool
is_plain [] = false
is_plain (c ∷ s) = all_plain (c ∷ s)

abbrev pub is_lexeme : Lexeme → Bool
is_lexeme (Lexeme.plain w) = is_plain w
is_lexeme (Lexeme.single c) = true
is_lexeme (Lexeme.joined j) = true

abbrev pub are_lexemes : List Lexeme → Bool
are_lexemes [] = true
are_lexemes (l ∷ ls) = is_lexeme l && are_lexemes ls

pub lexemes_parts :
    (l : Lexeme) (ls : List Lexeme)
    → are_lexemes (l ∷ ls) ≡ true
    → (is_lexeme l ≡ true) × (are_lexemes ls ≡ true)
lexemes_parts l ls h =
    (and_left (is_lexeme l) (are_lexemes ls) h, and_right (is_lexeme l) (are_lexemes ls) h)

-- the words with a space behind each
abbrev pub render : (Lexeme → Str) → List Lexeme → Str
render f [] = []
render f (l ∷ ls) = f l ++ b' ' ∷ render f ls

abbrev pub padded : Lexeme → Str
padded l = pad_separators (map blank (text l))

pad_separators-append : (u v : Str) → pad_separators (u ++ v) ≡ pad_separators u ++ pad_separators v
unfolding pad_separators
pad_separators-append [] v = refl
pad_separators-append (c ∷ u) v = ground (arith, pad_separators-append u v)

map-blank-append : (u v : Str) → map blank (u ++ v) ≡ map blank u ++ map blank v
map-blank-append [] v = refl
map-blank-append (c ∷ u) v = ap (◌∷◌ (blank c)) (map-blank-append u v)

pub padded-render :
    (ls : List Lexeme) → pad_separators (map blank (render text ls)) ≡ render padded ls
unfolding pad_separators
padded-render [] = refl
padded-render (l ∷ ls) =
    ap pad_separators (map-blank-append (text l) (b' ' ∷ render text ls))
    ∙ pad_separators-append (map blank (text l)) (b' ' ∷ map blank (render text ls))
    ∙ ap (λ s. padded l ++ b' ' ∷ s) (padded-render ls)

-- What a word must be for the replacement after `c` to stay within it.
abbrev pub is_apart : ℕ → Str → Bool
is_apart c [] = false
is_apart c (a ∷ s) = not (ends_with c (a ∷ s)) && not (a == b'=')

ends-apart : (c : ℕ) (w : Str) → is_apart c w ≡ true → ends_with c w ≡ false
ends-apart c [] h = refl
ends-apart c (a ∷ w) h = ground arith

begins-apart : (c : ℕ) (w s : Str) → is_apart c w ≡ true → begins_with b'=' (w ++ b' ' ∷ s) ≡ false
begins-apart c [] s h = ground arith
begins-apart c (a ∷ w) s h = ground arith

-- whether a function writes every lexeme so that the replacement after `c` stays within it
abbrev pub Apart : ℕ → (Lexeme → Str) → Type 0
Apart c f = (l : Lexeme) → is_lexeme l ≡ true → is_apart c (f l) ≡ true

begins-render :
    (c : ℕ) (f : Lexeme → Str) (ls : List Lexeme)
    → Apart c f
    → are_lexemes ls ≡ true
    → begins_with b'=' (render f ls) ≡ false
begins-render c f [] a h = refl
begins-render c f (l ∷ ls) a h =
    begins-apart c (f l) (render f ls) (a l (and_left (is_lexeme l) (are_lexemes ls) h))

pub rejoin-render :
    (c : ℕ) (f : Lexeme → Str) (ls : List Lexeme)
    → (c == b' ') ≡ false
    → Apart c f
    → are_lexemes ls ≡ true
    → rejoin c (render f ls) ≡ render (λ l. rejoin c (f l)) ls
rejoin-render c f [] d a h = unfold rejoin in refl
rejoin-render c f (l ∷ ls) d a h =
    let (one, others) = lexemes_parts l ls h in
    rejoin-append c (f l) (render f ls) d (ends-apart c (f l) (a l one))
      (begins-render c f ls a others)
    ∙ ap (λ s. rejoin c (f l) ++ b' ' ∷ s) (rejoin-render c f ls d a others)
