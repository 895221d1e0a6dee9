-- ===== src/Parser/Tokenizer/Plain.antt =====
-- What the steps of the tokenizer do to a word with no separator and no blank.
use mathlib.Core.Path.{ap₂}
use mathlib.Core.Bool.{false≢true}
use proyecto_estructura.Prelude.{
  ℕ, Bool-cases, inl, inr, ==_iff, ◌≡◌, refl, sym, ap, ◌∙◌, Bool, true, false, not, ◌&&◌, ◌||◌,
  ◌==◌, [], ◌∷◌, map, arith, Str,
}
use proyecto_estructura.Parser.Tokenizer.{blank, is_separator, rejoin}
use proyecto_estructura.Parser.Tokenizer.Reference.{pad_separators}
use proyecto_estructura.Parser.Tokenizer.Bytes.{is_blank}
use proyecto_estructura.Parser.Tokenizer.Rejoin.{ends_with}
use proyecto_estructura.Parser.Tokenizer.Lexemes.{
  first_byte, separator_byte, Lexeme, all_plain, is_plain, padded, is_apart,
}

other_byte : (c a : ℕ) → is_separator c ≡ true → is_separator a ≡ false → (a == c) ≡ false
other_byte c a h k = elim (Bool-cases (a == c)) [
  | inl e ↦
      let same : a ≡ c = (==_iff a c).0 e in absurd (false≢true (sym k ∙ ap is_separator same ∙ h))
  | inr e ↦ e
]

abbrev lacks : ℕ → Str → Bool
lacks c [] = true
lacks c (a ∷ s) = not (a == c) && lacks c s

pub plain_byte :
    (a : ℕ) (w : Str)
    → all_plain (a ∷ w) ≡ true
    → (is_separator a ≡ false) × (is_blank a ≡ false) × (all_plain w ≡ true)
plain_byte a w h = elim (Bool-cases (is_separator a)) [
  | inl e ↦ absurd (false≢true (sym (ap (λ b. not (b || is_blank a) && all_plain w) e) ∙ h))
  | inr e ↦ elim (Bool-cases (is_blank a)) [
    | inl f ↦ absurd (false≢true (sym (ap₂ (λ b d. not (b || d) && all_plain w) e f) ∙ h))
    | inr f ↦ (e, f, sym (ap₂ (λ b d. not (b || d) && all_plain w) e f) ∙ h)
  ]
]

plain-lacks : (c : ℕ) (w : Str) → is_separator c ≡ true → all_plain w ≡ true → lacks c w ≡ true
plain-lacks c [] s h = refl
plain-lacks c (a ∷ w) s h =
    let (e, _, k) = plain_byte a w h in
    let d = other_byte c a s e in ap₂ (λ x y. not x && y) d (plain-lacks c w s k)

rejoin-lacks : (c : ℕ) (w : Str) → lacks c w ≡ true → rejoin c w ≡ w
unfolding rejoin
rejoin-lacks c [] k = refl
rejoin-lacks c (a ∷ []) k = refl
rejoin-lacks c (a ∷ x ∷ []) k = refl
rejoin-lacks c (a ∷ x ∷ y ∷ []) k = refl
rejoin-lacks c (a ∷ x ∷ y ∷ e ∷ w) k = ground (arith, rejoin-lacks c (x ∷ y ∷ e ∷ w))

padded_plain : (w : Str) → all_plain w ≡ true → pad_separators (map blank w) ≡ w
unfolding pad_separators
padded_plain [] h = refl
padded_plain (c ∷ w) h = let (e, f, k) = plain_byte c w h in ground (arith, e, f, padded_plain w k)

ends-lacks : (c : ℕ) (w : Str) → lacks c w ≡ true → ends_with c w ≡ false
ends-lacks c [] h = refl
ends-lacks c (a ∷ []) h = ground arith
ends-lacks c (a ∷ b ∷ w) h = ends-lacks c (b ∷ w) (ground arith)

apart-lacks :
    (c a : ℕ) (w : Str)
    → lacks c (a ∷ w) ≡ true
    → lacks b'=' (a ∷ w) ≡ true
    → is_apart c (a ∷ w) ≡ true
apart-lacks c a w h k = ground (arith, ends-lacks c (a ∷ w) h)

-- a lexeme as the four replacements leave it
abbrev pub final : Lexeme → Str
final (Lexeme.plain w) = w
final (Lexeme.single c) = b' ' ∷ separator_byte c ∷ b' ' ∷ []
final (Lexeme.joined j) = b' ' ∷ first_byte j ∷ b'=' ∷ b' ' ∷ []

abbrev pub after_equal : Lexeme → Str
after_equal l = rejoin b'=' (padded l)

abbrev pub after_bang : Lexeme → Str
after_bang l = rejoin b'!' (after_equal l)

abbrev pub after_less : Lexeme → Str
after_less l = rejoin b'<' (after_bang l)

pub plain_apart :
    (c : ℕ) (w : Str) → is_separator c ≡ true → is_plain w ≡ true → is_apart c w ≡ true
plain_apart c [] s h = h
plain_apart c (a ∷ w) s h =
    apart-lacks c a w (plain-lacks c (a ∷ w) s h) (plain-lacks b'=' (a ∷ w) refl h)

pub plain_text : (w : Str) → is_plain w ≡ true → all_plain w ≡ true
plain_text [] h = refl
plain_text (a ∷ w) h = h

-- A plain word is left as it is by every step.
pub plain_steps :
    (w : Str)
    → is_plain w ≡ true
    → (padded (Lexeme.plain w) ≡ w)
      × (after_equal (Lexeme.plain w) ≡ w)
      × (after_bang (Lexeme.plain w) ≡ w)
      × (after_less (Lexeme.plain w) ≡ w)
      × (rejoin b'>' (after_less (Lexeme.plain w)) ≡ w)
plain_steps w h =
    let k = plain_text w h in
    let p = padded_plain w k in
    let e = ap (rejoin b'=') p ∙ rejoin-lacks b'=' w (plain-lacks b'=' w refl k) in
    let b = ap (rejoin b'!') e ∙ rejoin-lacks b'!' w (plain-lacks b'!' w refl k) in
    let l = ap (rejoin b'<') b ∙ rejoin-lacks b'<' w (plain-lacks b'<' w refl k) in
    let g = ap (rejoin b'>') l ∙ rejoin-lacks b'>' w (plain-lacks b'>' w refl k) in (p, e, b, l, g)
