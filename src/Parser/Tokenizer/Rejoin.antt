-- ===== src/Parser/Tokenizer/Rejoin.antt =====
-- The replacements of `make_tokens_explicit` on words with a space between them.
use proyecto_estructura.Prelude.{
  ℕ, ◌≡◌, refl, sym, ap, ◌∙◌, Bool, true, false, ◌&&◌, ◌==◌, if◌then◌else◌, [], ◌∷◌, ◌++◌, arith,
  Str, Bool-cases, inl, inr,
}
use proyecto_estructura.Parser.Tokenizer.{rejoin}

-- whether a text begins with what is behind the first byte of a match, and what is behind that
abbrev joint : Str → Bool
joint (x ∷ y ∷ e ∷ s) = x == b' ' && y == b' ' && e == b'='
joint _ = false

abbrev behind_joint : Str → Str
behind_joint (x ∷ y ∷ e ∷ s) = s
behind_joint s = s

rejoin_cons :
    (c a : ℕ) (s : Str)
    → rejoin c (a ∷ s)
      ≡ (if a == c && joint s then c ∷ b'=' ∷ rejoin c (behind_joint s) else a ∷ rejoin c s)
unfolding rejoin
rejoin_cons c a [] = ground arith
rejoin_cons c a (x ∷ []) = ground arith
rejoin_cons c a (x ∷ y ∷ []) = ground arith
rejoin_cons c a (x ∷ y ∷ e ∷ s) = ground arith

abbrev pub ends_with : ℕ → Str → Bool
ends_with c [] = false
ends_with c (a ∷ []) = a == c
ends_with c (a ∷ b ∷ s) = ends_with c (b ∷ s)

ends_with-tail : (c z : ℕ) (s : Str) → ends_with c (z ∷ s) ≡ false → ends_with c s ≡ false
ends_with-tail c z [] h = refl
ends_with-tail c z (a ∷ s) h = h

abbrev pub begins_with : ℕ → Str → Bool
begins_with c [] = false
begins_with c (a ∷ s) = a == c

rejoin_skip : (c a : ℕ) (s : Str) → (a == c && joint s) ≡ false → rejoin c (a ∷ s) ≡ a ∷ rejoin c s
rejoin_skip c a s h = rejoin_cons c a s ∙ ground arith

rejoin_space : (c : ℕ) (v : Str) → (c == b' ') ≡ false → rejoin c (b' ' ∷ v) ≡ b' ' ∷ rejoin c v
rejoin_space c v h = rejoin_skip c b' ' v (ground arith)

rejoin_match :
    (c a : ℕ) (s : Str)
    → (a == c && joint s) ≡ true
    → rejoin c (a ∷ s) ≡ c ∷ b'=' ∷ rejoin c (behind_joint s)
rejoin_match c a s h = rejoin_cons c a s ∙ ground arith

-- a byte that no match begins with, in front of a word for which the claim below holds
skip-append :
    (c a : ℕ) (u v : Str)
    → (a == c && joint (u ++ b' ' ∷ v)) ≡ false
    → (a == c && joint u) ≡ false
    → rejoin c (u ++ b' ' ∷ v) ≡ rejoin c u ++ b' ' ∷ rejoin c v
    → rejoin c (a ∷ (u ++ b' ' ∷ v)) ≡ rejoin c (a ∷ u) ++ b' ' ∷ rejoin c v
skip-append c a u v h k e =
    rejoin_skip c a (u ++ b' ' ∷ v) h
    ∙ ap (◌∷◌ a) e
    ∙ ap (λ w. w ++ b' ' ∷ rejoin c v) (sym (rejoin_skip c a u k))

joint-short : (x : ℕ) (v : Str) → begins_with b'=' v ≡ false → joint (x ∷ b' ' ∷ v) ≡ false
joint-short x [] h = refl
joint-short x (e ∷ v) h = ground arith

-- A match does not reach over the space behind a word, if the word does not end with its first
-- byte and the next does not begin with `=`.
pub rejoin-append :
    (c : ℕ) (u v : Str)
    → (c == b' ') ≡ false
    → ends_with c u ≡ false
    → begins_with b'=' v ≡ false
    → rejoin c (u ++ b' ' ∷ v) ≡ rejoin c u ++ b' ' ∷ rejoin c v
rejoin-append c [] v d e b = unfold rejoin in rejoin_space c v d
rejoin-append c (a ∷ []) v d e b =
    skip-append c a [] v (ground arith) (ground arith) (rejoin-append c [] v d refl b)
rejoin-append c (a ∷ x ∷ []) v d e b =
    skip-append c a (x ∷ []) v (ground (arith, joint-short x v b)) (ground arith)
      (rejoin-append c (x ∷ []) v d e b)
rejoin-append c (a ∷ x ∷ y ∷ []) v d e b =
    skip-append c a (x ∷ y ∷ []) v (ground arith) (ground arith)
      (rejoin-append c (x ∷ y ∷ []) v d e b)
rejoin-append c (a ∷ x ∷ y ∷ z ∷ s) v d e b = elim (Bool-cases (a == c && joint (x ∷ y ∷ z ∷ s))) [
  | inl h ↦
      let k = rejoin-append c s v d (ends_with-tail c z s e) b in
      rejoin_match c a (x ∷ y ∷ z ∷ (s ++ b' ' ∷ v)) h
      ∙ ap (λ w. c ∷ b'=' ∷ w) k
      ∙ ap (λ w. w ++ b' ' ∷ rejoin c v) (sym (rejoin_match c a (x ∷ y ∷ z ∷ s) h))
  | inr h ↦ skip-append c a (x ∷ y ∷ z ∷ s) v h h (rejoin-append c (x ∷ y ∷ z ∷ s) v d e b)
]
