-- ===== src/Parser/Parse/Decimal.antt =====
-- Numbers written with decimal digits are read back.
use proyecto_estructura.Prelude.{
  ℕ, zero, suc, ◌+◌, ◌/◌, ◌%◌, ◌<◌, ◌≤◌, ◌≡◌, refl, sym, ap, ◌∙◌, true, ltb, if◌then◌else◌, [], ◌∷◌,
  arith, Str, Bool-cases, inl, inr, ltb→lt,
}
use proyecto_estructura.Parser.Patterns.{all_digits, read_decimal}

-- the digits of a number in front of others; the first argument is greater than the number
abbrev write_digits : ℕ → ℕ → Str → Str
write_digits zero n s = s
write_digits (suc rounds) n s =
    let rest = write_digits rounds (n / 10) ((n % 10 + b'0') ∷ s) in
    if ltb n 10 then (n + b'0') ∷ s else rest

abbrev pub digits : ℕ → Str
digits n = write_digits (suc n) n []

read_decimal-write_digits :
    (rounds n : ℕ) (s : Str)
    → n < rounds
    → read_decimal 0 (write_digits rounds n s) ≡ read_decimal n s
unfolding read_decimal
read_decimal-write_digits zero n s h = absurd (omega arith)
read_decimal-write_digits (suc rounds) n s h = elim (Bool-cases (ltb n 10)) [
  | inl e ↦ rw e (ap (λ k. read_decimal k s) (omega arith))
  | inr e ↦
      let big : 10 ≤ n = ground (arith, e) in
      rw e (
        read_decimal-write_digits rounds (n / 10) ((n % 10 + b'0') ∷ s) (omega arith)
        ∙ ap (λ k. read_decimal k s) (omega arith))
]

pub read_decimal-digits : (n : ℕ) → read_decimal 0 (digits n) ≡ n
unfolding read_decimal
read_decimal-digits n = read_decimal-write_digits (suc n) n [] (omega arith)

all_digits-write_digits :
    (rounds n : ℕ) (s : Str) → all_digits s ≡ true → all_digits (write_digits rounds n s) ≡ true
all_digits-write_digits zero n s h = h
all_digits-write_digits (suc rounds) n s h = elim (Bool-cases (ltb n 10)) [
  | inl e ↦ let small = ltb→lt n 10 e in rw e (ground (arith, small))
  | inr e ↦
      let d : n % 10 < 10 = omega arith in
      rw e (all_digits-write_digits rounds (n / 10) ((n % 10 + b'0') ∷ s) (ground (arith, d)))
]

write_digits-some :
    (rounds n : ℕ) (s : Str) → n < rounds → (c : ℕ) × (t : Str) × (write_digits rounds n s ≡ c ∷ t)
write_digits-some zero n s h = absurd (omega arith)
write_digits-some (suc rounds) n s h = elim (Bool-cases (ltb n 10)) [
  | inl e ↦ (n + b'0', s, rw e refl)
  | inr e ↦
      let big : 10 ≤ n = ground (arith, e) in
      let (c, t, k) = write_digits-some rounds (n / 10) ((n % 10 + b'0') ∷ s) (omega arith) in
      (c, t, rw e k)
]

-- The digits of a number are one or more.
pub digits_form : (n : ℕ) → (c : ℕ) × (t : Str) × (digits n ≡ c ∷ t) × (all_digits (c ∷ t) ≡ true)
digits_form n =
    let (c, t, e) = write_digits-some (suc n) n [] (omega arith) in
    (c, t, e, ap all_digits (sym e) ∙ all_digits-write_digits (suc n) n [] refl)
