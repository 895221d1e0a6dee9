-- ===== src/Prelude/Lists.antt =====
-- Lists measured and indexed by native numbers, and byte strings.
use Prim.Native.Nat.{ℕ, zero, suc, ◌+◌, ◌<◌, ◌≤◌}
use Prim.Native.Char.{code}
use Prim.Native.String.{String}
use mathlib.Core.Path.{◌≡◌, refl}
use mathlib.Core.Logic.{◌↔◌}
use mathlib.Core.Bool.{Bool, true, false, ◌&&◌}
use mathlib.Core.List.{List, [], ◌∷◌, ◌++◌}
use mathlib.Core.Option.{Option, none, some}
use native.Mathlib.Omega.{arith}
use proyecto_estructura.Prelude.Tests.{◌==◌}

module _ {ℓ} {A : Type ℓ} where
  abbrev pub length : List A → ℕ
  length [] = 0
  length (x ∷ xs) = suc (length xs)

  abbrev pub get_elem? : List A → ℕ → Option A
  get_elem? [] i = none
  get_elem? (x ∷ xs) zero = some x
  get_elem? (x ∷ xs) (suc i) = get_elem? xs i

  abbrev pub drop : ℕ → List A → List A
  drop zero xs = xs
  drop (suc n) [] = []
  drop (suc n) (x ∷ xs) = drop n xs

  abbrev pub head? : List A → Option A
  head? [] = none
  head? (x ∷ xs) = some x

  abbrev pub tail : List A → List A
  tail [] = []
  tail (x ∷ xs) = xs

  pub length-append : (xs ys : List A) → length (xs ++ ys) ≡ length xs + length ys
  length-append [] ys = omega arith
  length-append (x ∷ xs) ys = omega (arith, length-append xs ys)

  pub head?-drop : (n : ℕ) (xs : List A) → head? (drop n xs) ≡ get_elem? xs n
  head?-drop zero [] = refl
  head?-drop zero (x ∷ xs) = refl
  head?-drop (suc n) [] = refl
  head?-drop (suc n) (x ∷ xs) = head?-drop n xs

  pub tail-drop : (n : ℕ) (xs : List A) → tail (drop n xs) ≡ drop (suc n) xs
  tail-drop zero [] = refl
  tail-drop zero (x ∷ xs) = refl
  tail-drop (suc n) [] = refl
  tail-drop (suc n) (x ∷ xs) = tail-drop n xs

  pub get_elem?-out : (xs : List A) (n : ℕ) → length xs ≤ n → get_elem? xs n ≡ none
  get_elem?-out [] n h = refl
  get_elem?-out (x ∷ xs) zero h = absurd (omega arith)
  get_elem?-out (x ∷ xs) (suc n) h = get_elem?-out xs n (omega arith)

  pub drop-out : (xs : List A) (n : ℕ) → length xs ≤ n → drop n xs ≡ []
  drop-out [] zero h = refl
  drop-out [] (suc n) h = refl
  drop-out (x ∷ xs) zero h = absurd (omega arith)
  drop-out (x ∷ xs) (suc n) h = drop-out xs n (omega arith)

  pub get_elem?-in : (xs : List A) (n : ℕ) → n < length xs → (x : A) × (get_elem? xs n ≡ some x)
  get_elem?-in [] n h = absurd (omega arith)
  get_elem?-in (x ∷ xs) zero h = (x, refl)
  get_elem?-in (x ∷ xs) (suc n) h = get_elem?-in xs n (omega arith)

-- `std::string`: its bytes.
abbrev pub Str : Type 0
Str = List ℕ

-- The bytes of an ASCII text.
abbrev pub codes : String → Str
codes String.[] = []
codes (String.◌∷◌ c s) = code c ∷ codes s

-- `operator==` on strings.
unfoldable pub str_eq : Str → Str → Bool
str_eq [] [] = true
str_eq (a ∷ s) (b ∷ t) = (a == b) && str_eq s t
str_eq _ _ = false

pub str_eq_iff : (s t : Str) → (str_eq s t ≡ true) ↔ (s ≡ t)
unfolding str_eq
str_eq_iff [] [] = ground arith
str_eq_iff [] (b ∷ t) = ground arith
str_eq_iff (a ∷ s) [] = ground arith
str_eq_iff (a ∷ s) (b ∷ t) = ground (arith, str_eq_iff s t)
