-- ===== src/Prelude/Equality.antt =====
-- `operator==` of a key type, as an interface.
use mathlib.Core.Path.{◌≡◌}
use mathlib.Core.Logic.{◌↔◌}
use mathlib.Core.Bool.{Bool, true}
use Prim.Native.Nat.{ℕ}
use proyecto_estructura.Prelude.Tests.{◌==◌, ==_iff}
use proyecto_estructura.Prelude.Lists.{Str, str_eq, str_eq_iff}

pub record Eq {ℓ} (A : Type ℓ) : Type ℓ where
  pub beq : A → A → Bool
  pub beq_iff : (a b : A) → (beq a b ≡ true) ↔ (a ≡ b)

abbrev nat_beq : ℕ → ℕ → Bool
nat_beq a b = a == b

pub nat_beq_iff : (a b : ℕ) → ((a == b) ≡ true) ↔ (a ≡ b)
nat_beq_iff a b = ==_iff a b

instance abbrev pub nat_eq : Eq ℕ
nat_eq = record { beq = nat_beq; beq_iff = nat_beq_iff }

instance abbrev pub key_eq : Eq Str
key_eq = record { beq = str_eq; beq_iff = str_eq_iff }
