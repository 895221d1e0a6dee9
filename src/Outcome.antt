-- ===== src/Outcome.antt =====
-- How a call ends: `cpp::result` with its value, `cpp::fail` with a message, or an exception.
-- Of a message, the literal text up to the first line break is kept, with its `{}`.
use Prim.Native.String.{String}
use proyecto_estructura.Prelude.{Bool, true, false, Option, none, some}
use mathlib.Core.Path.{ap₂, fun_ext, ◌≡◌, refl}
use native.Mathlib.Omega.{arith}

pub data Exception : Type 0 where
  bad_optional_access bad_variant_access runtime_error out_of_range : Exception
  -- not an exception in C++: reading `*o` of an empty optional or through a null pointer is
  -- undefined behaviour
  undefined_behaviour : Exception
  -- nor this: the rounds given to the model of a loop were not enough
  diverges : Exception
  -- nor this: `unwrap` of an error in a Rust function that C++ calls ends the program
  aborted : Exception

pub data Outcome {ℓ} (A : Type ℓ) : Type ℓ where
  ok : A → Outcome A
  fail : String → Outcome A
  thrown : Exception → Outcome A

infixl 5 ◌>>=◌ ◌>>◌
abbrev pub ◌>>=◌ {ℓ κ} : {A : Type ℓ} {B : Type κ} → Outcome A → (A → Outcome B) → Outcome B
ok a >>= f = f a
fail e >>= f = fail e
thrown x >>= f = thrown x

abbrev pub ◌>>◌ {ℓ} : {B : Type ℓ} → Outcome (Unit {0}) → Outcome B → Outcome B
m >> k = m >>= λ _. k

-- `if (!b) return cpp::fail(e);`
abbrev pub require : Bool → String → Outcome (Unit {0})
require true e = ok tt
require false e = fail e

module _ {ℓ} {A : Type ℓ} where
  -- `o.value()`
  abbrev pub value : Option A → Outcome A
  value none = thrown bad_optional_access
  value (some a) = ok a

  -- `o.unwrap()` in Rust
  abbrev pub unwrap : Option A → Outcome A
  unwrap none = thrown aborted
  unwrap (some a) = ok a

  -- `*o`
  abbrev pub deref : Option A → Outcome A
  deref none = thrown undefined_behaviour
  deref (some a) = ok a

  -- `if (!o.has_value()) return cpp::fail(e); else if (!test(*o)) return cpp::fail(f);`
  abbrev pub require_next : Option A → String → (A → Bool) → String → Outcome (Unit {0})
  require_next none e test f = fail e
  require_next (some a) e test f = require (test a) f

-- No exception and no undefined behaviour.
abbrev pub safe {ℓ} : {A : Type ℓ} → Outcome A → Bool
safe (ok a) = true
safe (fail e) = true
safe (thrown x) = false

-- Whether it is a message.
abbrev pub fails {ℓ} : {A : Type ℓ} → Outcome A → Bool
fails (fail e) = true
fails _ = false

pub bind_cong {ℓ κ} :
    {A : Type ℓ} {B : Type κ} {m n : Outcome A} {f g : A → Outcome B}
    → m ≡ n
    → ((a : A) → f a ≡ g a)
    → (m >>= f) ≡ (n >>= g)
bind_cong {m} {n} {f} {g} p h = ap₂ (λ x k. x >>= k) p (fun_ext h)

-- What a chain that ends well has passed through.
pub bind-ok {ℓ κ} :
    {A : Type ℓ} {B : Type κ} (m : Outcome A) (f : A → Outcome B) {b : B}
    → (m >>= f) ≡ ok b
    → (a : A) × (m ≡ ok a) × (f a ≡ ok b)
bind-ok (ok a) f h = (a, refl, h)
bind-ok (fail e) f h = ground arith
bind-ok (thrown x) f h = ground arith

-- A chain is safe when its parts are.
pub safe-bind {ℓ κ} :
    {A : Type ℓ} {B : Type κ} (m : Outcome A) (f : A → Outcome B)
    → safe m ≡ true
    → ((a : A) → m ≡ ok a → safe (f a) ≡ true)
    → safe (m >>= f) ≡ true
safe-bind (ok a) f h k = k a refl
safe-bind (fail e) f h k = refl
safe-bind (thrown x) f h k = cc
