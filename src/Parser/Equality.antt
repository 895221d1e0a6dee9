-- ===== src/Parser/Equality.antt =====
-- When two tokens compare equal.
use proyecto_estructura.Prelude.{
  ◌≡◌, ◌↔◌, refl, Bool, true, false, List, [], ◌∷◌, arith, not, ◌&&◌, str_eq_iff, length, drop,
  ◌++◌,
}
use proyecto_estructura.Prelude.Int.{int_eq_iff}
use proyecto_estructura.Outcome.{ok}
use proyecto_estructura.Parser.Tokens.{Token, Identifier, Numbers}
use proyecto_estructura.Parser.Compare.{same_variant_and_value, tokens_eq, bool_eq}

abbrev pub is_double : Token → Bool
is_double (Token.numbers (Numbers.double d)) = true
is_double _ = false

same_variant_and_value-eq :
    (t u : Token) → is_double t ≡ false → (same_variant_and_value t u ≡ true) ↔ (t ≡ u)
unfolding same_variant_and_value bool_eq
same_variant_and_value-eq (Token.string a) (Token.string b) h = ground (arith, str_eq_iff a b)
same_variant_and_value-eq (Token.unknown a) (Token.unknown b) h = ground (arith, str_eq_iff a b)
same_variant_and_value-eq (Token.identifier (Identifier.name a))
      (Token.identifier (Identifier.name b)) h =
    ground (arith, str_eq_iff a b)
same_variant_and_value-eq (Token.identifier (Identifier.name_and_sub a))
      (Token.identifier (Identifier.name_and_sub b)) h =
    ground (arith, str_eq_iff a.name b.name, str_eq_iff a.sub b.sub)
same_variant_and_value-eq (Token.numbers (Numbers.int a)) (Token.numbers (Numbers.int b)) h =
    ground (arith, int_eq_iff a b)
same_variant_and_value-eq t u h = ground arith

-- whether no token is a double
abbrev pub has_no_double : List Token → Bool
has_no_double [] = true
has_no_double (t ∷ ts) = not (is_double t) && has_no_double ts

-- A token vector without a double compares equal to another exactly when the other begins with it:
-- tokens behind are not looked at.
pub tokens_eq_prefix :
    (ts us : List Token)
    → has_no_double ts ≡ true
    → (tokens_eq ts us ≡ ok true) ↔ (us ≡ ts ++ drop (length ts) us)
unfolding tokens_eq
tokens_eq_prefix [] us h = (λ k. refl, λ k. refl)
tokens_eq_prefix (t ∷ ts) [] h = ground arith
tokens_eq_prefix (t ∷ ts) (u ∷ us) h =
    ground (arith, same_variant_and_value-eq t u, tokens_eq_prefix ts us)
