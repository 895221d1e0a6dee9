-- ===== src/Automata/TableQuery/Steps.antt =====
-- The run of `get_action_struct` along the columns of a `CREATE TABLE`.
use proyecto_estructura.Prelude.{
  ℕ, ◌+◌, ◌≡◌, refl, ◌∙◌, Bool, true, false, Option, none, some, List, [], ◌∷◌, arith, Str, key_eq,
  if◌then◌else◌,
}
use proyecto_estructura.Outcome.{Outcome, ok}
use proyecto_estructura.Parser.Compare.{same_variant_and_value}
use proyecto_estructura.Parser.Tokens.{
  SymbolE, TypeE, NameAndSub, Identifier, Numbers, Token, symbol, identifier, numbers, type,
}
use proyecto_estructura.Automata.Actions.{CreateTable}
use proyecto_estructura.Automata.State.{State, initial, is_name, is_name_and_sub, is_type}
use proyecto_estructura.Automata.Run.{visit}
use proyecto_estructura.Automata.Scan.{scan}
use proyecto_estructura.Automata.TableQuery.Grammar.{
  Kind, word, text, Field, is_word, Proper, AllProper, name_token, kind_tokens, closing,
  fields_tokens, head_tokens, tabling, add, add_all, opened,
}

-- what stands behind a column
abbrev pub end_token : Bool → Token
end_token comma = symbol (if comma then SymbolE.coma else SymbolE.closing_par)

module _ (n : ℕ) (q p : Option Token) (c : CreateTable) where
  pub word-scan :
      (t : TypeE) (m : Str) (b : Bool) (ts : List Token)
      → is_word t ≡ true
      → scan n q p (type t ∷ name_token m ∷ end_token b ∷ ts) (tabling c)
        ≡ scan
            (n + 1 + 1)
            (some (type t))
            (some (name_token m))
            (end_token b ∷ ts)
            (tabling (add c (record { kind = word t; name = m })))
  unfolding scan visit is_name_and_sub is_name is_type same_variant_and_value
  word-scan t m true ts h = ground arith
  word-scan t m false ts h = ground arith

  pub text-scan :
      (k : ℕ) (m : Str) (b : Bool) (ts : List Token)
      → scan n q p
          (type TypeE.str ∷ numbers (Numbers.uint k) ∷ name_token m ∷ end_token b ∷ ts)
          (tabling c)
        ≡ scan
            (n + 1 + 1 + 1)
            (some (numbers (Numbers.uint k)))
            (some (name_token m))
            (end_token b ∷ ts)
            (tabling (add c (record { kind = text k; name = m })))
  unfolding scan visit is_name_and_sub is_name is_type same_variant_and_value
  text-scan k m true ts = refl
  text-scan k m false ts = refl

  -- up to the name
  pub word-pass :
      (t : TypeE) (m : Str) (ts : List Token)
      → is_word t ≡ true
      → scan n q p (type t ∷ name_token m ∷ ts) (tabling c)
        ≡ scan (n + 1) p (some (type t)) (name_token m ∷ ts) (tabling c)
  unfolding scan visit is_name
  word-pass t m ts h = ground arith

  pub text-pass :
      (k : ℕ) (m : Str) (ts : List Token)
      → scan n q p (type TypeE.str ∷ numbers (Numbers.uint k) ∷ name_token m ∷ ts) (tabling c)
        ≡ scan
            (n + 1 + 1)
            (some (type TypeE.str))
            (some (numbers (Numbers.uint k)))
            (name_token m ∷ ts)
            (tabling c)
  unfolding scan visit is_name
  text-pass k m ts = refl

  coma-scan :
      (t : TypeE) (ts : List Token)
      → scan n q p (symbol SymbolE.coma ∷ type t ∷ ts) (tabling c)
        ≡ scan (n + 1) p (some (symbol SymbolE.coma)) (type t ∷ ts) (tabling c)
  unfolding scan visit is_name_and_sub is_name is_type same_variant_and_value
  coma-scan t ts = refl

  end-scan :
      (comma : Bool)
      → scan n q p (if comma then symbol SymbolE.coma ∷ closing else closing) (tabling c)
        ≡ ok (tabling c)
  unfolding scan visit is_name_and_sub is_name is_type same_variant_and_value
  end-scan true = refl
  end-scan false = refl

  coma-kind :
      (k : Kind) (ts : List Token)
      → scan n q p (symbol SymbolE.coma ∷ kind_tokens k ts) (tabling c)
        ≡ scan (n + 1) p (some (symbol SymbolE.coma)) (kind_tokens k ts) (tabling c)
  coma-kind (word t) ts = coma-scan t ts
  coma-kind (text m) ts = coma-scan TypeE.str (numbers (Numbers.uint m) ∷ ts)

  -- Whatever becomes of the rest, with the column taken in.
  kind-scan :
      (k : Kind) (m : Str) (b : Bool) (ts : List Token) (out : Outcome State)
      → Proper (record { kind = k; name = m })
      → ((n : ℕ) (q p : Option Token)
          → scan n q p (end_token b ∷ ts) (tabling (add c (record { kind = k; name = m }))) ≡ out)
      → scan n q p (kind_tokens k (name_token m ∷ end_token b ∷ ts)) (tabling c) ≡ out
  kind-scan (word t) m b ts out h rest = word-scan t m b ts h ∙ rest _ _ _
  kind-scan (text j) m b ts out h rest = text-scan j m b ts ∙ rest _ _ _

last-scan :
    (n : ℕ) (q p : Option Token) (c : CreateTable) (f : Field) (comma : Bool)
    → Proper f
    → scan n q p (fields_tokens f [] comma) (tabling c) ≡ ok (tabling (add c f))
unfolding fields_tokens
last-scan n q p c f true h =
    kind-scan n q p c f.kind f.name true closing _ h λ n q p. end-scan n q p (add c f) true
last-scan n q p c f false h =
    kind-scan n q p c f.kind f.name false (symbol SymbolE.semicolon ∷ []) _ h
      λ n q p. end-scan n q p (add c f) false

-- from a comma to a column
coma-fields :
    (n : ℕ) (q p : Option Token) (c : CreateTable) (f : Field) (fs : List Field) (comma : Bool)
    → scan n q p (symbol SymbolE.coma ∷ fields_tokens f fs comma) (tabling c)
      ≡ scan (n + 1) p (some (symbol SymbolE.coma)) (fields_tokens f fs comma) (tabling c)
unfolding fields_tokens
coma-fields n q p c f [] comma = coma-kind n q p c f.kind _
coma-fields n q p c f (g ∷ fs) comma = coma-kind n q p c f.kind _

pub fields-scan :
    (n : ℕ) (q p : Option Token) (c : CreateTable) (f : Field) (fs : List Field) (comma : Bool)
    → AllProper (f ∷ fs)
    → scan n q p (fields_tokens f fs comma) (tabling c) ≡ ok (tabling (add_all c (f ∷ fs)))
unfolding fields_tokens
fields-scan n q p c f [] comma h = last-scan n q p c f comma h.0
fields-scan n q p c f (g ∷ fs) comma h =
    kind-scan n q p c f.kind f.name true (fields_tokens g fs comma) _ h.0 λ n q p.
      coma-fields n q p (add c f) g fs comma
      ∙ fields-scan (n + 1) p (some (symbol SymbolE.coma)) (add c f) g fs comma h.1

open-kind :
    (m : NameAndSub) (k : Kind) (ts : List Token)
    → scan 0 none none (head_tokens m (kind_tokens k ts)) initial
      ≡ scan 4
          (some (identifier (Identifier.name_and_sub m)))
          (some (symbol SymbolE.opening_par))
          (kind_tokens k ts)
          (tabling (opened m))
unfolding scan visit is_name_and_sub is_name is_type same_variant_and_value
open-kind m (word t) ts = refl
open-kind m (text n) ts = refl

pub open-fields :
    (m : NameAndSub) (f : Field) (fs : List Field) (comma : Bool)
    → scan 0 none none (head_tokens m (fields_tokens f fs comma)) initial
      ≡ scan 4
          (some (identifier (Identifier.name_and_sub m)))
          (some (symbol SymbolE.opening_par))
          (fields_tokens f fs comma)
          (tabling (opened m))
unfolding fields_tokens
open-fields m f [] comma = open-kind m f.kind _
open-fields m f (g ∷ fs) comma = open-kind m f.kind _
