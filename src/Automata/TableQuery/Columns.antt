-- ===== src/Automata/TableQuery/Columns.antt =====
-- The columns of an accepted `CREATE TABLE`.
use proyecto_estructura.Prelude.{
  ℕ, suc, zero, ◌+◌, ◌<◌, ◌≡◌, inl, inr, refl, ap, ◌∙◌, Bool, true, false, Option, some, List, [],
  ◌∷◌, arith, key_eq, length, if◌then◌else◌, and_right,
}
use proyecto_estructura.Parser.Tokens.{SymbolE, TypeE, Numbers, Token, symbol, numbers, type}
use proyecto_estructura.Automata.Actions.{Action, CreateTable}
use proyecto_estructura.Automata.Safety.Sized.{is_sized}
use proyecto_estructura.Automata.TableQuery.Grammar.{
  Kind, word, text, Field, Proper, AllProper, name_token, kind_tokens, field_tokens, fields_tokens,
  add, add_all,
}
use proyecto_estructura.Automata.TableQuery.Steps.{end_token}
use proyecto_estructura.Automata.TableQuery.Fields.{Accepts, closing_end, coma-next, column-Step}

-- Columns that make up `ts`, and the action that they give.
pub record Sound (c : CreateTable) (a : Action) (ts : List Token) : Type 0 where
  pub field : Field
  pub fields : List Field
  pub comma : Bool
  pub proper : AllProper (field ∷ fields)
  pub tokens : ts ≡ fields_tokens field fields comma
  pub result : a ≡ Action.create_table (add_all c (field ∷ fields))

pub is_sized-tail : (t : Token) (ts : List Token) → is_sized (t ∷ ts) ≡ true → is_sized ts ≡ true
unfolding is_sized
is_sized-tail t [] h = refl
is_sized-tail t (u ∷ ts) h = and_right _ _ h

is_sized-behind :
    (k : Kind) (x y : Token) (r : List Token)
    → is_sized (kind_tokens k (x ∷ y ∷ r)) ≡ true
    → is_sized r ≡ true
is_sized-behind (word t) x y r h =
    is_sized-tail y r (is_sized-tail x _ (is_sized-tail (type t) _ h))
is_sized-behind (text n) x y r h = is_sized-tail y r (
    is_sized-tail x _
      (is_sized-tail (numbers (Numbers.uint n)) _ (is_sized-tail (type TypeE.str) _ h)))

length-behind :
    (k : Kind) (x y : Token) (r : List Token)
    → suc (suc (length r)) < length (kind_tokens k (x ∷ y ∷ r))
length-behind (word t) x y r = omega arith
length-behind (text t) x y r = omega arith

last-Sound :
    (c : CreateTable) (a : Action) (ts r : List Token) (f : Field) (comma : Bool)
    → Proper f
    → ts
      ≡ field_tokens f (
          if comma
          then symbol SymbolE.coma ∷ symbol SymbolE.closing_par ∷ r
          else symbol SymbolE.closing_par ∷ r)
    → (r ≡ symbol SymbolE.semicolon ∷ []) × (a ≡ Action.create_table (add c f))
    → Sound c a ts
unfolding fields_tokens
last-Sound c a ts r f true h e (s, is) = record {
  field = f;
  fields = [];
  comma = true;
  proper = (h, tt);
  tokens = rw s at e;
  result = is;
}
last-Sound c a ts r f false h e (s, is) = record {
  field = f;
  fields = [];
  comma = false;
  proper = (h, tt);
  tokens = rw s at e;
  result = is;
}

more-Sound :
    (c : CreateTable) (a : Action) (ts r : List Token) (f : Field)
    → Proper f
    → ts ≡ field_tokens f (symbol SymbolE.coma ∷ r)
    → Sound (add c f) a r
    → Sound c a ts
unfolding fields_tokens
more-Sound c a ts r f h e s = record {
  field = f;
  fields = s.field ∷ s.fields;
  comma = s.comma;
  proper = (h, s.proper);
  tokens = e ∙ ap (λ l. field_tokens f (symbol SymbolE.coma ∷ l)) s.tokens;
  result = s.result;
}

-- behind a column, given the claim for what follows the next comma
after_column :
    (c : CreateTable) (a : Action) (ts : List Token) (f : Field) (b : Bool) (r : List Token) (n : ℕ)
    (q p : Option Token)
    → Proper f
    → ts ≡ field_tokens f (end_token b ∷ r)
    → Accepts n q p (add c f) a (end_token b ∷ r)
    → ((t : TypeE) (r' : List Token) (n : ℕ) (q p : Option Token)
        → r ≡ type t ∷ r'
        → Accepts n q p (add c f) a (type t ∷ r')
        → Sound (add c f) a r)
    → Sound c a ts
after_column c a ts f false r n q p h e k rest =
    last-Sound c a ts r f false h e (closing_end n q p (add c f) a r k)
after_column c a ts f true r n q p h e k rest =
    let (after, k') = coma-next n q p (add c f) a r k in
    elim after [
      | inl (r', e') ↦
          last-Sound c a ts r' f true h (rw e' at e)
            (closing_end (n + 1) p (some (symbol SymbolE.coma)) (add c f) a r' (rw e' at k'))
      | inr (t, r', e') ↦
          more-Sound c a ts r f h e
            (rest t r' (n + 1) p (some (symbol SymbolE.coma)) e' (rw e' at k'))
    ]

-- By the number of tokens that are left: each column has two at least.
pub columns-Sound :
    (k n : ℕ) (q p : Option Token) (c : CreateTable) (a : Action) (t : TypeE) (ts : List Token)
    → length ts < k
    → is_sized (type t ∷ ts) ≡ true
    → Accepts n q p c a (type t ∷ ts)
    → Sound c a (type t ∷ ts)
columns-Sound zero n q p c a t ts l z h = absurd (omega (arith, l))
columns-Sound (suc k) n q p c a t ts l z h =
    let s = column-Step n q p c a t ts z h in
    after_column c a (type t ∷ ts) s.field s.comma s.rest s.position s.prevm1 s.prev s.proper
      s.tokens s.accepts
      λ u r n q p e h'.
        let z' = is_sized-behind s.field.kind _ _ s.rest (rw s.tokens at z) in
        let l' = length-behind s.field.kind (name_token s.field.name) (end_token s.comma) s.rest in
        let same = ap length s.tokens in
        rw e (
          columns-Sound k n q p (add c s.field) a u r (omega (arith, l, l', same, ap length e))
            (rw e at z') h')
