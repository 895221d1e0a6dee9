-- ===== src/Automata/InsertQuery/Exact.antt =====
-- `get_action_struct` accepts exactly the `INSERT` queries of the grammar.
use mathlib.Core.Path.{subst}
use proyecto_estructura.Prelude.{
  ◌≡◌, ◌↔◌, refl, sym, ap, ◌∙◌, none, some, List, [], ◌∷◌, arith, inl, inr, Bool-cases, key_eq,
}
use proyecto_estructura.Outcome.{ok, ◌>>=◌}
use proyecto_estructura.Parser.Compare.{same_variant_and_value}
use proyecto_estructura.Parser.Tokens.{
  KeywordE, SymbolE, NameAndSub, Identifier, Token, keyword, symbol, identifier,
}
use proyecto_estructura.Automata.Actions.{Action, Value, Insert}
use proyecto_estructura.Automata.State.{initial, is_symbol, is_literal, is_name_and_sub}
use proyecto_estructura.Automata.Run.{visit, finish, get_action_struct}
use proyecto_estructura.Automata.Scan.{scan, get_action_struct-scan}
use proyecto_estructura.Automata.Recognize.{
  value_token, is_symbol-eq, is_literal-eq, is_literal-value_token, is_name_and_sub-eq,
}
use proyecto_estructura.Automata.Roots.{begins_two, get_action_struct-begins}
use proyecto_estructura.Automata.InsertQuery.Grammar.{
  Row, last, trailing, more, inserting, add, InsertQuery,
}
use proyecto_estructura.Automata.InsertQuery.Rows.{Sound, Row-Sound, Row-complete}

abbrev head_tokens : NameAndSub → List Token → List Token
head_tokens n ts =
    keyword KeywordE.insert
    ∷ keyword KeywordE.into
    ∷ identifier (Identifier.name_and_sub n)
    ∷ symbol SymbolE.opening_par
    ∷ ts

abbrev opened : NameAndSub → Insert
opened n = record { database = n.name; table = n.sub; values = [] }

abbrev Opens : Action → List Token → Type 0
Opens a ts =
    (scan 0 none none (keyword KeywordE.insert ∷ keyword KeywordE.into ∷ ts) initial >>= finish)
    ≡ ok a

scan-opening :
    (n : NameAndSub) (v : Value) (ts : List Token)
    → scan 0 none none (head_tokens n (value_token v ∷ ts)) initial
      ≡ scan 4
          (some (identifier (Identifier.name_and_sub n)))
          (some (symbol SymbolE.opening_par))
          (value_token v ∷ ts)
          (inserting (opened n))
unfolding scan visit same_variant_and_value is_name_and_sub
scan-opening n v ts = rw is_literal-value_token

Opens-name :
    (a : Action) (ts : List Token)
    → Opens a ts
    → (n : NameAndSub) × (r : List Token) × (ts ≡ identifier (Identifier.name_and_sub n) ∷ r)
unfolding scan visit same_variant_and_value
Opens-name a [] h = cc
Opens-name a (x ∷ r) h = elim (Bool-cases (is_name_and_sub x)) [
  | inl e ↦ let (n, is) = is_name_and_sub-eq x e in (n, r, ap (λ t. t ∷ r) is)
  | inr e ↦ absurd (ground arith)
]

Opens-par :
    (a : Action) (n : NameAndSub) (ts : List Token)
    → Opens a (identifier (Identifier.name_and_sub n) ∷ ts)
    → (r : List Token) × (ts ≡ symbol SymbolE.opening_par ∷ r)
unfolding scan visit is_name_and_sub
Opens-par a n [] h = absurd (ground arith)
Opens-par a n (x ∷ r) h = elim (Bool-cases (is_symbol SymbolE.opening_par x)) [
  | inl e ↦ (r, ap (λ t. t ∷ r) (is_symbol-eq SymbolE.opening_par x e))
  | inr e ↦ absurd (ground arith)
]

opens-value :
    (a : Action) (n : NameAndSub) (ts : List Token)
    → (scan 0 none none (head_tokens n ts) initial >>= finish) ≡ ok a
    → (v : Value) × (r : List Token) × (ts ≡ value_token v ∷ r)
unfolding scan visit is_name_and_sub
opens-value a n [] h = absurd (ground arith)
opens-value a n (x ∷ r) h = elim (Bool-cases (is_literal x)) [
  | inl e ↦ let (v, is) = is_literal-eq x e in (v, r, ap (λ t. t ∷ r) is)
  | inr e ↦ absurd (ground arith)
]

Row-head :
    {vs : List Value} {ts : List Token}
    → Row vs ts
    → (v : Value) × (r : List Token) × (ts ≡ value_token v ∷ r)
Row-head (last v) = (v, symbol SymbolE.closing_par ∷ symbol SymbolE.semicolon ∷ [], refl)
Row-head (trailing v) =
    (v, symbol SymbolE.coma ∷ symbol SymbolE.closing_par ∷ symbol SymbolE.semicolon ∷ [], refl)
Row-head (more {ts} v w r) = (v, symbol SymbolE.coma ∷ value_token w ∷ ts, refl)

Row-run :
    (n : NameAndSub) {vs : List Value} {ts : List Token}
    → Row vs ts
    → scan 0 none none (head_tokens n ts) initial ≡ ok (inserting (add (opened n) vs))
Row-run n {vs} {ts} row =
    let (v, r, e) = Row-head row in
    let o = some (identifier (Identifier.name_and_sub n)) in
    rw e (
      scan-opening n v r
      ∙ rw e at (Row-complete 4 o (some (symbol SymbolE.opening_par)) (opened n) row))

-- Of a query of the grammar, `get_action_struct` returns its database, table and values.
insert_complete :
    (i : Insert) (ts : List Token) → InsertQuery i ts → get_action_struct ts ≡ ok (Action.insert i)
insert_complete i ts query =
    rw (query.tokens, get_action_struct-scan)
      (rw (Row-run (record { name = i.database; sub = i.table }) query.row_values))

insert-injective : (i j : Insert) → Action.insert i ≡ Action.insert j → i ≡ j
insert-injective i j h = cc

-- the parts of an accepted query put together
query_of :
    (i : Insert) (n : NameAndSub) (v : Value) (ts r : List Token)
    → ts ≡ head_tokens n (value_token v ∷ r)
    → Sound (opened n) (Action.insert i) v r
    → InsertQuery i ts
query_of i n v ts r e (vs, row, is) =
    subst (λ j. InsertQuery j ts) (sym (insert-injective i (add (opened n) (v ∷ vs)) is))
      (record { row = value_token v ∷ r; row_values = row; tokens = e })

Opens-Sound :
    (i : Insert) (ts : List Token)
    → Opens (Action.insert i) ts
    → InsertQuery i (keyword KeywordE.insert ∷ keyword KeywordE.into ∷ ts)
Opens-Sound i ts h = name (Opens-name a ts h)
  where
    a : Action
    a = Action.insert i

    Goal : List Token → Type 0
    Goal ts = InsertQuery i (keyword KeywordE.insert ∷ keyword KeywordE.into ∷ ts)

    value_case :
        (n : NameAndSub) (ts : List Token)
        → Opens a (identifier (Identifier.name_and_sub n) ∷ symbol SymbolE.opening_par ∷ ts)
        → (v : Value) × (r : List Token) × (ts ≡ value_token v ∷ r)
        → Goal (identifier (Identifier.name_and_sub n) ∷ symbol SymbolE.opening_par ∷ ts)
    value_case n ts h (v, r, e) =
        query_of i n v _ r (ap (head_tokens n) e)
          (Row-Sound 4 _ _ (opened n) a v r (rw scan-opening at (rw e at h)))

    par :
        (n : NameAndSub) (ts : List Token)
        → Opens a (identifier (Identifier.name_and_sub n) ∷ ts)
        → (r : List Token) × (ts ≡ symbol SymbolE.opening_par ∷ r)
        → Goal (identifier (Identifier.name_and_sub n) ∷ ts)
    par n ts h (r, e) = rw e (value_case n r (rw e at h) (opens-value a n r (rw e at h)))

    name :
        (n : NameAndSub) × (r : List Token) × (ts ≡ identifier (Identifier.name_and_sub n) ∷ r)
        → Goal ts
    name (n, r, e) = rw e (par n r (rw e at h) (Opens-par a n r (rw e at h)))

insert_sound :
    (i : Insert) (ts : List Token) → get_action_struct ts ≡ ok (Action.insert i) → InsertQuery i ts
insert_sound i ts h =
    go (
      begins_two KeywordE.insert KeywordE.into ts (get_action_struct-begins ts (Action.insert i) h))
  where
    go :
        (r : List Token) × (ts ≡ keyword KeywordE.insert ∷ keyword KeywordE.into ∷ r)
        → InsertQuery i ts
    go (r, e) = rw e (Opens-Sound i r (rw get_action_struct-scan at (rw e at h)))

-- `get_action_struct` returns an insertion exactly for the queries of the grammar `InsertQuery`:
-- `INSERT INTO`, a name with a member, and in parentheses one or more values with a comma between
-- them and perhaps one behind, then `;` and nothing more. The values are returned in their order.
pub insert_exact :
    (i : Insert) (ts : List Token)
    → (get_action_struct ts ≡ ok (Action.insert i)) ↔ InsertQuery i ts
insert_exact i ts = (insert_sound i ts, insert_complete i ts)
