-- ===== src/Automata/TableQuery/Fields.antt =====
-- What an accepted `CREATE TABLE` has where a column begins.
use proyecto_estructura.Prelude.{
  ℕ, ◌+◌, ◌≡◌, ◌⊎◌, inl, inr, refl, ap, ◌∙◌, Bool, true, false, Bool-cases, Option, some, List, [],
  ◌∷◌, arith, Str, key_eq,
}
use proyecto_estructura.Outcome.{ok, ◌>>=◌}
use proyecto_estructura.Parser.Compare.{same_variant_and_value}
use proyecto_estructura.Parser.Tokens.{SymbolE, TypeE, Numbers, Token, symbol, numbers, type}
use proyecto_estructura.Automata.Actions.{Action, CreateTable}
use proyecto_estructura.Automata.State.{is_symbol, is_name, is_name_and_sub, is_type}
use proyecto_estructura.Automata.Run.{visit, finish}
use proyecto_estructura.Automata.Scan.{scan}
use proyecto_estructura.Automata.Recognize.{is_symbol-eq, is_name-eq, is_type-eq}
use proyecto_estructura.Automata.Safety.Sized.{is_sized}
use proyecto_estructura.Automata.TableQuery.Grammar.{
  word, text, Field, is_word, Proper, name_token, field_tokens, tabling, add,
}
use proyecto_estructura.Automata.TableQuery.Steps.{
  end_token, word-scan, text-scan, word-pass, text-pass,
}

-- the accepted run from a column on
abbrev pub Accepts : ℕ → Option Token → Option Token → CreateTable → Action → List Token → Type 0
Accepts n q p c a ts = (scan n q p ts (tabling c) >>= finish) ≡ ok a

module _ (n : ℕ) (q p : Option Token) (c : CreateTable) (a : Action) where
  -- After `)` only `;` can stand.
  pub closing_end :
      (ts : List Token)
      → Accepts n q p c a (symbol SymbolE.closing_par ∷ ts)
      → (ts ≡ symbol SymbolE.semicolon ∷ []) × (a ≡ Action.create_table c)
  unfolding scan visit
  closing_end [] h = cc
  closing_end (x ∷ []) h = ground (arith, is_symbol-eq SymbolE.semicolon x)
  closing_end (x ∷ y ∷ r) h = ground (arith, is_symbol-eq SymbolE.semicolon x)

  -- A comma must be followed by `)` or a type.
  pub coma-next :
      (ts : List Token)
      → Accepts n q p c a (symbol SymbolE.coma ∷ ts)
      → (((r : List Token) × (ts ≡ symbol SymbolE.closing_par ∷ r))
          ⊎ ((t : TypeE) × (r : List Token) × (ts ≡ type t ∷ r)))
        × Accepts (n + 1) p (some (symbol SymbolE.coma)) c a ts
  unfolding scan visit
  coma-next [] h = cc
  coma-next (x ∷ r) h = elim (Bool-cases (is_symbol SymbolE.closing_par x)) [
    | inl e ↦ (inl (r, ap (λ t. t ∷ r) (is_symbol-eq SymbolE.closing_par x e)), rw e at h)
    | inr e ↦ elim (Bool-cases (is_type x)) [
      | inl d ↦ let (w, is) = is_type-eq x d in (inr (w, r, ap (λ t. t ∷ r) is), rw (e, d) at h)
      | inr d ↦ absurd (ground arith)
    ]
  ]

  word-name :
      (t : TypeE) (ts : List Token)
      → is_word t ≡ true
      → Accepts n q p c a (type t ∷ ts)
      → (m : Str) × (r : List Token) × (ts ≡ name_token m ∷ r)
  unfolding scan visit
  word-name t [] w h = absurd (ground arith)
  word-name t (x ∷ r) w h = elim (Bool-cases (is_name x)) [
    | inl e ↦ let (m, is) = is_name-eq x e in (m, r, ap (λ t. t ∷ r) is)
    | inr e ↦ absurd (ground arith)
  ]

  text-name :
      (x : Token) (ts : List Token)
      → Accepts n q p c a (type TypeE.str ∷ x ∷ ts)
      → (m : Str) × (r : List Token) × (ts ≡ name_token m ∷ r)
  unfolding scan visit
  text-name x [] h = absurd (ground arith)
  text-name x (y ∷ r) h = elim (Bool-cases (is_name y)) [
    | inl e ↦ let (m, is) = is_name-eq y e in (m, r, ap (λ t. t ∷ r) is)
    | inr e ↦ absurd (ground arith)
  ]

  -- A name must be followed by `)` or `,`.
  name-end :
      (m : Str) (ts : List Token)
      → Accepts n q p c a (name_token m ∷ ts)
      → (b : Bool) × (r : List Token) × (ts ≡ end_token b ∷ r)
  unfolding scan visit is_name_and_sub
  name-end m [] h = absurd (ground arith)
  name-end m (x ∷ r) h = elim (Bool-cases (is_symbol SymbolE.closing_par x)) [
    | inl e ↦ (false, r, ap (λ t. t ∷ r) (is_symbol-eq SymbolE.closing_par x e))
    | inr e ↦ elim (Bool-cases (is_symbol SymbolE.coma x)) [
      | inl d ↦ (true, r, ap (λ t. t ∷ r) (is_symbol-eq SymbolE.coma x d))
      | inr d ↦ absurd (ground arith)
    ]
  ]

sized_text :
    (ts : List Token)
    → is_sized (type TypeE.str ∷ ts) ≡ true
    → (k : ℕ) × (r : List Token) × (ts ≡ numbers (Numbers.uint k) ∷ r)
unfolding is_sized same_variant_and_value
sized_text [] h = absurd (ground arith)
sized_text (numbers (Numbers.uint k) ∷ r) h = (k, r, refl)
sized_text (x ∷ r) h = absurd (ground arith)

-- A column at the head of `ts`, and the run behind it.
pub record Step (c : CreateTable) (a : Action) (ts : List Token) : Type 0 where
  pub field : Field
  pub proper : Proper field
  pub comma : Bool
  pub rest : List Token
  pub tokens : ts ≡ field_tokens field (end_token comma ∷ rest)
  pub position : ℕ
  pub prevm1 : Option Token
  pub prev : Option Token
  pub accepts : Accepts position prevm1 prev (add c field) a (end_token comma ∷ rest)

module _ (n : ℕ) (q p : Option Token) (c : CreateTable) (a : Action) where
  word-Step :
      (t : TypeE) (ts : List Token)
      → is_word t ≡ true
      → Accepts n q p c a (type t ∷ ts)
      → Step c a (type t ∷ ts)
  word-Step t ts w h =
      let (m, r, e) = word-name n q p c a t ts w h in
      let at_name = rw (word-pass n q p c t m r w) at (rw e at h) in
      let (b, r', e') = name-end (n + 1) p (some (type t)) c a m r at_name in
      record {
        field = record { kind = word t; name = m };
        proper = w;
        comma = b;
        rest = r';
        tokens = ap (λ l. type t ∷ l) (e ∙ ap (λ l. name_token m ∷ l) e');
        position = n + 1 + 1;
        prevm1 = some (type t);
        prev = some (name_token m);
        accepts = rw (word-scan n q p c t m b r' w) at (rw e' at (rw e at h));
      }

  text-Step :
      (ts : List Token)
      → is_sized (type TypeE.str ∷ ts) ≡ true
      → Accepts n q p c a (type TypeE.str ∷ ts)
      → Step c a (type TypeE.str ∷ ts)
  text-Step ts z h =
      let (k, r, e) = sized_text ts z in
      let (m, r', e') = text-name n q p c a (numbers (Numbers.uint k)) r (rw e at h) in
      let h' = rw e' at (rw e at h) in
      let at_name = rw (text-pass n q p c k m r') at h' in
      let (b, r'', e'') =
        name-end (n + 1 + 1) (some (type TypeE.str)) (some (numbers (Numbers.uint k))) c a m r'
          at_name in
      record {
        field = record { kind = text k; name = m };
        proper = tt;
        comma = b;
        rest = r'';
        tokens =
            ap (λ l. type TypeE.str ∷ l)
              (e ∙ ap (λ l. numbers (Numbers.uint k) ∷ l) (e' ∙ ap (λ l. name_token m ∷ l) e''));
        position = n + 1 + 1 + 1;
        prevm1 = some (numbers (Numbers.uint k));
        prev = some (name_token m);
        accepts = rw (text-scan n q p c k m b r'') at (rw e'' at h');
      }

  pub column-Step :
      (t : TypeE) (ts : List Token)
      → is_sized (type t ∷ ts) ≡ true
      → Accepts n q p c a (type t ∷ ts)
      → Step c a (type t ∷ ts)
  column-Step TypeE.str ts z h = text-Step ts z h
  column-Step t ts z h = word-Step t ts refl h
