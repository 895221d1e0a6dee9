-- ===== src/Automata/InsertQuery/Rows.antt =====
-- The run of `get_action_struct` along the values of an `INSERT`.
use mathlib.Core.List.{append_assoc}
use proyecto_estructura.Prelude.{
  ℕ, ◌+◌, ◌≡◌, ◌≢◌, sym, ap, ◌∙◌, false, Option, some, List, [], ◌∷◌, arith, inl, inr, Bool-cases,
  tail, ◌⊎◌, key_eq,
}
use proyecto_estructura.Outcome.{ok, ◌>>=◌}
use proyecto_estructura.Parser.Compare.{same_variant_and_value}
use proyecto_estructura.Parser.Tokens.{SymbolE, Token, symbol}
use proyecto_estructura.Automata.Actions.{Action, Value, Insert}
use proyecto_estructura.Automata.State.{is_symbol, is_literal}
use proyecto_estructura.Automata.Values.{on_value}
use proyecto_estructura.Automata.Run.{visit, finish}
use proyecto_estructura.Automata.Scan.{view, scan}
use proyecto_estructura.Automata.Recognize.{
  value_token, is_symbol-eq, is_literal-eq, is_literal-value_token,
}
use proyecto_estructura.Automata.InsertQuery.Grammar.{
  Row, last, trailing, more, inserting, add, visit-value, closing-value,
}

module _ (n : ℕ) (q p : Option Token) (i : Insert) where
  scan-last :
      (v : Value)
      → scan n q p
          (value_token v ∷ symbol SymbolE.closing_par ∷ symbol SymbolE.semicolon ∷ [])
          (inserting i)
        ≡ ok (inserting (add i (v ∷ [])))
  unfolding scan visit on_value same_variant_and_value
  scan-last v = rw visit-value

  scan-trailing :
      (v : Value)
      → scan n q p
          (value_token v
            ∷ symbol SymbolE.coma
            ∷ symbol SymbolE.closing_par
            ∷ symbol SymbolE.semicolon
            ∷ [])
          (inserting i)
        ≡ ok (inserting (add i (v ∷ [])))
  unfolding scan visit on_value same_variant_and_value
  scan-trailing v = rw visit-value

  scan-more :
      (v w : Value) (ts : List Token)
      → scan n q p (value_token v ∷ symbol SymbolE.coma ∷ value_token w ∷ ts) (inserting i)
        ≡ scan
            (n + 1 + 1)
            (some (value_token v))
            (some (symbol SymbolE.coma))
            (value_token w ∷ ts)
            (inserting (add i (v ∷ [])))
  unfolding scan visit on_value same_variant_and_value
  scan-more v w ts = rw (visit-value (inserting i) _ v, closing-value w, is_literal-value_token w)

  -- After `)` only `;` can stand.
  row-end :
      (a : Action) (ts : List Token)
      → (scan n q p (symbol SymbolE.closing_par ∷ ts) (inserting i) >>= finish) ≡ ok a
      → (ts ≡ symbol SymbolE.semicolon ∷ []) × (a ≡ Action.insert i)
  unfolding scan visit
  row-end a [] h = cc
  row-end a (x ∷ []) h = ground (arith, is_symbol-eq SymbolE.semicolon x)
  row-end a (x ∷ y ∷ r) h = ground (arith, is_symbol-eq SymbolE.semicolon x)

  row-next-nil :
      (a : Action) (v : Value) → (scan n q p (value_token v ∷ []) (inserting i) >>= finish) ≢ ok a
  unfolding scan on_value
  row-next-nil a v h = cc (visit-value (inserting i) (view n q p (value_token v) []) v)

  row-next-other :
      (a : Action) (v : Value) (x : Token) (r : List Token)
      → is_symbol SymbolE.closing_par x ≡ false
      → is_symbol SymbolE.coma x ≡ false
      → (scan n q p (value_token v ∷ x ∷ r) (inserting i) >>= finish) ≢ ok a
  unfolding scan on_value
  row-next-other a v x r e d h =
      ground (arith, visit-value (inserting i) (view n q p (value_token v) (x ∷ r)) v)

  -- A value must be followed by `)` or `,`.
  row-next :
      (a : Action) (v : Value) (ts : List Token)
      → (scan n q p (value_token v ∷ ts) (inserting i) >>= finish) ≡ ok a
      → (r : List Token) × ((ts ≡ symbol SymbolE.closing_par ∷ r) ⊎ (ts ≡ symbol SymbolE.coma ∷ r))
        × ((scan (n + 1) p (some (value_token v)) ts (inserting (add i (v ∷ []))) >>= finish)
            ≡ ok a)
  unfolding scan on_value
  row-next a v [] h = absurd (row-next-nil a v h)
  row-next a v (x ∷ r) h = elim (Bool-cases (is_symbol SymbolE.closing_par x)) [
    | inl e ↦
        (r, inl (ap (λ t. t ∷ r) (is_symbol-eq SymbolE.closing_par x e)), rw (visit-value, e) at h)
    | inr e ↦ elim (Bool-cases (is_symbol SymbolE.coma x)) [
      | inl d ↦
          (r, inr (ap (λ t. t ∷ r) (is_symbol-eq SymbolE.coma x d)), rw (visit-value, e, d) at h)
      | inr d ↦ absurd (row-next-other a v x r e d h)
    ]
  ]

  -- A comma must be followed by `)` or a value.
  coma-next :
      (a : Action) (ts : List Token)
      → (scan n q p (symbol SymbolE.coma ∷ ts) (inserting i) >>= finish) ≡ ok a
      → (((r : List Token) × (ts ≡ symbol SymbolE.closing_par ∷ r))
          ⊎ ((w : Value) × (r : List Token) × (ts ≡ value_token w ∷ r)))
        × ((scan (n + 1) p (some (symbol SymbolE.coma)) ts (inserting i) >>= finish) ≡ ok a)
  unfolding scan visit
  coma-next a [] h = cc
  coma-next a (x ∷ r) h = elim (Bool-cases (is_symbol SymbolE.closing_par x)) [
    | inl e ↦ (inl (r, ap (λ t. t ∷ r) (is_symbol-eq SymbolE.closing_par x e)), rw e at h)
    | inr e ↦ elim (Bool-cases (is_literal x)) [
      | inl d ↦ let (w, is) = is_literal-eq x d in (inr (w, r, ap (λ t. t ∷ r) is), rw (e, d) at h)
      | inr d ↦ absurd (ground arith)
    ]
  ]

abbrev pub Sound : Insert → Action → Value → List Token → Type 0
Sound i a v ts =
    (vs : List Value) × Row (v ∷ vs) (value_token v ∷ ts) × (a ≡ Action.insert (add i (v ∷ vs)))

-- the accepted run from a value on
abbrev pub Accepts : ℕ → Option Token → Option Token → Insert → Action → List Token → Type 0
Accepts n q p i a ts = (scan n q p ts (inserting i) >>= finish) ≡ ok a

last-Sound :
    (n : ℕ) (q p : Option Token) (i : Insert) (a : Action) (v : Value) (ts r : List Token)
    → ts ≡ symbol SymbolE.closing_par ∷ r
    → Accepts n q p (add i (v ∷ [])) a ts
    → Sound i a v ts
last-Sound n q p i a v ts r e h =
    let (semi, is) = row-end n q p (add i (v ∷ [])) a r (rw e at h) in
    ([], rw (e, semi) (last v), is)

trailing-Sound :
    (n : ℕ) (q p : Option Token) (i : Insert) (a : Action) (v : Value) (ts r : List Token)
    → ts ≡ symbol SymbolE.coma ∷ symbol SymbolE.closing_par ∷ r
    → Accepts n q p (add i (v ∷ [])) a (symbol SymbolE.closing_par ∷ r)
    → Sound i a v ts
trailing-Sound n q p i a v ts r e h =
    let (semi, is) = row-end n q p (add i (v ∷ [])) a r h in ([], rw (e, semi) (trailing v), is)

more-Sound :
    (i : Insert) (a : Action) (v w : Value) (ts r : List Token)
    → ts ≡ symbol SymbolE.coma ∷ value_token w ∷ r
    → Sound (add i (v ∷ [])) a w r
    → Sound i a v ts
more-Sound i a v w ts r e (vs, row, is) = (
  w ∷ vs,
  rw e (more v w row),
  is
      ∙ ap (λ us. Action.insert (record i { values = us }))
          (append_assoc i.values (v ∷ []) (w ∷ vs)),
)

-- The row one value further, given the claim for what follows the next comma.
row-step :
    (n : ℕ) (q p : Option Token) (i : Insert) (a : Action) (v : Value) (ts : List Token)
    → Accepts n q p i a (value_token v ∷ ts)
    → ((w : Value) (r : List Token)
        → ts ≡ symbol SymbolE.coma ∷ value_token w ∷ r
        → Accepts
            (n + 1 + 1)
            (some (value_token v))
            (some (symbol SymbolE.coma))
            (add i (v ∷ []))
            a
            (value_token w ∷ r)
        → Sound (add i (v ∷ [])) a w r)
    → Sound i a v ts
row-step n q p i a v ts h rest =
    let (r, which, h') = row-next n q p i a v ts h in
    elim which [
      | inl e ↦ last-Sound (n + 1) p (some (value_token v)) i a v ts r e h'
      | inr e ↦
          let (after, h'') =
            coma-next (n + 1) p (some (value_token v)) (add i (v ∷ [])) a r (rw e at h') in
          elim after [
            | inl (r', e') ↦
                trailing-Sound (n + 1 + 1) (some (value_token v)) (some (symbol SymbolE.coma)) i a v
                  ts r' (e ∙ ap (λ l. symbol SymbolE.coma ∷ l) e') (rw e' at h'')
            | inr (w, r', e') ↦
                let e'' = e ∙ ap (λ l. symbol SymbolE.coma ∷ l) e' in
                more-Sound i a v w ts r' e'' (rest w r' e'' (rw e' at h''))
          ]
    ]

pub Row-Sound :
    (n : ℕ) (q p : Option Token) (i : Insert) (a : Action) (v : Value) (ts : List Token)
    → Accepts n q p i a (value_token v ∷ ts)
    → Sound i a v ts
Row-Sound n q p i a v [] h = row-step n q p i a v [] h λ w r e _. absurd (cc)
Row-Sound n q p i a v (x ∷ []) h = row-step n q p i a v (x ∷ []) h λ w r e _. absurd (cc)
Row-Sound n q p i a v (x ∷ y ∷ r) h = row-step n q p i a v (x ∷ y ∷ r) h λ w r' e h'.
    let same : r' ≡ r = ap (λ l. tail (tail l)) (sym e) in
    rw same (
      Row-Sound (n + 1 + 1) (some (value_token v)) (some (symbol SymbolE.coma)) (add i (v ∷ [])) a w
        r (rw same at h'))

-- what a row does, by induction on the row
pub Row-complete :
    {vs : List Value} {ts : List Token} (n : ℕ) (q p : Option Token) (i : Insert)
    → Row vs ts
    → scan n q p ts (inserting i) ≡ ok (inserting (add i vs))
Row-complete n q p i (last v) = scan-last n q p i v
Row-complete n q p i (trailing v) = scan-trailing n q p i v
Row-complete n q p i (more {vs} {ts} v w r) =
    scan-more n q p i v w ts
    ∙ Row-complete (n + 1 + 1) (some (value_token v)) (some (symbol SymbolE.coma)) (add i (v ∷ []))
        r
    ∙ ap (λ us. ok (inserting (record i { values = us }))) (append_assoc i.values (v ∷ []) (w ∷ vs))
