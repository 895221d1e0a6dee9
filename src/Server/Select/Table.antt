-- ===== src/Server/Select/Table.antt =====
-- The table of the kept columns has the kept rows of the table of all of them.
use proyecto_estructura.Prelude.{
  ℕ, zero, suc, ◌+◌, ◌<◌, ◌≡◌, ◌⊎◌, refl, sym, ap, ◌∙◌, Bool, true, false, if◌then◌else◌, List, [],
  ◌∷◌, arith, Str, length, get_elem?, tail, get_elem?-in, Bool-cases, inl, inr,
}
use proyecto_estructura.Outcome.{ok, bind-ok}
use proyecto_estructura.LinkedList.KeyValueList.{KeyValue, pair}
use proyecto_estructura.LinkedList.Cortina.{Cortina}
use proyecto_estructura.Server.Select.Answer.{table_row, table_rows, table_of}
use proyecto_estructura.Server.Select.Shown.{kept, selected, column_of}

-- Every column has `n` values.
abbrev pub Square : ℕ → Cortina Str Str → Type 0
Square n [] = Unit
Square n (c ∷ cs) = (length c.value ≡ n) × Square n cs

abbrev tails : Cortina Str Str → Cortina Str Str
tails [] = []
tails (c ∷ cs) = pair c.key (tail c.value) ∷ tails cs

Square-tails : (n : ℕ) (cs : Cortina Str Str) → Square (suc n) cs → Square n (tails cs)
Square-tails n [] s = tt
Square-tails n (c ∷ cs) (e, s) = (length-tail c.value e, Square-tails n cs s)
  where
    length-tail : (vs : List Str) → length vs ≡ suc n → length (tail vs) ≡ n
    length-tail [] h = absurd (omega (arith, h))
    length-tail (v ∷ vs) h = omega (arith, h)

get_elem?-tail : (vs : List Str) (j : ℕ) → get_elem? vs (suc j) ≡ get_elem? (tail vs) j
get_elem?-tail [] j = refl
get_elem?-tail (v ∷ vs) j = refl

table_row-tails : (j : ℕ) (cs : Cortina Str Str) → table_row (j + 1) cs ≡ table_row j (tails cs)
unfolding table_row
table_row-tails j [] = refl
table_row-tails j (c ∷ cs) =
    let e : get_elem? c.value (j + 1) ≡ get_elem? (tail c.value) j =
      ap (get_elem? c.value) (omega arith) ∙ get_elem?-tail c.value j in
    rw (e, table_row-tails j cs) refl

table_rows-tails :
    (n j : ℕ) (cs : Cortina Str Str) → table_rows n (j + 1) cs ≡ table_rows n j (tails cs)
unfolding table_rows
table_rows-tails zero j cs = refl
table_rows-tails (suc n) j cs = rw (table_row-tails j cs, table_rows-tails n (j + 1) cs) refl

-- A table of columns of one length has a row for each position.
pub table_row-ok :
    (n j : ℕ) (cs : Cortina Str Str)
    → Square n cs
    → j < n
    → (r : List Str) × (table_row j cs ≡ ok r)
unfolding table_row
table_row-ok n j [] s h = ([], refl)
table_row-ok n j (c ∷ cs) (e, s) h =
    let (v, p) = get_elem?-in c.value j (omega (arith, e)) in
    let (r, q) = table_row-ok n j cs s h in (v ∷ r, rw (p, q) refl)

pub table_rows-ok :
    (n : ℕ) (cs : Cortina Str Str)
    → Square n cs
    → (rs : List (List Str)) × (table_rows n 0 cs ≡ ok rs) × (length rs ≡ n)
unfolding table_rows
table_rows-ok zero cs s = ([], refl, refl)
table_rows-ok (suc n) cs s =
    let (r, p) = table_row-ok (suc n) 0 cs s (omega arith) in
    let (rs, q, e) = table_rows-ok n (tails cs) (Square-tails n cs s) in
    (r ∷ rs, rw (p, table_rows-tails n 0 cs, q) refl, omega (arith, e))

nat-cases : (n : ℕ) → (n ≡ 0) ⊎ ((i : ℕ) × (n ≡ suc i))
nat-cases zero = inl refl
nat-cases (suc n) = inr (n, refl)

length-zero {ℓ} : {A : Type ℓ} (vs : List A) → length vs ≡ 0 → vs ≡ []
length-zero [] h = refl
length-zero (v ∷ vs) h = absurd (omega (arith, h))

module _ (P : ℕ → Bool) where
  abbrev kept_columns : ℕ → Cortina Str Str → Cortina Str Str
  kept_columns j [] = []
  kept_columns j (c ∷ cs) = pair c.key (kept P j c.value) ∷ kept_columns j cs

  -- how many of `n` positions from `j` on satisfy `P`
  abbrev count : ℕ → ℕ → ℕ
  count j zero = 0
  count j (suc n) = if P j then suc (count (j + 1) n) else count (j + 1) n

  length-kept {ℓ} :
      {A : Type ℓ} (j n : ℕ) (vs : List A) → length vs ≡ n → length (kept P j vs) ≡ count j n
  length-kept j zero [] h = refl
  length-kept j zero (v ∷ vs) h = absurd (omega (arith, h))
  length-kept j (suc n) [] h = absurd (omega (arith, h))
  length-kept j (suc n) (v ∷ vs) h = ground (arith, length-kept (j + 1) n vs (omega (arith, h)))

  kept-first :
      (j n : ℕ) (vs : List Str)
      → length vs ≡ suc n
      → P j ≡ true
      → (get_elem? (kept P j vs) 0 ≡ get_elem? vs 0)
        × (tail (kept P j vs) ≡ kept P (j + 1) (tail vs))
  kept-first j n [] e h = absurd (omega (arith, e))
  kept-first j n (v ∷ vs) e h = (ground arith, ground arith)

  kept-skip :
      (j n : ℕ) (vs : List Str)
      → length vs ≡ suc n
      → P j ≡ false
      → kept P j vs ≡ kept P (j + 1) (tail vs)
  kept-skip j n [] e h = absurd (omega (arith, e))
  kept-skip j n (v ∷ vs) e h = ground arith

  first-kept :
      (n j : ℕ) (cs : Cortina Str Str)
      → Square (suc n) cs
      → P j ≡ true
      → table_row 0 (kept_columns j cs) ≡ table_row 0 cs
  unfolding table_row
  first-kept n j [] s h = refl
  first-kept n j (c ∷ cs) (e, s) h = rw ((kept-first j n c.value e h).0, first-kept n j cs s h) refl

  tails-kept :
      (n j : ℕ) (cs : Cortina Str Str)
      → Square (suc n) cs
      → P j ≡ true
      → tails (kept_columns j cs) ≡ kept_columns (j + 1) (tails cs)
  tails-kept n j [] s h = refl
  tails-kept n j (c ∷ cs) (e, s) h = rw ((kept-first j n c.value e h).1, tails-kept n j cs s h) refl

  skip-kept :
      (n j : ℕ) (cs : Cortina Str Str)
      → Square (suc n) cs
      → P j ≡ false
      → kept_columns j cs ≡ kept_columns (j + 1) (tails cs)
  skip-kept n j [] s h = refl
  skip-kept n j (c ∷ cs) (e, s) h = rw (kept-skip j n c.value e h, skip-kept n j cs s h) refl

  table_rows-kept :
      (n j : ℕ) (cs : Cortina Str Str) (rs : List (List Str))
      → Square n cs
      → table_rows n 0 cs ≡ ok rs
      → table_rows (count j n) 0 (kept_columns j cs) ≡ ok (kept P j rs)
  unfolding table_rows
  table_rows-kept zero j cs [] s h = refl
  table_rows-kept zero j cs (r ∷ rs) s h = ground arith
  table_rows-kept (suc n) j cs rs s h =
      let (r, p, k) = bind-ok (table_row 0 cs) _ h in
      let (us, q, g) = bind-ok (table_rows n 1 cs) (λ us. ok (r ∷ us)) k in
      let e : r ∷ us ≡ rs = ground arith in
      let later : table_rows (count (j + 1) n) 0 (kept_columns (j + 1) (tails cs))
          ≡ ok (kept P (j + 1) us) =
        table_rows-kept n (j + 1) (tails cs) us (Square-tails n cs s)
          (sym (table_rows-tails n 0 cs) ∙ q) in
      elim (Bool-cases (P j)) [
        | inl t ↦
            let first = first-kept n j cs s t ∙ p in
            let rest : table_rows (count (j + 1) n) 1 (kept_columns j cs) ≡ ok (kept P (j + 1) us) =
              table_rows-tails (count (j + 1) n) 0 (kept_columns j cs)
              ∙ ap (table_rows (count (j + 1) n) 0) (tails-kept n j cs s t)
              ∙ later in
            rw (← e, t, first, rest) refl
        | inr f ↦ rw (← e, f, skip-kept n j cs s f) later
      ]

  column_of-some :
      (k : Str) (vs : List Str) (n : ℕ) → length vs ≡ suc n → column_of k vs ≡ pair k vs ∷ []
  column_of-some k [] n h = absurd (omega (arith, h))
  column_of-some k (v ∷ vs) n h = refl

  column_of-none : (k : Str) (vs : List Str) → length vs ≡ 0 → column_of k vs ≡ []
  column_of-none k [] h = refl
  column_of-none k (v ∷ vs) h = absurd (omega (arith, h))

  selected-some :
      (n i : ℕ) (cs : Cortina Str Str)
      → Square n cs
      → count 0 n ≡ suc i
      → selected P cs ≡ kept_columns 0 cs
  selected-some n i [] s h = refl
  selected-some n i (c ∷ cs) (e, s) h =
      rw
        (
          column_of-some c.key (kept P 0 c.value) i (length-kept 0 n c.value e ∙ h),
          selected-some n i cs s h,
        )
        refl

  selected-none : (n : ℕ) (cs : Cortina Str Str) → Square n cs → count 0 n ≡ 0 → selected P cs ≡ []
  selected-none n [] s h = refl
  selected-none n (c ∷ cs) (e, s) h =
      rw
        (
          column_of-none c.key (kept P 0 c.value) (length-kept 0 n c.value e ∙ h),
          selected-none n cs s h,
        )
        refl

  -- The table of the selected columns has the rows that are kept of the table of all columns.
  pub table_of-selected :
      (n : ℕ) (c : KeyValue Str (List Str)) (cs : Cortina Str Str) (rs : List (List Str))
      → Square n (c ∷ cs)
      → table_rows n 0 (c ∷ cs) ≡ ok rs
      → length rs ≡ n
      → table_of (selected P (c ∷ cs)) ≡ ok (kept P 0 rs)
  unfolding table_of
  table_of-selected n c cs rs (e, s) h l = elim (nat-cases (count 0 n)) [
    | inl z ↦
        rw (selected-none n (c ∷ cs) (e, s) z)
          (ap ok (sym (length-zero (kept P 0 rs) (length-kept 0 n rs l ∙ z))))
    | inr (i, k) ↦
        rw (selected-some n i (c ∷ cs) (e, s) k, length-kept 0 n c.value e)
          (table_rows-kept n 0 (c ∷ cs) rs (e, s) h)
  ]
