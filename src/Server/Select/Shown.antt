-- ===== src/Server/Select/Shown.antt =====
-- The values that the filter leaves of the displayed columns.
use mathlib.Core.List.{append_assoc, append-nil}
use proyecto_estructura.Prelude.{
  ℕ, ◌+◌, ◌-◌, ◌<◌, ◌≤◌, ◌≡◌, refl, sym, ap, ◌∙◌, Bool, true, false, not, ◌&&◌, ◌==◌, if◌then◌else◌,
  none, some, List, [], ◌∷◌, ◌++◌, arith, Str, length, str_eq, str_eq_iff, key_eq, nat_eq, is_some,
}
use proyecto_estructura.Outcome.{ok}
use proyecto_estructura.LinkedList.KeyValueList.{pair, get, overwrite, insert, push_back}
use proyecto_estructura.LinkedList.KeyValueList.Laws.{get-append}
use proyecto_estructura.LinkedList.KeyValueList.Unique.{is_unique}
use proyecto_estructura.LinkedList.ListFre.{FreValue, get_count}
use proyecto_estructura.LinkedList.Cortina.{Cortina, append_value}
use proyecto_estructura.Server.Select.{append_all}
use proyecto_estructura.Server.Select.Answer.{show_column, show_columns}

str_eq_refl : (k : Str) → str_eq k k ≡ true
str_eq_refl k = (str_eq_iff k k).1 refl

overwrite-last :
    (k : Str) (vs ws : List Str) (l : Cortina Str Str)
    → get k l ≡ none
    → overwrite k ws (l ++ pair k vs ∷ []) ≡ l ++ pair k ws ∷ []
unfolding overwrite get
overwrite-last k vs ws [] h = ground (arith, str_eq_refl k)
overwrite-last k vs ws (e ∷ l) h = ground (arith, overwrite-last k vs ws l)

get-last :
    (k : Str) (vs : List Str) (l : Cortina Str Str)
    → get k l ≡ none
    → get k (l ++ pair k vs ∷ []) ≡ some vs
unfolding get
get-last k vs l h = ground (arith, get-append k l (pair k vs ∷ []), str_eq_refl k)

append_value-last :
    (k : Str) (v : Str) (vs : List Str) (l : Cortina Str Str)
    → get k l ≡ none
    → append_value k v (l ++ pair k vs ∷ []) ≡ l ++ pair k (vs ++ v ∷ []) ∷ []
unfolding append_value
append_value-last k v vs l h =
    rw (get-last k vs l h, append_value) (overwrite-last k vs (vs ++ v ∷ []) l h)

append_all-last :
    (k : Str) (ws vs : List Str) (l : Cortina Str Str)
    → get k l ≡ none
    → append_all k ws (l ++ pair k vs ∷ []) ≡ l ++ pair k (vs ++ ws) ∷ []
unfolding append_all
append_all-last k [] vs l h = rw (append-nil vs) refl
append_all-last k (w ∷ ws) vs l h =
    ap (append_all k ws) (append_value-last k w vs l h)
    ∙ append_all-last k ws (vs ++ w ∷ []) l h
    ∙ ap (λ us. l ++ pair k us ∷ []) (append_assoc vs (w ∷ []) ws)

-- a column as it is added to a list without its key: not at all when it has no value
abbrev pub column_of : Str → List Str → Cortina Str Str
column_of k [] = []
column_of k (v ∷ vs) = pair k (v ∷ vs) ∷ []

pub append_all-new :
    (k : Str) (vs : List Str) (l : Cortina Str Str)
    → get k l ≡ none
    → append_all k vs l ≡ l ++ column_of k vs
unfolding append_all append_value insert push_back
append_all-new k [] l h = sym (append-nil l)
append_all-new k (v ∷ vs) l h =
    let e : append_value k v l ≡ l ++ pair k (v ∷ []) ∷ [] = ground arith in
    ap (append_all k vs) e ∙ append_all-last k vs (v ∷ []) l h

-- The entries of a list at the positions from `i` on that satisfy `P`.
abbrev pub kept {ℓ} : {A : Type ℓ} → (ℕ → Bool) → ℕ → List A → List A
kept P i [] = []
kept P i (v ∷ vs) = if P i then v ∷ kept P (i + 1) vs else kept P (i + 1) vs

-- The displayed columns with the values that are kept, without the columns that have none.
abbrev pub selected : (ℕ → Bool) → Cortina Str Str → Cortina Str Str
selected P [] = []
selected P (c ∷ cs) = column_of c.key (kept P 0 c.value) ++ selected P cs

-- No column has more than `n` values.
abbrev pub Within : ℕ → Cortina Str Str → Type 0
Within n [] = Unit
Within n (c ∷ cs) = (length c.value ≤ n) × Within n cs

-- For the first `n` rows the count of `indexes` says whether `P` holds, `m` being the number of
-- restrictions.
abbrev pub Tells : (ℕ → Bool) → ℕ → ℕ → List (FreValue ℕ) → Type 0
Tells P n m indexes =
    (j : ℕ) → j < n → (e : FreValue ℕ) × (get_count j indexes ≡ some e) × ((e.fre - 1 == m) ≡ P j)

module _ (P : ℕ → Bool) (n m : ℕ) (indexes : List (FreValue ℕ)) (tells : Tells P n m indexes) where
  show_column-if :
      (k : Str) (i : ℕ) (v : Str) (vs : List Str) (final : Cortina Str Str) (b : Bool)
      → show_column m indexes k (i + 1) vs (append_value k v final)
        ≡ ok (append_all k (kept P (i + 1) vs) (append_value k v final))
      → show_column m indexes k (i + 1) vs final ≡ ok (append_all k (kept P (i + 1) vs) final)
      → show_column m indexes k (i + 1) vs (if b then append_value k v final else final)
        ≡ ok (append_all k (if b then v ∷ kept P (i + 1) vs else kept P (i + 1) vs) final)
  unfolding append_all
  show_column-if k i v vs final true h g = h
  show_column-if k i v vs final false h g = g

  show_column-kept :
      (k : Str) (i : ℕ) (vs : List Str) (final : Cortina Str Str)
      → i + length vs ≤ n
      → show_column m indexes k i vs final ≡ ok (append_all k (kept P i vs) final)
  unfolding show_column append_all
  show_column-kept k i [] final h = refl
  show_column-kept k i (v ∷ vs) final h =
      let (e, g, p) = tells i (omega arith) in
      rw (g, p)
        (show_column-if k i v vs final (P i)
          (show_column-kept k (i + 1) vs (append_value k v final) (omega arith))
          (show_column-kept k (i + 1) vs final (omega arith)))

  get-column_of : (k j : Str) (vs : List Str) → str_eq k j ≡ false → get j (column_of k vs) ≡ none
  unfolding get
  get-column_of k j [] h = refl
  get-column_of k j (v ∷ vs) h = ground arith

  -- no key of the columns is in the list
  abbrev fresh : Cortina Str Str → Cortina Str Str → Bool
  fresh [] l = true
  fresh (c ∷ cs) l = not (is_some (get c.key l)) && fresh cs l

  fresh-append :
      (cs l : Cortina Str Str) (k : Str) (vs : List Str)
      → fresh cs l ≡ true
      → get k cs ≡ none
      → fresh cs (l ++ column_of k vs) ≡ true
  unfolding get
  fresh-append [] l k vs h g = refl
  fresh-append (c ∷ cs) l k vs h g = ground (
    arith,
    fresh-append cs l k vs,
    get-append c.key l (column_of k vs),
    get-column_of k c.key vs,
    str_eq_iff k c.key,
    str_eq_iff c.key k,
  )

  show_columns-from :
      (cs final : Cortina Str Str)
      → Within n cs
      → is_unique cs ≡ true
      → fresh cs final ≡ true
      → show_columns m indexes cs final ≡ ok (final ++ selected P cs)
  unfolding show_columns is_unique
  show_columns-from [] final w u f = ap ok (sym (append-nil final))
  show_columns-from (c ∷ cs) final w u f =
      let vs = kept P 0 c.value in
      let g : get c.key final ≡ none = ground arith in
      let one =
        show_column-kept c.key 0 c.value final (omega (arith, w.0))
        ∙ ap ok (append_all-new c.key vs final g) in
      let others =
        show_columns-from cs (final ++ column_of c.key vs) w.1 (ground arith)
          (fresh-append cs final c.key vs (ground arith) (ground arith)) in
      rw one (others ∙ ap ok (append_assoc final (column_of c.key vs) (selected P cs)))

  fresh-nil : (cs : Cortina Str Str) → fresh cs [] ≡ true
  unfolding get
  fresh-nil [] = refl
  fresh-nil (c ∷ cs) = fresh-nil cs

  -- What is displayed of columns that are not longer than the first one.
  pub show_columns-selected :
      (cs : Cortina Str Str)
      → Within n cs
      → is_unique cs ≡ true
      → show_columns m indexes cs [] ≡ ok (selected P cs)
  show_columns-selected cs w u = show_columns-from cs [] w u (fresh-nil cs)
