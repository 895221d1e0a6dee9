-- ===== src/Server/Select/Counts.antt =====
-- `indexes` counts, for each row, the restrictions that the row satisfies.
use mathlib.Core.List.{append_assoc}
use mathlib.Core.Path.{subst}
use proyecto_estructura.Prelude.{
  ℕ, ◌+◌, ◌≤◌, ◌≡◌, sym, ap, ◌∙◌, Bool, false, if◌then◌else◌, List, [], ◌∷◌, ◌++◌, map, arith,
  length, length-append, nat_eq,
}
use proyecto_estructura.Outcome.{ok, fail, thrown, bind-ok}
use proyecto_estructura.LinkedList.ListFre.{FreValue, push_count}
use proyecto_estructura.Serializer.Layout.{Layout}
use proyecto_estructura.Automata.Actions.{Restriction}
use proyecto_estructura.Column.Cast.{Cell}
use proyecto_estructura.Server.Select.{Filter, judge, filter_judged, filter_row, filter_rows}
use proyecto_estructura.Server.Select.Tally.{
  numbered, one, tally, push_count-marked, push_count-rest,
}

-- Whether a row with this cell is pushed.
abbrev pub passes : Restriction → Layout → Cell → Bool
passes r l c = elim (judge r l c) [ ok b ↦ b | fail e ↦ false | thrown x ↦ false ]

filter_row-indexes :
    (r : Restriction) (l : Layout) (i : ℕ) (c : Cell) (s t : Filter)
    → filter_row r l i c s ≡ ok t
    → t.indexes ≡ (if passes r l c then push_count i s.indexes else s.indexes)
unfolding filter_row filter_judged
filter_row-indexes r l i c s t h = ground arith

-- The counts `fs` of the first rows, and what else `indexes` holds.
pub record Counts (fs : List ℕ) (s : Filter) : Type 0 where
  pub rest : List (FreValue ℕ)
  pub indexes : s.indexes ≡ numbered 0 fs ++ rest

filter_row-Counts :
    (r : Restriction) (l : Layout) (c : Cell) (s t : Filter) (us : List ℕ) (f : ℕ) (vs : List ℕ)
    → Counts (us ++ f ∷ vs) s
    → filter_row r l (length us) c s ≡ ok t
    → Counts (us ++ (f + one (passes r l c)) ∷ vs) t
filter_row-Counts r l c s t us f vs k h =
    let m = passes r l c in
    record {
      rest = k.rest;
      indexes =
          filter_row-indexes r l (length us) c s t h
          ∙ ap (λ x. if m then push_count (length us) x else x) k.indexes
          ∙ push_count-marked m us f vs k.rest;
    }

filter_row-beyond :
    (r : Restriction) (l : Layout) (i : ℕ) (c : Cell) (s t : Filter) (fs : List ℕ)
    → length fs ≤ i
    → Counts fs s
    → filter_row r l i c s ≡ ok t
    → Counts fs t
filter_row-beyond r l i c s t fs b k h =
    let m = passes r l c in
    record {
      rest = if m then push_count i k.rest else k.rest;
      indexes =
          filter_row-indexes r l i c s t h
          ∙ ap (λ x. if m then push_count i x else x) k.indexes
          ∙ push_count-rest m i fs k.rest b;
    }

filter_rows-beyond :
    (r : Restriction) (l : Layout) (cs : List Cell) (i : ℕ) (s t : Filter) (fs : List ℕ)
    → length fs ≤ i
    → Counts fs s
    → filter_rows r l i cs s ≡ ok t
    → Counts fs t
unfolding filter_rows
filter_rows-beyond r l [] i s t fs b k h = let e : s ≡ t = ground arith in subst (Counts fs) e k
filter_rows-beyond r l (c ∷ cs) i s t fs b k h =
    let (u, p, q) = bind-ok (filter_row r l i c s) (filter_rows r l (i + 1) cs) h in
    filter_rows-beyond r l cs (i + 1) u t fs (omega (arith, b))
      (filter_row-beyond r l i c s u fs b k p) q

-- The loop over the rows from the row behind `us` on.
pub filter_rows-Counts :
    (r : Restriction) (l : Layout) (cs : List Cell) (i : ℕ) (s t : Filter) (us vs : List ℕ)
    → i ≡ length us
    → Counts (us ++ vs) s
    → filter_rows r l i cs s ≡ ok t
    → Counts (us ++ tally vs (map (passes r l) cs)) t
unfolding filter_rows
filter_rows-Counts r l cs i s t us [] e k h =
    filter_rows-beyond r l cs i s t (us ++ []) (omega (arith, e, length-append us [])) k h
filter_rows-Counts r l [] i s t us (v ∷ vs) e k h =
    let g : s ≡ t = ground arith in subst (Counts (us ++ v ∷ vs)) g k
filter_rows-Counts r l (c ∷ cs) i s t us (v ∷ vs) e k h =
    let (u, p, q) = bind-ok (filter_row r l i c s) (filter_rows r l (i + 1) cs) h in
    let w = v + one (passes r l c) in
    let p' = subst (λ j. filter_row r l j c s ≡ ok u) e p in
    let k' =
      subst (λ x. Counts x u) (sym (append_assoc us (w ∷ []) vs))
        (filter_row-Counts r l c s u us v vs k p') in
    subst (λ x. Counts x t) (append_assoc us (w ∷ []) (tally vs (map (passes r l) cs)))
      (filter_rows-Counts r l cs (i + 1) u t (us ++ w ∷ []) vs
        (omega (arith, e, length-append us (w ∷ []))) k' q)
