-- ===== src/Server/Select/Holds.antt =====
-- Which rows satisfy all restrictions.
use mathlib.Core.Path.{subst}
use mathlib.Core.List.{append-nil}
use Prim.Native.String.{String}
use proyecto_estructura.Prelude.{
  ℕ, ◌+◌, ◌-◌, ◌<◌, ◌≤◌, ◌≡◌, refl, sym, ap, ◌∙◌, Bool, true, ◌&&◌, ◌==◌, some, List, [], ◌∷◌, map,
  arith, Str, length, get_elem?, nat_eq,
}
use proyecto_estructura.Outcome.{Outcome, ok, fail, thrown, bind-ok}
use proyecto_estructura.LinkedList.ListFre.{FreValue, get_count}
use proyecto_estructura.Automata.Actions.{Restriction}
use proyecto_estructura.Column.Codec.{Bincode}
use proyecto_estructura.Server.Databases.{Databases, Files, ColumnInstance}
use proyecto_estructura.Server.Select.{
  Filter, push_all, load_restricted, filter_loaded, filter_restriction, filter,
}
use proyecto_estructura.Server.Select.Tally.{
  numbered, one, tally, ones, push_all-ones, get_elem?-ones, mark_at, get_elem?-tally,
  get_count-numbered,
}
use proyecto_estructura.Server.Select.Counts.{passes, Counts, filter_rows-Counts}

module _ (b : Bincode) (files : Files) (dbs : Databases) (database : Str) where
  -- The rows of its column that a restriction takes.
  abbrev marks_of : Restriction → Outcome ColumnInstance → List Bool
  marks_of r (ok c) = map (passes r c.layout) c.cells
  marks_of r (fail e) = []
  marks_of r (thrown x) = []

  abbrev marks : Restriction → List Bool
  marks r = marks_of r (load_restricted b files dbs database r)

  -- Row `j` of the restricted column is there and compares as the restriction asks.
  abbrev pub holds : Restriction → ℕ → Bool
  holds r j = mark_at (marks r) j

  abbrev pub all_hold : List Restriction → ℕ → Bool
  all_hold [] j = true
  all_hold (r ∷ rs) j = holds r j && all_hold rs j

  abbrev count_holds : List Restriction → ℕ → ℕ
  count_holds [] j = 0
  count_holds (r ∷ rs) j = one (holds r j) + count_holds rs j

  abbrev tallies : List ℕ → List Restriction → List ℕ
  tallies fs [] = fs
  tallies fs (r ∷ rs) = tallies (tally fs (marks r)) rs

  tally-none : (fs : List ℕ) → tally fs [] ≡ fs
  tally-none [] = refl
  tally-none (f ∷ fs) = refl

  filter_loaded-Counts :
      (r : Restriction) (m : Outcome ColumnInstance) (s t : Filter) (fs : List ℕ)
      → Counts fs s
      → filter_loaded r m s ≡ ok t
      → Counts (tally fs (marks_of r m)) t
  unfolding filter_loaded
  filter_loaded-Counts r (ok c) s t fs k h =
      filter_rows-Counts r c.layout c.cells 0 s t [] fs refl k h
  filter_loaded-Counts r (fail e) s t fs k h =
      let i : s.indexes ≡ t.indexes = ground arith in
      record { rest = k.rest; indexes = rw (tally-none fs) (sym i ∙ k.indexes) }
  filter_loaded-Counts r (thrown x) s t fs k h = ground arith

  filter_restriction-Counts :
      (r : Restriction) (s t : Filter) (fs : List ℕ)
      → Counts fs s
      → filter_restriction b files dbs database r s ≡ ok t
      → Counts (tally fs (marks r)) t
  unfolding filter_restriction
  filter_restriction-Counts r s t fs k h =
      filter_loaded-Counts r (load_restricted b files dbs database r) s t fs k h

  filter-Counts :
      (rs : List Restriction) (s t : Filter) (fs : List ℕ)
      → Counts fs s
      → filter b files dbs database rs s ≡ ok t
      → Counts (tallies fs rs) t
  unfolding filter
  filter-Counts [] s t fs k h = let e : s ≡ t = ground arith in subst (Counts fs) e k
  filter-Counts (r ∷ rs) s t fs k h =
      let (u, p, q) =
        bind-ok (filter_restriction b files dbs database r s) (filter b files dbs database rs) h in
      filter-Counts rs u t (tally fs (marks r)) (filter_restriction-Counts r s u fs k p) q

  get_elem?-tallies :
      (rs : List Restriction) (fs : List ℕ) (j f : ℕ)
      → get_elem? fs j ≡ some f
      → get_elem? (tallies fs rs) j ≡ some (f + count_holds rs j)
  get_elem?-tallies [] fs j f h = ground (arith, h)
  get_elem?-tallies (r ∷ rs) fs j f h =
      get_elem?-tallies rs (tally fs (marks r)) j (f + one (holds r j))
        (get_elem?-tally fs (marks r) j f h)
      ∙ ap some (omega arith)

  count_holds-bound : (rs : List Restriction) (j : ℕ) → count_holds rs j ≤ length rs
  count_holds-bound [] j = omega arith
  count_holds-bound (r ∷ rs) j = ground (arith, count_holds-bound rs j)

  count_holds-all :
      (rs : List Restriction) (j : ℕ) → (count_holds rs j == length rs) ≡ all_hold rs j
  count_holds-all [] j = refl
  count_holds-all (r ∷ rs) j = ground (arith, count_holds-bound rs j, count_holds-all rs j)

  -- Once the restrictions are applied, `indexes` has at position `j` the row `j`, for every row of
  -- the first displayed column, and its count without the first push is the number of restrictions
  -- exactly when the row satisfies all of them.
  pub filter-get_count :
      (rs : List Restriction) (n j : ℕ) (sent : List String) (t : Filter)
      → j < n
      → filter b files dbs database rs (record { indexes = push_all n 0 []; sent = sent }) ≡ ok t
      → (e : FreValue ℕ) × (get_count j t.indexes ≡ some e)
        × (e.value ≡ j)
        × ((e.fre - 1 == length rs) ≡ all_hold rs j)
  filter-get_count rs n j sent t h k =
      let c =
        filter-Counts rs _ t (ones n)
          (record { rest = []; indexes = push_all-ones n ∙ sym (append-nil (numbered 0 (ones n))) })
          k in
      let f = 1 + count_holds rs j in
      let g = get_elem?-tallies rs (ones n) j 1 (get_elem?-ones n j h) in
      (
        record { value = 0 + j; fre = f },
        ap (get_count j) c.indexes ∙ get_count-numbered 0 j (tallies (ones n) rs) c.rest f g,
        omega arith,
        ground (arith, count_holds-all rs j),
      )
