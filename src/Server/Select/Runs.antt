-- ===== src/Server/Select/Runs.antt =====
-- The loops of the answer to a `Show_Select` run to their end, and the columns that it displays have
-- different names.
use proyecto_estructura.Prelude.{
  ℕ, ◌+◌, ◌≡◌, refl, Bool, true, false, List, [], ◌∷◌, map, arith, Str, key_eq, nat_eq, ◌++◌,
}
use proyecto_estructura.Outcome.{Outcome, ok, fail, thrown, safe, bind-ok}
use proyecto_estructura.LinkedList.KeyValueList.Unique.{
  is_unique, is_unique-overwrite, operations_keep_unique,
}
use proyecto_estructura.LinkedList.Cortina.{Cortina, append_value}
use proyecto_estructura.Serializer.Layout.{Layout}
use proyecto_estructura.Automata.Actions.{Restriction}
use proyecto_estructura.Parser.Tokens.{NameAndSub}
use proyecto_estructura.Column.Cast.{Cell, cast_messages, resolve_value}
use proyecto_estructura.Column.Range.{cast-safe}
use proyecto_estructura.Column.Codec.{Bincode}
use proyecto_estructura.Server.Databases.{DatabaseTable, Databases, Files, ColumnInstance}
use proyecto_estructura.Server.Select.{
  Filter, Display, judge, filter_judged, filter_row, filter_rows, filter_loaded, load_restricted,
  filter_restriction, filter, append_all, display_new, display_column, display, column_key,
}

judge-safe : (r : Restriction) (l : Layout) (c : Cell) → safe (judge r l c) ≡ true
unfolding judge resolve_value
judge-safe r l c = ground (arith, cast-safe cast_messages r.value l)

filter_judged-ok :
    (i : ℕ) (m : Outcome Bool) (s : Filter)
    → safe m ≡ true
    → (t : Filter) × (filter_judged i m s ≡ ok t)
unfolding filter_judged
filter_judged-ok i (ok true) s h = (_, refl)
filter_judged-ok i (ok false) s h = (_, refl)
filter_judged-ok i (fail e) s h = (_, refl)
filter_judged-ok i (thrown x) s h = ground arith

-- The rows of a column are filtered to the end.
filter_rows-ok :
    (r : Restriction) (l : Layout) (i : ℕ) (cs : List Cell) (s : Filter)
    → (t : Filter) × (filter_rows r l i cs s ≡ ok t)
unfolding filter_rows filter_row
filter_rows-ok r l i [] s = (s, refl)
filter_rows-ok r l i (c ∷ cs) s =
    let (u, p) = filter_judged-ok i (judge r l c) s (judge-safe r l c) in
    let (t, q) = filter_rows-ok r l (i + 1) cs u in (t, rw p q)

is_unique-append_value :
    (k v : Str) (l : Cortina Str Str) → is_unique l ≡ true → is_unique (append_value k v l) ≡ true
unfolding append_value
is_unique-append_value k v l h = grind (
  arith,
  (operations_keep_unique k (v ∷ []) l h).0,
  λ (vs : List Str). is_unique-overwrite k (vs ++ v ∷ []) l h,
)

is_unique-append_all :
    (k : Str) (vs : List Str) (l : Cortina Str Str)
    → is_unique l ≡ true
    → is_unique (append_all k vs l) ≡ true
unfolding append_all
is_unique-append_all k [] l h = h
is_unique-append_all k (v ∷ vs) l h =
    is_unique-append_all k vs (append_value k v l) (is_unique-append_value k v l h)

filter_loaded-ok :
    (r : Restriction) (m : Outcome ColumnInstance) (s : Filter)
    → safe m ≡ true
    → (t : Filter) × (filter_loaded r m s ≡ ok t)
unfolding filter_loaded
filter_loaded-ok r (ok c) s h = filter_rows-ok r c.layout 0 c.cells s
filter_loaded-ok r (fail e) s h = (_, refl)
filter_loaded-ok r (thrown x) s h = ground arith

module _ (b : Bincode) (files : Files) (dbs : Databases) where
  -- no column of a restriction throws when it is loaded
  abbrev pub Loads : Str → List Restriction → Type 0
  Loads database [] = Unit
  Loads database (r ∷ rs) =
      (safe (load_restricted b files dbs database r) ≡ true) × Loads database rs

  pub filter-ok :
      (database : Str) (rs : List Restriction) (s : Filter)
      → Loads database rs
      → (t : Filter) × (filter b files dbs database rs s ≡ ok t)
  unfolding filter filter_restriction
  filter-ok database [] s h = (s, refl)
  filter-ok database (r ∷ rs) s h =
      let (u, p) = filter_loaded-ok r (load_restricted b files dbs database r) s h.0 in
      let (t, q) = filter-ok database rs u h.1 in (t, rw p q)

module _ (b : Bincode) (files : Files) (dbs : Databases) (text : Cell → Str) where
  is_unique-display_new :
      (database : Str) (c : NameAndSub) (t : DatabaseTable) (s d : Display)
      → is_unique s.columns ≡ true
      → display_new b files dbs text database c t s ≡ ok d
      → is_unique d.columns ≡ true
  unfolding display_new
  is_unique-display_new database c t s d u h = grind (
    arith,
    λ (i : ColumnInstance). is_unique-append_all (column_key c) (map text i.cells) s.columns u,
  )

  is_unique-display_column :
      (database : Str) (c : NameAndSub) (s d : Display)
      → is_unique s.columns ≡ true
      → display_column b files dbs text database c s ≡ ok d
      → is_unique d.columns ≡ true
  unfolding display_column
  is_unique-display_column database c s d u h =
      grind (arith, λ (t : DatabaseTable). is_unique-display_new database c t s d u)

  pub is_unique-display :
      (database : Str) (cs : List NameAndSub) (s d : Display)
      → is_unique s.columns ≡ true
      → display b files dbs text database cs s ≡ ok d
      → is_unique d.columns ≡ true
  unfolding display
  is_unique-display database [] s d u h = ground arith
  is_unique-display database (c ∷ cs) s d u h =
      let (t, p, q) =
        bind-ok (display_column b files dbs text database c s)
          (display b files dbs text database cs) h in
      is_unique-display database cs t d (is_unique-display_column database c s t u p) q
