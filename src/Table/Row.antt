-- ===== src/Table/Row.antt =====
-- Which rows `DatabaseTable::try_insert` takes.
use proyecto_estructura.Prelude.{◌≡◌, ◌↔◌, List, [], ◌∷◌, Str, length, arith, refl, true}
use proyecto_estructura.Outcome.{ok, safe, bind-ok}
use proyecto_estructura.LinkedList.KeyValueList.{KeyValueList, KeyValue}
use proyecto_estructura.Serializer.Layout.{Layout}
use proyecto_estructura.Automata.Actions.{Value}
use proyecto_estructura.Column.Cast.{Cell, push_messages, cast}
use proyecto_estructura.Column.Range.{Stores, cast_exact, cast-safe}
use proyecto_estructura.Table.TypeCheck.{to_insert, type_check}

-- A row: a cell for each literal and each column, in order.
pub data Row : List Value → KeyValueList Str Layout → List Cell → Type 0 where
  empty : Row [] [] []
  store :
      {v : Value} {vs : List Value} {l : KeyValue Str Layout} {ls : KeyValueList Str Layout}
      {c : Cell} {cs : List Cell}
      → Stores v l.value c
      → Row vs ls cs
      → Row (v ∷ vs) (l ∷ ls) (c ∷ cs)

to_insert-Row :
    (vs : List Value) (ls : KeyValueList Str Layout) (cs : List Cell)
    → length vs ≡ length ls
    → to_insert vs ls ≡ ok cs
    → Row vs ls cs
unfolding to_insert
to_insert-Row [] [] [] e h = empty
to_insert-Row [] [] (c ∷ cs) e h = ground arith
to_insert-Row (v ∷ vs) [] cs e h = ground arith
to_insert-Row [] (l ∷ ls) cs e h = ground arith
to_insert-Row (v ∷ vs) (l ∷ ls) cs e h =
    let (c, p, g) = bind-ok (cast push_messages v l.value) _ h in
    let (ds, q, r) = bind-ok (to_insert vs ls) _ g in
    let x : cs ≡ c ∷ ds = ground arith in
    rw x (
      store ((cast_exact push_messages v l.value c).0 p)
        (to_insert-Row vs ls ds (omega (arith, e)) q))

Row-to_insert :
    {vs : List Value} {ls : KeyValueList Str Layout} {cs : List Cell}
    → Row vs ls cs
    → (length vs ≡ length ls) × (to_insert vs ls ≡ ok cs)
unfolding to_insert
Row-to_insert empty = (refl, refl)
Row-to_insert (store {v} {l} {c} s r) =
    let (e, h) = Row-to_insert r in
    (omega (arith, e), rw ((cast_exact push_messages v l.value c).1 s, h) refl)

-- The type check of `try_insert` succeeds with the cells `cs` exactly when `cs` is a row: as many
-- literals as columns, and for each column in order the cell that it keeps of its literal.
pub type_check_exact :
    (vs : List Value) (ls : KeyValueList Str Layout) (cs : List Cell)
    → (type_check vs ls ≡ ok cs) ↔ Row vs ls cs
unfolding type_check
type_check_exact vs ls cs = (
  λ h. to_insert-Row vs ls cs (ground arith) (ground arith),
  λ r. ground (arith, Row-to_insert r),
)

to_insert-safe :
    (vs : List Value) (ls : KeyValueList Str Layout)
    → length vs ≡ length ls
    → safe (to_insert vs ls) ≡ true
unfolding to_insert
to_insert-safe [] ls h = refl
to_insert-safe (v ∷ vs) [] h = ground arith
to_insert-safe (v ∷ vs) (l ∷ ls) h =
    ground (arith, cast-safe push_messages v l.value, to_insert-safe vs ls)

-- The type check of `try_insert` follows no null column: it gives cells or fails with a message, on
-- every list of values and every list of columns.
pub type_check-safe :
    (vs : List Value) (ls : KeyValueList Str Layout) → safe (type_check vs ls) ≡ true
unfolding type_check
type_check-safe vs ls = ground (arith, to_insert-safe vs ls)
