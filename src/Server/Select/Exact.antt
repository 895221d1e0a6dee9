-- ===== src/Server/Select/Exact.antt =====
-- The answer to a `Show_Select` as a whole.
use proyecto_estructura.Prelude.{
  ℕ, ◌≡◌, refl, ap, ◌∙◌, true, List, [], ◌∷◌, map, arith, Str, length, head?, key_eq,
}
use proyecto_estructura.Outcome.{Outcome, ok, ◌>>=◌, deref}
use proyecto_estructura.LinkedList.KeyValueList.{KeyValue}
use proyecto_estructura.LinkedList.KeyValueList.Unique.{is_unique}
use proyecto_estructura.LinkedList.Cortina.{Cortina}
use proyecto_estructura.Automata.Actions.{ShowSelect}
use proyecto_estructura.Column.Cast.{Cell}
use proyecto_estructura.Column.Codec.{Bincode}
use proyecto_estructura.Server.Databases.{Databases, Files}
use proyecto_estructura.Server.Select.{Filter, Display, push_all, display}
use proyecto_estructura.Server.Select.Answer.{Answer, table_rows, table_of, answer, resolve_select}
use proyecto_estructura.Server.Select.Holds.{all_hold, filter-get_count}
use proyecto_estructura.Server.Select.Runs.{Loads, filter-ok, is_unique-display}
use proyecto_estructura.Server.Select.Shown.{kept, selected, Within, Tells, show_columns-selected}
use proyecto_estructura.Server.Select.Table.{Square, table_rows-ok, table_of-selected}

Square-Within : (n : ℕ) (cs : Cortina Str Str) → Square n cs → Within n cs
Square-Within n [] s = tt
Square-Within n (c ∷ cs) (e, s) = (omega (arith, e), Square-Within n cs s)

module _ (b : Bincode) (files : Files) (dbs : Databases) (text : Cell → Str) where
  answer-kept :
      (arg : ShowSelect) (d : Display) (n : ℕ) (c : KeyValue Str (List Str)) (cs : Cortina Str Str)
      → d.columns ≡ c ∷ cs
      → is_unique d.columns ≡ true
      → Square n (c ∷ cs)
      → Loads b files dbs arg.database arg.restrictions
      → (rs : List (List Str)) × (a : Answer) × (table_rows n 0 (c ∷ cs) ≡ ok rs)
        × (answer b files dbs arg d n ≡ ok a)
        × (a.rows ≡ kept (all_hold b files dbs arg.database arg.restrictions) 0 rs)
  unfolding answer
  answer-kept arg d n c cs e u s l =
      let P = all_hold b files dbs arg.database arg.restrictions in
      let m = length arg.restrictions in
      let start : Filter = record { indexes = push_all n 0 []; sent = d.sent } in
      let (f, k) = filter-ok b files dbs arg.database arg.restrictions start l in
      let tells : Tells P n m f.indexes = λ j h.
        let (e', g, _, p) =
          filter-get_count b files dbs arg.database arg.restrictions n j d.sent f h k in
        (e', g, p) in
      let shown =
        show_columns-selected P n m f.indexes tells (c ∷ cs) (Square-Within n (c ∷ cs) s)
          (rw e at u) in
      let (rs, q, z) = table_rows-ok n (c ∷ cs) s in
      let t = table_of-selected P n c cs rs s q z in
      (
        rs,
        record {
          sent = f.sent;
          header = map (λ x. x.key) (selected P (c ∷ cs));
          rows = kept P 0 rs;
        },
        q,
        rw (k, e, shown, t) refl,
        refl,
      )

  resolve_select-answer :
      (arg : ShowSelect) (d : Display) (c : KeyValue Str (List Str)) (cs : Cortina Str Str)
      (a : Answer)
      → display b files dbs text arg.database arg.tables (record { columns = []; sent = [] }) ≡ ok d
      → d.columns ≡ c ∷ cs
      → answer b files dbs arg d (length c.value) ≡ ok a
      → resolve_select b files dbs text arg ≡ ok a
  unfolding resolve_select
  resolve_select-answer arg d c cs a h e k =
      let go : Cortina Str Str → Outcome Answer =
        λ l. deref (head? l) >>= λ first. answer b files dbs arg d (length first.value) in
      rw h (ap go e ∙ k)

  -- A `Show_Select` whose columns to display are loaded, all with the same number of rows, and in
  -- which no column of a restriction throws when it is loaded, is answered, with no null pointer
  -- followed. The rows of the answer are those of the table of all loaded columns, in their order,
  -- that satisfy all restrictions: the row is there in the restricted column and its cell compares
  -- as the restriction asks.
  pub resolve_select_exact :
      (arg : ShowSelect) (d : Display) (c : KeyValue Str (List Str)) (cs : Cortina Str Str)
      → display b files dbs text arg.database arg.tables (record { columns = []; sent = [] }) ≡ ok d
      → d.columns ≡ c ∷ cs
      → Square (length c.value) (c ∷ cs)
      → Loads b files dbs arg.database arg.restrictions
      → (rs : List (List Str)) × (a : Answer) × (table_of d.columns ≡ ok rs)
        × (resolve_select b files dbs text arg ≡ ok a)
        × (a.rows ≡ kept (all_hold b files dbs arg.database arg.restrictions) 0 rs)
  unfolding resolve_select table_of
  resolve_select_exact arg d c cs h e s l =
      let empty : Display = record { columns = []; sent = [] } in
      let u =
        is_unique-display b files dbs text arg.database arg.tables empty d
          (unfold is_unique in refl) h in
      let (rs, a, q, k, p) = answer-kept arg d (length c.value) c cs e u s l in
      let q' = ap table_of e ∙ q in (rs, a, q', resolve_select-answer arg d c cs a h e k, p)
