-- ===== src/Server/Select/Missing.antt =====
-- A `Show_Select` that has nothing to display.
use Prim.Native.String.{String}
use mathlib.Core.Bool.{false≢true}
use proyecto_estructura.Prelude.{
  ◌≡◌, refl, ap, ◌∙◌, true, List, [], ◌∷◌, Str, length, head?, key_eq, ◌⊎◌, inl, inr, ◌++◌,
  Option-cases,
}
use proyecto_estructura.Outcome.{
  Outcome, ok, fail, thrown, fails, undefined_behaviour, ◌>>=◌, deref,
}
use proyecto_estructura.LinkedList.KeyValueList.{get}
use proyecto_estructura.LinkedList.Cortina.{Cortina}
use proyecto_estructura.Parser.Tokens.{NameAndSub}
use proyecto_estructura.Automata.Actions.{ShowSelect}
use proyecto_estructura.Column.Cast.{Cell}
use proyecto_estructura.Column.Codec.{Bincode}
use proyecto_estructura.Server.Databases.{Databases, DatabaseTable, Files, load_column}
use proyecto_estructura.Server.Select.{
  Display, column_key, find_table, display_new, display_column, display,
}
use proyecto_estructura.Server.Select.Answer.{Answer, answer, resolve_select}

fails_some {ℓ} : {A : Type ℓ} (m : Outcome A) → fails m ≡ true → (e : String) × (m ≡ fail e)
fails_some (ok a) h = absurd (false≢true h)
fails_some (fail e) h = (e, refl)
fails_some (thrown x) h = absurd (false≢true h)

-- what a chain that fails begins with
chain-cases {ℓ κ} :
    {A : Type ℓ} {B : Type κ} (m : Outcome A) (f : A → Outcome B)
    → fails (m >>= f) ≡ true
    → ((a : A) × (m ≡ ok a) × (fails (f a) ≡ true)) ⊎ ((e : String) × (m ≡ fail e))
chain-cases (ok a) f h = inl (a, refl, h)
chain-cases (fail e) f h = inr (e, refl)
chain-cases (thrown x) f h = absurd (false≢true h)

module _ (b : Bincode) (files : Files) (dbs : Databases) where
  -- Each column cannot be loaded: its database, table, column or file is missing, or its file is
  -- refused with a message.
  abbrev pub NoneLoads : Str → List NameAndSub → Type 0
  NoneLoads database [] = Unit
  NoneLoads database (c ∷ cs) =
      (fails (do t ← find_table dbs database c.name; load_column b files database c.name c.sub t)
        ≡ true)
      × NoneLoads database cs

module _ (b : Bincode) (files : Files) (dbs : Databases) (text : Cell → Str) where
  -- the columns of `s` still, whatever has been sent
  abbrev SameColumns : Display → Outcome Display → Type 0
  SameColumns s m = (s' : Display) × (m ≡ ok s') × (s'.columns ≡ s.columns)

  display_new-fails :
      (database : Str) (c : NameAndSub) (t : DatabaseTable) (s : Display) (x : String)
      → load_column b files database c.name c.sub t ≡ fail x
      → display_new b files dbs text database c t s ≡ ok (record s { sent = s.sent ++ x ∷ [] })
  unfolding display_new
  display_new-fails database c t s x h = rw (display_new, h) refl

  display_column-fails :
      (database : Str) (c : NameAndSub) (s : Display)
      → fails (do t ← find_table dbs database c.name; load_column b files database c.name c.sub t)
        ≡ true
      → SameColumns s (display_column b files dbs text database c s)
  unfolding display_column
  display_column-fails database c s h =
      elim (chain-cases (find_table dbs database c.name) (load_column b files database c.name c.sub)
        h) [
          | inl (t, e, f) ↦
              let (x, k) = fails_some (load_column b files database c.name c.sub t) f in
              elim (Option-cases (get (column_key c) s.columns)) [
                | inl n ↦ (
                  record s { sent = s.sent ++ x ∷ [] },
                  rw (display_column, e, n) (display_new-fails database c t s x k),
                  refl,
                )
                | inr (vs, n) ↦ (s, rw (display_column, e, n) refl, refl)
              ]
          | inr (x, e) ↦ (record s { sent = s.sent ++ x ∷ [] }, rw (display_column, e) refl, refl)
        ]

  display-fails :
      (database : Str) (cs : List NameAndSub) (s : Display)
      → NoneLoads b files dbs database cs
      → SameColumns s (display b files dbs text database cs s)
  unfolding display
  display-fails database [] s h = (s, refl, refl)
  display-fails database (c ∷ cs) s (h, hs) =
      let (s1, e, k) = display_column-fails database c s h in
      let (s2, e', k') = display-fails database cs s1 hs in (s2, rw e e', k' ∙ k)

  resolve_select-first :
      (arg : ShowSelect) (d : Display)
      → display b files dbs text arg.database arg.tables (record { columns = []; sent = [] }) ≡ ok d
      → d.columns ≡ []
      → resolve_select b files dbs text arg ≡ thrown undefined_behaviour
  unfolding resolve_select
  resolve_select-first arg d h e =
      let go : Cortina Str Str → Outcome Answer =
        λ l. deref (head? l) >>= λ first. answer b files dbs arg d (length first.value) in
      rw h (ap go e)

  -- A `Show_Select` none of whose columns to display can be loaded, since its database, its table,
  -- its column or its file is missing or the file is refused with a message, is not answered: the
  -- null pointer that `display_columns.first()` gives is followed.
  pub resolve_select-NoneLoads :
      (arg : ShowSelect)
      → NoneLoads b files dbs arg.database arg.tables
      → resolve_select b files dbs text arg ≡ thrown undefined_behaviour
  resolve_select-NoneLoads arg h =
      let (d, e, k) =
        display-fails arg.database arg.tables (record { columns = []; sent = [] }) h in
      resolve_select-first arg d e k
