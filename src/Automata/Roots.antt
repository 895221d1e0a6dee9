-- ===== src/Automata/Roots.antt =====
-- Which words an accepted query begins with.
use mathlib.Core.Path.{ap₂}
use proyecto_estructura.Prelude.{
  and_left, and_right, ◌≡◌, ◌≢◌, refl, Bool, true, false, ◌&&◌, none, some, List, [], ◌∷◌, arith,
  inl, inr, Option-cases,
}
use proyecto_estructura.Outcome.{Outcome, ok, fail, thrown, ◌>>=◌}
use proyecto_estructura.Parser.Compare.{same_variant_and_value}
use proyecto_estructura.Parser.Tokens.{KeywordE, Token, keyword, symbol}
use proyecto_estructura.Automata.Actions.{Action}
use proyecto_estructura.Automata.State.{State, initial, is_keyword}
use proyecto_estructura.Automata.Run.{visit, finish, get_action_struct}
use proyecto_estructura.Automata.Recognize.{is_keyword-eq}
use proyecto_estructura.Automata.Scan.{view, scan, get_action_struct-scan}
use proyecto_estructura.Automata.Consistent.{
  allows, family, follows, holds, follows-scan, action_family, allows-family,
}

-- The words that a query begins with; `SHOW FROM` is not asked for in front of `FROM`.
abbrev pub root_words : Action → List KeywordE
root_words (Action.create_database _) = KeywordE.create ∷ KeywordE.database ∷ []
root_words (Action.create_table _) = KeywordE.create ∷ KeywordE.table ∷ []
root_words (Action.delete_database _) = KeywordE.delete ∷ KeywordE.database ∷ []
root_words (Action.delete_table _ _) = KeywordE.delete ∷ KeywordE.table ∷ []
root_words (Action.show_database _) = KeywordE.show ∷ KeywordE.database ∷ []
root_words (Action.show_table _ _) = KeywordE.show ∷ KeywordE.table ∷ []
root_words Action.show_databases = KeywordE.show ∷ KeywordE.databases ∷ []
root_words (Action.insert _) = KeywordE.insert ∷ KeywordE.into ∷ []
root_words (Action.show_select _) = KeywordE.using ∷ []
root_words (Action.show_column_values _) = []
root_words (Action.show_table_data _ _) = []

abbrev pub begins : List KeywordE → List Token → Bool
begins [] ts = true
begins (k ∷ ks) [] = false
begins (k ∷ ks) (t ∷ ts) = is_keyword k t && begins ks ts

-- What the first token leaves behind.
abbrev pub first : Token → List Token → Outcome State
first t ts = visit initial (view 0 none none t ts) t

-- The state after the first token allows its variant, and its family fixes the first words.
abbrev pub Rooted : Token → List Token → State → Type 0
Rooted t ts s =
    (allows s.ctx s.variant ≡ true)
    × ((a : Action) → family s.ctx ≡ action_family a → begins (root_words a) (t ∷ ts) ≡ true)

-- A first token that leaves the state as it is.
Rooted-initial : (t : Token) (ts : List Token) (s : State) → ok initial ≡ ok s → Rooted t ts s
Rooted-initial t ts s h = (ground arith, λ a e. ground arith)

Rooted-keyword :
    (k : KeywordE) (ts : List Token) (s : State)
    → first (keyword k) ts ≡ ok s
    → Rooted (keyword k) ts s
unfolding visit same_variant_and_value
Rooted-keyword KeywordE.create [] s h = cc
Rooted-keyword KeywordE.create (u ∷ ts) s h = (ground arith, λ a e. ground arith)
Rooted-keyword KeywordE.database ts s h = (ground arith, λ a e. ground arith)
Rooted-keyword KeywordE.table ts s h = (ground arith, λ a e. ground arith)
Rooted-keyword KeywordE.insert [] s h = cc
Rooted-keyword KeywordE.insert (u ∷ ts) s h = (ground arith, λ a e. ground arith)
Rooted-keyword KeywordE.into [] s h = cc
Rooted-keyword KeywordE.into (u ∷ ts) s h = (ground arith, λ a e. ground arith)
Rooted-keyword KeywordE.values ts s h = (ground arith, λ a e. ground arith)
Rooted-keyword KeywordE.select ts s h = (ground arith, λ a e. ground arith)
Rooted-keyword KeywordE.from ts s h = (ground arith, λ a e. ground arith)
Rooted-keyword KeywordE.where_ ts s h = (ground arith, λ a e. ground arith)
Rooted-keyword KeywordE.update ts s h = (ground arith, λ a e. ground arith)
Rooted-keyword KeywordE.set ts s h = (ground arith, λ a e. ground arith)
Rooted-keyword KeywordE.delete [] s h = cc
Rooted-keyword KeywordE.delete (u ∷ ts) s h = (ground arith, λ a e. ground arith)
Rooted-keyword KeywordE.drop ts s h = (ground arith, λ a e. ground arith)
Rooted-keyword KeywordE.pk ts s h = (ground arith, λ a e. ground arith)
Rooted-keyword KeywordE.un ts s h = (ground arith, λ a e. ground arith)
Rooted-keyword KeywordE.show [] s h = cc
Rooted-keyword KeywordE.show (u ∷ ts) s h = (ground arith, λ a e. ground arith)
Rooted-keyword KeywordE.databases ts s h = (ground arith, λ a e. ground arith)
Rooted-keyword KeywordE.column ts s h = (ground arith, λ a e. ground arith)
Rooted-keyword KeywordE.using ts s h = (ground arith, λ a e. ground arith)

pub Rooted-first : (t : Token) (ts : List Token) (s : State) → first t ts ≡ ok s → Rooted t ts s
unfolding visit
Rooted-first (keyword k) ts s h = Rooted-keyword k ts s h
Rooted-first (symbol t) ts s h = (ground arith, λ a e. ground arith)
Rooted-first t ts s h = (ground arith, λ a e. ground arith)

-- An accepted query splits into its first token and the rest, which keeps the family.
pub record Split (t : Token) (ts : List Token) (a : Action) : Type 0 where
  pub state : State
  pub head : first t ts ≡ ok state
  pub rest : (scan 1 none (some t) ts state >>= finish) ≡ ok a
  pub family_eq : family state.ctx ≡ action_family a

finish-family :
    (s : State) (a : Action) (m : Outcome State)
    → holds (follows s) m ≡ true
    → (m >>= finish) ≡ ok a
    → family s.ctx ≡ action_family a
finish-family s a (fail e) f h = cc
finish-family s a (thrown x) f h = cc
finish-family s a (ok u) f h = elim (Option-cases u.variant) [
  | inl e ↦ ground arith
  | inr (b, e) ↦ ground (arith, allows-family u.ctx b)
]

scan_splits :
    (m : Outcome State) (t : Token) (ts : List Token) (a : Action)
    → first t ts ≡ m
    → ((m >>= λ s. scan 1 none (some t) ts s) >>= finish) ≡ ok a
    → Split t ts a
scan_splits (fail e) t ts a h k = cc
scan_splits (thrown x) t ts a h k = cc
scan_splits (ok s) t ts a h k = record {
  state = s;
  head = h;
  rest = k;
  family_eq =
      finish-family s a (scan 1 none (some t) ts s)
        (follows-scan 1 none (some t) ts s (Rooted-first t ts s h).0 refl) k;
}

pub accepted_splits :
    (t : Token) (ts : List Token) (a : Action) → get_action_struct (t ∷ ts) ≡ ok a → Split t ts a
accepted_splits t ts a h =
    scan_splits (first t ts) t ts a refl (unfold scan in rw get_action_struct-scan at h)

get_action_struct-nil : (a : Action) → get_action_struct [] ≢ ok a
unfolding get_action_struct
get_action_struct-nil a h = cc

-- A query that is accepted begins with the words of its action: `CREATE TABLE`, `INSERT INTO`,
-- `USING` and so on. (Of the two actions of `FROM` nothing is said.)
pub get_action_struct-begins :
    (ts : List Token) (a : Action) → get_action_struct ts ≡ ok a → begins (root_words a) ts ≡ true
get_action_struct-begins [] a h = absurd (get_action_struct-nil a h)
get_action_struct-begins (t ∷ ts) a h =
    let sp = accepted_splits t ts a h in (Rooted-first t ts sp.state sp.head).1 a sp.family_eq

pub begins_two :
    (j k : KeywordE) (ts : List Token)
    → begins (j ∷ k ∷ []) ts ≡ true
    → (r : List Token) × (ts ≡ keyword j ∷ keyword k ∷ r)
begins_two j k [] h = cc
begins_two j k (x ∷ []) h = absurd (ground arith)
begins_two j k (x ∷ y ∷ r) h =
    let p : is_keyword j x ≡ true = and_left _ _ h in
    let q : is_keyword k y ≡ true = and_left _ _ (and_right _ _ h) in
    (r, ap₂ (λ t u. t ∷ u ∷ r) (is_keyword-eq j x p) (is_keyword-eq k y q))
