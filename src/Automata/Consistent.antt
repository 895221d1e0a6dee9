-- ===== src/Automata/Consistent.antt =====
-- The context of `get_action_struct` decides which action may be in `variant`, and after the first
-- token a query stays in its family of contexts.
use proyecto_estructura.Prelude.{
  ℕ, ◌+◌, ◌≡◌, refl, Bool, true, false, ◌&&◌, ◌==◌, Option, none, some, List, [], ◌∷◌, arith,
}
use proyecto_estructura.Outcome.{Outcome, ok, fail, thrown, ◌>>=◌}
use proyecto_estructura.Parser.Tokens.{
  Token, operator, keyword, type, symbol, string, numbers, identifier, unknown, bool, KeywordE,
  Identifier, SymbolE, TypeE, OperatorE,
}
use proyecto_estructura.Automata.Actions.{Action, Value, Context}
use proyecto_estructura.Automata.State.{State, Window}
use proyecto_estructura.Automata.Values.{value_of_numbers, on_value}
use proyecto_estructura.Automata.Symbols.{on_symbol, on_type}
use proyecto_estructura.Automata.Keywords.{
  on_keyword, on_from, on_column, on_database, on_databases,
}
use proyecto_estructura.Automata.Identifiers.{on_identifier}
use proyecto_estructura.Automata.Operators.{on_operator}
use proyecto_estructura.Automata.Run.{visit}
use proyecto_estructura.Automata.Scan.{view, scan}

-- The actions that a context allows; `none` is no action yet.
abbrev pub allows : Context → Option Action → Bool
allows Context.create_database_e none = true
allows Context.create_database_e (some (Action.create_database _)) = true
allows Context.create_table_e none = true
allows Context.create_table_e (some (Action.create_table _)) = true
allows Context.delete_database_e none = true
allows Context.delete_database_e (some (Action.delete_database _)) = true
allows Context.delete_table_e none = true
allows Context.delete_table_e (some (Action.delete_table _ _)) = true
allows Context.show_database_e none = true
allows Context.show_database_e (some (Action.show_database _)) = true
allows Context.show_table_e none = true
allows Context.show_table_e (some (Action.show_table _ _)) = true
allows Context.show_databases_e none = true
allows Context.show_databases_e (some Action.show_databases) = true
allows Context.insert_e none = true
allows Context.insert_e (some (Action.insert _)) = true
allows Context.select_e (some (Action.show_select _)) = true
allows Context.where_e (some (Action.show_select _)) = true
allows Context.show_column_values_e (some (Action.show_column_values _)) = true
allows Context.unknown none = true
allows Context.unknown (some (Action.show_table_data _ _)) = true
allows _ _ = false

-- The contexts that a query can pass between after its first token have one family.
abbrev pub family : Context → ℕ
family Context.create_database_e = 1
family Context.create_table_e = 2
family Context.delete_database_e = 3
family Context.delete_table_e = 4
family Context.show_database_e = 5
family Context.show_table_e = 6
family Context.show_databases_e = 7
family Context.insert_e = 8
family Context.select_e = 9
family Context.where_e = 9
family Context.show_column_values_e = 10
family Context.show_table_data_e = 11
family Context.unknown = 10

abbrev pub follows : State → State → Bool
follows s s' = allows s'.ctx s'.variant && (family s'.ctx == family s.ctx)

abbrev pub holds : (State → Bool) → Outcome State → Bool
holds p (ok s) = p s
holds p (fail e) = true
holds p (thrown x) = true

module _ (s : State) (w : Window) (c : allows s.ctx s.variant ≡ true) where
  follows-on_from : holds (follows s) (on_from s w) ≡ true
  unfolding on_from
  follows-on_from = ground arith

  follows-on_column : holds (follows s) (on_column s w) ≡ true
  unfolding on_column
  follows-on_column = ground arith

  follows-on_database : holds (follows s) (on_database s w) ≡ true
  unfolding on_database
  follows-on_database = ground arith

  follows-on_databases : holds (follows s) (on_databases s w) ≡ true
  unfolding on_databases
  follows-on_databases = ground arith

  follows-on_value : (v : Value) → holds (follows s) (on_value s w v) ≡ true
  unfolding on_value
  follows-on_value v = ground arith

  follows-on_symbol : (t : SymbolE) → holds (follows s) (on_symbol s w t) ≡ true
  unfolding on_symbol
  follows-on_symbol t = ground arith

  follows-on_type : (t : TypeE) → holds (follows s) (on_type s w t) ≡ true
  unfolding on_type
  follows-on_type t = ground arith

  follows-on_operator : (o : OperatorE) → holds (follows s) (on_operator s w o) ≡ true
  unfolding on_operator
  follows-on_operator o = ground arith

  follows-on_identifier : (i : Identifier) → holds (follows s) (on_identifier s w i) ≡ true
  unfolding on_identifier
  follows-on_identifier i = ground arith

  follows-on_keyword :
      (k : KeywordE) → (w.token_number == 0) ≡ false → holds (follows s) (on_keyword s w k) ≡ true
  unfolding on_keyword
  follows-on_keyword KeywordE.from h = follows-on_from
  follows-on_keyword KeywordE.column h = follows-on_column
  follows-on_keyword KeywordE.database h = follows-on_database
  follows-on_keyword KeywordE.databases h = follows-on_databases
  follows-on_keyword k h = ground arith

  pub follows-visit :
      (t : Token) → (w.token_number == 0) ≡ false → holds (follows s) (visit s w t) ≡ true
  unfolding visit
  follows-visit (bool b) h = follows-on_value (Value.bool b)
  follows-visit (keyword k) h = follows-on_keyword k h
  follows-visit (type t) h = follows-on_type t
  follows-visit (symbol t) h = follows-on_symbol t
  follows-visit (string t) h = follows-on_value (Value.string t)
  follows-visit (numbers n) h = follows-on_value (value_of_numbers n)
  follows-visit (identifier i) h = follows-on_identifier i
  follows-visit (operator o) h = follows-on_operator o
  follows-visit (unknown u) h = refl

holds-bind :
    (p q : State → Bool) (m : Outcome State) (f : State → Outcome State)
    → holds p m ≡ true
    → ((s : State) → p s ≡ true → holds q (f s) ≡ true)
    → holds q (m >>= f) ≡ true
holds-bind p q (ok s) f h k = k s h
holds-bind p q (fail e) f h k = refl
holds-bind p q (thrown x) f h k = refl

follows_trans : (s t u : State) → follows s t ≡ true → follows t u ≡ true → follows s u ≡ true
follows_trans s t u h k = ground arith

holds-weaken :
    (p q : State → Bool) (m : Outcome State)
    → holds p m ≡ true
    → ((s : State) → p s ≡ true → q s ≡ true)
    → holds q m ≡ true
holds-weaken p q (ok s) h k = k s h
holds-weaken p q (fail e) h k = refl
holds-weaken p q (thrown x) h k = refl

pub follows-scan :
    (n : ℕ) (q p : Option Token) (ts : List Token) (s : State)
    → allows s.ctx s.variant ≡ true
    → (n == 0) ≡ false
    → holds (follows s) (scan n q p ts s) ≡ true
unfolding scan
follows-scan n q p [] s c h = ground arith
follows-scan n q p (t ∷ ts) s c h =
    holds-bind (follows s) (follows s) (visit s (view n q p t ts) t) _
      (follows-visit s (view n q p t ts) c t h)
      λ s' f.
        holds-weaken (follows s') (follows s) _
          (follows-scan (n + 1) p (some t) ts s' (ground arith) (ground arith))
          λ u g. follows_trans s s' u f g

-- The family of contexts that ends in an action.
abbrev pub action_family : Action → ℕ
action_family (Action.create_database _) = 1
action_family (Action.create_table _) = 2
action_family (Action.delete_database _) = 3
action_family (Action.delete_table _ _) = 4
action_family (Action.show_database _) = 5
action_family (Action.show_table _ _) = 6
action_family Action.show_databases = 7
action_family (Action.insert _) = 8
action_family (Action.show_select _) = 9
action_family (Action.show_column_values _) = 10
action_family (Action.show_table_data _ _) = 10

pub allows-family :
    (c : Context) (a : Action) → allows c (some a) ≡ true → family c ≡ action_family a
allows-family c a h = ground arith
