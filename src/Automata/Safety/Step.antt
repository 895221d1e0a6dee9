-- ===== src/Automata/Safety/Step.antt =====
-- No visitor throws on a state that is ready for its token.
use proyecto_estructura.Prelude.{
  ◌∷◌, ℕ, ◌≡◌, refl, true, false, ◌==◌, Option, none, some, List, arith, is_some, Str, inl, inr,
  Option-cases,
}
use proyecto_estructura.Outcome.{safe}
use proyecto_estructura.Serializer.Layout.{Layout}
use proyecto_estructura.Parser.Compare.{same_variant_and_value}
use proyecto_estructura.Parser.Tokens.{
  KeywordE, SymbolE, TypeE, OperatorE, Identifier, Token, operator, keyword, type, symbol, string,
  numbers, identifier, unknown, bool,
}
use proyecto_estructura.Automata.Actions.{CreateTable, Action, Value}
use proyecto_estructura.Automata.State.{
  State, Window, is_keyword, is_type, is_name, is_name_and_sub,
}
use proyecto_estructura.Automata.Values.{value_of_numbers, on_value}
use proyecto_estructura.Automata.Symbols.{on_symbol, on_type}
use proyecto_estructura.Automata.Keywords.{from_table, from_column, on_from, on_keyword}
use proyecto_estructura.Automata.Identifiers.{
  on_name, column_layout, insert_column, table_column, on_identifier,
}
use proyecto_estructura.Automata.Operators.{on_operator}
use proyecto_estructura.Automata.Run.{visit}
use proyecto_estructura.Automata.Scan.{view}
use proyecto_estructura.Automata.Safety.Sized.{is_sized, sized_behind, Ready}

module _ (n : ℕ) (q : Option Token) (p : Token) (s : State) (ts : List Token) where
  safe-operator :
      (o : OperatorE)
      → Ready s q p (operator o)
      → safe (on_operator s (view n q (some p) (operator o) ts) o) ≡ true
  unfolding on_operator
  safe-operator o r = ground arith

  safe-value :
      (t : Token) (v : Value)
      → Ready s q p t
      → is_keyword KeywordE.into t ≡ false
      → is_name_and_sub t ≡ false
      → safe (on_value s (view n q (some p) t ts) v) ≡ true
  unfolding on_value
  safe-value t v r h k = ground arith

  safe-symbol : (t : SymbolE) → safe (on_symbol s (view n q (some p) (symbol t) ts) t) ≡ true
  unfolding on_symbol
  safe-symbol t = ground arith

  -- the message for a `STR` with no name behind it prints its size, which is there
  safe-type :
      (t : TypeE)
      → is_sized (type t ∷ ts) ≡ true
      → safe (on_type s (view n q (some p) (type t) ts) t) ≡ true
  unfolding on_type is_sized same_variant_and_value
  safe-type t z = ground arith

  safe-layout :
      (t : Token)
      → sized_behind q p ≡ true
      → is_some q ≡ true
      → safe (column_layout (view n q (some p) t ts)) ≡ true
  unfolding column_layout is_type
  safe-layout t h k = ground arith

  safe-from_table :
      (w : Window) (t : Token) → is_name_and_sub t ≡ true → safe (from_table s w t) ≡ true
  unfolding from_table is_name_and_sub
  safe-from_table w t h = ground arith

  safe-from_column : (w : Window) (t : Token) → is_name t ≡ true → safe (from_column s w t) ≡ true
  unfolding from_column is_name is_name_and_sub
  safe-from_column w t h = ground arith

  safe-from : (w : Window) → safe (on_from s w) ≡ true
  unfolding on_from
  safe-from w = elim (Option-cases w.next) [
    | inl e ↦ ground arith
    | inr (t, e) ↦ ground (arith, safe-from_table w t, safe-from_column w t)
  ]

  safe-insert_column :
      (m : Str) (l : Layout) (c : CreateTable)
      → s.variant ≡ some (Action.create_table c)
      → safe (insert_column s m l) ≡ true
  unfolding insert_column
  safe-insert_column m l c h = ground arith

  safe-table_column :
      (m : Str) (t : Token) (c : CreateTable)
      → sized_behind q p ≡ true
      → is_some q ≡ true
      → s.variant ≡ some (Action.create_table c)
      → safe (table_column s (view n q (some p) t ts) m) ≡ true
  unfolding table_column
  safe-table_column m t c h k e = ground (arith, safe-layout t h k, safe-insert_column m _ c e)

  safe-name :
      (m : Str) (a : Option Action)
      → s.variant ≡ a
      → Ready s q p (identifier (Identifier.name m))
      → safe (on_name s (view n q (some p) (identifier (Identifier.name m)) ts) m) ≡ true
  unfolding on_name is_name_and_sub same_variant_and_value
  safe-name m none e r = ground arith
  safe-name m (some (Action.create_table c)) e r =
      ground (arith, safe-table_column m (identifier (Identifier.name m)) c)
  safe-name m (some a) e r = ground arith

  safe-identifier :
      (i : Identifier)
      → Ready s q p (identifier i)
      → safe (on_identifier s (view n q (some p) (identifier i) ts) i) ≡ true
  unfolding on_identifier is_name_and_sub same_variant_and_value
  safe-identifier (Identifier.name m) r = ground (arith, safe-name m s.variant refl r)
  safe-identifier (Identifier.name_and_sub m) r = ground arith

  safe-keyword :
      (k : KeywordE)
      → Ready s q p (keyword k)
      → (n == 0) ≡ false
      → safe (on_keyword s (view n q (some p) (keyword k) ts) k) ≡ true
  unfolding on_keyword is_name_and_sub is_name same_variant_and_value
  safe-keyword KeywordE.from r h =
      ground (arith, safe-from (view n q (some p) (keyword KeywordE.from) ts))
  safe-keyword k r h = ground arith

  pub safe-visit :
      (t : Token)
      → Ready s q p t
      → (n == 0) ≡ false
      → is_sized (t ∷ ts) ≡ true
      → safe (visit s (view n q (some p) t ts) t) ≡ true
  unfolding visit is_name_and_sub same_variant_and_value
  safe-visit (bool b) r h z = safe-value (bool b) (Value.bool b) r refl refl
  safe-visit (string b) r h z = safe-value (string b) (Value.string b) r refl refl
  safe-visit (numbers m) r h z =
      safe-value (numbers m) (value_of_numbers m) r (ground arith) (ground arith)
  safe-visit (keyword k) r h z = safe-keyword k r h
  safe-visit (type t) r h z = safe-type t z
  safe-visit (symbol t) r h z = safe-symbol t
  safe-visit (identifier i) r h z = safe-identifier i r
  safe-visit (operator o) r h z = safe-operator o r
  safe-visit (unknown u) r h z = refl
