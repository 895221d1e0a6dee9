-- ===== src/Automata/Safety/Phase.antt =====
-- What a visitor without an action leaves for the next token.
use proyecto_estructura.Prelude.{
  ℕ, ◌≡◌, refl, Bool, true, false, ◌==◌, Option, some, List, ◌∷◌, arith, Str,
}
use proyecto_estructura.Outcome.{Outcome, ok, fail, thrown}
use proyecto_estructura.Parser.Compare.{same_variant_and_value}
use proyecto_estructura.Parser.Tokens.{
  KeywordE, SymbolE, TypeE, OperatorE, Identifier, Token, operator, keyword, type, symbol, string,
  numbers, identifier, unknown, bool,
}
use proyecto_estructura.Automata.Actions.{Value, Context}
use proyecto_estructura.Automata.State.{State, is_keyword, is_name_and_sub}
use proyecto_estructura.Automata.Values.{value_of_numbers, on_value}
use proyecto_estructura.Automata.Symbols.{on_symbol, on_type}
use proyecto_estructura.Automata.Keywords.{on_from, on_keyword}
use proyecto_estructura.Automata.Identifiers.{insert_column, table_column, on_identifier}
use proyecto_estructura.Automata.Operators.{on_operator}
use proyecto_estructura.Automata.Run.{visit}
use proyecto_estructura.Automata.Scan.{view}
use proyecto_estructura.Automata.Safety.Sized.{phase}

abbrev pub keeps_phase : Option Token → Token → Outcome State → Bool
keeps_phase q u (ok s) = phase s.ctx s.variant q u
keeps_phase q u (fail e) = true
keeps_phase q u (thrown x) = true

module _ (n : ℕ) (q : Option Token) (p : Token) (s : State) (u : Token) (ts : List Token) where
  phase-value :
      (t : Token) (v : Value)
      → phase s.ctx s.variant q t ≡ true
      → is_keyword KeywordE.into t ≡ false
      → is_keyword KeywordE.table t ≡ false
      → is_name_and_sub t ≡ false
      → keeps_phase (some p) u (on_value s (view n q (some p) t (u ∷ ts)) v) ≡ true
  unfolding on_value
  phase-value t v r h k l = ground arith

  phase-symbol :
      (t : SymbolE)
      → phase s.ctx s.variant q (symbol t) ≡ true
      → keeps_phase (some p) u (on_symbol s (view n q (some p) (symbol t) (u ∷ ts)) t) ≡ true
  unfolding on_symbol is_name_and_sub same_variant_and_value
  phase-symbol t r = ground arith

  phase-type :
      (t : TypeE)
      → phase s.ctx s.variant q (type t) ≡ true
      → keeps_phase (some p) u (on_type s (view n q (some p) (type t) (u ∷ ts)) t) ≡ true
  unfolding on_type is_name_and_sub same_variant_and_value
  phase-type t r = ground arith

  phase-operator :
      (o : OperatorE)
      → phase s.ctx s.variant q (operator o) ≡ true
      → keeps_phase (some p) u (on_operator s (view n q (some p) (operator o) (u ∷ ts)) o) ≡ true
  unfolding on_operator is_name_and_sub same_variant_and_value
  phase-operator o r = ground arith

  phase-column :
      (m : Str)
      → phase s.ctx s.variant q (identifier (Identifier.name m)) ≡ true
      → s.ctx ≡ Context.create_table_e
      → keeps_phase
          (some p)
          u
          (table_column s (view n q (some p) (identifier (Identifier.name m)) (u ∷ ts)) m)
        ≡ true
  unfolding table_column insert_column
  phase-column m r e = ground arith

  phase-from :
      (t : Token)
      → phase s.ctx s.variant q t ≡ true
      → is_keyword KeywordE.into t ≡ false
      → is_keyword KeywordE.table t ≡ false
      → is_name_and_sub t ≡ false
      → keeps_phase (some p) u (on_from s (view n q (some p) t (u ∷ ts))) ≡ true
  unfolding on_from
  phase-from t r h k l = ground arith

  phase-identifier :
      (i : Identifier)
      → phase s.ctx s.variant q (identifier i) ≡ true
      → keeps_phase (some p) u (on_identifier s (view n q (some p) (identifier i) (u ∷ ts)) i)
        ≡ true
  unfolding on_identifier is_name_and_sub same_variant_and_value
  phase-identifier (Identifier.name m) r = ground (arith, phase-column m)
  phase-identifier (Identifier.name_and_sub m) r = ground arith

  phase-keyword :
      (k : KeywordE)
      → phase s.ctx s.variant q (keyword k) ≡ true
      → (n == 0) ≡ false
      → keeps_phase (some p) u (on_keyword s (view n q (some p) (keyword k) (u ∷ ts)) k) ≡ true
  unfolding on_keyword is_name_and_sub same_variant_and_value
  phase-keyword KeywordE.from r h = phase-from (keyword KeywordE.from) r refl refl refl
  phase-keyword k r h = ground arith

  pub phase-visit :
      (t : Token)
      → phase s.ctx s.variant q t ≡ true
      → (n == 0) ≡ false
      → keeps_phase (some p) u (visit s (view n q (some p) t (u ∷ ts)) t) ≡ true
  unfolding visit is_name_and_sub same_variant_and_value
  phase-visit (bool b) r h = phase-value (bool b) (Value.bool b) r refl refl refl
  phase-visit (string b) r h = phase-value (string b) (Value.string b) r refl refl refl
  phase-visit (numbers m) r h =
      phase-value (numbers m) (value_of_numbers m) r (ground arith) (ground arith) (ground arith)
  phase-visit (keyword k) r h = phase-keyword k r h
  phase-visit (type t) r h = phase-type t r
  phase-visit (symbol t) r h = phase-symbol t r
  phase-visit (identifier i) r h = phase-identifier i r
  phase-visit (operator o) r h = phase-operator o r
  phase-visit (unknown w) r h = refl
