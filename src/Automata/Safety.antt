-- ===== src/Automata/Safety.antt =====
-- Which queries cannot make `get_action_struct` throw.
pub mod Sized
mod Step
mod Phase
use proyecto_estructura.Prelude.{
  ℕ, suc, ◌+◌, ◌≡◌, ◌≢◌, refl, Bool, true, false, not, ◌&&◌, ◌||◌, ◌==◌, if◌then◌else◌, Option,
  none, some, List, [], ◌∷◌, arith, is_some, and_left, and_right, Str, inl, inr, Option-cases, sym,
  ap, ◌∙◌,
}
use proyecto_estructura.Outcome.{
  Outcome, ok, fail, thrown, ◌>>=◌, ◌>>◌, require, require_next, value, deref, safe, safe-bind,
}
use proyecto_estructura.Serializer.Layout.{Layout}
use proyecto_estructura.Parser.Compare.{same_variant_and_value}
use proyecto_estructura.Parser.Tokens.{
  KeywordE, SymbolE, TypeE, OperatorE, NameAndSub, Identifier, Numbers, Token, operator, keyword,
  type, symbol, string, numbers, identifier, unknown, bool,
}
use proyecto_estructura.Automata.Actions.{CreateTable, Action, Value, Context}
use proyecto_estructura.Automata.State.{
  State, Window, initial, is_keyword, is_type, is_name, is_name_and_sub,
}
use proyecto_estructura.Automata.Values.{value_of_numbers, on_value}
use proyecto_estructura.Automata.Symbols.{on_symbol, on_type}
use proyecto_estructura.Automata.Keywords.{from_table, from_column, on_using, on_from, on_keyword}
use proyecto_estructura.Automata.Identifiers.{
  on_name, column_layout, insert_column, table_column, on_identifier,
}
use proyecto_estructura.Automata.Operators.{on_operator, on_unknown}
use proyecto_estructura.Automata.Run.{visit, finish, get_action_struct}
use proyecto_estructura.Automata.Scan.{view, scan, get_action_struct-scan}
use proyecto_estructura.Automata.Consistent.{allows, family, follows, holds, follows-visit}
use proyecto_estructura.Automata.Roots.{first, Rooted-first}
use proyecto_estructura.Automata.Safety.Sized.{is_sized, sized_next, phase, sized_behind, Ready}
use proyecto_estructura.Automata.Safety.Step.{safe-visit}
use proyecto_estructura.Automata.Safety.Phase.{keeps_phase, phase-visit}

-- One token further.
Ready-next :
    (n : ℕ) (q : Option Token) (p t u : Token) (s s' : State) (ts : List Token)
    → Ready s q p t
    → (n == 0) ≡ false
    → sized_next p t ≡ true
    → visit s (view n q (some p) t (u ∷ ts)) t ≡ ok s'
    → Ready s' (some p) t u
Ready-next n q p t u s s' ts r h z e =
    let w = view n q (some p) t (u ∷ ts) in
    let f : follows s s' ≡ true =
      ap (holds (follows s)) (sym e) ∙ follows-visit s w r.allowed t h in
    record {
      allowed = ground arith;
      no_select = ground (arith, r.no_select);
      in_phase = ap (keeps_phase (some p) u) (sym e) ∙ phase-visit n q p s u ts t r.in_phase h;
      sized = z;
    }

safe-scan :
    (n : ℕ) (q : Option Token) (p t : Token) (s : State) (ts : List Token)
    → (n == 0) ≡ false
    → Ready s q p t
    → is_sized (p ∷ t ∷ ts) ≡ true
    → safe (scan n q (some p) (t ∷ ts) s) ≡ true
unfolding scan is_sized
safe-scan n q p t s [] h r z =
    safe-bind (visit s (view n q (some p) t []) t) _ (safe-visit n q p s [] t r h (and_right _ _ z))
      λ s' e. refl
safe-scan n q p t s (u ∷ ts) h r z =
    safe-bind (visit s (view n q (some p) t (u ∷ ts)) t) _
      (safe-visit n q p s (u ∷ ts) t r h (and_right _ _ z))
      λ s' e.
        safe-scan (n + 1) (some p) t u s' ts (ground arith)
          (Ready-next n q p t u s s' ts r h (and_left _ _ z) e) (and_right _ _ z)

safe-using : (w : Window) → safe (on_using initial w) ≡ true
unfolding on_using is_name
safe-using w = ground arith

safe-first : (t : Token) (ts : List Token) → safe (first t ts) ≡ true
unfolding visit
safe-first (keyword KeywordE.using) ts = safe-using (view 0 none none (keyword KeywordE.using) ts)
safe-first (keyword k) ts = ground arith
safe-first (symbol t) ts = ground arith
safe-first t ts = ground arith

using_not_false : is_keyword KeywordE.using (keyword KeywordE.using) ≢ false
unfolding same_variant_and_value
using_not_false h = cc

-- the fields of `Ready` behind the first token, but for what `Rooted` says
abbrev Starts : Token → State → Type 0
Starts u s = ((family s.ctx == 9) ≡ false) × (phase s.ctx s.variant none u ≡ true)

Starts-keyword :
    (k : KeywordE) (u : Token) (ts : List Token) (s : State)
    → is_keyword KeywordE.using (keyword k) ≡ false
    → first (keyword k) (u ∷ ts) ≡ ok s
    → Starts u s
unfolding visit
Starts-keyword KeywordE.using u ts s h e = absurd (using_not_false h)
Starts-keyword k u ts s h e = (ground arith, ground arith)

Starts-first :
    (t u : Token) (ts : List Token) (s : State)
    → is_keyword KeywordE.using t ≡ false
    → first t (u ∷ ts) ≡ ok s
    → Starts u s
unfolding visit
Starts-first (keyword k) u ts s h e = Starts-keyword k u ts s h e
Starts-first (symbol k) u ts s h e = (ground arith, ground arith)
Starts-first t u ts s h e = (ground arith, ground arith)

Ready-first :
    (t u : Token) (ts : List Token) (s : State)
    → is_keyword KeywordE.using t ≡ false
    → first t (u ∷ ts) ≡ ok s
    → Ready s none t u
Ready-first t u ts s h e =
    let (c, p) = Starts-first t u ts s h e in
    record { allowed = (Rooted-first t (u ∷ ts) s e).0; no_select = c; in_phase = p; sized = refl }

safe-run :
    (t : Token) (ts : List Token)
    → is_keyword KeywordE.using t ≡ false
    → is_sized (t ∷ ts) ≡ true
    → safe (scan 0 none none (t ∷ ts) initial) ≡ true
unfolding scan
safe-run t [] h z = safe-bind (first t []) _ (safe-first t []) λ s e. refl
safe-run t (u ∷ ts) h z =
    safe-bind (first t (u ∷ ts)) _ (safe-first t (u ∷ ts))
      λ s e. safe-scan 1 none t u s ts refl (Ready-first t u ts s h e) z

safe-finish : (m : Outcome State) → safe m ≡ true → safe (m >>= finish) ≡ true
safe-finish (ok s) h = ground arith
safe-finish (fail e) h = refl
safe-finish (thrown x) h = h

-- `get_action_struct` throws nothing and reads nothing that is not there on a query whose first
-- token is not `USING` and in which a size follows every `str`. It returns an action or fails
-- with a message.
pub get_action_struct-safe :
    (t : Token) (ts : List Token)
    → is_keyword KeywordE.using t ≡ false
    → is_sized (t ∷ ts) ≡ true
    → safe (get_action_struct (t ∷ ts)) ≡ true
get_action_struct-safe t ts h z =
    rw get_action_struct-scan (safe-finish (scan 0 none none (t ∷ ts) initial) (safe-run t ts h z))
