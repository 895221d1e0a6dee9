-- ===== src/Automata/SelectQuery/Clauses.antt =====
-- The run of `get_action_struct` along a `SELECT`.
use mathlib.Core.List.{append_assoc}
use proyecto_estructura.Prelude.{
  ℕ, ◌+◌, ◌≡◌, refl, ap, ◌∙◌, Bool, true, false, ◌||◌, Option, none, some, List, [], ◌∷◌, ◌++◌,
  arith, Str,
}
use proyecto_estructura.Outcome.{Outcome, ok}
use proyecto_estructura.Parser.Compare.{same_variant_and_value}
use proyecto_estructura.Parser.Tokens.{
  OperatorE, KeywordE, SymbolE, NameAndSub, Identifier, Token, operator, keyword, symbol,
  identifier,
}
use proyecto_estructura.Automata.Actions.{Action, Value, Context, Restriction, ShowSelect}
use proyecto_estructura.Automata.State.{
  State, Window, initial, is_symbol, is_operator, is_name_and_sub, is_name,
}
use proyecto_estructura.Automata.Values.{on_value}
use proyecto_estructura.Automata.Operators.{comparison, where_operator}
use proyecto_estructura.Automata.Run.{visit}
use proyecto_estructura.Automata.Scan.{scan}
use proyecto_estructura.Automata.Recognize.{value_token, is_literal-value_token}
use proyecto_estructura.Automata.InsertQuery.Grammar.{visit-value}
use proyecto_estructura.Automata.SelectQuery.Grammar.{
  column, more_columns, is_comparison, Link, connective_token, restriction_tokens, links_tokens,
  restrictions, Compares, AllCompare, select_tokens,
}

abbrev pub in_context : Context → ShowSelect → State
in_context c sel = record { ctx = c; variant = some (Action.show_select sel) }

abbrev pub add_tables : ShowSelect → List NameAndSub → ShowSelect
add_tables sel cs = record sel { tables = sel.tables ++ cs }

abbrev pub add_restrictions : ShowSelect → List Restriction → ShowSelect
add_restrictions sel rs = record sel { restrictions = sel.restrictions ++ rs }

-- Whatever becomes of `WHERE` and the rest, with all columns taken in.
pub columns-scan :
    (rest : List Token) (out : Outcome State) (n : ℕ) (q p : Option Token) (sel : ShowSelect)
    (c : NameAndSub) (cs : List NameAndSub)
    → ((n : ℕ) (q p : Option Token)
        → scan n q p
            (keyword KeywordE.where_ ∷ rest)
            (in_context Context.where_e (add_tables sel (c ∷ cs)))
          ≡ out)
    → scan n q p
        (column c ∷ more_columns cs (keyword KeywordE.where_ ∷ rest))
        (in_context Context.select_e sel)
      ≡ out
unfolding scan visit more_columns same_variant_and_value
columns-scan rest out n q p sel c [] k = k (n + 1) p (some (column c))
columns-scan rest out n q p sel c (d ∷ cs) k =
    columns-scan rest out (n + 1 + 1) (some (column c)) (some (symbol SymbolE.coma))
      (add_tables sel (c ∷ [])) d cs
      λ m u t.
        ap
          (λ l.
            scan m u t (keyword KeywordE.where_ ∷ rest)
              (in_context Context.where_e (record sel { tables = l })))
          (append_assoc sel.tables (c ∷ []) (d ∷ cs))
        ∙ k m u t

where_operator-comparison :
    (s : State) (w : Window) (o : OperatorE)
    → is_comparison o ≡ true
    → where_operator s w o ≡ comparison s w
unfolding where_operator
where_operator-comparison s w o h = ground arith

-- `;`, `AND` or `OR`
abbrev pub ends_value : Token → Bool
ends_value t =
    is_symbol SymbolE.semicolon t || is_operator OperatorE.and t || is_operator OperatorE.or t

restriction-scan :
    (n : ℕ) (q p : Option Token) (sel : ShowSelect) (r : Restriction) (t : Token) (ts : List Token)
    → Compares r
    → ends_value t ≡ true
    → scan n q p (restriction_tokens r (t ∷ ts)) (in_context Context.where_e sel)
      ≡ scan
          (n + 1 + 1 + 1)
          (some (operator r.operator))
          (some (value_token r.value))
          (t ∷ ts)
          (in_context Context.where_e (add_restrictions sel (r ∷ [])))
unfolding scan visit on_value comparison is_name_and_sub
restriction-scan n q p sel r t ts h e =
    rw (where_operator-comparison _ _ r.operator h, is_literal-value_token r.value, visit-value, e)

connective-scan :
    (n : ℕ) (q : Option Token) (sel : ShowSelect) (v : Value) (b : Bool) (c : NameAndSub)
    (ts : List Token)
    → scan n q
        (some (value_token v))
        (connective_token b ∷ column c ∷ ts)
        (in_context Context.where_e sel)
      ≡ scan
          (n + 1)
          (some (value_token v))
          (some (connective_token b))
          (column c ∷ ts)
          (in_context Context.where_e sel)
unfolding scan visit is_name_and_sub
connective-scan n q sel v true c ts = rw is_literal-value_token
connective-scan n q sel v false c ts = rw is_literal-value_token

ends-connective : (b : Bool) → ends_value (connective_token b) ≡ true
unfolding same_variant_and_value
ends-connective b = ground arith

pub clauses-scan :
    (n : ℕ) (q p : Option Token) (sel : ShowSelect) (r : Restriction) (ls : List Link)
    → Compares r
    → AllCompare ls
    → scan n q p (restriction_tokens r (links_tokens ls)) (in_context Context.where_e sel)
      ≡ ok (in_context Context.where_e (add_restrictions sel (r ∷ restrictions ls)))
unfolding links_tokens
clauses-scan n q p sel r [] h hs =
    restriction-scan n q p sel r (symbol SymbolE.semicolon) [] h
      (unfold same_variant_and_value in refl)
    ∙ (unfold scan visit in refl)
clauses-scan n q p sel r (l ∷ ls) h hs =
    restriction-scan n q p sel r (connective_token l.connective)
      (restriction_tokens l.restriction (links_tokens ls)) h (ends-connective l.connective)
    ∙ connective-scan (n + 1 + 1 + 1) (some (operator r.operator)) (add_restrictions sel (r ∷ []))
        r.value l.connective l.restriction.column _
    ∙ clauses-scan (n + 1 + 1 + 1 + 1) (some (value_token r.value))
        (some (connective_token l.connective)) (add_restrictions sel (r ∷ [])) l.restriction ls hs.0
        hs.1
    ∙ ap (λ rs. ok (in_context Context.where_e (record sel { restrictions = rs })))
        (append_assoc sel.restrictions (r ∷ []) (l.restriction ∷ restrictions ls))

abbrev selected : Str → ShowSelect
selected d = record { database = d; tables = []; restrictions = [] }

-- up to the first column
pub select-scan :
    (d : Str) (c : NameAndSub) (cs : List NameAndSub) (rest : List Token) (out : Outcome State)
    → ((n : ℕ) (q p : Option Token)
        → scan n q p (keyword KeywordE.where_ ∷ rest) (
            in_context Context.where_e
              (record { database = d; tables = c ∷ cs; restrictions = [] }))
          ≡ out)
    → scan 0 none none (select_tokens d c cs rest) initial ≡ out
unfolding scan visit select_tokens is_name is_name_and_sub same_variant_and_value
select-scan d c cs rest out k =
    columns-scan rest out 3 (some (identifier (Identifier.name d))) (some (keyword KeywordE.select))
      (selected d) c cs k
