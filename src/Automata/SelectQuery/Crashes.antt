-- ===== src/Automata/SelectQuery/Crashes.antt =====
-- `SELECT` queries that make `get_action_struct` throw.
use proyecto_estructura.Prelude.{ℕ, ◌≡◌, refl, ap, ◌∙◌, true, Option, List, [], ◌∷◌, Str}
use proyecto_estructura.Outcome.{thrown, bad_optional_access, bad_variant_access, ◌>>=◌}
use proyecto_estructura.Parser.Tokens.{KeywordE, NameAndSub, Token, keyword}
use proyecto_estructura.Automata.Actions.{Value, Context, ShowSelect}
use proyecto_estructura.Automata.State.{is_name_and_sub}
use proyecto_estructura.Automata.Values.{on_value}
use proyecto_estructura.Automata.Run.{visit, finish, get_action_struct}
use proyecto_estructura.Automata.Scan.{scan, get_action_struct-scan}
use proyecto_estructura.Automata.Recognize.{value_token}
use proyecto_estructura.Automata.InsertQuery.Grammar.{visit-value}
use proyecto_estructura.Automata.SelectQuery.Grammar.{column, select_tokens}
use proyecto_estructura.Automata.SelectQuery.Clauses.{select-scan, in_context, ends_value}

where_end-scan :
    (n : ℕ) (q p : Option Token) (s : ShowSelect)
    → scan n q p (keyword KeywordE.where_ ∷ []) (in_context Context.where_e s)
      ≡ thrown bad_optional_access
unfolding scan visit
where_end-scan n q p s = refl

-- A `SELECT` that stops at `WHERE` calls `value()` of an empty optional, whatever the database and
-- the columns.
pub select-where-throws :
    (d : Str) (c : NameAndSub) (cs : List NameAndSub)
    → get_action_struct (select_tokens d c cs []) ≡ thrown bad_optional_access
select-where-throws d c cs =
    get_action_struct-scan (select_tokens d c cs [])
    ∙ ap (λ m. m >>= finish) (select-scan d c cs [] _ λ n q p. where_end-scan n q p _)

value-scan :
    (n : ℕ) (q p : Option Token) (x : NameAndSub) (v : Value) (t : Token) (ts : List Token)
    (s : ShowSelect)
    → ends_value t ≡ true
    → scan n q p
        (keyword KeywordE.where_ ∷ column x ∷ value_token v ∷ t ∷ ts)
        (in_context Context.where_e s)
      ≡ thrown bad_variant_access
unfolding scan visit on_value is_name_and_sub
value-scan n q p x v t ts s e = rw (visit-value, e)

-- A restriction with no operator between its column and its value takes the column for an
-- operator, and `std::get` throws.
pub select-value-throws :
    (d : Str) (c : NameAndSub) (cs : List NameAndSub) (x : NameAndSub) (v : Value) (t : Token)
    (ts : List Token)
    → ends_value t ≡ true
    → get_action_struct (select_tokens d c cs (column x ∷ value_token v ∷ t ∷ ts))
      ≡ thrown bad_variant_access
select-value-throws d c cs x v t ts e =
    get_action_struct-scan (select_tokens d c cs (column x ∷ value_token v ∷ t ∷ ts))
    ∙ ap (λ m. m >>= finish) (select-scan d c cs _ _ λ n q p. value-scan n q p x v t ts _ e)
