-- ===== src/Automata/SelectQuery/Complete.antt =====
-- A `SELECT` is read as its database, columns and restrictions.
use proyecto_estructura.Prelude.{ℕ, ◌+◌, ◌≡◌, refl, ap, ◌∙◌, Option, some, List, [], ◌∷◌, Str}
use proyecto_estructura.Outcome.{ok, ◌>>=◌}
use proyecto_estructura.Parser.Tokens.{KeywordE, NameAndSub, Token, keyword}
use proyecto_estructura.Automata.Actions.{Action, Context, Restriction, ShowSelect}
use proyecto_estructura.Automata.State.{is_name_and_sub}
use proyecto_estructura.Automata.Run.{visit, finish, get_action_struct}
use proyecto_estructura.Automata.Scan.{scan, get_action_struct-scan}
use proyecto_estructura.Automata.SelectQuery.Grammar.{
  column, Link, restriction_tokens, links_tokens, restrictions, Compares, AllCompare, select_tokens,
}
use proyecto_estructura.Automata.SelectQuery.Clauses.{select-scan, in_context, clauses-scan}

where-scan :
    (n : ℕ) (q p : Option Token) (c : NameAndSub) (ts : List Token) (s : ShowSelect)
    → scan n q p (keyword KeywordE.where_ ∷ column c ∷ ts) (in_context Context.where_e s)
      ≡ scan
          (n + 1)
          p
          (some (keyword KeywordE.where_))
          (column c ∷ ts)
          (in_context Context.where_e s)
unfolding scan visit is_name_and_sub
where-scan n q p c ts s = refl

-- A `SELECT` of one or more columns with one or more restrictions, each by a comparison, gives the
-- database, the columns and the restrictions in their order. Whether `AND` or `OR` stands between
-- two restrictions makes no difference to the action.
pub select_complete :
    (d : Str) (c : NameAndSub) (cs : List NameAndSub) (r : Restriction) (ls : List Link)
    → Compares r
    → AllCompare ls
    → get_action_struct (select_tokens d c cs (restriction_tokens r (links_tokens ls)))
      ≡ ok (
          Action.show_select
            (record { database = d; tables = c ∷ cs; restrictions = r ∷ restrictions ls }))
select_complete d c cs r ls h hs =
    get_action_struct-scan (select_tokens d c cs rest)
    ∙ ap (λ m. m >>= finish)
        (select-scan d c cs rest _ λ n q p.
          where-scan n q p r.column _ sel
          ∙ clauses-scan (n + 1) p (some (keyword KeywordE.where_)) sel r ls h hs)
  where
    rest : List Token
    rest = restriction_tokens r (links_tokens ls)

    sel : ShowSelect
    sel = record { database = d; tables = c ∷ cs; restrictions = [] }
