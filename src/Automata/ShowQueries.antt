-- ===== src/Automata/ShowQueries.antt =====
-- `SHOW DATABASES`.
use proyecto_estructura.Prelude.{◌≡◌, ◌↔◌, refl, none, List, [], ◌∷◌, arith, ap, ◌∙◌}
use proyecto_estructura.Outcome.{ok, ◌>>=◌}
use proyecto_estructura.Parser.Compare.{same_variant_and_value}
use proyecto_estructura.Parser.Tokens.{KeywordE, SymbolE, Token, keyword, symbol}
use proyecto_estructura.Automata.Actions.{Action}
use proyecto_estructura.Automata.State.{initial}
use proyecto_estructura.Automata.Run.{visit, finish, get_action_struct}
use proyecto_estructura.Automata.Scan.{scan, get_action_struct-scan}
use proyecto_estructura.Automata.Recognize.{is_symbol-eq}
use proyecto_estructura.Automata.Roots.{begins_two, get_action_struct-begins}

abbrev pub show_databases_tokens : List Token → List Token
show_databases_tokens r = keyword KeywordE.show ∷ keyword KeywordE.databases ∷ r

show_databases-end :
    (r : List Token)
    → (scan 0 none none (show_databases_tokens r) initial >>= finish) ≡ ok Action.show_databases
    → r ≡ symbol SymbolE.semicolon ∷ []
unfolding scan visit same_variant_and_value
show_databases-end [] h = absurd (ground arith)
show_databases-end (x ∷ []) h = ground (arith, is_symbol-eq SymbolE.semicolon x)
show_databases-end (x ∷ y ∷ r) h = ground (arith, is_symbol-eq SymbolE.semicolon x)

show_databases-run :
    get_action_struct (show_databases_tokens (symbol SymbolE.semicolon ∷ []))
    ≡ ok Action.show_databases
unfolding get_action_struct visit same_variant_and_value
show_databases-run = refl

-- The query that shows the databases is `SHOW DATABASES;` and no other.
show_databases_exact :
    (ts : List Token)
    → (get_action_struct ts ≡ ok Action.show_databases)
      ↔ (ts ≡ show_databases_tokens (symbol SymbolE.semicolon ∷ []))
show_databases_exact ts = (
  λ h.
      let (r, e) =
        begins_two KeywordE.show KeywordE.databases ts
          (get_action_struct-begins ts Action.show_databases h) in
      e
      ∙ ap show_databases_tokens (show_databases-end r (rw get_action_struct-scan at (rw e at h))),
  λ e. rw e show_databases-run,
)
