-- ===== src/Server/Query.antt =====
-- src/main.cpp: the steps of `resolve` from the text of a query to its action.
pub mod Safe
pub mod Printed
use proyecto_estructura.Prelude.{
  ℕ, Bool, true, false, ◌==◌, if◌then◌else◌, Option, List, [], ◌∷◌, Str, codes, str_eq,
}
use proyecto_estructura.Outcome.{Outcome, ok, ◌>>=◌, value}
use proyecto_estructura.Parser.Tokens.{Double}
use proyecto_estructura.Parser.Tokenizer.{make_tokens_explicit}
use proyecto_estructura.Parser.Parse.{parse}
use proyecto_estructura.Parser.Validate.{validate}
use proyecto_estructura.Automata.Actions.{Action}
use proyecto_estructura.Automata.Run.{get_action_struct}

-- `query.erase(0, query.find_first_not_of(' '))`
unfoldable pub trim_front : Str → Str
trim_front [] = []
trim_front (c ∷ s) = if c == b' ' then trim_front s else c ∷ s

-- `query.erase(query.find_last_not_of(' ') + 1)`
unfoldable pub trim_back : Str → Str
trim_back [] = []
trim_back (c ∷ s) = elim (trim_back s) [ [] ↦ if c == b' ' then [] else c ∷ [] | d ∷ t ↦ c ∷ d ∷ t ]

-- the text that is validated and parsed
unfoldable pub trimmed : Str → Outcome Str
trimmed q = do t ← make_tokens_explicit q; ok (trim_back (trim_front t))

-- How the steps end when nothing fails: `KILL_MSG`, "Invalid query: {}" or an action to run.
pub data Reply : Type 0 where
  stopped : Reply
  refused : Str → Reply
  answered : Action → Reply

module _ (stod : Str → Option Double) where
  unfoldable pub run_query : Str → Outcome Reply
  run_query u = do ts ← parse stod u; a ← get_action_struct ts; ok (Reply.answered a)

  -- "Invalid query: {}" or the action
  unfoldable pub check_query : Str → Outcome Reply
  check_query u = do
    v ← validate u
    if v.accepted then run_query u else (do m ← value v.message; ok (Reply.refused m))

  unfoldable pub read_query : Str → Outcome Reply
  read_query q = do
    u ← trimmed q
    if str_eq u (codes "stop") then ok Reply.stopped else check_query u
