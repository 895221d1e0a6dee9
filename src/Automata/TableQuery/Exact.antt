-- ===== src/Automata/TableQuery/Exact.antt =====
-- `get_action_struct` accepts exactly the `CREATE TABLE` queries of the grammar.
use proyecto_estructura.Prelude.{
  ◌+◌, ◌≡◌, ◌↔◌, inl, inr, refl, ap, ◌∙◌, true, Bool-cases, none, some, List, [], ◌∷◌, arith,
  key_eq, length,
}
use proyecto_estructura.Outcome.{ok, ◌>>=◌}
use proyecto_estructura.Parser.Compare.{same_variant_and_value}
use proyecto_estructura.Parser.Tokens.{
  KeywordE, SymbolE, TypeE, NameAndSub, Identifier, Token, keyword, symbol, identifier, type,
}
use proyecto_estructura.Automata.Actions.{Action, CreateTable}
use proyecto_estructura.Automata.State.{initial, is_symbol, is_name, is_name_and_sub, is_type}
use proyecto_estructura.Automata.Run.{visit, finish, get_action_struct}
use proyecto_estructura.Automata.Scan.{scan, get_action_struct-scan}
use proyecto_estructura.Automata.Recognize.{is_symbol-eq, is_name_and_sub-eq, is_type-eq}
use proyecto_estructura.Automata.Roots.{begins_two, get_action_struct-begins}
use proyecto_estructura.Automata.Safety.Sized.{is_sized}
use proyecto_estructura.Automata.TableQuery.Grammar.{head_tokens, tabling, opened, TableQuery}
use proyecto_estructura.Automata.TableQuery.Steps.{fields-scan, open-fields}
use proyecto_estructura.Automata.TableQuery.Columns.{Sound, is_sized-tail, columns-Sound}

abbrev Opens : Action → List Token → Type 0
Opens a ts =
    (scan 0 none none (keyword KeywordE.create ∷ keyword KeywordE.table ∷ ts) initial >>= finish)
    ≡ ok a

Opens-name :
    (a : Action) (ts : List Token)
    → Opens a ts
    → (n : NameAndSub) × (r : List Token) × (ts ≡ identifier (Identifier.name_and_sub n) ∷ r)
unfolding scan visit same_variant_and_value
Opens-name a [] h = cc
Opens-name a (x ∷ r) h = elim (Bool-cases (is_name_and_sub x)) [
  | inl e ↦ let (n, is) = is_name_and_sub-eq x e in (n, r, ap (λ t. t ∷ r) is)
  | inr e ↦ absurd (ground arith)
]

Opens-par :
    (a : Action) (n : NameAndSub) (ts : List Token)
    → Opens a (identifier (Identifier.name_and_sub n) ∷ ts)
    → (r : List Token) × (ts ≡ symbol SymbolE.opening_par ∷ r)
unfolding scan visit is_name_and_sub
Opens-par a n [] h = absurd (ground arith)
Opens-par a n (x ∷ r) h = elim (Bool-cases (is_symbol SymbolE.opening_par x)) [
  | inl e ↦ (r, ap (λ t. t ∷ r) (is_symbol-eq SymbolE.opening_par x e))
  | inr e ↦ absurd (ground arith)
]

Opens-type :
    (a : Action) (n : NameAndSub) (ts : List Token)
    → Opens a (identifier (Identifier.name_and_sub n) ∷ symbol SymbolE.opening_par ∷ ts)
    → (t : TypeE) × (r : List Token) × (ts ≡ type t ∷ r)
unfolding scan visit is_name_and_sub
Opens-type a n [] h = absurd (ground arith)
Opens-type a n (x ∷ r) h = elim (Bool-cases (is_type x)) [
  | inl e ↦ let (t, is) = is_type-eq x e in (t, r, ap (λ t. t ∷ r) is)
  | inr e ↦ absurd (ground arith)
]

opening-scan :
    (m : NameAndSub) (t : TypeE) (ts : List Token)
    → scan 0 none none (head_tokens m (type t ∷ ts)) initial
      ≡ scan 4
          (some (identifier (Identifier.name_and_sub m)))
          (some (symbol SymbolE.opening_par))
          (type t ∷ ts)
          (tabling (opened m))
unfolding scan visit is_name_and_sub is_name is_type same_variant_and_value
opening-scan m t ts = refl

create_table-injective : (c d : CreateTable) → Action.create_table c ≡ Action.create_table d → c ≡ d
create_table-injective c d h = cc

query_of :
    (c : CreateTable) (m : NameAndSub) (ts r : List Token)
    → ts ≡ head_tokens m r
    → Sound (opened m) (Action.create_table c) r
    → TableQuery c ts
query_of c m ts r e s = record {
  name = m;
  field = s.field;
  fields = s.fields;
  comma = s.comma;
  proper = s.proper;
  tokens = e ∙ ap (head_tokens m) s.tokens;
  table = create_table-injective c _ s.result;
}

opened-TableQuery :
    (c : CreateTable) (r : List Token)
    → is_sized r ≡ true
    → Opens (Action.create_table c) r
    → TableQuery c (keyword KeywordE.create ∷ keyword KeywordE.table ∷ r)
opened-TableQuery c r z h =
    let a = Action.create_table c in
    let (m, r1, e1) = Opens-name a r h in
    let h1 = rw e1 at h in
    let (r2, e2) = Opens-par a m r1 h1 in
    let h2 = rw e2 at h1 in
    let (t, r3, e3) = Opens-type a m r2 h2 in
    let z3 = rw e3 at (is_sized-tail _ r2 (rw e2 at (is_sized-tail _ r1 (rw e1 at z)))) in
    let e =
      e1
      ∙ ap (λ l. identifier (Identifier.name_and_sub m) ∷ l)
          (e2 ∙ ap (λ l. symbol SymbolE.opening_par ∷ l) e3) in
    query_of c m _ (type t ∷ r3) (ap (λ l. keyword KeywordE.create ∷ keyword KeywordE.table ∷ l) e)
      (columns-Sound (length r3 + 1) 4 _ _ (opened m) a t r3 (omega arith) z3
        (rw opening-scan at (rw e3 at h2)))

get_action_struct-TableQuery :
    (c : CreateTable) (ts : List Token)
    → is_sized ts ≡ true
    → get_action_struct ts ≡ ok (Action.create_table c)
    → TableQuery c ts
get_action_struct-TableQuery c ts z h =
    let (r, e) =
      begins_two KeywordE.create KeywordE.table ts
        (get_action_struct-begins ts (Action.create_table c) h) in
    rw e (
      opened-TableQuery c r (is_sized-tail _ r (is_sized-tail _ _ (rw e at z)))
        (rw get_action_struct-scan at (rw e at h)))

TableQuery-get_action_struct :
    (c : CreateTable) (ts : List Token)
    → TableQuery c ts
    → get_action_struct ts ≡ ok (Action.create_table c)
TableQuery-get_action_struct c ts query = rw (
  query.tokens,
  get_action_struct-scan,
  open-fields,
  fields-scan _ _ _ _ query.field query.fields query.comma query.proper,
  query.table,
)

-- Of the queries in which a size follows every `STR`, `get_action_struct` takes exactly those of the
-- grammar `TableQuery` for the creation of a table: `CREATE TABLE`, a name with a member, and in
-- parentheses one or more columns, each a type (or `STR` and a size) and a name, with a comma
-- between them and perhaps one behind, then `;` and nothing more. The table has the columns in their
-- order with the layouts of their types; of columns with one name the first counts.
pub create_table_exact :
    (c : CreateTable) (ts : List Token)
    → is_sized ts ≡ true
    → (get_action_struct ts ≡ ok (Action.create_table c)) ↔ TableQuery c ts
create_table_exact c ts z = (get_action_struct-TableQuery c ts z, TableQuery-get_action_struct c ts)
