-- ===== src/Automata/NameQueries.antt =====
-- `CREATE DATABASE`, `DELETE DATABASE` and `DELETE TABLE`: the queries that end in one identifier.
use proyecto_estructura.Prelude.{
  ◌≡◌, ◌↔◌, refl, ap, ◌∙◌, none, List, [], ◌∷◌, arith, inl, inr, Bool-cases, Str,
}
use proyecto_estructura.Outcome.{ok, ◌>>=◌}
use proyecto_estructura.Parser.Compare.{same_variant_and_value}
use proyecto_estructura.Parser.Tokens.{
  KeywordE, SymbolE, NameAndSub, Identifier, Token, keyword, symbol, identifier,
}
use proyecto_estructura.Automata.Actions.{Action}
use proyecto_estructura.Automata.State.{initial, is_name, is_name_and_sub}
use proyecto_estructura.Automata.Run.{visit, finish, get_action_struct}
use proyecto_estructura.Automata.Scan.{scan, get_action_struct-scan}
use proyecto_estructura.Automata.Recognize.{is_symbol-eq, is_name-eq, is_name_and_sub-eq}
use proyecto_estructura.Automata.Roots.{root_words, begins_two, get_action_struct-begins}

abbrev Runs : List Token → Action → Type 0
Runs ts a = (scan 0 none none ts initial >>= finish) ≡ ok a

-- two keywords, an identifier and `;`
abbrev pub query : KeywordE → KeywordE → Identifier → List Token
query j k i = keyword j ∷ keyword k ∷ identifier i ∷ symbol SymbolE.semicolon ∷ []

-- An accepted query of two keywords is `query`, if an identifier must follow them and `;` that.
query_of :
    (j k : KeywordE) (a : Action) (i : Identifier) (ts : List Token)
    → root_words a ≡ j ∷ k ∷ []
    → ((r : List Token)
        → Runs (keyword j ∷ keyword k ∷ r) a
        → (l : Identifier) × (t : List Token) × (r ≡ identifier l ∷ t))
    → ((l : Identifier) (r : List Token)
        → Runs (keyword j ∷ keyword k ∷ identifier l ∷ r) a
        → (l ≡ i) × (r ≡ symbol SymbolE.semicolon ∷ []))
    → get_action_struct ts ≡ ok a
    → ts ≡ query j k i
query_of j k a i ts words name end h =
    two (begins_two j k ts (rw words at (get_action_struct-begins ts a h)))
  where
    after :
        (l : Identifier) (r : List Token)
        → (l ≡ i) × (r ≡ symbol SymbolE.semicolon ∷ [])
        → keyword j ∷ keyword k ∷ identifier l ∷ r ≡ query j k i
    after l r (e, f) = cc

    third :
        (r : List Token)
        → Runs (keyword j ∷ keyword k ∷ r) a
        → (l : Identifier) × (t : List Token) × (r ≡ identifier l ∷ t)
        → keyword j ∷ keyword k ∷ r ≡ query j k i
    third r run (l, t, e) =
        ap (λ x. keyword j ∷ keyword k ∷ x) e ∙ after l t (end l t (rw e at run))

    two : (r : List Token) × (ts ≡ keyword j ∷ keyword k ∷ r) → ts ≡ query j k i
    two (r, e) =
        let run : Runs (keyword j ∷ keyword k ∷ r) a = rw get_action_struct-scan at (rw e at h) in
        e ∙ third r run (name r run)

create-name :
    (a : Action) (r : List Token)
    → Runs (keyword KeywordE.create ∷ keyword KeywordE.database ∷ r) a
    → (i : Identifier) × (t : List Token) × (r ≡ identifier i ∷ t)
unfolding scan visit same_variant_and_value
create-name a [] h = cc
create-name a (x ∷ r) h = elim (Bool-cases (is_name x)) [
  | inl e ↦ let (m, is) = is_name-eq x e in (Identifier.name m, r, ap (λ t. t ∷ r) is)
  | inr e ↦ absurd (ground arith)
]

create-semicolon :
    (n : Str) (i : Identifier) (r : List Token)
    → Runs
        (keyword KeywordE.create ∷ keyword KeywordE.database ∷ identifier i ∷ r)
        (Action.create_database n)
    → (i ≡ Identifier.name n) × (r ≡ symbol SymbolE.semicolon ∷ [])
unfolding scan visit is_name same_variant_and_value
create-semicolon n (Identifier.name m) [] h = cc
create-semicolon n (Identifier.name m) (y ∷ []) h = ground (arith, is_symbol-eq SymbolE.semicolon y)
create-semicolon n (Identifier.name m) (y ∷ z ∷ r) h =
    ground (arith, is_symbol-eq SymbolE.semicolon y)
create-semicolon n (Identifier.name_and_sub m) r h = absurd (ground arith)

delete-name :
    (a : Action) (r : List Token)
    → Runs (keyword KeywordE.delete ∷ keyword KeywordE.database ∷ r) a
    → (i : Identifier) × (t : List Token) × (r ≡ identifier i ∷ t)
unfolding scan visit same_variant_and_value
delete-name a [] h = cc
delete-name a (x ∷ r) h = elim (Bool-cases (is_name x)) [
  | inl e ↦ let (m, is) = is_name-eq x e in (Identifier.name m, r, ap (λ t. t ∷ r) is)
  | inr e ↦ absurd (ground arith)
]

delete-semicolon :
    (n : Str) (i : Identifier) (r : List Token)
    → Runs
        (keyword KeywordE.delete ∷ keyword KeywordE.database ∷ identifier i ∷ r)
        (Action.delete_database n)
    → (i ≡ Identifier.name n) × (r ≡ symbol SymbolE.semicolon ∷ [])
unfolding scan visit is_name same_variant_and_value
delete-semicolon n (Identifier.name m) [] h = cc
delete-semicolon n (Identifier.name m) (y ∷ []) h = ground (arith, is_symbol-eq SymbolE.semicolon y)
delete-semicolon n (Identifier.name m) (y ∷ z ∷ r) h =
    ground (arith, is_symbol-eq SymbolE.semicolon y)
delete-semicolon n (Identifier.name_and_sub m) r h = absurd (ground arith)

table-name :
    (a : Action) (r : List Token)
    → Runs (keyword KeywordE.delete ∷ keyword KeywordE.table ∷ r) a
    → (i : Identifier) × (t : List Token) × (r ≡ identifier i ∷ t)
unfolding scan visit same_variant_and_value
table-name a [] h = cc
table-name a (x ∷ r) h = elim (Bool-cases (is_name_and_sub x)) [
  | inl e ↦
      let (m, is) = is_name_and_sub-eq x e in (Identifier.name_and_sub m, r, ap (λ t. t ∷ r) is)
  | inr e ↦ absurd (ground arith)
]

table-semicolon :
    (n : NameAndSub) (i : Identifier) (r : List Token)
    → Runs
        (keyword KeywordE.delete ∷ keyword KeywordE.table ∷ identifier i ∷ r)
        (Action.delete_table n.name n.sub)
    → (i ≡ Identifier.name_and_sub n) × (r ≡ symbol SymbolE.semicolon ∷ [])
unfolding scan visit is_name_and_sub same_variant_and_value
table-semicolon n (Identifier.name_and_sub m) [] h = cc
table-semicolon n (Identifier.name_and_sub m) (y ∷ []) h =
    ground (arith, is_symbol-eq SymbolE.semicolon y)
table-semicolon n (Identifier.name_and_sub m) (y ∷ z ∷ r) h =
    ground (arith, is_symbol-eq SymbolE.semicolon y)
table-semicolon n (Identifier.name m) r h = absurd (ground arith)

create-runs :
    (n : Str)
    → get_action_struct (query KeywordE.create KeywordE.database (Identifier.name n))
      ≡ ok (Action.create_database n)
unfolding get_action_struct visit is_name same_variant_and_value
create-runs n = refl

delete-runs :
    (n : Str)
    → get_action_struct (query KeywordE.delete KeywordE.database (Identifier.name n))
      ≡ ok (Action.delete_database n)
unfolding get_action_struct visit is_name same_variant_and_value
delete-runs n = refl

table-runs :
    (n : NameAndSub)
    → get_action_struct (query KeywordE.delete KeywordE.table (Identifier.name_and_sub n))
      ≡ ok (Action.delete_table n.name n.sub)
unfolding get_action_struct visit is_name_and_sub same_variant_and_value
table-runs n = refl

-- The queries that create the database `n` are `CREATE DATABASE n;` and no other.
pub create_database_exact :
    (n : Str) (ts : List Token)
    → (get_action_struct ts ≡ ok (Action.create_database n))
      ↔ (ts ≡ query KeywordE.create KeywordE.database (Identifier.name n))
create_database_exact n ts = (
  query_of KeywordE.create KeywordE.database (Action.create_database n) (Identifier.name n) ts refl
      (create-name (Action.create_database n)) (create-semicolon n),
  λ e. rw e (create-runs n),
)

-- The queries that delete the database `n` are `DELETE DATABASE n;` and no other.
pub delete_database_exact :
    (n : Str) (ts : List Token)
    → (get_action_struct ts ≡ ok (Action.delete_database n))
      ↔ (ts ≡ query KeywordE.delete KeywordE.database (Identifier.name n))
delete_database_exact n ts = (
  query_of KeywordE.delete KeywordE.database (Action.delete_database n) (Identifier.name n) ts refl
      (delete-name (Action.delete_database n)) (delete-semicolon n),
  λ e. rw e (delete-runs n),
)

-- The queries that delete the table `n.sub` of the database `n.name` are `DELETE TABLE n;` and no
-- other.
delete_table_exact :
    (n : NameAndSub) (ts : List Token)
    → (get_action_struct ts ≡ ok (Action.delete_table n.name n.sub))
      ↔ (ts ≡ query KeywordE.delete KeywordE.table (Identifier.name_and_sub n))
delete_table_exact n ts = (
  query_of KeywordE.delete KeywordE.table (Action.delete_table n.name n.sub)
      (Identifier.name_and_sub n) ts refl (table-name (Action.delete_table n.name n.sub))
      (table-semicolon n),
  λ e. rw e (table-runs n),
)
