-- ===== src/Tests/Queries.antt =====
-- Concrete queries.
use proyecto_estructura.Prelude.{◌≡◌, ◌↔◌, refl, true, false, none, [], ◌∷◌, codes, key_eq, nat_eq}
use proyecto_estructura.Outcome.{ok, thrown, safe, bad_optional_access, bad_variant_access, ◌>>=◌}
use proyecto_estructura.LinkedList.KeyValueList.{KeyValueList, pair, get, insert_update, insert}
use proyecto_estructura.Parser.Tokens.{
  OperatorE, KeywordE, SymbolE, Identifier, Numbers, keyword, symbol, numbers,
}
use proyecto_estructura.Serializer.Layout.{ColumnType, layout}
use proyecto_estructura.Automata.Actions.{Action, Value, Restriction}
use proyecto_estructura.Automata.State.{initial, is_name_and_sub, is_literal, is_name, is_type}
use proyecto_estructura.Automata.Run.{get_action_struct, finish, visit}
use proyecto_estructura.Parser.Compare.{same_variant_and_value}
use proyecto_estructura.Automata.Scan.{scan, get_action_struct-scan}
use proyecto_estructura.Automata.Roots.{begins, get_action_struct-begins}
use proyecto_estructura.Automata.Safety.{get_action_struct-safe}
use proyecto_estructura.Automata.Safety.Sized.{is_sized}
use proyecto_estructura.Automata.InsertQuery.Grammar.{InsertQuery}
use proyecto_estructura.Automata.InsertQuery.Exact.{insert_exact}
use proyecto_estructura.Automata.NameQueries.{query, create_database_exact, delete_database_exact}
use proyecto_estructura.Automata.SelectQuery.Grammar.{
  column, Link, select_tokens, restriction_tokens, links_tokens,
}
use proyecto_estructura.Automata.SelectQuery.Complete.{select_complete}
use proyecto_estructura.Automata.SelectQuery.Crashes.{select-where-throws, select-value-throws}
use proyecto_estructura.LinkedList.KeyValueList
use proyecto_estructura.LinkedList.KeyValueList.{update, delete_key}
use proyecto_estructura.Parser.Compare.{tokens_eq}
use proyecto_estructura.Parser.Equality.{tokens_eq_prefix}
use proyecto_estructura.Serializer.Layout.{from_parser_type}
use proyecto_estructura.Automata.Actions.{CreateTable}
use proyecto_estructura.Automata.TableQuery.Grammar.{TableQuery}
use proyecto_estructura.Automata.TableQuery.Exact.{create_table_exact}
use proyecto_estructura.Prelude.{length, drop, ◌++◌, str_eq}
use proyecto_estructura.Tests.Data.{shop, fruits, insertion, inserted, words}

insertion-runs : get_action_struct insertion ≡ ok (Action.insert inserted)
unfolding get_action_struct visit same_variant_and_value is_name_and_sub is_literal
insertion-runs = refl

insert_exact_example :
    (get_action_struct insertion ≡ ok (Action.insert inserted)) ↔ InsertQuery inserted insertion
insert_exact_example = insert_exact inserted insertion

get_action_struct-begins_example : begins (KeywordE.insert ∷ KeywordE.into ∷ []) insertion ≡ true
get_action_struct-begins_example =
    get_action_struct-begins insertion (Action.insert inserted) insertion-runs

get_action_struct-scan_example :
    get_action_struct insertion ≡ (scan 0 none none insertion initial >>= finish)
get_action_struct-scan_example = get_action_struct-scan insertion

get_action_struct-safe_example :
    safe (get_action_struct (keyword KeywordE.create ∷ keyword KeywordE.table ∷ words)) ≡ true
get_action_struct-safe_example =
    get_action_struct-safe (keyword KeywordE.create) (keyword KeywordE.table ∷ words)
      (unfold same_variant_and_value in refl) (unfold is_sized same_variant_and_value in refl)

create_database_exact_example :
    (get_action_struct (query KeywordE.create KeywordE.database (Identifier.name shop))
      ≡ ok (Action.create_database shop))
    ↔ (query KeywordE.create KeywordE.database (Identifier.name shop)
        ≡ query KeywordE.create KeywordE.database (Identifier.name shop))
create_database_exact_example =
    create_database_exact shop (query KeywordE.create KeywordE.database (Identifier.name shop))

delete_database_exact_example :
    (get_action_struct insertion ≡ ok (Action.delete_database shop))
    ↔ (insertion ≡ query KeywordE.delete KeywordE.database (Identifier.name shop))
delete_database_exact_example = delete_database_exact shop insertion

-- `fruits.price < 7`
abbrev cheap : Restriction
cheap = record { column = fruits; operator = OperatorE.less; value = Value.uint 7 }

abbrev or_cheap : Link
or_cheap = record { connective = false; restriction = cheap }

select_complete_example :
    get_action_struct
      (select_tokens shop fruits [] (restriction_tokens cheap (links_tokens (or_cheap ∷ []))))
    ≡ ok (
        Action.show_select
          (record { database = shop; tables = fruits ∷ []; restrictions = cheap ∷ cheap ∷ [] }))
select_complete_example = select_complete shop fruits [] cheap (or_cheap ∷ []) refl (refl, tt)

select-where-throws_example :
    get_action_struct (select_tokens shop fruits (fruits ∷ []) []) ≡ thrown bad_optional_access
select-where-throws_example = select-where-throws shop fruits (fruits ∷ [])

select-value-throws_example :
    get_action_struct (
      select_tokens shop fruits []
        (column fruits ∷ numbers (Numbers.uint 7) ∷ symbol SymbolE.semicolon ∷ []))
    ≡ thrown bad_variant_access
select-value-throws_example =
    select-value-throws shop fruits [] fruits (Value.uint 7) (symbol SymbolE.semicolon) []
      (unfold same_variant_and_value in refl)

abbrev created : CreateTable
created = record {
  db = codes "fruits";
  name = codes "price";
  columns =
      pair shop (layout 7 ColumnType.str) ∷ pair (codes "fruits") (layout 1 ColumnType.u8) ∷ [];
}

create_table_exact_example :
    (get_action_struct (keyword KeywordE.create ∷ keyword KeywordE.table ∷ words)
      ≡ ok (Action.create_table created))
    ↔ TableQuery created (keyword KeywordE.create ∷ keyword KeywordE.table ∷ words)
create_table_exact_example =
    create_table_exact created (keyword KeywordE.create ∷ keyword KeywordE.table ∷ words)
      (unfold is_sized same_variant_and_value in refl)

creation-runs :
    get_action_struct (keyword KeywordE.create ∷ keyword KeywordE.table ∷ words)
    ≡ ok (Action.create_table created)
unfolding get_action_struct visit same_variant_and_value is_name_and_sub is_literal is_name is_type
    from_parser_type KeyValueList.insert str_eq
creation-runs = refl

tokens_eq_prefix_example :
    (tokens_eq words insertion ≡ ok true) ↔ (insertion ≡ words ++ drop (length words) insertion)
tokens_eq_prefix_example = tokens_eq_prefix words insertion refl
