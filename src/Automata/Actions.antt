-- ===== src/Automata/Actions.antt =====
-- src/lib/analyzer/automata.hpp: the actions that a query asks for.
use proyecto_estructura.Prelude.{ℕ, Bool, Str, List}
use proyecto_estructura.Prelude.Int.{ℤ}
use proyecto_estructura.LinkedList.KeyValueList.{KeyValueList}
use proyecto_estructura.Serializer.Layout.{Layout}
use proyecto_estructura.Parser.Tokens.{OperatorE, Double, NameAndSub}

-- `std::variant<String, UInt, Int, Double, Bool>`
pub data Value : Type 0 where
  string : Str → Value
  uint : ℕ → Value
  int : ℤ → Value
  double : Double → Value
  bool : Bool → Value

pub record CreateTable : Type 0 where
  pub db : Str
  pub name : Str
  pub columns : KeyValueList Str Layout

pub record Insert : Type 0 where
  pub database : Str
  pub table : Str
  pub values : List Value

-- A restriction of a `WHERE` clause.
pub record Restriction : Type 0 where
  pub column : NameAndSub
  pub operator : OperatorE
  pub value : Value

-- `Show_Select`
pub record ShowSelect : Type 0 where
  pub database : Str
  pub tables : List NameAndSub
  pub restrictions : List Restriction

pub record ShowColumnValues : Type 0 where
  pub database : Str
  pub table : Str
  pub column : Str

pub data Action : Type 0 where
  create_database : Str → Action
  create_table : CreateTable → Action
  delete_database : Str → Action
  -- database and table
  delete_table : Str → Str → Action
  show_database : Str → Action
  -- database and table
  show_table : Str → Str → Action
  show_databases : Action
  insert : Insert → Action
  show_column_values : ShowColumnValues → Action
  -- database and table
  show_table_data : Str → Str → Action
  show_select : ShowSelect → Action

pub data Context : Type 0 where
  create_database_e create_table_e where_e delete_database_e delete_table_e : Context
  show_database_e show_table_e show_databases_e insert_e select_e : Context
  show_column_values_e show_table_data_e unknown : Context
