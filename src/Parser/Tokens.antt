-- ===== src/Parser/Tokens.antt =====
-- src/lib/analyzer/parser.hpp: the tokens of a query. A struct with one field is its field.
use proyecto_estructura.Prelude.{ℕ, Bool, Str}
use proyecto_estructura.Prelude.Int.{ℤ}

pub data OperatorE : Type 0 where
  and or equal great_equal less_equal not_equal less great : OperatorE

pub data KeywordE : Type 0 where
  create database table insert into values select from where_ update set delete : KeywordE
  drop pk un show databases column using : KeywordE

pub data TypeE : Type 0 where
  i8 i16 i32 i64 u8 u16 u32 u64 f64 bool str : TypeE

pub data SymbolE : Type 0 where
  coma semicolon all closing_par opening_par : SymbolE

-- An IEEE 754 binary64 as its bit pattern.
pub record Double : Type 0 where
  pub bits : ℕ

pub record NameAndSub : Type 0 where
  pub name : Str
  pub sub : Str

pub data Identifier : Type 0 where
  name : Str → Identifier
  name_and_sub : NameAndSub → Identifier

pub data Numbers : Type 0 where
  double : Double → Numbers
  int : ℤ → Numbers
  uint : ℕ → Numbers

pub data Token : Type 0 where
  operator : OperatorE → Token
  keyword : KeywordE → Token
  type : TypeE → Token
  symbol : SymbolE → Token
  string : Str → Token
  numbers : Numbers → Token
  identifier : Identifier → Token
  unknown : Str → Token
  bool : Bool → Token
