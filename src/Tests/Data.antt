-- ===== src/Tests/Data.antt =====
-- Queries of the tests.
use proyecto_estructura.Prelude.{List, [], ◌∷◌, Str, codes, key_eq, nat_eq}
use proyecto_estructura.Parser.Tokens.{
  KeywordE, SymbolE, TypeE, NameAndSub, Identifier, Numbers, Token, keyword, symbol, identifier,
  numbers, string, type,
}
use proyecto_estructura.Automata.Actions.{Value, Insert}

abbrev pub shop : Str
shop = codes "shop"

abbrev pub fruits : NameAndSub
fruits = record { name = codes "fruits"; sub = codes "price" }

abbrev pub insertion : List Token
insertion =
    keyword KeywordE.insert
    ∷ keyword KeywordE.into
    ∷ identifier (Identifier.name_and_sub fruits)
    ∷ symbol SymbolE.opening_par
    ∷ numbers (Numbers.uint 7)
    ∷ symbol SymbolE.coma
    ∷ string (codes "pear")
    ∷ symbol SymbolE.coma
    ∷ symbol SymbolE.closing_par
    ∷ symbol SymbolE.semicolon
    ∷ []

abbrev pub inserted : Insert
inserted = record {
  database = codes "fruits";
  table = codes "price";
  values = Value.uint 7 ∷ Value.string (codes "pear") ∷ [];
}

-- `CREATE TABLE fruits.price (STR 7 shop, U8 fruits);` behind its first two words
abbrev pub words : List Token
words =
    identifier (Identifier.name_and_sub fruits)
    ∷ symbol SymbolE.opening_par
    ∷ type TypeE.str
    ∷ numbers (Numbers.uint 7)
    ∷ identifier (Identifier.name shop)
    ∷ symbol SymbolE.coma
    ∷ type TypeE.u8
    ∷ identifier (Identifier.name (codes "fruits"))
    ∷ symbol SymbolE.closing_par
    ∷ symbol SymbolE.semicolon
    ∷ []
