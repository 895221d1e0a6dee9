-- ===== src/Automata/TableQuery/Grammar.antt =====
-- The queries `CREATE TABLE DATABASE.TABLE (TYPE NAME, ...);` as tokens.
use proyecto_estructura.Prelude.{
  ℕ, ◌≡◌, Bool, true, false, some, if◌then◌else◌, Str, List, [], ◌∷◌, key_eq,
}
use proyecto_estructura.LinkedList.KeyValueList
use proyecto_estructura.LinkedList.KeyValueList.{KeyValueList}
use proyecto_estructura.Serializer.Layout.{ColumnType, Layout, layout, from_parser_type}
use proyecto_estructura.Parser.Tokens.{
  KeywordE, SymbolE, TypeE, NameAndSub, Identifier, Numbers, Token, keyword, symbol, identifier,
  numbers, type,
}
use proyecto_estructura.Automata.Actions.{Action, CreateTable, Context}
use proyecto_estructura.Automata.State.{State}

-- The type of a column: one word, or `STR` and a size.
pub data Kind : Type 0 where
  word : TypeE → Kind
  text : ℕ → Kind

pub record Field : Type 0 where
  pub kind : Kind
  pub name : Str

-- `STR` is no type by itself.
abbrev pub is_word : TypeE → Bool
is_word TypeE.str = false
is_word _ = true

abbrev pub Proper : Field → Type 0
Proper f = elim f.kind [ word t ↦ is_word t ≡ true | text n ↦ Unit ]

abbrev pub AllProper : List Field → Type 0
AllProper [] = Unit
AllProper (f ∷ fs) = Proper f × AllProper fs

abbrev pub name_token : Str → Token
name_token m = identifier (Identifier.name m)

abbrev pub kind_tokens : Kind → List Token → List Token
kind_tokens (word t) rest = type t ∷ rest
kind_tokens (text n) rest = type TypeE.str ∷ numbers (Numbers.uint n) ∷ rest

-- The tokens of a column, and what follows.
abbrev pub field_tokens : Field → List Token → List Token
field_tokens f rest = kind_tokens f.kind (name_token f.name ∷ rest)

abbrev pub kind_layout : Kind → Layout
kind_layout (word t) = from_parser_type t
kind_layout (text n) = layout n ColumnType.str

abbrev pub closing : List Token
closing = symbol SymbolE.closing_par ∷ symbol SymbolE.semicolon ∷ []

-- One or more columns with a comma between them, and perhaps one behind, up to the end.
unfoldable pub fields_tokens : Field → List Field → Bool → List Token
fields_tokens f [] comma = field_tokens f (if comma then symbol SymbolE.coma ∷ closing else closing)
fields_tokens f (g ∷ fs) comma = field_tokens f (symbol SymbolE.coma ∷ fields_tokens g fs comma)

abbrev pub head_tokens : NameAndSub → List Token → List Token
head_tokens n ts =
    keyword KeywordE.create
    ∷ keyword KeywordE.table
    ∷ identifier (Identifier.name_and_sub n)
    ∷ symbol SymbolE.opening_par
    ∷ ts

abbrev pub tabling : CreateTable → State
tabling c = record { ctx = Context.create_table_e; variant = some (Action.create_table c) }

-- The columns with one more: a name that is there keeps its layout.
abbrev pub add : CreateTable → Field → CreateTable
add c f = record c { columns = (KeyValueList.insert f.name (kind_layout f.kind) c.columns).0 }

abbrev pub add_all : CreateTable → List Field → CreateTable
add_all c [] = c
add_all c (f ∷ fs) = add_all (add c f) fs

abbrev pub opened : NameAndSub → CreateTable
opened n = record { db = n.name; name = n.sub; columns = [] }

-- The whole query.
pub record TableQuery (c : CreateTable) (ts : List Token) : Type 0 where
  pub name : NameAndSub
  pub field : Field
  pub fields : List Field
  pub comma : Bool
  pub proper : AllProper (field ∷ fields)
  pub tokens : ts ≡ head_tokens name (fields_tokens field fields comma)
  pub table : c ≡ add_all (opened name) (field ∷ fields)
