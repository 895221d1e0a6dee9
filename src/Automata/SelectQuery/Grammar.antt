-- ===== src/Automata/SelectQuery/Grammar.antt =====
-- The tokens of a `SELECT`.
use proyecto_estructura.Prelude.{◌≡◌, Bool, true, false, if◌then◌else◌, Str, List, [], ◌∷◌}
use proyecto_estructura.Parser.Tokens.{
  OperatorE, KeywordE, SymbolE, NameAndSub, Identifier, Token, operator, keyword, symbol,
  identifier,
}
use proyecto_estructura.Automata.Actions.{Restriction}
use proyecto_estructura.Automata.Recognize.{value_token}

abbrev pub column : NameAndSub → Token
column c = identifier (Identifier.name_and_sub c)

-- The columns behind the first one, each with its comma, and what follows.
unfoldable pub more_columns : List NameAndSub → List Token → List Token
more_columns [] rest = rest
more_columns (c ∷ cs) rest = symbol SymbolE.coma ∷ column c ∷ more_columns cs rest

abbrev pub is_comparison : OperatorE → Bool
is_comparison OperatorE.and = false
is_comparison OperatorE.or = false
is_comparison _ = true

-- A restriction behind `AND` or `OR`.
pub record Link : Type 0 where
  pub connective : Bool
  pub restriction : Restriction

abbrev pub connective_token : Bool → Token
connective_token b = operator (if b then OperatorE.and else OperatorE.or)

-- The tokens of a restriction, and what follows.
abbrev pub restriction_tokens : Restriction → List Token → List Token
restriction_tokens r rest = column r.column ∷ operator r.operator ∷ value_token r.value ∷ rest

-- The restrictions behind the first one, and `;`.
unfoldable pub links_tokens : List Link → List Token
links_tokens [] = symbol SymbolE.semicolon ∷ []
links_tokens (l ∷ ls) =
    connective_token l.connective ∷ restriction_tokens l.restriction (links_tokens ls)

abbrev pub restrictions : List Link → List Restriction
restrictions [] = []
restrictions (l ∷ ls) = l.restriction ∷ restrictions ls

-- Each restriction compares.
abbrev pub Compares : Restriction → Type 0
Compares r = is_comparison r.operator ≡ true

abbrev pub AllCompare : List Link → Type 0
AllCompare [] = Unit
AllCompare (l ∷ ls) = Compares l.restriction × AllCompare ls

-- `USING d SELECT c, cs...` and what follows.
unfoldable pub select_tokens : Str → NameAndSub → List NameAndSub → List Token → List Token
select_tokens d c cs rest =
    keyword KeywordE.using
    ∷ identifier (Identifier.name d)
    ∷ keyword KeywordE.select
    ∷ column c
    ∷ more_columns cs (keyword KeywordE.where_ ∷ rest)
