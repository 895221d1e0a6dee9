-- ===== src/Parser/Compare.antt =====
-- src/lib/analyzer/parser.cpp: comparison of tokens.
use proyecto_estructura.Prelude.{
  ℕ, ◌*◌, ◌^◌, ◌%◌, Bool, true, false, not, ◌&&◌, ◌||◌, ◌==◌, ltb, if◌then◌else◌, List, [], ◌∷◌,
  str_eq,
}
use proyecto_estructura.Outcome.{Outcome, ok, thrown, undefined_behaviour}
use proyecto_estructura.Prelude.Int.{int_eq}
use proyecto_estructura.Parser.Tokens.{
  OperatorE, KeywordE, TypeE, SymbolE, Double, Identifier, Numbers, Token,
}

-- The enumerators as the numbers that C++ gives them.
abbrev pub operator_index : OperatorE → ℕ
operator_index OperatorE.and = 0
operator_index OperatorE.or = 1
operator_index OperatorE.equal = 2
operator_index OperatorE.great_equal = 3
operator_index OperatorE.less_equal = 4
operator_index OperatorE.not_equal = 5
operator_index OperatorE.less = 6
operator_index OperatorE.great = 7

abbrev pub keyword_index : KeywordE → ℕ
keyword_index KeywordE.create = 0
keyword_index KeywordE.database = 1
keyword_index KeywordE.table = 2
keyword_index KeywordE.insert = 3
keyword_index KeywordE.into = 4
keyword_index KeywordE.values = 5
keyword_index KeywordE.select = 6
keyword_index KeywordE.from = 7
keyword_index KeywordE.where_ = 8
keyword_index KeywordE.update = 9
keyword_index KeywordE.set = 10
keyword_index KeywordE.delete = 11
keyword_index KeywordE.drop = 12
keyword_index KeywordE.pk = 13
keyword_index KeywordE.un = 14
keyword_index KeywordE.show = 15
keyword_index KeywordE.databases = 16
keyword_index KeywordE.column = 17
keyword_index KeywordE.using = 18

abbrev pub type_index : TypeE → ℕ
type_index TypeE.i8 = 0
type_index TypeE.i16 = 1
type_index TypeE.i32 = 2
type_index TypeE.i64 = 3
type_index TypeE.u8 = 4
type_index TypeE.u16 = 5
type_index TypeE.u32 = 6
type_index TypeE.u64 = 7
type_index TypeE.f64 = 8
type_index TypeE.bool = 9
type_index TypeE.str = 10

abbrev pub symbol_index : SymbolE → ℕ
symbol_index SymbolE.coma = 0
symbol_index SymbolE.semicolon = 1
symbol_index SymbolE.all = 2
symbol_index SymbolE.closing_par = 3
symbol_index SymbolE.opening_par = 4

-- `==` on `double`: false at a NaN, and the two zeros are equal.
unfoldable pub is_nan : Double → Bool
is_nan d = ltb (2047 * 2 ^ 52) (d.bits % 2 ^ 63)

unfoldable pub is_zero : Double → Bool
is_zero d = d.bits % 2 ^ 63 == 0

unfoldable pub double_eq : Double → Double → Bool
unfolding is_nan is_zero
double_eq a b =
    if is_nan a || is_nan b then false else (is_zero a && is_zero b) || (a.bits == b.bits)

unfoldable pub bool_eq : Bool → Bool → Bool
bool_eq true b = b
bool_eq false b = not b

unfoldable pub same_variant : Token → Token → Bool
same_variant (Token.operator a) (Token.operator b) = true
same_variant (Token.type a) (Token.type b) = true
same_variant (Token.keyword a) (Token.keyword b) = true
same_variant (Token.symbol a) (Token.symbol b) = true
same_variant (Token.string a) (Token.string b) = true
same_variant (Token.bool a) (Token.bool b) = true
same_variant (Token.unknown a) (Token.unknown b) = true
same_variant (Token.identifier (Identifier.name a)) (Token.identifier (Identifier.name b)) = true
same_variant (Token.identifier (Identifier.name_and_sub a))
      (Token.identifier (Identifier.name_and_sub b)) =
    true
same_variant (Token.numbers (Numbers.int a)) (Token.numbers (Numbers.int b)) = true
same_variant (Token.numbers (Numbers.double a)) (Token.numbers (Numbers.double b)) = true
same_variant (Token.numbers (Numbers.uint a)) (Token.numbers (Numbers.uint b)) = true
same_variant _ _ = false

unfoldable pub same_variant_and_value : Token → Token → Bool
unfolding str_eq int_eq double_eq bool_eq
same_variant_and_value (Token.operator a) (Token.operator b) = operator_index a == operator_index b
same_variant_and_value (Token.type a) (Token.type b) = type_index a == type_index b
same_variant_and_value (Token.keyword a) (Token.keyword b) = keyword_index a == keyword_index b
same_variant_and_value (Token.symbol a) (Token.symbol b) = symbol_index a == symbol_index b
same_variant_and_value (Token.string a) (Token.string b) = str_eq a b
same_variant_and_value (Token.bool a) (Token.bool b) = bool_eq a b
same_variant_and_value (Token.unknown a) (Token.unknown b) = str_eq a b
same_variant_and_value (Token.identifier (Identifier.name a))
      (Token.identifier (Identifier.name b)) =
    str_eq a b
same_variant_and_value (Token.identifier (Identifier.name_and_sub a))
      (Token.identifier (Identifier.name_and_sub b)) =
    str_eq a.name b.name && str_eq a.sub b.sub
same_variant_and_value (Token.numbers (Numbers.int a)) (Token.numbers (Numbers.int b)) = int_eq a b
same_variant_and_value (Token.numbers (Numbers.double a)) (Token.numbers (Numbers.double b)) =
    double_eq a b
same_variant_and_value (Token.numbers (Numbers.uint a)) (Token.numbers (Numbers.uint b)) = a == b
same_variant_and_value _ _ = false

-- `operator==` of token vectors runs over `left.size()` positions; `right[i]` past the end of
-- `right` is undefined behaviour.
unfoldable pub tokens_eq : List Token → List Token → Outcome Bool
unfolding same_variant_and_value
tokens_eq [] right = ok true
tokens_eq (a ∷ left) [] = thrown undefined_behaviour
tokens_eq (a ∷ left) (b ∷ right) =
    let rest = tokens_eq left right in if same_variant_and_value a b then rest else ok false
