-- ===== src/Server/Compare.antt =====
-- The comparisons of C++ that src/main.cpp applies to the cells of a column.
use proyecto_estructura.Prelude.{
  ◌^◌, Bool, true, false, not, ◌&&◌, ◌||◌, ◌==◌, ltb, if◌then◌else◌, [], ◌∷◌, Str, str_eq,
}
use proyecto_estructura.Prelude.Int.{int_eq}
use proyecto_estructura.Parser.Tokens.{OperatorE, Double}
use proyecto_estructura.Parser.Compare.{double_eq, bool_eq, is_nan, is_zero}
use proyecto_estructura.Column.Cast.{Cell}

-- `operator<` on strings: bytes from the left, and a proper prefix is less.
unfoldable pub str_less : Str → Str → Bool
str_less [] [] = false
str_less [] (b ∷ t) = true
str_less (a ∷ s) [] = false
str_less (a ∷ s) (b ∷ t) = let rest = str_less s t in if a == b then rest else ltb a b

-- `<` on `double`: false at a NaN; the top bit of the 64 is the sign.
unfoldable pub double_less : Double → Double → Bool
unfolding is_nan is_zero
double_less a b =
    if is_nan a || is_nan b || (is_zero a && is_zero b)
    then false
    else if ltb a.bits (2 ^ 63)
    then ltb b.bits (2 ^ 63) && ltb a.bits b.bits
    else ltb b.bits (2 ^ 63) || ltb b.bits a.bits

-- `==` and `<` on two values of one type
unfoldable pub cell_eq : Cell → Cell → Bool
unfolding str_eq int_eq double_eq bool_eq
cell_eq (Cell.u8 a) (Cell.u8 b) = a == b
cell_eq (Cell.u16 a) (Cell.u16 b) = a == b
cell_eq (Cell.u32 a) (Cell.u32 b) = a == b
cell_eq (Cell.u64 a) (Cell.u64 b) = a == b
cell_eq (Cell.str a) (Cell.str b) = str_eq a b
cell_eq (Cell.f64 a) (Cell.f64 b) = double_eq a b
cell_eq (Cell.bool a) (Cell.bool b) = bool_eq a b
cell_eq _ _ = false

unfoldable pub cell_less : Cell → Cell → Bool
unfolding str_less double_less
cell_less (Cell.u8 a) (Cell.u8 b) = ltb a b
cell_less (Cell.u16 a) (Cell.u16 b) = ltb a b
cell_less (Cell.u32 a) (Cell.u32 b) = ltb a b
cell_less (Cell.u64 a) (Cell.u64 b) = ltb a b
cell_less (Cell.str a) (Cell.str b) = str_less a b
cell_less (Cell.f64 a) (Cell.f64 b) = double_less a b
cell_less (Cell.bool a) (Cell.bool b) = not a && b
cell_less _ _ = false

-- The chain of tests of the operator; `>=` and `<=` are `>` or `==` and `<` or `==`, on doubles
-- too.
unfoldable pub compare_cells : OperatorE → Cell → Cell → Bool
unfolding cell_eq cell_less
compare_cells OperatorE.equal c v = cell_eq c v
compare_cells OperatorE.great c v = cell_less v c
compare_cells OperatorE.less c v = cell_less c v
compare_cells OperatorE.great_equal c v = cell_less v c || cell_eq c v
compare_cells OperatorE.less_equal c v = cell_less c v || cell_eq c v
compare_cells OperatorE.not_equal c v = not (cell_eq c v)
compare_cells OperatorE.and c v = false
compare_cells OperatorE.or c v = false
