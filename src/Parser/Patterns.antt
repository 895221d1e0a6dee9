-- ===== src/Parser/Patterns.antt =====
-- The regular expressions that src/lib/analyzer/parser.cpp and tokenizer.cpp match a whole token
-- with, and what they read of it.
use proyecto_estructura.Prelude.{
  ℕ, ◌+◌, ◌*◌, ◌-◌, Bool, true, false, not, ◌&&◌, ◌||◌, ◌==◌, leb, if◌then◌else◌, Option, none,
  some, [], ◌∷◌, Str,
}
use proyecto_estructura.Parser.Tokens.{NameAndSub}

abbrev pub is_digit : ℕ → Bool
is_digit c = leb b'0' c && leb c b'9'

-- `[a-zA-Z_]`
abbrev pub is_letter : ℕ → Bool
is_letter c = (leb b'a' c && leb c b'z') || (leb b'A' c && leb c b'Z') || c == b'_'

-- `[0-9]*`
abbrev pub all_digits : Str → Bool
all_digits [] = true
all_digits (c ∷ s) = is_digit c && all_digits s

-- `[0-9]+`
unfoldable pub is_digits : Str → Bool
is_digits [] = false
is_digits (c ∷ s) = all_digits (c ∷ s)

-- `[a-zA-Z0-9_]*`
abbrev pub all_word : Str → Bool
all_word [] = true
all_word (c ∷ s) = (is_letter c || is_digit c) && all_word s

-- `[a-zA-Z_][a-zA-Z0-9_]*`
unfoldable pub is_name_text : Str → Bool
is_name_text [] = false
is_name_text (c ∷ s) = is_letter c && all_word s

-- the text behind `[+-]?`
unfoldable pub unsigned : Str → Str
unsigned [] = []
unsigned (c ∷ s) = if c == b'+' || c == b'-' then s else c ∷ s

-- `[+-]?[0-9]+`
unfoldable pub is_integer : Str → Bool
unfolding is_digits unsigned
is_integer s = is_digits (unsigned s)

-- The text before the first '.' and the text behind it, when there is one.
unfoldable pub split_dot : Str → Option NameAndSub
split_dot [] = none
split_dot (c ∷ s) =
    let rest = split_dot s in
    if c == b'.'
    then some (record { name = []; sub = s })
    else elim rest [ none ↦ none | some p ↦ some (record p { name = c ∷ p.name }) ]

-- `([a-zA-Z_][a-zA-Z0-9_]*)(\.([a-zA-Z_][a-zA-Z0-9_]*))`, and its two parts
unfoldable pub split_name : Str → Option NameAndSub
unfolding is_name_text split_dot
split_name s = elim (split_dot s) [
  | none ↦ none
  | some p ↦ if is_name_text p.name && is_name_text p.sub then some p else none
]

-- `(?=.)([+-]?([0-9]+)(\.([0-9]+))?)`
unfoldable pub is_decimal : Str → Bool
unfolding is_digits unsigned split_dot
is_decimal s = elim (split_dot (unsigned s)) [
  | none ↦ is_digits (unsigned s)
  | some p ↦ is_digits p.name && is_digits p.sub
]

-- `.*"`, where `.` is any byte but a line end
unfoldable pub closes : Str → Bool
closes [] = false
closes (c ∷ []) = c == b'"'
closes (c ∷ d ∷ s) = not (c == b'\n' || c == b'\r') && closes (d ∷ s)

-- `".*"`
unfoldable pub is_quoted : Str → Bool
unfolding closes
is_quoted [] = false
is_quoted (c ∷ s) = c == b'"' && closes s

-- `erase(remove(begin(), end(), '"'), end())`
unfoldable pub unquote : Str → Str
unquote [] = []
unquote (c ∷ s) = if c == b'"' then unquote s else c ∷ unquote s

-- `str[0-9]+`, and the digits
unfoldable pub str_digits : Str → Option Str
unfolding is_digits
str_digits (s ∷ t ∷ r ∷ ds) =
    if s == b's' && t == b't' && r == b'r' && is_digits ds then some ds else none
str_digits _ = none

-- the number that decimal digits write, behind the number `n` read before them
unfoldable pub read_decimal : ℕ → Str → ℕ
read_decimal n [] = n
read_decimal n (c ∷ s) = read_decimal (10 * n + (c - b'0')) s
