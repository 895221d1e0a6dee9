-- ===== src/Parser/Tokenizer.antt =====
-- src/lib/analyzer/tokenizer.cpp: `tokenize` and `make_tokens_explicit`.
pub mod Reference
pub mod Bytes
pub mod Rejoin
pub mod Lexemes
pub mod Plain
pub mod Spelled
use proyecto_estructura.Prelude.{
  ℕ, zero, suc, ◌+◌, Bool, true, false, ◌&&◌, ◌||◌, ◌==◌, if◌then◌else◌, none, some, List, [], ◌∷◌,
  ◌++◌, map, Str, length, get_elem?,
}
use proyecto_estructura.Outcome.{Outcome, ok, thrown, ◌>>=◌, out_of_range, diverges}

-- `if (c == '\t' || c == '\n') c = ' ';`
abbrev pub blank : ℕ → ℕ
blank c = if c == b'\t' || c == b'\n' then b' ' else c

abbrev pub is_separator : ℕ → Bool
is_separator c =
    c == b'='
    || c == b'!'
    || c == b'<'
    || c == b'>'
    || c == b'('
    || c == b')'
    || c == b','
    || c == b';'

-- `str.insert(i, " ")`
unfoldable pub insert_space : ℕ → Str → Outcome Str
insert_space zero s = ok (b' ' ∷ s)
insert_space (suc i) [] = thrown out_of_range
insert_space (suc i) (c ∷ s) = do t ← insert_space i s; ok (c ∷ t)

-- `for (size_t i = 0; i < str.size(); i++)`, by the rounds that are left
unfoldable pub explicit_loop : ℕ → ℕ → Str → Outcome Str
explicit_loop zero i s = thrown diverges
explicit_loop (suc rounds) i s = elim (get_elem? s i) [
  | none ↦ ok s
  | some c ↦ elim (is_separator c) [
    | true ↦ (do t ← insert_space i s; u ← insert_space (i + 2) t; explicit_loop rounds (i + 3) u)
    | false ↦ explicit_loop rounds (i + 1) s
  ]
]

-- `regex_replace(str, regex("c  ="), "c=")`
unfoldable pub rejoin : ℕ → Str → Str
rejoin c (a ∷ x ∷ y ∷ e ∷ s) = elim (a == c && x == b' ' && y == b' ' && e == b'=') [
  | true ↦ c ∷ b'=' ∷ rejoin c s
  | false ↦ a ∷ rejoin c (x ∷ y ∷ e ∷ s)
]
rejoin c s = s

abbrev pub rejoin_all : Str → Str
rejoin_all s = rejoin b'>' (rejoin b'<' (rejoin b'!' (rejoin b'=' s)))

unfoldable pub make_tokens_explicit : Str → Outcome Str
make_tokens_explicit s = do t ← explicit_loop (suc (length s)) 0 s; ok (rejoin_all t)

-- the inner `while`: the bytes before the next space
unfoldable pub next_word : Str → Str
next_word [] = []
next_word (c ∷ s) = if c == b' ' then [] else c ∷ next_word s

-- the string from `i` on after the inner `while` and its `i++`
unfoldable pub after_word : Str → Str
after_word [] = []
after_word (c ∷ s) = if c == b' ' then s else after_word s

-- `if (!token.empty()) resultado.push_back(token);`
abbrev pub keep_word : Str → List Str → List Str
keep_word [] ts = ts
keep_word (c ∷ w) ts = (c ∷ w) ∷ ts

-- `while (i < str.size())`, on the string from `i` on
unfoldable pub split_loop : ℕ → Str → Outcome (List Str)
unfolding next_word after_word
split_loop zero s = thrown diverges
split_loop (suc rounds) [] = ok []
split_loop (suc rounds) (c ∷ s) = do
  ts ← split_loop rounds (after_word (c ∷ s))
  ok (keep_word (next_word (c ∷ s)) ts)

unfoldable pub tokenize : Str → Outcome (List Str)
tokenize s = do t ← make_tokens_explicit (map blank s); split_loop (suc (length t)) t
