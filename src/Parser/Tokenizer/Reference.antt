-- ===== src/Parser/Tokenizer/Reference.antt =====
-- The loops of the tokenizer end, and what they compute, byte by byte.
use mathlib.Core.List.{append_assoc, append-nil}
use proyecto_estructura.Prelude.{
  ℕ, zero, suc, ◌+◌, ◌<◌, ◌≤◌, ◌≡◌, refl, ◌==◌, if◌then◌else◌, some, List, [], ◌∷◌, ◌++◌, map,
  arith, Str, length, get_elem?, get_elem?-out, length-append,
}
use proyecto_estructura.Outcome.{Outcome, ok, ◌>>=◌}
use proyecto_estructura.Parser.Tokenizer.{
  blank, is_separator, insert_space, explicit_loop, rejoin_all, make_tokens_explicit, next_word,
  after_word, keep_word, split_loop, tokenize,
}

-- a space on both sides of each separator
unfoldable pub pad_separators : Str → Str
pad_separators [] = []
pad_separators (c ∷ s) =
    if is_separator c then b' ' ∷ c ∷ b' ' ∷ pad_separators s else c ∷ pad_separators s

-- The first word, which may be empty, and those behind it.
pub record Words : Type 0 where
  pub first : Str
  pub rest : List Str

abbrev pub cons_byte : ℕ → Words → Words
cons_byte c w =
    if c == b' '
    then record { first = []; rest = keep_word w.first w.rest }
    else record { first = c ∷ w.first; rest = w.rest }

unfoldable pub words : Str → Words
words [] = record { first = []; rest = [] }
words (c ∷ s) = cons_byte c (words s)

-- The words that are not empty.
unfoldable pub split_words : Str → List Str
split_words s = keep_word (words s).first (words s).rest

abbrev pub spaced : Str → Str
spaced s = rejoin_all (pad_separators (map blank s))

get_elem?-length : (u : Str) (c : ℕ) (v : Str) → get_elem? (u ++ c ∷ v) (length u) ≡ some c
get_elem?-length [] c v = refl
get_elem?-length (a ∷ u) c v = get_elem?-length u c v

insert_space-ok : (u v : Str) → insert_space (length u) (u ++ v) ≡ ok (u ++ b' ' ∷ v)
unfolding insert_space
insert_space-ok [] v = refl
insert_space-ok (a ∷ u) v = rw (insert_space-ok u v) refl

insert_space-second :
    (j : ℕ) (u v : Str) (c : ℕ)
    → j ≡ length u + 2
    → insert_space j (u ++ b' ' ∷ c ∷ v) ≡ ok ((u ++ b' ' ∷ c ∷ b' ' ∷ []) ++ v)
unfolding insert_space
insert_space-second j [] v c e = rw e refl
insert_space-second zero (a ∷ u) v c e = absurd (omega arith)
insert_space-second (suc j) (a ∷ u) v c e = rw (insert_space-second j u v c (omega arith)) refl

-- one round at a separator, given the rounds behind it
insert_spaces :
    (f : Str → Outcome Str) (i : ℕ) (u v w : Str) (c : ℕ)
    → i ≡ length u
    → f ((u ++ b' ' ∷ c ∷ b' ' ∷ []) ++ v) ≡ ok ((u ++ b' ' ∷ c ∷ b' ' ∷ []) ++ w)
    → (do s ← insert_space i (u ++ c ∷ v); t ← insert_space (i + 2) s; f t)
      ≡ ok (u ++ b' ' ∷ c ∷ b' ' ∷ w)
insert_spaces f i u v w c e r =
    rw
      (
        e,
        insert_space-ok u (c ∷ v),
        insert_space-second (length u + 2) u v c refl,
        r,
        append_assoc u (b' ' ∷ c ∷ b' ' ∷ []) w,
      )
      refl

explicit_loop-pad_separators :
    (n i : ℕ) (u v : Str)
    → i ≡ length u
    → length v < n
    → explicit_loop n i (u ++ v) ≡ ok (u ++ pad_separators v)
unfolding explicit_loop pad_separators
explicit_loop-pad_separators zero i u v e h = absurd (omega arith)
explicit_loop-pad_separators (suc n) i u [] e h =
    rw (append-nil u) (ground (arith, get_elem?-out u i (omega arith)))
explicit_loop-pad_separators (suc n) i u (c ∷ v) e h =
    let s = insert_spaces (explicit_loop n (i + 3)) i u v (pad_separators v) c e (
      explicit_loop-pad_separators n (i + 3) (u ++ b' ' ∷ c ∷ b' ' ∷ []) v
        (omega (arith, length-append u (b' ' ∷ c ∷ b' ' ∷ []))) (omega arith)) in
    let o =
      explicit_loop-pad_separators n (i + 1) (u ++ c ∷ []) v
        (omega (arith, length-append u (c ∷ []))) (omega arith) in
    let o' = rw (append_assoc u (c ∷ []) v, append_assoc u (c ∷ []) (pad_separators v)) at o in
    ground (arith, s, o', e, get_elem?-length u c v)

next_word-words : (s : Str) → (words s).first ≡ next_word s
unfolding words next_word
next_word-words [] = refl
next_word-words (c ∷ s) = ground (arith, next_word-words s)

after_word-words : (s : Str) → (words s).rest ≡ split_words (after_word s)
unfolding words after_word split_words
after_word-words [] = refl
after_word-words (c ∷ s) = ground (arith, after_word-words s)

after_word-shorter : (c : ℕ) (s : Str) → length (after_word (c ∷ s)) ≤ length s
unfolding after_word
after_word-shorter c [] = ground arith
after_word-shorter c (d ∷ s) = ground (arith, after_word-shorter d s)

split_loop-words : (n : ℕ) (s : Str) → length s < n → split_loop n s ≡ ok (split_words s)
unfolding split_loop split_words
split_loop-words zero s h = absurd (omega arith)
split_loop-words (suc n) [] h = unfold words in refl
split_loop-words (suc n) (c ∷ s) h = ground (
  arith,
  split_loop-words n (after_word (c ∷ s)),
  after_word-shorter c s,
  next_word-words (c ∷ s),
  after_word-words (c ∷ s),
)

pub make_tokens_explicit_lem :
    (s : Str) → make_tokens_explicit s ≡ ok (rejoin_all (pad_separators s))
unfolding make_tokens_explicit
make_tokens_explicit_lem s =
    rw (explicit_loop-pad_separators (suc (length s)) 0 [] s refl (omega arith)) refl

-- The tokenizer ends on every text, throws nothing, and answers the words of the text with its
-- tabs and newlines made spaces, a space put on both sides of each separator and the equality
-- operators joined again.
pub tokenize_lem : (s : Str) → tokenize s ≡ ok (split_words (spaced s))
unfolding tokenize
tokenize_lem s =
    rw (make_tokens_explicit_lem (map blank s))
      (split_loop-words (suc (length (spaced s))) (spaced s) (omega arith))
