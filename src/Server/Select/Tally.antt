-- ===== src/Server/Select/Tally.antt =====
-- What pushes to `indexes` do to the counts of the rows.
use mathlib.Core.List.{append_assoc, append-nil}
use proyecto_estructura.Prelude.{
  ℕ, zero, suc, ◌+◌, ◌<◌, ◌≤◌, ◌≡◌, refl, sym, ap, ◌∙◌, Bool, true, false, if◌then◌else◌, some,
  List, [], ◌∷◌, ◌++◌, arith, length, length-append, get_elem?, nat_eq,
}
use proyecto_estructura.LinkedList.ListFre.{FreValue, push_count, get_count}
use proyecto_estructura.Server.Select.{push_all}

-- The entries of rows `k`, `k + 1`, … with the given counts.
abbrev pub numbered : ℕ → List ℕ → List (FreValue ℕ)
numbered k [] = []
numbered k (f ∷ fs) = record { value = k; fre = f } ∷ numbered (k + 1) fs

abbrev pub one : Bool → ℕ
one true = 1
one false = 0

-- the counts once each row that is marked was pushed
abbrev pub tally : List ℕ → List Bool → List ℕ
tally [] ms = []
tally (f ∷ fs) [] = f ∷ fs
tally (f ∷ fs) (m ∷ ms) = (f + one m) ∷ tally fs ms

pub get_count-numbered :
    (k j : ℕ) (fs : List ℕ) (rest : List (FreValue ℕ)) (f : ℕ)
    → get_elem? fs j ≡ some f
    → get_count j (numbered k fs ++ rest) ≡ some (record { value = k + j; fre = f })
unfolding get_count
get_count-numbered k j [] rest f h = ground arith
get_count-numbered k zero (g ∷ fs) rest f h = ground arith
get_count-numbered k (suc j) (g ∷ fs) rest f h =
    ground (arith, get_count-numbered (k + 1) j fs rest f h)

-- a push of a row that is not among the numbered ones
push_count-beyond :
    (k i : ℕ) (fs : List ℕ) (rest : List (FreValue ℕ))
    → k + length fs ≤ i
    → push_count i (numbered k fs ++ rest) ≡ numbered k fs ++ push_count i rest
unfolding push_count
push_count-beyond k i [] rest h = refl
push_count-beyond k i (f ∷ fs) rest h =
    ground (arith, push_count-beyond (k + 1) i fs rest (omega arith))

-- a push of the numbered row behind those of `us`
push_count-numbered :
    (k i : ℕ) (us : List ℕ) (f : ℕ) (fs : List ℕ) (rest : List (FreValue ℕ))
    → i ≡ k + length us
    → push_count i (numbered k (us ++ f ∷ fs) ++ rest) ≡ numbered k (us ++ (f + 1) ∷ fs) ++ rest
unfolding push_count
push_count-numbered k i [] f fs rest h = ground arith
push_count-numbered k i (u ∷ us) f fs rest h =
    ground (arith, push_count-numbered (k + 1) i us f fs rest (omega arith))

-- a round of the loop over the rows, at a numbered row and at another
pub push_count-marked :
    (m : Bool) (us : List ℕ) (f : ℕ) (fs : List ℕ) (rest : List (FreValue ℕ))
    → (let l = numbered 0 (us ++ f ∷ fs) ++ rest in if m then push_count (length us) l else l)
      ≡ numbered 0 (us ++ (f + one m) ∷ fs) ++ rest
push_count-marked true us f fs rest = push_count-numbered 0 (length us) us f fs rest (omega arith)
push_count-marked false us f fs rest = ap (λ n. numbered 0 (us ++ n ∷ fs) ++ rest) (omega arith)

pub push_count-rest :
    (m : Bool) (i : ℕ) (fs : List ℕ) (rest : List (FreValue ℕ))
    → length fs ≤ i
    → (let l = numbered 0 fs ++ rest in if m then push_count i l else l)
      ≡ numbered 0 fs ++ (if m then push_count i rest else rest)
push_count-rest true i fs rest h = push_count-beyond 0 i fs rest (omega arith)
push_count-rest false i fs rest h = refl

abbrev pub ones : ℕ → List ℕ
ones zero = []
ones (suc n) = 1 ∷ ones n

numbered-snoc :
    (k i : ℕ) (us : List ℕ)
    → i ≡ k + length us
    → push_count i (numbered k us) ≡ numbered k (us ++ 1 ∷ [])
unfolding push_count
numbered-snoc k i [] h = ground arith
numbered-snoc k i (u ∷ us) h = ground (arith, numbered-snoc (k + 1) i us (omega arith))

push_all-numbered :
    (n i : ℕ) (us : List ℕ)
    → i ≡ length us
    → push_all n i (numbered 0 us) ≡ numbered 0 (us ++ ones n)
unfolding push_all
push_all-numbered zero i us h = ap (numbered 0) (sym (append-nil us))
push_all-numbered (suc n) i us h =
    ap (push_all n (i + 1)) (numbered-snoc 0 i us (omega arith))
    ∙ push_all-numbered n (i + 1) (us ++ 1 ∷ []) (omega (arith, length-append us (1 ∷ [])))
    ∙ ap (numbered 0) (append_assoc us (1 ∷ []) (ones n))

-- `indexes` before the restrictions
pub push_all-ones : (n : ℕ) → push_all n 0 [] ≡ numbered 0 (ones n)
push_all-ones n = push_all-numbered n 0 [] refl

pub get_elem?-ones : (n j : ℕ) → j < n → get_elem? (ones n) j ≡ some 1
get_elem?-ones zero j h = absurd (omega arith)
get_elem?-ones (suc n) zero h = refl
get_elem?-ones (suc n) (suc j) h = get_elem?-ones n j (omega arith)

-- whether position `j` is marked
abbrev pub mark_at : List Bool → ℕ → Bool
mark_at [] j = false
mark_at (m ∷ ms) zero = m
mark_at (m ∷ ms) (suc j) = mark_at ms j

pub get_elem?-tally :
    (fs : List ℕ) (ms : List Bool) (j f : ℕ)
    → get_elem? fs j ≡ some f
    → get_elem? (tally fs ms) j ≡ some (f + one (mark_at ms j))
get_elem?-tally [] ms j f h = ground arith
get_elem?-tally (g ∷ fs) [] j f h = ground (arith, h)
get_elem?-tally (g ∷ fs) (m ∷ ms) zero f h = ground arith
get_elem?-tally (g ∷ fs) (m ∷ ms) (suc j) f h = get_elem?-tally fs ms j f h
