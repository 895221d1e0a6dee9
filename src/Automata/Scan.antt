-- ===== src/Automata/Scan.antt =====
-- `get_action_struct` reads its tokens by index; here it is the same as a walk along the list that
-- carries the two tokens behind it.
use mathlib.Core.Path.{ap₂}
use proyecto_estructura.Prelude.{
  ℕ, zero, suc, ◌+◌, ◌-◌, ◌<◌, ◌≡◌, sym, ap, ◌∙◌, ltb, if◌then◌else◌, Bool-cases, inl, inr, Option,
  none, some, List, [], ◌∷◌, length, get_elem?, drop, head?, tail, head?-drop, tail-drop,
  get_elem?-out, get_elem?-in, drop-out, arith,
}
use proyecto_estructura.Outcome.{Outcome, ok, ◌>>=◌, bind_cong}
use proyecto_estructura.Parser.Tokens.{Token}
use proyecto_estructura.Automata.State.{State, Window, initial}
use proyecto_estructura.Automata.Run.{visit, window, loop, finish, get_action_struct}

abbrev pub view : ℕ → Option Token → Option Token → Token → List Token → Window
view n q p t ts = record {
  token_number = n;
  prevm1 = q;
  prev = p;
  curr = t;
  next = head? ts;
  nextp1 = head? (tail ts);
}

unfoldable pub scan : ℕ → Option Token → Option Token → List Token → State → Outcome State
scan n q p [] s = ok s
scan n q p (t ∷ ts) s = do s' ← visit s (view n q p t ts) t; scan (n + 1) p (some t) ts s'

prev_at : List Token → ℕ → Option Token
prev_at ts n = if ltb 0 n then get_elem? ts (n - 1) else none

prevm1_at : List Token → ℕ → Option Token
prevm1_at ts n = if ltb 1 n then get_elem? ts (n - 2) else none

prev_at-suc : (ts : List Token) (n : ℕ) → prev_at ts (n + 1) ≡ get_elem? ts n
unfolding prev_at
prev_at-suc ts n = let e : n + 1 - 1 ≡ n = omega arith in rw e (ground arith)

prevm1_at-suc : (ts : List Token) (n : ℕ) → prevm1_at ts (n + 1) ≡ prev_at ts n
unfolding prev_at prevm1_at
prevm1_at-suc ts n = let e : n + 1 - 2 ≡ n - 1 = omega arith in rw e (ground arith)

next_at :
    (ts : List Token) (n k : ℕ)
    → n < k
    → (if ltb n (length ts - 1) then get_elem? ts k else none) ≡ get_elem? ts k
next_at ts n k h = elim (Bool-cases (ltb n (length ts - 1))) [
  | inl c ↦ rw c
  | inr c ↦ rw c (sym (get_elem?-out ts k (ground arith)))
]

drop-cons :
    (ts : List Token) (n : ℕ) (t : Token)
    → get_elem? ts n ≡ some t
    → drop n ts ≡ t ∷ drop (suc n) ts
drop-cons [] n t h = cc
drop-cons (x ∷ ts) zero t h = ground arith
drop-cons (x ∷ ts) (suc n) t h = drop-cons ts n t h

drop-next :
    (ts : List Token) (n : ℕ) (t : Token)
    → get_elem? ts n ≡ some t
    → drop n ts ≡ t ∷ drop (n + 1) ts
drop-next ts n t h = let e : n + 1 ≡ suc n = omega arith in rw e (drop-cons ts n t h)

window-view :
    (ts : List Token) (n : ℕ) (t : Token)
    → window ts n t ≡ view n (prevm1_at ts n) (prev_at ts n) t (drop (n + 1) ts)
unfolding window prev_at prevm1_at
window-view ts n t = λ i. record {
  token_number = n;
  prevm1 = prevm1_at ts n;
  prev = prev_at ts n;
  curr = t;
  next = one i;
  nextp1 = two i;
}
  where
    one : (if ltb n (length ts - 1) then get_elem? ts (n + 1) else none) ≡ head? (drop (n + 1) ts)
    one = rw head?-drop (next_at ts n (n + 1) (omega arith))

    two :
        (if ltb (n + 1) (length ts - 1) then get_elem? ts (n + 2) else none)
        ≡ head? (tail (drop (n + 1) ts))
    two =
        rw (tail-drop, head?-drop)
          (next_at ts (n + 1) (n + 2) (omega arith) ∙ ap (get_elem? ts) (omega arith))

loop-scan :
    (ts : List Token) (rounds n : ℕ) (s : State)
    → rounds + n ≡ length ts
    → loop ts rounds n s ≡ scan n (prevm1_at ts n) (prev_at ts n) (drop n ts) s
unfolding loop scan
loop-scan ts zero n s h = rw (drop-out ts n (omega arith))
loop-scan ts (suc r) n s h =
    let (t, e) = get_elem?-in ts n (omega arith) in
    step t e λ s'. loop-scan ts r (n + 1) s' (omega arith)
  where
    step :
        (t : Token)
        → get_elem? ts n ≡ some t
        → ((s' : State)
            → loop ts r (n + 1) s'
              ≡ scan (n + 1) (prevm1_at ts (n + 1)) (prev_at ts (n + 1)) (drop (n + 1) ts) s')
        → loop ts (suc r) n s ≡ scan n (prevm1_at ts n) (prev_at ts n) (drop n ts) s
    step t e rest =
        rw (e, loop)
          (rw (drop-next ts n t e) (
            bind_cong (ap (λ w. visit s w t) (window-view ts n t)) λ s'.
              rest s'
              ∙ ap₂ (λ q p. scan (n + 1) q p (drop (n + 1) ts) s') (prevm1_at-suc ts n)
                  (prev_at-suc ts n ∙ e)))

-- The loop over positions is the walk along the list, for every query: the window of
-- `get_action_struct` holds the two tokens before and the two behind the current one, where the
-- query has them.
pub get_action_struct-scan :
    (ts : List Token) → get_action_struct ts ≡ (scan 0 none none ts initial >>= finish)
unfolding get_action_struct prev_at prevm1_at
get_action_struct-scan ts =
    ap (λ m. m >>= finish) (loop-scan ts (length ts) 0 initial (omega arith))
