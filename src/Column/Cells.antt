-- ===== src/Column/Cells.antt =====
-- The cells of a column file, one for each width, and how `decode` reads them.
use mathlib.Core.Bool.{false≢true}
use proyecto_estructura.Prelude.{
  both_true, ℕ, zero, suc, ◌+◌, ◌-◌, ◌*◌, ◌<◌, ◌≤◌, ◌≡◌, ◌↔◌, refl, sym, ap, ◌∙◌, true, false, ◌&&◌,
  ◌==◌, List, [], ◌∷◌, length, drop, arith, inl, inr, Bool-cases, and_left, and_right,
}
use proyecto_estructura.Outcome.{Outcome, ok, fail, thrown, fails, safe, ◌>>=◌}
use proyecto_estructura.Serializer.Layout.{ColumnType}
use proyecto_estructura.Column.Cast.{Cell}
use proyecto_estructura.Column.Codec.{Bincode, take, deserialize}
use proyecto_estructura.Column.File.{decode}

safe-cons :
    (m : Outcome Cell) (n : Outcome (List Cell))
    → fails m ≡ false
    → safe (do c ← m; cs ← n; ok (c ∷ cs)) ≡ (safe m && safe n)
safe-cons (ok c) (ok cs) h = refl
safe-cons (ok c) (fail e) h = refl
safe-cons (ok c) (thrown x) h = refl
safe-cons (fail e) n h = absurd (false≢true (sym h))
safe-cons (thrown x) n h = refl

length-drop : (n : ℕ) (xs : List ℕ) → length (drop n xs) ≡ length xs - n
length-drop zero xs = omega arith
length-drop (suc n) [] = omega arith
length-drop (suc n) (x ∷ xs) = omega (arith, length-drop n xs)

drop_none : (n : ℕ) → drop {A = ℕ} n [] ≡ []
drop_none zero = refl
drop_none (suc n) = refl

drop_path : {n m : ℕ} (xs : List ℕ) → n ≡ m → drop n xs ≡ drop m xs
drop_path xs e = ap (λ k. drop k xs) e

drop-drop : (n m : ℕ) (xs : List ℕ) → drop n (drop m xs) ≡ drop (m + n) xs
drop-drop n zero xs = drop_path xs (omega arith)
drop-drop n (suc m) [] = drop_none n ∙ sym (drop_none (suc m + n))
drop-drop n (suc m) (x ∷ xs) =
    let e : suc (m + n) ≡ suc m + n = omega arith in drop-drop n m xs ∙ drop_path (x ∷ xs) e

times-suc : (i w : ℕ) → w + i * w ≡ suc i * w
times-suc i w = ground arith

module _ (b : Bincode) (t : ColumnType) (w : ℕ) where
  -- the bytes of the cell `i`, when it is there, are read without an abort
  abbrev pub Reads : List ℕ → ℕ → Type 0
  Reads contents i =
      i * w < length contents → safe (deserialize b t (take w (drop (i * w) contents))) ≡ true

  Reads-zero :
      (contents : List ℕ)
      → 0 < length contents
      → Reads contents 0 ↔ (safe (deserialize b t (take w contents)) ≡ true)
  Reads-zero contents h =
      let z : 0 * w ≡ 0 = omega arith in
      let e : drop (0 * w) contents ≡ contents = drop_path contents z in
      (
        λ r. sym (ap (λ xs. safe (deserialize b t (take w xs))) e) ∙ r (omega (arith, h, z)),
        λ k _. ap (λ xs. safe (deserialize b t (take w xs))) e ∙ k,
      )

  Reads-suc : (contents : List ℕ) (i : ℕ) → Reads contents (suc i) ↔ Reads (drop w contents) i
  Reads-suc contents i =
      let e : drop (i * w) (drop w contents) ≡ drop (suc i * w) contents =
        drop-drop (i * w) w contents ∙ drop_path contents (times-suc i w) in
      let n = length-drop w contents in
      (
        λ r h.
            ap (λ xs. safe (deserialize b t (take w xs))) e
            ∙ r (omega (arith, h, n, times-suc i w)),
        λ r h.
            sym (ap (λ xs. safe (deserialize b t (take w xs))) e)
            ∙ r (omega (arith, h, n, times-suc i w)),
      )

  from_first :
      (contents : List ℕ)
      → 0 < length contents
      → safe (deserialize b t (take w contents)) ≡ true
      → ((i : ℕ) → Reads (drop w contents) i)
      → (i : ℕ) → Reads contents i
  from_first contents h k r zero = (Reads-zero contents h).1 k
  from_first contents h k r (suc i) = (Reads-suc contents i).1 (r i)

  module _ (f : (xs : List ℕ) → fails (deserialize b t xs) ≡ false) (p : 0 < w) where
    decode-suc :
        (n : ℕ) (contents : List ℕ)
        → (length contents == 0) ≡ false
        → safe (decode b (suc n) t w contents)
          ≡ (safe (deserialize b t (take w contents)) && safe (decode b n t w (drop w contents)))
    unfolding decode
    decode-suc n contents h = rw h (
        safe-cons (deserialize b t (take w contents)) (decode b n t w (drop w contents))
          (f (take w contents)))

    pub decode-Reads :
        (n : ℕ) (contents : List ℕ)
        → length contents ≤ n
        → (safe (decode b n t w contents) ≡ true) ↔ ((i : ℕ) → Reads contents i)
    unfolding decode
    decode-Reads zero contents h = (λ _ i k. absurd (omega (arith, h, k)), λ _. refl)
    decode-Reads (suc n) contents h = elim (Bool-cases (length contents == 0)) [
      | inl e ↦ (λ _ i k. absurd (ground (arith, e, k)), λ _. rw e refl)
      | inr e ↦
          let some_left : 0 < length contents = ground (arith, e) in
          let first = safe (deserialize b t (take w contents)) in
          let rest = safe (decode b n t w (drop w contents)) in
          let (there, back) =
            decode-Reads n (drop w contents)
              (omega (arith, length-drop w contents, h, p, some_left)) in
          let both : safe (decode b (suc n) t w contents) ≡ (first && rest) =
            decode-suc n contents e in
          (
            λ k i.
                let k' : (first && rest) ≡ true = sym both ∙ k in
                from_first contents some_left (and_left first rest k')
                  (there (and_right first rest k')) i,
            λ r.
                both
                ∙ both_true ((Reads-zero contents some_left).0 (r 0))
                    (back λ i. (Reads-suc contents i).0 (r (suc i))),
          )
    ]
