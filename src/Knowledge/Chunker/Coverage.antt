-- ===== src/Knowledge/Chunker/Coverage.antt =====
-- How the windows of pkg/knowledge/ingestion/chunker.go lie in the text.
use ragivka.Prelude.{
  ℕ, zero, suc, ◌+◌, ◌≤◌, ◌<◌, ◌≡◌, refl, ap, sym, ◌∙◌, Bool, true, false, List, [], ◌∷◌, ◌++◌,
  length, take, drop, ltb, ◌==◌, if◌then◌else◌, Bool-cases, inl, inr, arith, take-append-drop,
  length-drop,
}
use ragivka.Knowledge.Chunker.{Chunk, slice, window_end, windows}

module _ {ℓ} {R : Type ℓ} where
  take_all : (n : ℕ) (xs : List R) → length xs ≤ n → take n xs ≡ xs
  take_all zero [] h = refl
  take_all zero (x ∷ xs) h = absurd (omega arith)
  take_all (suc n) [] h = refl
  take_all (suc n) (x ∷ xs) h = ap (λ l. x ∷ l) (take_all n xs (omega arith))

  take-take : (n m : ℕ) (xs : List R) → n ≤ m → take n (take m xs) ≡ take n xs
  take-take zero m xs h = refl
  take-take (suc n) zero xs h = absurd (omega arith)
  take-take (suc n) (suc m) [] h = refl
  take-take (suc n) (suc m) (x ∷ xs) h = ap (λ l. x ∷ l) (take-take n m xs (omega arith))

  drop-nil : (n : ℕ) → ◌≡◌ {A = List R} (drop n []) []
  drop-nil zero = refl
  drop-nil (suc n) = refl

  drop-drop : (n m : ℕ) (xs : List R) → drop m (drop n xs) ≡ drop (n + m) xs
  drop-drop zero m xs = ap (λ k. drop k xs) (omega arith)
  drop-drop (suc n) m [] = drop-nil m ∙ sym (drop-nil (suc n + m))
  drop-drop (suc n) m (x ∷ xs) =
      let next : suc n + m ≡ suc (n + m) = omega arith in
      drop-drop n m xs ∙ sym (ap (λ k. drop k (x ∷ xs)) next)

  abbrev pub is_nil : List (Chunk R) → Bool
  is_nil [] = true
  is_nil (c ∷ rest) = false

  -- Each window but the last gives its first `step` runes, the last one all of them.
  abbrev pub stitched : ℕ → List (Chunk R) → List R
  stitched step [] = []
  stitched step (c ∷ rest) =
      if is_nil rest then c.content else take step c.content ++ stitched step rest

  last_window :
      (size start : ℕ) (text : List R)
      → window_end size start text ≡ length text
      → slice start (window_end size start text) text ≡ drop start text
  last_window size start text h =
      take_all _ (drop start text) (omega (arith, length-drop start text))

  full_window :
      (size step start : ℕ) (text : List R)
      → step ≤ size
      → (window_end size start text == length text) ≡ false
      → take step (slice start (window_end size start text) text) ≡ take step (drop start text)
  full_window size step start text le h = take-take step _ (drop start text) (ground arith)

  windows_more :
      (fuel size step start index : ℕ) (text : List R)
      → length text ≤ start + fuel
      → start < length text
      → is_nil (windows fuel size step start index text) ≡ false
  unfolding windows
  windows_more zero size step start index text enough more = absurd (omega arith)
  windows_more (suc fuel) size step start index text enough more =
      let here : ltb start (length text) ≡ true = ground arith in rw here refl

  pub windows-stitched :
      (fuel size step start index : ℕ) (text : List R)
      → length text ≤ start + fuel
      → start < length text
      → 0 < step
      → step ≤ size
      → stitched step (windows fuel size step start index text) ≡ drop start text
  unfolding windows
  windows-stitched zero size step start index text enough more moves le = absurd (omega arith)
  windows-stitched (suc fuel) size step start index text enough more moves le =
      let here : ltb start (length text) ≡ true = ground arith in
      elim (Bool-cases (window_end size start text == length text)) [
        | inl e ↦ rw (here, e) (last_window size start text (ground arith))
        | inr e ↦
            let ih =
              windows-stitched fuel size step (start + step) (index + 1) text (omega arith)
                (ground arith) moves le in
            let next =
              windows_more fuel size step (start + step) (index + 1) text (omega arith)
                (ground arith) in
            let first = full_window size step start text le e in
            rw (here, e)
              (rw next (
                ap
                  (λ l. l ++ stitched step (windows fuel size step (start + step) (index + 1) text))
                  first
                ∙ ap (λ l. take step (drop start text) ++ l) (ih ∙ sym (drop-drop start step text))
                ∙ take-append-drop step (drop start text)))
      ]
