-- ===== src/Knowledge/Chunker/Bounds.antt =====
-- How large the windows of pkg/knowledge/ingestion/chunker.go are, and how they are numbered.
use ragivka.Prelude.{
  ℕ, zero, suc, ◌+◌, ◌-◌, ◌/◌, ◌≤◌, ◌<◌, ◌≡◌, refl, true, List, [], ◌∷◌, length, drop, ltb, ◌==◌, ℤ,
  pos, negsuc, is_positive, to_nat, nat_sub, Bool-cases, inl, inr, arith, length-take, length-drop,
}
use ragivka.Knowledge.Chunker.{
  ChunkConfig, Chunk, checked, step_of, window_end, window, windows, chunk,
}
use ragivka.Knowledge.Chunker.Coverage.{stitched, windows-stitched}

-- Overlaps are not negative.
abbrev pub HasOverlap : ChunkConfig → Type 0
HasOverlap cfg = (k : ℕ) × (cfg.overlap ≡ pos k)

checked-positive : (cfg : ChunkConfig) → is_positive (checked cfg).size ≡ true
checked-positive cfg = elim (Bool-cases (is_positive cfg.size)) [
  | inl e ↦ rw e e
  | inr e ↦ rw e refl
]

checked-HasOverlap : (cfg : ChunkConfig) → HasOverlap cfg → HasOverlap (checked cfg)
checked-HasOverlap cfg (k, h) = elim (Bool-cases (is_positive cfg.size)) [
  | inl e ↦ rw e (k, h)
  | inr e ↦ rw e (200, refl)
]

positive_size : (size : ℤ) → is_positive size ≡ true → 0 < to_nat size
positive_size (pos n) h = ground arith
positive_size (negsuc n) h = absurd (ground arith)

step_of-positive : (cfg : ChunkConfig) → is_positive cfg.size ≡ true → 0 < step_of cfg
step_of-positive cfg h = elim (Bool-cases (is_positive (nat_sub (to_nat cfg.size) cfg.overlap))) [
  | inl e ↦ rw e (positive_size (nat_sub (to_nat cfg.size) cfg.overlap) e)
  | inr e ↦ rw e (positive_size cfg.size h)
]

to_nat-nat_sub : (n k : ℕ) → to_nat (nat_sub n (pos k)) ≤ n
to_nat-nat_sub n k = ground arith

step_of-le : (cfg : ChunkConfig) → HasOverlap cfg → step_of cfg ≤ to_nat cfg.size
step_of-le cfg (k, h) = elim (Bool-cases (is_positive (nat_sub (to_nat cfg.size) cfg.overlap))) [
  | inl e ↦ rw e (rw h (to_nat-nat_sub (to_nat cfg.size) k))
  | inr e ↦ rw e (omega arith)
]

module _ {ℓ} {R : Type ℓ} where
  -- If the overlap is not negative, then the windows cover the text: the first `step` runes of each
  -- but the last, and the last one whole, are the text from its start to its end.
  pub stitched-chunk :
      (text : List R) (cfg : ChunkConfig)
      → HasOverlap cfg
      → stitched (step_of (checked cfg)) (chunk text cfg) ≡ text
  unfolding chunk windows
  stitched-chunk [] cfg h = refl
  stitched-chunk (r ∷ rest) cfg h =
      let good = checked cfg in
      windows-stitched (length (r ∷ rest)) (to_nat good.size) (step_of good) 0 0 (r ∷ rest)
        (omega arith) (omega arith) (step_of-positive good (checked-positive cfg))
        (step_of-le good (checked-HasOverlap cfg h))

  -- Numbered from an index on, none empty, none longer than the size, with a token for 4 runes.
  abbrev pub Bounded : ℕ → ℕ → List (Chunk R) → Type 0
  Bounded size index [] = Unit
  Bounded size index (c ∷ rest) =
      (c.chunk_index ≡ index)
      × (0 < length c.content)
      × (length c.content ≤ size)
      × (c.token_count ≡ length c.content / 4)
      × Bounded size (index + 1) rest

  window-length :
      (size start index : ℕ) (text : List R)
      → 0 < size
      → start < length text
      → (0 < length (window size start index text).content)
        × (length (window size start index text).content ≤ size)
  window-length size start index text wide more =
      let taken = length-take (window_end size start text - start) (drop start text) in
      let left = length-drop start text in (omega arith, omega arith)

  windows-Bounded :
      (fuel size step start index : ℕ) (text : List R)
      → 0 < size
      → Bounded size index (windows fuel size step start index text)
  unfolding windows
  windows-Bounded zero size step start index text wide = tt
  windows-Bounded (suc fuel) size step start index text wide =
      let ih = windows-Bounded fuel size step (start + step) (index + 1) text wide in
      elim (Bool-cases (ltb start (length text))) [
        | inr e ↦ rw e tt
        | inl e ↦
            let (filled, fits) = window-length size start index text wide (ground arith) in
            elim (Bool-cases (window_end size start text == length text)) [
              | inl last ↦ rw (e, last) (refl, filled, fits, refl, tt)
              | inr more ↦ rw (e, more) (refl, filled, fits, refl, ih)
            ]
      ]

  -- With every configuration, the chunks are numbered from 0, none is empty, none is longer than
  -- the size in force, and each counts a token for every four runes.
  pub chunk-Bounded :
      (text : List R) (cfg : ChunkConfig) → Bounded (to_nat (checked cfg).size) 0 (chunk text cfg)
  unfolding chunk
  chunk-Bounded text cfg =
      windows-Bounded (length text) (to_nat (checked cfg).size) (step_of (checked cfg)) 0 0 text
        (positive_size (checked cfg).size (checked-positive cfg))
