-- ===== src/Knowledge/Chunker.antt =====
-- pkg/knowledge/ingestion/chunker.go: overlapping windows of a text, a text being its runes.
pub mod Coverage
pub mod Bounds
mod Tests
use ragivka.Prelude.{
  ℕ, zero, suc, ◌+◌, ◌-◌, ◌/◌, min, Bool, List, [], ◌∷◌, length, take, drop, ltb, ◌==◌,
  if◌then◌else◌, ℤ, pos, is_positive, to_nat, nat_sub,
}

pub record ChunkConfig : Type 0 where
  pub size : ℤ
  pub overlap : ℤ

abbrev pub default_chunk_config : ChunkConfig
default_chunk_config = record { size = pos 2000; overlap = pos 200 }

-- What the chunker fills in of a chunk.
pub record Chunk {ℓ} (R : Type ℓ) : Type ℓ where
  pub content : List R
  pub chunk_index : ℕ
  pub token_count : ℕ

-- The size is at least 1, and so is the step from one window to the next.
abbrev pub checked : ChunkConfig → ChunkConfig
checked cfg = if is_positive cfg.size then cfg else default_chunk_config

abbrev pub step_of : ChunkConfig → ℕ
step_of cfg =
    let step = nat_sub (to_nat cfg.size) cfg.overlap in
    if is_positive step then to_nat step else to_nat cfg.size

module _ {ℓ} {R : Type ℓ} where
  -- runes[start:end]
  abbrev pub slice : ℕ → ℕ → List R → List R
  slice start end text = take (end - start) (drop start text)

  abbrev pub window_end : ℕ → ℕ → List R → ℕ
  window_end size start text = min (start + size) (length text)

  abbrev pub window : ℕ → ℕ → ℕ → List R → Chunk R
  window size start index text =
      let content = slice start (window_end size start text) text in
      record { content = content; chunk_index = index; token_count = length content / 4 }

  -- The loop; the length of the text is fuel enough, as the step is not 0.
  pub windows : ℕ → ℕ → ℕ → ℕ → ℕ → List R → List (Chunk R)
  windows zero size step start index text = []
  windows (suc fuel) size step start index text =
      let rest = windows fuel size step (start + step) (index + 1) text in
      if ltb start (length text)
      then window size start index text
        ∷ (if window_end size start text == length text then [] else rest)
      else []

  unfoldable pub chunk : List R → ChunkConfig → List (Chunk R)
  unfolding windows
  chunk text cfg =
      let good = checked cfg in windows (length text) (to_nat good.size) (step_of good) 0 0 text
