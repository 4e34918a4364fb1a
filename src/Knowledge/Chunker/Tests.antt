-- ===== src/Knowledge/Chunker/Tests.antt =====
-- Windows of a short text.
use ragivka.Prelude.{ℕ, ◌≡◌, refl, List, [], ◌∷◌, pos, negsuc, map, to_nat}
use ragivka.Knowledge.Chunker.{ChunkConfig, chunk, checked, step_of}
use ragivka.Knowledge.Chunker.Coverage.{stitched}
use ragivka.Knowledge.Chunker.Bounds.{Bounded, stitched-chunk, chunk-Bounded}

abbrev text : List ℕ
text = 1 ∷ 2 ∷ 3 ∷ 4 ∷ 5 ∷ 6 ∷ []

abbrev three_with_one : ChunkConfig
three_with_one = record { size = pos 3; overlap = pos 1 }

overlapping :
    map (λ c. c.content) (chunk text three_with_one)
    ≡ ((1 ∷ 2 ∷ 3 ∷ []) ∷ (3 ∷ 4 ∷ 5 ∷ []) ∷ (5 ∷ 6 ∷ []) ∷ [])
unfolding chunk
overlapping = refl

-- With an overlap of -1 the rune 3 is in no chunk.
skipping :
    map (λ c. c.content) (chunk text (record { size = pos 2; overlap = negsuc 0 }))
    ≡ ((1 ∷ 2 ∷ []) ∷ (4 ∷ 5 ∷ []) ∷ [])
unfolding chunk
skipping = refl

stitched-chunk_example :
    stitched (step_of (checked three_with_one)) (chunk text three_with_one) ≡ text
stitched-chunk_example = stitched-chunk text three_with_one (1, refl)

chunk-Bounded_example : Bounded (to_nat (checked three_with_one).size) 0 (chunk text three_with_one)
chunk-Bounded_example = chunk-Bounded text three_with_one
