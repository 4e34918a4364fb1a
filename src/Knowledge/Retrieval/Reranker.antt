-- ===== src/Knowledge/Retrieval/Reranker.antt =====
-- pkg/knowledge/retrieval/reranker.go: candidates by their vector scores.
pub mod Best
use ragivka.Prelude.{ℕ, Bool, ◌&&◌, String, List, [], ◌∷◌, length, take, ltb, if◌then◌else◌}
use ragivka.Tools.Guards.{Floats}
use ragivka.Knowledge.Retrieval.{RankedChunk}

module _ ⦃floats : Floats⦄ {A : Type 0} (key : A → floats.Float) where
  insert_best : A → List A → List A
  insert_best a [] = a ∷ []
  insert_best a (b ∷ rest) =
      let later = insert_best a rest in
      if floats.less (key a) (key b) then b ∷ later else a ∷ b ∷ rest

  -- sort.Slice, or ORDER BY, by falling keys. Elements of one key come in no order that either
  -- promises.
  unfoldable pub best_first : List A → List A
  unfolding insert_best
  best_first [] = []
  best_first (a ∷ rest) = insert_best a (best_first rest)

-- The first topK, if topK is positive.
unfoldable pub cut : {A : Type 0} → ℕ → List A → List A
cut top_k sorted = if ltb 0 top_k && ltb top_k (length sorted) then take top_k sorted else sorted

unfoldable pub rerank :
    ⦃floats : Floats⦄
    → String
    → List (RankedChunk ⦃floats = floats⦄)
    → ℕ
    → List (RankedChunk ⦃floats = floats⦄)
rerank query candidates top_k = cut top_k (best_first (λ c. c.vec_score) candidates)
