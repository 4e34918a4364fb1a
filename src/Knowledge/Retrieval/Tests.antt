-- ===== src/Knowledge/Retrieval/Tests.antt =====
-- pkg/knowledge/retrieval and the embedder at two chunks of tenant 5 and one of tenant 6, with
-- scores in percent.
use mathlib.Core.List.{Perm}
use ragivka.Prelude.{
  ℕ, ◌*◌, ◌/◌, ◌≤◌, ◌<◌, ◌≡◌, refl, String, some, List, [], ◌∷◌, ◌++◌, All, length, arith,
}
use ragivka.Errors.{Result, ok}
use ragivka.Tenant.{Ctx, get_tenant_id}
use ragivka.Tenant.Sample.{unary_uuid, parse_unary, tenant_ctx}
use ragivka.Knowledge.Types.{ChunkRow}
use ragivka.Knowledge.Indexer.{vector_literal}
use ragivka.Knowledge.Retrieval.{RankedChunk}
use ragivka.Knowledge.Retrieval.Reranker.{best_first, cut, rerank}
use ragivka.Knowledge.Retrieval.Reranker.Best.{IsRanking, Falling, rerank-best}
use ragivka.Knowledge.Retrieval.Hybrid.{
  Scoring, blended, candidate_k, chunks_of, hybrid_search, retrieve,
}
use ragivka.Knowledge.Retrieval.Hybrid.Own.{FromRow, IsEmbedded, retrieve-own}
use ragivka.World.{World}
use ragivka.World.Sample.{percent, start}

abbrev chunk_row : ℕ → ℕ → String → ChunkRow
chunk_row id tenant content = record {
  id = id;
  tenant_id = tenant;
  document_id = 1;
  content = content;
  token_count = 1;
  chunk_index = id;
  embedding = "[1]";
}

abbrev library : World
library = record start {
  chunks = chunk_row 1 5 "low" ∷ chunk_row 2 6 "other" ∷ chunk_row 3 5 "high" ∷ [];
}

-- The row's number is its score.
abbrev by_id : Scoring ⦃floats = percent⦄
by_id = record { vec_score = λ row vec. row.id * 10; text_score = λ row query. 0 }

abbrev embed_one : Ctx → List String → ℕ → Result (List (List ℕ))
embed_one ctx texts n = ok ((1 ∷ []) ∷ [])

abbrev scored : ℕ → String → RankedChunk ⦃floats = percent⦄
scored id content = record {
  chunk_id = id;
  document_id = 1;
  content = content;
  vec_score = id * 10;
  text_score = 0;
  score = id * 10 * 50 / 100;
}

abbrev digits_of : ℕ → String
digits_of n = "1"

retrieve_answers :
    (retrieve ⦃uuid = unary_uuid⦄ ⦃floats = percent⦄ embed_one digits_of by_id
      (tenant_ctx 5)
      "q"
      1
      50
      library).0
    ≡ ok (scored 3 "high" ∷ [])
unfolding retrieve get_tenant_id hybrid_search chunks_of best_first candidate_k rerank cut blended
retrieve_answers = refl

retrieve-own_example :
    (raw : String) × (tenant : ℕ) × (vec : List ℕ) × (get_tenant_id (tenant_ctx 5) ≡ ok raw)
    × (parse_unary raw ≡ some tenant)
    × IsEmbedded ⦃uuid = unary_uuid⦄ ⦃floats = percent⦄ embed_one digits_of by_id 50 "q"
        (tenant_ctx 5)
        library
        vec
    × All
        (FromRow ⦃uuid = unary_uuid⦄ ⦃floats = percent⦄ embed_one digits_of by_id 50 "q" tenant
          (vector_literal digits_of vec)
          library.chunks)
        (scored 3 "high" ∷ [])
    × (0 < 1 → length (scored 3 "high" ∷ []) ≤ 1)
retrieve-own_example =
    retrieve-own ⦃uuid = unary_uuid⦄ ⦃floats = percent⦄ embed_one digits_of by_id 50 "q"
      (tenant_ctx 5) 1 library retrieve_answers

percent-IsRanking : IsRanking percent
percent-IsRanking = record {
  asymmetric = λ a b h. ground arith;
  negatively_transitive = λ a b c h k. ground arith;
}

rerank-best_example :
    (rest : List (RankedChunk ⦃floats = percent⦄)) × Perm
      (rerank ⦃floats = percent⦄ "q" (scored 1 "low" ∷ scored 3 "high" ∷ []) 1 ++ rest)
      (scored 1 "low" ∷ scored 3 "high" ∷ [])
    × Falling ⦃floats = percent⦄
        (λ c. c.vec_score)
        (rerank ⦃floats = percent⦄ "q" (scored 1 "low" ∷ scored 3 "high" ∷ []) 1 ++ rest)
    × (length (rerank ⦃floats = percent⦄ "q" (scored 1 "low" ∷ scored 3 "high" ∷ []) 1) ≡ 1)
rerank-best_example =
    rerank-best ⦃floats = percent⦄ percent-IsRanking "q" (scored 1 "low" ∷ scored 3 "high" ∷ []) 1
