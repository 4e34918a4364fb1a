-- ===== src/Knowledge/Retrieval.antt =====
-- pkg/knowledge/retrieval/types.go: ranked chunks, and retrieval as its clients see it.
pub mod Reranker
pub mod Hybrid
pub mod Embedder
mod Tests
use ragivka.Prelude.{ℕ, String, List}
use ragivka.Tenant.{Ctx}
use ragivka.Tools.Guards.{Floats}
use ragivka.World.{Exec}

module _ ⦃floats : Floats⦄ where
  pub record RankedChunk : Type 0 where
    pub chunk_id : ℕ
    pub document_id : ℕ
    pub content : String
    pub vec_score : floats.Float
    pub text_score : floats.Float
    pub score : floats.Float

  -- A context, a query, the number of chunks wanted, and the weight of the vector score.
  abbrev pub Retriever : Type 0
  Retriever = Ctx → String → ℕ → floats.Float → Exec (List RankedChunk)
