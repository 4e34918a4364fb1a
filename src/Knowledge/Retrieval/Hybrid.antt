-- ===== src/Knowledge/Retrieval/Hybrid.antt =====
-- pkg/knowledge/retrieval/retriever.go: the search over the chunks of a tenant. How pgvector and
-- the text search score a row is a parameter; the log of the recall is left out.
pub mod Own
pub mod Reads
use ragivka.Prelude.{
  ℕ, ◌*◌, Bool, String, Option, none, some, List, [], ◌∷◌, length, map, take, ltb, ◌==◌,
  if◌then◌else◌,
}
use ragivka.Errors.{Err, Result, ok, err, panic, other, wrap}
use ragivka.Tenant.{Ctx, Uuid, get_tenant_id}
use ragivka.Tools.Guards.{Floats}
use ragivka.Knowledge.Types.{ChunkRow}
use ragivka.Knowledge.Indexer.{vector_literal}
use ragivka.Knowledge.Retrieval.{RankedChunk, Retriever}
use ragivka.Knowledge.Retrieval.Reranker.{best_first, rerank}
use ragivka.World.{World, Exec, Call, ◌>>=◌, pure, lift, context, statement}

module _ ⦃floats : Floats⦄ where
  -- COALESCE(1.0 - (embedding <=> $2), 0.0) and COALESCE(ts_rank(tsv, $3), 0.0)
  pub record Scoring : Type 0 where
    pub vec_score : ChunkRow → String → floats.Float
    pub text_score : ChunkRow → String → floats.Float

  abbrev pub EmbedTexts : Type 0
  EmbedTexts = Ctx → List String → ℕ → Result (List (List floats.Float))

  one : floats.Float
  one = floats.of_tenths 10

  -- alpha * vec_score + (1 - alpha) * text_score
  unfoldable pub blended : floats.Float → floats.Float → floats.Float → floats.Float
  unfolding one
  blended alpha vec text =
      floats.add (floats.mul alpha vec) (floats.mul (floats.sub one alpha) text)

unfoldable pub candidate_k : ℕ → ℕ
candidate_k top_k = if ltb (top_k * 2) 10 then 10 else top_k * 2

unfoldable pub chunks_of : ℕ → List ChunkRow → List ChunkRow
chunks_of tenant [] = []
chunks_of tenant (c ∷ rest) =
    let others = chunks_of tenant rest in if c.tenant_id == tenant then c ∷ others else others

module _ ⦃uuid : Uuid⦄ ⦃floats : Floats⦄ (embed : EmbedTexts) (format : floats.Float → String)
    (db : Scoring) where
  -- One row of the query, with its blended score.
  abbrev pub ranked : floats.Float → String → String → ChunkRow → RankedChunk
  ranked alpha vec query row = record {
    chunk_id = row.id;
    document_id = row.document_id;
    content = row.content;
    vec_score = db.vec_score row vec;
    text_score = db.text_score row query;
    score = blended alpha (db.vec_score row vec) (db.text_score row query);
  }

  -- hybridSQL
  unfoldable pub hybrid_search : ℕ → String → String → floats.Float → ℕ → Exec (List RankedChunk)
  hybrid_search tenant vec query alpha limit = statement λ w. (
    ok (
        take limit
          (best_first (λ c. c.score) (map (ranked alpha vec query) (chunks_of tenant w.chunks)))),
    w,
  )

  parsed_tenant : Option ℕ → Result ℕ
  parsed_tenant none = err (wrap "retriever: invalid tenant UUID" (other "invalid UUID"))
  parsed_tenant (some tenant) = ok tenant

  -- The first vector, which must not be empty.
  query_vector : List (List floats.Float) → Result (List floats.Float)
  query_vector ((f ∷ vec) ∷ rest) = ok (f ∷ vec)
  query_vector _ = err (other "retriever: embedder returned empty vector for query")

  pub embed_query : Ctx → String → Exec (List (List floats.Float))
  embed_query ctx query w = (
    embed ctx (query ∷ []) (length w.calls),
    record w { calls = Call.embed (query ∷ []) ∷ w.calls },
  )

  pub searched : String → ℕ → floats.Float → ℕ → List floats.Float → Exec (List RankedChunk)
  searched query top_k alpha tenant vec = do
    candidates ←
        context "retriever: query"
          (hybrid_search tenant (vector_literal format vec) query alpha (candidate_k top_k))
    pure (rerank query candidates top_k)

  pub by_vector : String → ℕ → floats.Float → ℕ → List (List floats.Float) → Exec (List RankedChunk)
  unfolding query_vector searched
  by_vector query top_k alpha tenant vecs = do
    vec ← lift (query_vector vecs)
    searched query top_k alpha tenant vec

  pub for_tenant : Ctx → String → ℕ → floats.Float → ℕ → Exec (List RankedChunk)
  unfolding embed_query by_vector
  for_tenant ctx query top_k alpha tenant = do
    vecs ← context "retriever: embed query" (embed_query ctx query)
    by_vector query top_k alpha tenant vecs

  unfoldable pub retrieve : Retriever
  unfolding for_tenant parsed_tenant
  retrieve ctx query top_k alpha = do
    raw ← lift (get_tenant_id ctx)
    tenant ← lift (parsed_tenant (uuid.parse raw))
    for_tenant ctx query top_k alpha tenant
