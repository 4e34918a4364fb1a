-- ===== src/Knowledge/Retrieval/Hybrid/Own.antt =====
-- Whose chunks the retriever of pkg/knowledge/retrieval/retriever.go returns, and how many.
use mathlib.Core.Path.{subst}
use ragivka.Prelude.{
  ℕ, ◌≤◌, ◌<◌, ◌≡◌, ◌≢◌, ◌∙◌, refl, sym, ap, String, Option, none, some, List, [], ◌∷◌, All, In,
  length, take, map, min, ◌==◌, Bool-cases, inl, inr, arith, lt→ltb, All-imp, All-map,
  All-append_left, take-append-drop, drop,
}
use ragivka.Errors.{ok, wrapped, wrapped-ok, ok-injective}
use ragivka.Tenant.{Ctx, Uuid, get_tenant_id}
use ragivka.Tools.Guards.{Floats}
use ragivka.Knowledge.Types.{ChunkRow}
use ragivka.Knowledge.Retrieval.{RankedChunk}
use ragivka.Knowledge.Retrieval.Reranker.{best_first, cut, rerank}
use ragivka.Knowledge.Retrieval.Reranker.Best.{best_first-All, cut-append}
use ragivka.Knowledge.Indexer.{vector_literal}
use ragivka.Knowledge.Retrieval.Hybrid.{
  Scoring, EmbedTexts, blended, candidate_k, chunks_of, ranked, hybrid_search, parsed_tenant,
  query_vector, embed_query, searched, by_vector, for_tenant, retrieve,
}
use ragivka.World.{World, ◌>>=◌, lift, pure}
use ragivka.World.Laws.{statement-cases, continue-returned}

chunks_of-All :
    (tenant : ℕ) (rows : List ChunkRow)
    → All (λ r. In r rows × (r.tenant_id ≡ tenant)) (chunks_of tenant rows)
unfolding chunks_of
chunks_of-All tenant [] = tt
chunks_of-All tenant (c ∷ rest) =
    let later : All (λ r. In r (c ∷ rest) × (r.tenant_id ≡ tenant)) (chunks_of tenant rest) =
      All-imp (λ r h. (inr h.0, h.1)) (chunks_of tenant rest) (chunks_of-All tenant rest) in
    elim (Bool-cases (c.tenant_id == tenant)) [
      | inl e ↦ rw e ((inl refl, ground arith), later)
      | inr e ↦ rw e later
    ]

module _ ⦃uuid : Uuid⦄ ⦃floats : Floats⦄ (embed : EmbedTexts) (format : floats.Float → String)
    (db : Scoring) (alpha : floats.Float) (query : String) where
  -- The chunk shows the row, with the scores that the vector and the query give it.
  abbrev pub Shows : String → ChunkRow → RankedChunk → Type 0
  Shows vec row c =
      (c.chunk_id ≡ row.id)
      × (c.document_id ≡ row.document_id)
      × (c.content ≡ row.content)
      × (c.vec_score ≡ db.vec_score row vec)
      × (c.text_score ≡ db.text_score row query)
      × (c.score ≡ blended alpha (db.vec_score row vec) (db.text_score row query))

  -- The chunk is a row of the tenant's, with its scores.
  abbrev pub FromRow : ℕ → String → List ChunkRow → RankedChunk → Type 0
  FromRow tenant vec table c =
      (row : ChunkRow) × In row table × (row.tenant_id ≡ tenant) × Shows vec row c

  hybrid_search-FromRow :
      (tenant limit : ℕ) (vec : String) (w : World) {found : List RankedChunk}
      → (hybrid_search embed format db tenant vec query alpha limit w).0 ≡ ok found
      → All (FromRow tenant vec w.chunks) found
  unfolding hybrid_search
  hybrid_search-FromRow tenant limit vec w {found} h =
      let P = FromRow tenant vec w.chunks in
      let rows = map (ranked embed format db alpha vec query) (chunks_of tenant w.chunks) in
      let all_rows : All P rows =
        All-map P (ranked embed format db alpha vec query) (chunks_of tenant w.chunks) (
          All-imp (λ r k. (r, k.0, k.1, (refl, refl, refl, refl, refl, refl)))
            (chunks_of tenant w.chunks) (chunks_of-All tenant w.chunks)) in
      let sorted = best_first (λ c. c.score) rows in
      let kept : All P (take limit sorted) =
        All-append_left P (take limit sorted) (drop limit sorted) (
          subst (All P) (sym (take-append-drop limit sorted))
            (best_first-All (λ c. c.score) P rows all_rows)) in
      statement-cases
        (λ v. (
          ok (
              take limit (
                best_first (λ c. c.score)
                  (map (ranked embed format db alpha vec query) (chunks_of tenant v.chunks)))),
          v,
        ))
        w (λ out. out.0 ≡ ok found → All P found) (λ fs e. subst (All P) (ok-injective e) kept)
        (λ fs e. absurd (ground arith)) h

  rerank-All :
      (P : RankedChunk → Type 0) (candidates : List RankedChunk) (top_k : ℕ)
      → All P candidates
      → All P (rerank query candidates top_k)
  unfolding rerank
  rerank-All P candidates top_k h =
      let sorted = best_first (λ c. c.vec_score) candidates in
      let (rest, whole, _) = cut-append top_k sorted in
      All-append_left P (cut top_k sorted) rest
        (subst (All P) (sym whole) (best_first-All (λ c. c.vec_score) P candidates h))

  length-rerank :
      (candidates : List RankedChunk) (top_k : ℕ)
      → 0 < top_k
      → length (rerank query candidates top_k) ≤ top_k
  unfolding rerank
  length-rerank candidates top_k h =
      let sorted = best_first (λ c. c.vec_score) candidates in
      let (rest, _, size) = cut-append top_k sorted in
      let exact : length (cut top_k sorted) ≡ min top_k (length sorted) =
        rw (lt→ltb 0 top_k h) at size in
      omega (arith, exact)

  parsed_tenant-some : (o : Option ℕ) {t : ℕ} → parsed_tenant embed format db o ≡ ok t → o ≡ some t
  unfolding parsed_tenant
  parsed_tenant-some none h = absurd (ground arith)
  parsed_tenant-some (some t) h = ap some (ok-injective h)

  query_vector-ok :
      (vecs : List (List floats.Float)) {vec : List floats.Float}
      → query_vector embed format db vecs ≡ ok vec
      → (rest : List (List floats.Float)) × (vecs ≡ (vec ∷ rest)) × (vec ≢ [])
  unfolding query_vector
  query_vector-ok [] h = absurd (ground arith)
  query_vector-ok ([] ∷ rest) h = absurd (ground arith)
  query_vector-ok ((f ∷ vec) ∷ rest) h =
      let same = ok-injective h in
      (rest, ap (λ v. v ∷ rest) same, subst (λ v. v ≢ []) same (λ never. absurd (ground arith)))

  -- What a search with a vector under a tenant came back with.
  abbrev pub Found : ℕ → ℕ → List floats.Float → List ChunkRow → List RankedChunk → Type 0
  Found tenant top_k vec table found =
      All (FromRow tenant (vector_literal format vec) table) found
      × (0 < top_k → length found ≤ top_k)

  -- The embedder's answer to the query is a first vector that is not empty, and maybe more.
  abbrev pub IsEmbedded : Ctx → World → List floats.Float → Type 0
  IsEmbedded ctx w vec =
      (rest : List (List floats.Float)) × (embed ctx (query ∷ []) (length w.calls)
        ≡ ok (vec ∷ rest))
      × (vec ≢ [])

  searched-Found :
      (tenant top_k : ℕ) (vec : List floats.Float) (w : World) {found : List RankedChunk}
      → (searched embed format db query top_k alpha tenant vec w).0 ≡ ok found
      → Found tenant top_k vec w.chunks found
  unfolding searched
  searched-Found tenant top_k vec w h =
      let v = vector_literal format vec in
      let out = hybrid_search embed format db tenant v query alpha (candidate_k top_k) w in
      let (candidates, ec, h5) =
        continue-returned (wrapped "retriever: query" out.0)
          (λ candidates. pure (rerank query candidates top_k)) out.1 h in
      let rows =
        hybrid_search-FromRow tenant (candidate_k top_k) v w
          (wrapped-ok "retriever: query" out.0 ec) in
      let same = ok-injective h5 in
      (
        subst (All (FromRow tenant v w.chunks)) same
            (rerank-All (FromRow tenant v w.chunks) candidates top_k rows),
        λ positive. subst (λ l. length l ≤ top_k) same (length-rerank candidates top_k positive),
      )

  for_tenant-Found :
      (ctx : Ctx) (tenant top_k : ℕ) (w : World) {found : List RankedChunk}
      → (for_tenant embed format db ctx query top_k alpha tenant w).0 ≡ ok found
      → (vec : List floats.Float) × IsEmbedded ctx w vec × Found tenant top_k vec w.chunks found
  unfolding for_tenant by_vector embed_query
  for_tenant-Found ctx tenant top_k w h =
      let out = embed_query embed format db ctx query w in
      let (vecs, embedded, h1) =
        continue-returned (wrapped "retriever: embed query" out.0)
          (by_vector embed format db query top_k alpha tenant) out.1 h in
      let (vec, found, h2) =
        continue-returned (query_vector embed format db vecs)
          (searched embed format db query top_k alpha tenant) out.1 h1 in
      let (rest, same, full) = query_vector-ok vecs found in
      (
        vec,
        (rest, wrapped-ok "retriever: embed query" out.0 embedded ∙ ap ok same, full),
        searched-Found tenant top_k vec out.1 h2,
      )

  -- If the retriever returns chunks, then the context has the UUID of a tenant, the embedder has
  -- answered the query with a vector that is not empty, each chunk is a row of that tenant's with
  -- the scores that this vector and the query give it, and there are no more than a positive topK.
  pub retrieve-own :
      (ctx : Ctx) (top_k : ℕ) (w : World) {found : List RankedChunk}
      → (retrieve embed format db ctx query top_k alpha w).0 ≡ ok found
      → (raw : String) × (tenant : ℕ) × (vec : List floats.Float) × (get_tenant_id ctx ≡ ok raw)
        × (uuid.parse raw ≡ some tenant)
        × IsEmbedded ctx w vec
        × All (FromRow tenant (vector_literal format vec) w.chunks) found
        × (0 < top_k → length found ≤ top_k)
  unfolding retrieve
  retrieve-own ctx top_k w h =
      let (raw, eraw, h1) =
        continue-returned (get_tenant_id ctx)
          (λ text.
            lift (parsed_tenant embed format db (uuid.parse text))
            >>= for_tenant embed format db ctx query top_k alpha)
          w h in
      let (tenant, et, h2) =
        continue-returned (parsed_tenant embed format db (uuid.parse raw))
          (for_tenant embed format db ctx query top_k alpha) w h1 in
      let (vec, embedded, (rows, few)) = for_tenant-Found ctx tenant top_k w h2 in
      (raw, tenant, vec, eraw, parsed_tenant-some (uuid.parse raw) et, embedded, rows, few)
