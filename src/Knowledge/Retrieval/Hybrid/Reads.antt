-- ===== src/Knowledge/Retrieval/Hybrid/Reads.antt =====
-- What the search of pkg/knowledge/retrieval/retriever.go leaves as it was.
use ragivka.Prelude.{ℕ, ◌≡◌, refl, Bool, String, List, ◌∷◌}
use ragivka.Tenant.{Ctx, Uuid, get_tenant_id}
use ragivka.Tools.Guards.{Floats}
use ragivka.Knowledge.Indexer.{vector_literal}
use ragivka.Knowledge.Retrieval.Hybrid.{
  Scoring, EmbedTexts, parsed_tenant, query_vector, embed_query, hybrid_search, candidate_k,
  searched, by_vector, for_tenant, retrieve,
}
use ragivka.World.{World, Call, lift, context}
use ragivka.World.Keeps.{Keeps, >>=-Keeps, statement-Keeps}

module _ ⦃uuid : Uuid⦄ ⦃floats : Floats⦄ (embed : EmbedTexts) (format : floats.Float → String)
    (db : Scoring) {S : Type 0} (view : World → S)
    (blind : (w : World) (fs : List Bool) → view (record w { faults = fs }) ≡ view w)
    (apart : (w : World) (texts : List String)
      → view (record w { calls = Call.embed texts ∷ w.calls }) ≡ view w) where
  searched-Keeps :
      (query : String) (k : ℕ) (alpha : floats.Float) (tenant : ℕ) (vec : List floats.Float)
      → Keeps view (searched embed format db query k alpha tenant vec)
  unfolding searched hybrid_search
  searched-Keeps query k alpha tenant vec =
      >>=-Keeps view
        (context "retriever: query" (
          hybrid_search embed format db tenant (vector_literal format vec) query alpha
            (candidate_k k)))
        _ (statement-Keeps view _ blind (λ w. refl)) (λ found w. refl)

  for_tenant-Keeps :
      (ctx : Ctx) (query : String) (k : ℕ) (alpha : floats.Float) (tenant : ℕ)
      → Keeps view (for_tenant embed format db ctx query k alpha tenant)
  unfolding for_tenant by_vector embed_query
  for_tenant-Keeps ctx query k alpha tenant =
      >>=-Keeps view (context "retriever: embed query" (embed_query embed format db ctx query)) _
        (λ w. apart w _)
        λ vecs.
          >>=-Keeps view (lift (query_vector embed format db vecs)) _ (λ w. refl)
            (searched-Keeps query k alpha tenant)

  -- Only the calls and the schedule of failures.
  pub retrieve-Keeps :
      (ctx : Ctx) (query : String) (k : ℕ) (alpha : floats.Float)
      → Keeps view (retrieve embed format db ctx query k alpha)
  unfolding retrieve
  retrieve-Keeps ctx query k alpha =
      >>=-Keeps view (lift (get_tenant_id ctx)) _ (λ w. refl)
        λ raw.
          >>=-Keeps view (lift (parsed_tenant embed format db (uuid.parse raw))) _ (λ w. refl)
            (for_tenant-Keeps ctx query k alpha)
