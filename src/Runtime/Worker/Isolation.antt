-- ===== src/Runtime/Worker/Isolation.antt =====
-- What the jobs of pkg/runtime/worker.go leave of the tenants that they are not for.
use ragivka.Prelude.{ℕ, ◌≢◌, refl, some}
use ragivka.Tenant.{Ctx, Uuid}
use ragivka.Aicore.Router.{default_policy}
use ragivka.Aicore.Sanitize.{Regexp}
use ragivka.Tools.Guards.{Floats}
use ragivka.Knowledge.Connector.Reads.{s3_connect-Keeps}
use ragivka.Knowledge.Pipeline.{IngestDocumentArgs}
use ragivka.Knowledge.Pipeline.Isolation.{ingest_job-seen_by}
use ragivka.Knowledge.Retrieval.Hybrid.{retrieve}
use ragivka.Knowledge.Retrieval.Hybrid.Reads.{retrieve-Keeps}
use ragivka.Runtime.Types.{GenerateResponseArgs}
use ragivka.Runtime.GenerateJob.Isolation.{work-seen_by}
use ragivka.Runtime.Isolation.{seen_by, embed-seen_by}
use ragivka.Runtime.Worker.{
  generate_response_job, ingest_document_job, Resources, signed_url, download, ingest_pipeline,
  work_job,
}
use ragivka.World.Keeps.{Keeps}

module _ ⦃uuid : Uuid⦄ ⦃floats : Floats⦄ ⦃regexp : Regexp⦄ (res : Resources) (t : ℕ) where
  pub answer_job-seen_by :
      (fresh : ℕ) (fresh_chunk : ℕ → ℕ) (ctx : Ctx) (id : ℕ) (args : GenerateResponseArgs)
      → args.tenant_id ≢ t
      → Keeps (seen_by t) (work_job res fresh fresh_chunk ctx (generate_response_job id args))
  unfolding work_job
  answer_job-seen_by fresh fresh_chunk ctx id args apart =
      work-seen_by res.client default_policy (some (retrieve res.embed res.format res.db)) t
        (retrieve-Keeps res.embed res.format res.db (seen_by t) (λ v fs. refl) (embed-seen_by t))
        ctx args apart fresh id

  pub document_job-seen_by :
      (fresh : ℕ) (fresh_chunk : ℕ → ℕ) (ctx : Ctx) (args : IngestDocumentArgs)
      → args.tenant_id ≢ t
      → Keeps (seen_by t) (work_job res fresh fresh_chunk ctx (ingest_document_job args))
  unfolding work_job ingest_pipeline
  document_job-seen_by fresh fresh_chunk ctx args apart =
      ingest_job-seen_by (ingest_pipeline res) t
        (s3_connect-Keeps (seen_by t) (signed_url res) (download res) (λ c key ttl w. refl)
          (λ c url w. refl))
        fresh_chunk ctx args apart
