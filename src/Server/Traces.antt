-- ===== src/Server/Traces.antt =====
-- The whole of the program over time: requests to cmd/server/main.go, jobs of cmd/worker/main.go in any
-- order, and what a tenant sees of those of the others.
use ragivka.Prelude.{ℕ, ◌≡◌, ◌≢◌, refl, ◌∙◌, ap, Bool, List, [], In}
use ragivka.Tenant.{Ctx, Uuid}
use ragivka.Aicore.Sanitize.{Regexp}
use ragivka.Tools.Guards.{Floats}
use ragivka.Knowledge.Pipeline.{IngestDocumentArgs}
use ragivka.Runtime.Types.{GenerateResponseArgs}
use ragivka.Runtime.Isolation.{Seen, seen_by, jobs_of, jobs_of-foreign}
use ragivka.Runtime.Worker.{Resources, generate_response_job, ingest_document_job, work_job}
use ragivka.Runtime.Worker.Isolation.{answer_job-seen_by, document_job-seen_by}
use ragivka.Server.Wiring.{Outside}
use ragivka.Server.Routes.{ServedRequest, Ids, serve_http}
use ragivka.Server.Routes.Isolation.{IsForeign, serve_http-seen_by}
use ragivka.World.{World, Call}

module _ ⦃uuid : Uuid⦄ ⦃floats : Floats⦄ ⦃regexp : Regexp⦄ (out : Outside) (res : Resources)
    (t : ℕ) where
  -- One step of the others: a request that does not speak for the tenant, a job for an answer that
  -- is among the queued ones, run once more or for the first time, another tenant's document, or
  -- time that passes, with other failures ahead. The sweep, which expires the sessions of all
  -- tenants, is none; for tools and artifacts the worker process has no workers.
  pub data Step : World → World → Type 0 where
    requested :
        {w : World} (ids : Ids) (msg : ServedRequest) (ctx : Ctx)
        → IsForeign out ids t msg
        → Step w (serve_http out ids msg ctx w).1
    answered :
        {w : World} (fresh : ℕ) (fresh_chunk : ℕ → ℕ) (ctx : Ctx) (id : ℕ)
        (args : GenerateResponseArgs)
        → In (Call.enqueue args) w.calls
        → Step w (work_job res fresh fresh_chunk ctx (generate_response_job id args) w).1
    ingested :
        {w : World} (fresh : ℕ) (fresh_chunk : ℕ → ℕ) (ctx : Ctx) (args : IngestDocumentArgs)
        → args.tenant_id ≢ t
        → Step w (work_job res fresh fresh_chunk ctx (ingest_document_job args) w).1
    passed : {w : World} (fs : List Bool) (n : ℕ) → Step w (record w { faults = fs; now = n })

  pub data Steps : World → World → Type 0 where
    stay : {w : World} → Steps w w
    and_then : {w u v : World} → Steps w u → Step u v → Steps w v

  step-seen_by : {w v : World} → jobs_of t w.calls ≡ [] → Step w v → seen_by t v ≡ seen_by t w
  step-seen_by {w} idle (requested ids msg ctx foreign) =
      serve_http-seen_by out ids t msg foreign ctx w
  step-seen_by {w} idle (answered fresh fresh_chunk ctx id args queued) =
      answer_job-seen_by res t fresh fresh_chunk ctx id args
        (jobs_of-foreign t w.calls args idle queued) w
  step-seen_by {w} idle (ingested fresh fresh_chunk ctx args apart) =
      document_job-seen_by res t fresh fresh_chunk ctx args apart w
  step-seen_by idle (passed fs n) = refl

  -- Let a tenant have no job in the queue. Then, after any steps of the others in any order,
  -- requests that do not speak for it, answering jobs out of the queue, however often, and other
  -- tenants' documents, whatever fails meanwhile, the tenant sees what it saw: its sessions, users,
  -- messages, documents and chunks are the same, it still has no job, and the tables of prompts,
  -- artifacts and audit records are as they were.
  pub others_unseen : {w v : World} → jobs_of t w.calls ≡ [] → Steps w v → seen_by t v ≡ seen_by t w
  others_unseen idle stay = refl
  others_unseen idle (and_then {u = u} before last) =
      let kept = others_unseen idle before in
      let still : jobs_of t u.calls ≡ [] = ap (λ (s : Seen). s.5) kept ∙ idle in
      step-seen_by still last ∙ kept
