-- ===== src/Runtime/Worker.antt =====
-- pkg/runtime/worker.go and cmd/worker/main.go: the kinds of job that the worker process has workers
-- for, and what those are built from. River fetches the jobs, and fails one of another kind.
pub mod Isolation
use ragivka.Prelude.{ℕ, Bool, String, Option, some, List, [], ◌∷◌}
use ragivka.Errors.{Err, Result, other, on_ok, ok}
use ragivka.Tenant.{Ctx, Uuid}
use ragivka.Aicore.Router.{LlmClient, default_policy}
use ragivka.Aicore.Sanitize.{Regexp}
use ragivka.Tools.Guards.{Floats}
use ragivka.Knowledge.Chunker.{default_chunk_config}
use ragivka.Knowledge.Connector.{s3_connect}
use ragivka.Knowledge.Parsers.{Libraries, parse_document}
use ragivka.Knowledge.Pipeline.{Stages, IngestDocumentArgs, ingest_job, scrub}
use ragivka.Knowledge.Retrieval.Hybrid.{EmbedTexts, Scoring, retrieve}
use ragivka.Runtime.Types.{GenerateResponseArgs}
use ragivka.Runtime.GenerateJob.{work}
use ragivka.Runtime.Expiry.{expire_sessions}
use ragivka.World.{World, Exec, fail}

-- A job of River by its arguments; an answer has the number of its job.
pub data Job : Type 0 where
  generate_response_job : ℕ → GenerateResponseArgs → Job
  expire_sessions_job : Job
  ingest_document_job : IngestDocumentArgs → Job
  unregistered_job : String → Job

-- What the process talks to: the model, the embedder with how it prints a vector, the scores and
-- the vectors of the database, the object store's signed URLs and what they answer at a time, and
-- the libraries behind the parsers, strings.ToLower and an error's text.
pub record Resources ⦃floats : Floats⦄ : Type 0 where
  pub client : LlmClient
  pub embed : EmbedTexts
  pub format : floats.Float → String
  pub db : Scoring
  pub is_vector : String → Bool
  pub presign : Ctx → String → ℕ → ℕ → Result String
  pub http_get : Ctx → String → ℕ → Result (ℕ × List ℕ)
  pub libraries : Libraries
  pub to_lower : String → String
  pub error_text : Err → String

-- []rune(text)
runes : String → List String
runes String.[] = []
runes (String.◌∷◌ c s) = String.◌∷◌ c "" ∷ runes s

module _ ⦃uuid : Uuid⦄ ⦃floats : Floats⦄ ⦃regexp : Regexp⦄ (res : Resources) where
  abbrev signed_url : Ctx → String → ℕ → Exec String
  signed_url ctx key ttl w = (res.presign ctx key ttl w.now, w)

  abbrev download : Ctx → String → Exec (ℕ × List ℕ)
  download ctx url w = (res.http_get ctx url w.now, w)

  -- NewPipeline with the arguments of cmd/worker
  ingest_pipeline : Stages floats.Float
  unfolding runes
  ingest_pipeline = record {
    connect = s3_connect signed_url download;
    to_lower = res.to_lower;
    parse = λ kind bytes. on_ok (λ text. ok (runes text)) (parse_document res.libraries kind bytes);
    scrub_text = scrub;
    embed = res.embed;
    format = res.format;
    is_vector = res.is_vector;
    error_text = res.error_text;
    config = default_chunk_config;
  }

  -- The workers of StartWorker, by kind; `fresh` is the id of an answer, `fresh_chunk` gives those
  -- of chunks.
  pub work_job : ℕ → (ℕ → ℕ) → Ctx → Job → Exec (Unit {0})
  unfolding ingest_pipeline
  work_job fresh fresh_chunk ctx (generate_response_job id args) =
      work res.client default_policy (some (retrieve res.embed res.format res.db)) ctx fresh id args
  work_job fresh fresh_chunk ctx expire_sessions_job = expire_sessions ctx
  work_job fresh fresh_chunk ctx (ingest_document_job args) =
      ingest_job ingest_pipeline fresh_chunk ctx args
  work_job fresh fresh_chunk ctx (unregistered_job kind) =
      fail (other "job kind is not registered in the client's Workers bundle")
