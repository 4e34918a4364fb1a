-- ===== src/Knowledge/Pipeline/Isolation.antt =====
-- What the job of pkg/knowledge/ingestion/jobs.go leaves of the tenants that it is not for.
use ragivka.Prelude.{
  ℕ, zero, suc, ◌==◌, ◌≡◌, ◌≢◌, refl, Bool-cases, inl, inr, String, List, [], ◌∷◌, ◌++◌, map,
  length, take, drop,
}
use ragivka.Errors.{Result, ok, err, panic}
use ragivka.Tenant.{
  Ctx, Uuid, with_tenant_id, tenant_uuid_from_ctx, tenant_uuid_from_ctx-with_tenant_id,
}
use ragivka.Knowledge.Types.{DocumentStatus, pending, processing, ready, failed}
use ragivka.Knowledge.Chunker.{Chunk, chunk}
use ragivka.Knowledge.Documents.{get_document, update_status}
use ragivka.Knowledge.Documents.Tenants.{
  documents_of-set_status, get_document-Keeps, update_status-Keeps,
}
use ragivka.Knowledge.Indexer.{Piece, index}
use ragivka.Knowledge.Indexer.Tenants.{index-Keeps}
use ragivka.Knowledge.Pipeline.{
  Format, Stages, IngestDocumentArgs, embed_batch_size, max_document_bytes, within_limit,
  parser_for, some_chunks, scrubbed, ask_embedder, with_embeddings, embed_batch, embed_batches,
  process, finish, attempt_run, unless_ready, ingest, ingest_job,
}
use ragivka.Runtime.Isolation.{seen_by, embed-seen_by}
use ragivka.World.{Exec, ◌>>=◌, context, lift, attempt, fail, pure}
use ragivka.World.Keeps.{Keeps, >>=-Keeps}

module _ {F : Type 0} (stages : Stages F) (t : ℕ)
    (connects : (ctx : Ctx) (key : String) → Keeps (seen_by t) (stages.connect ctx key)) where
  embed_batch-seen_by :
      (ctx : Ctx) (batch : List (Piece F)) → Keeps (seen_by t) (embed_batch stages ctx batch)
  unfolding embed_batch ask_embedder
  embed_batch-seen_by ctx batch =
      let texts = map (λ (p : Piece F). p.content) batch in
      >>=-Keeps (seen_by t) (context "embed batch" (ask_embedder stages ctx texts))
        (λ vs. lift (with_embeddings stages batch vs)) (λ w. embed-seen_by t w texts) (λ vs w. refl)

  embed_batches-seen_by :
      (fuel : ℕ) (ctx : Ctx) (pieces : List (Piece F))
      → Keeps (seen_by t) (embed_batches stages fuel ctx pieces)
  unfolding embed_batches
  embed_batches-seen_by zero ctx pieces w = refl
  embed_batches-seen_by (suc fuel) ctx [] w = refl
  embed_batches-seen_by (suc fuel) ctx (p ∷ rest) w =
      let now = take embed_batch_size (p ∷ rest) in
      let later = drop embed_batch_size (p ∷ rest) in
      >>=-Keeps (seen_by t) (embed_batch stages ctx now)
        (λ done. embed_batches stages fuel ctx later >>= (λ more. pure (done ++ more)))
        (embed_batch-seen_by ctx now)
        (λ done.
          >>=-Keeps (seen_by t) (embed_batches stages fuel ctx later) (λ more. pure (done ++ more))
            (embed_batches-seen_by fuel ctx later) (λ more v. refl))
        w

  module _ ⦃uuid : Uuid⦄ (fresh : ℕ → ℕ) (ctx : Ctx) (tenant : ℕ) (apart : tenant ≢ t)
      (et : tenant_uuid_from_ctx ctx ≡ ok tenant) where
    update_status-seen_by :
        (document : ℕ) (status : DocumentStatus) (msg : String)
        → Keeps (seen_by t) (update_status ctx document status msg)
    update_status-seen_by document status msg =
        update_status-Keeps (seen_by t) (λ v fs. refl) ctx document tenant status msg et
          λ v.
            rw (documents_of-set_status t document tenant status msg v.now v.documents apart) refl

    -- What the pipeline does with the chunks, with a text, with bytes of a known format, and with
    -- bytes.
    abbrev store : ℕ → List (Chunk String) → Exec (Unit {0})
    store document chunks = do
      pieces ← embed_batches stages (length chunks) ctx (map (scrubbed stages) chunks)
      index stages.format fresh stages.is_vector ctx document pieces

    abbrev store_text : ℕ → List String → Exec (Unit {0})
    store_text document text = do
      chunks ← lift (some_chunks stages (chunk text stages.config))
      store document chunks

    abbrev store_parsed : ℕ → List ℕ → Format → Exec (Unit {0})
    store_parsed document data_ kind = do
      text ← context "parse" (lift (stages.parse kind data_))
      store_text document text

    abbrev store_limited : ℕ → String → List ℕ → Exec (Unit {0})
    store_limited document doc_type data_ = do
      kind ← lift (parser_for (stages.to_lower doc_type))
      store_parsed document data_ kind

    store-seen_by :
        (document : ℕ) (chunks : List (Chunk String)) → Keeps (seen_by t) (store document chunks)
    store-seen_by document chunks =
        >>=-Keeps (seen_by t)
          (embed_batches stages (length chunks) ctx (map (scrubbed stages) chunks))
          (λ pieces. index stages.format fresh stages.is_vector ctx document pieces)
          (embed_batches-seen_by (length chunks) ctx (map (scrubbed stages) chunks))
          λ pieces.
            index-Keeps stages.format fresh (seen_by t) (λ v fs. refl) t tenant apart
              (λ v cs same. rw same refl) stages.is_vector ctx document pieces et

    store_limited-seen_by :
        (document : ℕ) (doc_type : String) (data_ : List ℕ)
        → Keeps (seen_by t) (store_limited document doc_type data_)
    store_limited-seen_by document doc_type data_ =
        >>=-Keeps (seen_by t) (lift (parser_for (stages.to_lower doc_type)))
          (store_parsed document data_) (λ w. refl)
          λ kind.
            >>=-Keeps (seen_by t) (context "parse" (lift (stages.parse kind data_)))
              (store_text document) (λ w. refl)
              λ text.
                >>=-Keeps (seen_by t) (lift (some_chunks stages (chunk text stages.config)))
                  (store document) (λ w. refl) (store-seen_by document)

    process-seen_by :
        (document : ℕ) (key doc_type : String)
        → Keeps (seen_by t) (process stages fresh ctx document key doc_type)
    unfolding process
    process-seen_by document key doc_type =
        >>=-Keeps (seen_by t) (context "connector" (stages.connect ctx key))
          (λ bytes.
            lift (within_limit stages (take (suc max_document_bytes) bytes))
            >>= store_limited document doc_type)
          (connects ctx key)
          λ bytes.
            >>=-Keeps (seen_by t) (lift (within_limit stages (take (suc max_document_bytes) bytes)))
              (store_limited document doc_type) (λ w. refl)
              (store_limited-seen_by document doc_type)

    finish-seen_by :
        (document : ℕ) (r : Result (Unit {0}))
        → Keeps (seen_by t) (finish stages fresh ctx document r)
    unfolding finish
    finish-seen_by document (ok u) w = update_status-seen_by document ready "" w
    finish-seen_by document (panic p) w = refl
    finish-seen_by document (err e) w =
        >>=-Keeps (seen_by t) (attempt (update_status ctx document failed (stages.error_text e)))
          (λ r. fail {A = Unit {0}} e) (update_status-seen_by document failed (stages.error_text e))
          (λ r v. refl) w

    attempt_run-seen_by :
        (document : ℕ) (key doc_type : String)
        → Keeps (seen_by t) (attempt_run stages fresh ctx document key doc_type)
    unfolding attempt_run
    attempt_run-seen_by document key doc_type =
        >>=-Keeps (seen_by t)
          (context "pipeline: mark processing" (update_status ctx document processing "")) _
          (update_status-seen_by document processing "")
          λ marked.
            >>=-Keeps (seen_by t) (attempt (process stages fresh ctx document key doc_type))
              (finish stages fresh ctx document) (process-seen_by document key doc_type)
              (finish-seen_by document)

    unless_ready-seen_by :
        (document : ℕ) (key doc_type : String) (status : DocumentStatus)
        → Keeps (seen_by t) (unless_ready stages fresh ctx document key doc_type status)
    unfolding unless_ready
    unless_ready-seen_by document key doc_type ready w = refl
    unless_ready-seen_by document key doc_type pending w =
        attempt_run-seen_by document key doc_type w
    unless_ready-seen_by document key doc_type processing w =
        attempt_run-seen_by document key doc_type w
    unless_ready-seen_by document key doc_type failed w =
        attempt_run-seen_by document key doc_type w

    ingest-seen_by :
        (document : ℕ) (key doc_type : String)
        → Keeps (seen_by t) (ingest stages fresh ctx document key doc_type)
    unfolding ingest
    ingest-seen_by document key doc_type =
        >>=-Keeps (seen_by t)
          (context "pipeline: check document status" (get_document ctx document))
          (λ d. unless_ready stages fresh ctx document key doc_type d.status)
          (get_document-Keeps (seen_by t) (λ v fs. refl) ctx document)
          (λ d. unless_ready-seen_by document key doc_type d.status)

  -- A job for another tenant leaves what this one sees.
  pub ingest_job-seen_by :
      ⦃uuid : Uuid⦄ (fresh : ℕ → ℕ) (ctx : Ctx) (args : IngestDocumentArgs)
      → args.tenant_id ≢ t
      → Keeps (seen_by t) (ingest_job stages fresh ctx args)
  unfolding ingest_job
  ingest_job-seen_by ⦃uuid⦄ fresh ctx args apart w = elim (Bool-cases (args.tenant_id == 0)) [
    | inl missing ↦ rw missing refl
    | inr named ↦ rw named (
        ingest-seen_by fresh (with_tenant_id ctx (uuid.to_string args.tenant_id)) args.tenant_id
          apart (tenant_uuid_from_ctx-with_tenant_id ctx args.tenant_id) args.document_id
          args.s3_key args.doc_type w)
  ]
