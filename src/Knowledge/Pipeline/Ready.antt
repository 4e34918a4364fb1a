-- ===== src/Knowledge/Pipeline/Ready.antt =====
-- What a run of pkg/knowledge/ingestion/pipeline.go that succeeds means for its document.
use ragivka.Prelude.{ℕ, ◌≡◌, refl, ap, String}
use ragivka.Errors.{Result, ok, err, panic, Result-Cases, Cases, failed as failed_run, panicked}
use ragivka.Tenant.{Ctx, Uuid, tenant_uuid_from_ctx}
use ragivka.Knowledge.Types.{DocumentStatus, pending, processing, ready, failed, Document}
use ragivka.Knowledge.Documents.{get_document, update_status}
use ragivka.Knowledge.Documents.Status.{HasStatus, update_status-HasStatus, get_document-found}
use ragivka.Knowledge.Pipeline.{Stages, process, finish, attempt_run, unless_ready, ingest}
use ragivka.World.{World}

module _ {F : Type 0} (stages : Stages F) ⦃uuid : Uuid⦄ (fresh : ℕ → ℕ) (ctx : Ctx)
    (document tenant : ℕ) (et : tenant_uuid_from_ctx ctx ≡ ok tenant) where
  finish-HasStatus :
      (r : Result (Unit {0})) (w : World)
      → (finish stages fresh ctx document r w).0 ≡ ok tt
      → HasStatus document tenant ready (finish stages fresh ctx document r w).1.documents
  unfolding finish
  finish-HasStatus (ok u) w h = update_status-HasStatus ctx document tenant ready "" w et h
  finish-HasStatus (err e) w h = absurd (failed_run h)
  finish-HasStatus (panic p) w h = absurd (panicked h)

  attempt_run-HasStatus :
      (key doc_type : String) (w : World)
      → (attempt_run stages fresh ctx document key doc_type w).0 ≡ ok tt
      → HasStatus document tenant ready
          (attempt_run stages fresh ctx document key doc_type w).1.documents
  unfolding attempt_run
  attempt_run-HasStatus key doc_type w h =
      let marked = update_status ctx document processing "" w in
      elim (Result-Cases marked.0) [
        | Cases.is_err x e ↦ absurd (failed_run (rw e at h))
        | Cases.is_panic p e ↦ absurd (panicked (rw e at h))
        | Cases.is_ok u e ↦
            let run = process stages fresh ctx document key doc_type marked.1 in
            rw e (finish-HasStatus run.0 run.1 (rw e at h))
      ]

  unless_ready-HasStatus :
      (key doc_type : String) (d : Document) (status : DocumentStatus) (w : World)
      → (status ≡ ready → HasStatus document tenant ready w.documents)
      → (unless_ready stages fresh ctx document key doc_type status w).0 ≡ ok tt
      → HasStatus document tenant ready
          (unless_ready stages fresh ctx document key doc_type status w).1.documents
  unfolding unless_ready
  unless_ready-HasStatus key doc_type d ready w now h = now refl
  unless_ready-HasStatus key doc_type d pending w now h = attempt_run-HasStatus key doc_type w h
  unless_ready-HasStatus key doc_type d processing w now h = attempt_run-HasStatus key doc_type w h
  unless_ready-HasStatus key doc_type d failed w now h = attempt_run-HasStatus key doc_type w h

  -- If Ingest ends without an error, under a context with a tenant, then the document is in the
  -- table for that tenant and its status is Ready, whatever the database and the stages did.
  pub ingest-HasStatus :
      (key doc_type : String) (w : World)
      → (ingest stages fresh ctx document key doc_type w).0 ≡ ok tt
      → HasStatus document tenant ready
          (ingest stages fresh ctx document key doc_type w).1.documents
  unfolding ingest
  ingest-HasStatus key doc_type w h =
      let read = get_document ctx document w in
      elim (Result-Cases read.0) [
        | Cases.is_err x e ↦ absurd (failed_run (rw e at h))
        | Cases.is_panic p e ↦ absurd (panicked (rw e at h))
        | Cases.is_ok d e ↦
            let found = get_document-found ctx document tenant w et (ap (λ r. (r, read.1)) e) in
            rw e (
              unless_ready-HasStatus key doc_type d d.status read.1 (λ s. (d, found, s))
                (rw e at h))
      ]
