-- ===== src/Knowledge/Documents/Status.antt =====
-- What GetByID and UpdateStatus of pkg/knowledge/ingestion/indexer.go read and leave.
use ragivka.Prelude.{
  ℕ, ◌≡◌, refl, ap, ◌∙◌, true, String, some, List, [], ◌∷◌, map, is_some, arith, Bool-cases,
  Option-cases, inl, inr,
}
use ragivka.Errors.{Result, ok, ok-injective, failed}
use ragivka.Tenant.{Ctx, Uuid, tenant_uuid_from_ctx}
use ragivka.Knowledge.Types.{DocumentStatus, Document}
use ragivka.Knowledge.Documents.{
  has_document_key, find_document, document_or_not_found, set_status, update_documents,
  get_document, update_status,
}
use ragivka.World.{World}
use ragivka.World.Laws.{statement-cases, err-ne-ok}

-- The context's document has that status.
abbrev pub HasStatus : ℕ → ℕ → DocumentStatus → List Document → Type 0
HasStatus id tenant status table =
    (d : Document) × (find_document (has_document_key id tenant) table ≡ some d)
    × (d.status ≡ status)

set_status-HasStatus :
    (id tenant : ℕ) (status : DocumentStatus) (msg : String) (now : ℕ) (table : List Document)
    → is_some (find_document (has_document_key id tenant) table) ≡ true
    → HasStatus id tenant status (map (set_status id tenant status msg now) table)
unfolding find_document
set_status-HasStatus id tenant status msg now [] h = absurd (ground arith)
set_status-HasStatus id tenant status msg now (d ∷ rest) h =
    elim (Bool-cases (has_document_key id tenant d)) [
      | inl e ↦
          rw (e, e) (record d { status = status; error_msg = msg; updated_at = now }, refl, refl)
      | inr e ↦ rw (e, e) (set_status-HasStatus id tenant status msg now rest (rw e at h))
    ]

update_documents-HasStatus :
    (id tenant : ℕ) (status : DocumentStatus) (msg : String) (w : World)
    → (update_documents id tenant status msg w).0 ≡ ok tt
    → HasStatus id tenant status (update_documents id tenant status msg w).1.documents
unfolding update_documents
update_documents-HasStatus id tenant status msg w h =
    elim (Bool-cases (is_some (find_document (has_document_key id tenant) w.documents))) [
      | inl e ↦ rw e (set_status-HasStatus id tenant status msg w.now w.documents e)
      | inr e ↦ absurd (failed (rw e at h))
    ]

module _ ⦃uuid : Uuid⦄ (ctx : Ctx) where
  pub update_status-HasStatus :
      (id tenant : ℕ) (status : DocumentStatus) (msg : String) (w : World)
      → tenant_uuid_from_ctx ctx ≡ ok tenant
      → (update_status ctx id status msg w).0 ≡ ok tt
      → HasStatus id tenant status (update_status ctx id status msg w).1.documents
  unfolding update_status
  update_status-HasStatus id tenant status msg w et h = rw et (
      statement-cases (update_documents id tenant status msg) w
        (λ out. out.0 ≡ ok tt → HasStatus id tenant status out.1.documents)
        (λ fs e. update_documents-HasStatus id tenant status msg (record w { faults = fs }) e)
        (λ fs e. absurd (failed e)) (rw et at h))

  pub get_document-found :
      (id tenant : ℕ) (w : World) {d : Document} {v : World}
      → tenant_uuid_from_ctx ctx ≡ ok tenant
      → get_document ctx id w ≡ (ok d, v)
      → (find_document (has_document_key id tenant) v.documents ≡ some d)
  unfolding get_document document_or_not_found
  get_document-found id tenant w {d} {v} et h =
      statement-cases
        (λ u. document_or_not_found (find_document (has_document_key id tenant) u.documents) u) w
        (λ out. out ≡ (ok d, v) → find_document (has_document_key id tenant) v.documents ≡ some d)
        (λ fs e. elim (Option-cases (find_document (has_document_key id tenant) w.documents)) [
          | inl gone ↦ err-ne-ok (rw gone at e)
          | inr (c, found) ↦
              let read : ◌≡◌ {A = Result Document × World} (ok c, record w { faults = fs })
                  (ok d, v) =
                rw found at e in
              rw (← ap (λ out. out.1) read)
                (found ∙ ap some (ok-injective (ap (λ out. out.0) read)))
        ])
        (λ fs e. err-ne-ok e) (rw et at h)
