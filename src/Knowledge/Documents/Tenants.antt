-- ===== src/Knowledge/Documents/Tenants.antt =====
-- What the statements of pkg/knowledge/ingestion/indexer.go leave of the documents and the chunks of
-- other tenants.
use ragivka.Prelude.{
  ℕ, ◌==◌, ◌≡◌, ◌≢◌, refl, Bool, Bool-cases, inl, inr, String, List, [], ◌∷◌, map, Option, none,
  some, ap, if◌then◌else◌, is_some, arith,
}
use ragivka.Errors.{ok}
use ragivka.Tenant.{Ctx, Uuid, tenant_uuid_from_ctx}
use ragivka.Knowledge.Types.{DocumentStatus, Document}
use ragivka.Knowledge.Documents.{
  has_document_key, find_document, document_or_not_found, set_status, update_documents,
  get_document, update_status,
}
use ragivka.World.{World, lift}
use ragivka.World.Keeps.{Keeps, >>=-Keeps, statement-Keeps}

pub documents_of : ℕ → List Document → List Document
documents_of t [] = []
documents_of t (d ∷ rest) =
    let others = documents_of t rest in if d.tenant_id == t then d ∷ others else others

pub documents_of-set_status :
    (t id tenant : ℕ) (status : DocumentStatus) (msg : String) (now : ℕ) (table : List Document)
    → tenant ≢ t
    → documents_of t (map (set_status id tenant status msg now) table) ≡ documents_of t table
unfolding documents_of
documents_of-set_status t id tenant status msg now [] apart = refl
documents_of-set_status t id tenant status msg now (d ∷ rest) apart =
    let kept = documents_of-set_status t id tenant status msg now rest apart in
    elim (Bool-cases (has_document_key id tenant d)) [
      | inr e ↦ rw (e, kept) refl
      | inl e ↦ elim (Bool-cases (d.tenant_id == t)) [
        | inl same ↦ absurd (apart (ground (arith, e, same)))
        | inr other ↦ rw (e, other) kept
      ]
    ]

document_or_not_found-same :
    (row : Option Document) (w : World) → (document_or_not_found row w).1 ≡ w
unfolding document_or_not_found
document_or_not_found-same none w = refl
document_or_not_found-same (some d) w = refl

module _ {S : Type 0} (view : World → S)
    (blind : (w : World) (fs : List Bool) → view (record w { faults = fs }) ≡ view w) where
  -- A read changes nothing but the schedule of failures.
  pub get_document-Keeps : ⦃uuid : Uuid⦄ (ctx : Ctx) (id : ℕ) → Keeps view (get_document ctx id)
  unfolding get_document
  get_document-Keeps ctx id =
      >>=-Keeps view (lift (tenant_uuid_from_ctx ctx)) _ (λ w. refl)
        λ tenant. statement-Keeps view _ blind λ w. ap view (document_or_not_found-same _ w)

  -- An UPDATE changes the tenant's documents.
  update_documents-Keeps :
      (id tenant : ℕ) (status : DocumentStatus) (msg : String)
      → ((w : World)
          → view (record w { documents = map (set_status id tenant status msg w.now) w.documents })
            ≡ view w)
      → Keeps view (update_documents id tenant status msg)
  unfolding update_documents
  update_documents-Keeps id tenant status msg own w =
      elim (Bool-cases (is_some (find_document (has_document_key id tenant) w.documents))) [
        | inl e ↦ rw e (own w)
        | inr e ↦ rw e refl
      ]

  pub update_status-Keeps :
      ⦃uuid : Uuid⦄ (ctx : Ctx) (id tenant : ℕ) (status : DocumentStatus) (msg : String)
      → tenant_uuid_from_ctx ctx ≡ ok tenant
      → ((w : World)
          → view (record w { documents = map (set_status id tenant status msg w.now) w.documents })
            ≡ view w)
      → Keeps view (update_status ctx id status msg)
  unfolding update_status
  update_status-Keeps ctx id tenant status msg et own w = rw et (
      statement-Keeps view (update_documents id tenant status msg) blind
        (update_documents-Keeps id tenant status msg own) w)
