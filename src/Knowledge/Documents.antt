-- ===== src/Knowledge/Documents.antt =====
-- The document table of pkg/knowledge/ingestion/indexer.go and its statements.
pub mod Status
pub mod Tenants
use ragivka.Prelude.{
  ℕ, Bool, ◌&&◌, ◌||◌, String, Option, none, some, List, [], ◌∷◌, map, not, is_some, ◌==◌, str_eq,
  if◌then◌else◌,
}
use ragivka.Errors.{ok, err, other, sentinel, document_not_found}
use ragivka.Tenant.{Ctx, Uuid, tenant_uuid_from_ctx}
use ragivka.Knowledge.Types.{DocumentStatus, Document}
use ragivka.World.{World, Exec, ◌>>=◌, pure, fail, lift, statement}

-- WHERE tenant_id = $1 AND id = $2
abbrev pub has_document_key : ℕ → ℕ → Document → Bool
has_document_key id tenant d = d.tenant_id == tenant && d.id == id

unfoldable pub find_document : (Document → Bool) → List Document → Option Document
find_document p [] = none
find_document p (d ∷ rest) = if p d then some d else find_document p rest

document_or_not_found : Option Document → Exec Document
document_or_not_found none = fail (sentinel document_not_found)
document_or_not_found (some d) = pure d

-- The primary key.
insert_document : Document → Exec Document
unfolding find_document
insert_document row w =
    if is_some (find_document (λ d. d.id == row.id) w.documents)
    then (err (other "constraint violation"), w)
    else (
      ok row,
      record w { documents = record row { created_at = w.now; updated_at = w.now } ∷ w.documents },
    )

abbrev pub filled_document : ℕ → ℕ → Document → Document
filled_document tenant fresh d = record d {
  tenant_id = tenant;
  id = if d.id == 0 then fresh else d.id;
}

-- SET status = $3, error_msg = NULLIF($4,''); a trigger sets updated_at. A NULL is read as ''.
abbrev pub set_status : ℕ → ℕ → DocumentStatus → String → ℕ → Document → Document
set_status id tenant status msg now d =
    if has_document_key id tenant d
    then record d { status = status; error_msg = msg; updated_at = now }
    else d

-- No row that was updated is an error.
update_documents : ℕ → ℕ → DocumentStatus → String → Exec (Unit {0})
unfolding find_document
update_documents id tenant status msg w =
    if is_some (find_document (has_document_key id tenant) w.documents)
    then (ok tt, record w { documents = map (set_status id tenant status msg w.now) w.documents })
    else (err (sentinel document_not_found), w)

module _ ⦃uuid : Uuid⦄ where
  pub create_document : Ctx → ℕ → Document → Exec Document
  unfolding insert_document
  create_document ctx fresh d = do
    tenant ← lift (tenant_uuid_from_ctx ctx)
    statement (insert_document (filled_document tenant fresh d))

  unfoldable pub get_document : Ctx → ℕ → Exec Document
  unfolding document_or_not_found find_document
  get_document ctx id = do
    tenant ← lift (tenant_uuid_from_ctx ctx)
    statement
        (λ w. document_or_not_found (find_document (has_document_key id tenant) w.documents) w)

  unfoldable pub update_status : Ctx → ℕ → DocumentStatus → String → Exec (Unit {0})
  unfolding update_documents
  update_status ctx id status msg = do
    tenant ← lift (tenant_uuid_from_ctx ctx)
    statement (update_documents id tenant status msg)
