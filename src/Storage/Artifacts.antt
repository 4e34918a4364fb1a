-- ===== src/Storage/Artifacts.antt =====
-- pkg/storage/artifact_repo.go: the table of artifacts and its statements.
pub mod Shelf
pub mod Spec
pub mod Refines
mod Tests
use ragivka.Prelude.{
  ℕ, Bool, ◌&&◌, String, Option, none, some, List, [], ◌∷◌, ltb, not, is_some, ◌==◌, if◌then◌else◌,
}
use ragivka.Errors.{ok, err, other, sentinel, artifact_not_found}
use ragivka.Tenant.{Ctx, Uuid, tenant_uuid_from_ctx}
use ragivka.Runtime.Sessions.{has_key, find_session}
use ragivka.Storage.Types.{Artifact}
use ragivka.World.{World, Exec, ◌>>=◌, pure, fail, lift, statement}

-- WHERE tenant_id = $1 AND id = $2
abbrev pub has_artifact_key : ℕ → ℕ → Artifact → Bool
has_artifact_key id tenant a = a.tenant_id == tenant && a.id == id

pub find_artifact : (Artifact → Bool) → List Artifact → Option Artifact
find_artifact p [] = none
find_artifact p (a ∷ rest) = if p a then some a else find_artifact p rest

pub filter_artifacts : (Artifact → Bool) → List Artifact → List Artifact
filter_artifacts p [] = []
filter_artifacts p (a ∷ rest) = let kept = filter_artifacts p rest in if p a then a ∷ kept else kept

-- The primary key and the foreign key (tenant_id, session_id) of migrations/004_artifacts.sql.
pub accepts_artifact : World → Artifact → Bool
unfolding find_artifact
accepts_artifact w row =
    not (is_some (find_artifact (λ a. a.id == row.id) w.artifacts))
    && is_some (find_session (has_key row.session_id row.tenant_id) w.sessions)

-- The caller's struct does not get the time of the INSERT.
insert_artifact : Artifact → Exec Artifact
unfolding accepts_artifact
insert_artifact row w =
    if accepts_artifact w row
    then (ok row, record w { artifacts = record row { created_at = w.now } ∷ w.artifacts })
    else (err (other "constraint violation"), w)

abbrev pub filled_artifact : ℕ → ℕ → Artifact → Artifact
filled_artifact tenant fresh a = record a {
  tenant_id = tenant;
  id = if a.id == 0 then fresh else a.id;
}

artifact_or_not_found : Option Artifact → Exec Artifact
artifact_or_not_found none = fail (sentinel artifact_not_found)
artifact_or_not_found (some a) = pure a

-- ORDER BY created_at ASC
insert_oldest : Artifact → List Artifact → List Artifact
insert_oldest a [] = a ∷ []
insert_oldest a (b ∷ rest) =
    let later = insert_oldest a rest in
    if ltb b.created_at a.created_at then b ∷ later else a ∷ b ∷ rest

oldest_first : List Artifact → List Artifact
unfolding insert_oldest
oldest_first [] = []
oldest_first (a ∷ rest) = insert_oldest a (oldest_first rest)

-- No row that was deleted is an error.
delete_rows : ℕ → ℕ → Exec (Unit {0})
unfolding find_artifact filter_artifacts
delete_rows id tenant w =
    if is_some (find_artifact (has_artifact_key id tenant) w.artifacts)
    then (
      ok tt,
      record w {
        artifacts = filter_artifacts (λ a. not (has_artifact_key id tenant a)) w.artifacts;
      },
    )
    else (err (sentinel artifact_not_found), w)

module _ ⦃uuid : Uuid⦄ where
  pub create_artifact : Ctx → ℕ → Artifact → Exec Artifact
  unfolding insert_artifact
  create_artifact ctx fresh a = do
    tenant ← lift (tenant_uuid_from_ctx ctx)
    statement (insert_artifact (filled_artifact tenant fresh a))

  pub get_artifact : Ctx → ℕ → Exec Artifact
  unfolding artifact_or_not_found find_artifact
  get_artifact ctx id = do
    tenant ← lift (tenant_uuid_from_ctx ctx)
    statement λ w. artifact_or_not_found (find_artifact (has_artifact_key id tenant) w.artifacts) w

  pub list_artifacts : Ctx → ℕ → Exec (List Artifact)
  unfolding filter_artifacts oldest_first
  list_artifacts ctx session = do
    tenant ← lift (tenant_uuid_from_ctx ctx)
    statement λ w. (
      ok (
          oldest_first
            (filter_artifacts (λ a. a.tenant_id == tenant && a.session_id == session) w.artifacts)),
      w,
    )

  pub delete_artifact : Ctx → ℕ → Exec (Unit {0})
  unfolding delete_rows
  delete_artifact ctx id = do
    tenant ← lift (tenant_uuid_from_ctx ctx)
    statement (delete_rows id tenant)
