-- ===== src/Storage/Artifacts/Spec.antt =====
-- What the clients of pkg/storage/artifact_repo.go may expect: a map from primary keys to rows, in
-- which a tenant sees its own rows only.
use ragivka.Prelude.{
  ℕ, ◌≡◌, Bool, ◌&&◌, Option, none, some, List, [], ◌∷◌, is_some, not, if◌then◌else◌,
}
use ragivka.Errors.{Result, ok, err, panic, other, sentinel, artifact_not_found}
use ragivka.Tenant.{Ctx, Uuid, tenant_uuid_from_ctx}
use ragivka.Runtime.Types.{Session}
use ragivka.Runtime.Sessions.{has_key, find_session}
use ragivka.Storage.Types.{Artifact}
use ragivka.Storage.Artifacts.{filled_artifact, create_artifact, get_artifact, delete_artifact}
use ragivka.Storage.Artifacts.Shelf.{Shelf, place, seen}
use ragivka.World.{World, Exec, ◌>>=◌, pure}

pub data Request : Type 0 where
  create : Ctx → ℕ → Artifact → Request
  get : Ctx → ℕ → Request
  delete : Ctx → ℕ → Request

pub data Answer : Type 0 where
  created : Artifact → Answer
  got : Artifact → Answer
  deleted : Answer

-- The map's operations, with the time and the foreign key of the database.
unfoldable pub got_or_not_found : Option Artifact → Result Answer
got_or_not_found none = err (sentinel artifact_not_found)
got_or_not_found (some a) = ok (got a)

unfoldable pub fits : List Session → Artifact → Shelf → Bool
fits sessions row f =
    not (is_some (f row.id))
    && is_some (find_session (has_key row.session_id row.tenant_id) sessions)

unfoldable pub put_row : List Session → ℕ → Artifact → Shelf → Result Answer × Shelf
put_row sessions now row f =
    if fits sessions row f
    then (ok (created row), place f row.id (some (record row { created_at = now })))
    else (err (other "constraint violation"), f)

unfoldable pub get_row : ℕ → ℕ → Shelf → Result Answer × Shelf
get_row id tenant f = (got_or_not_found (seen tenant (f id)), f)

unfoldable pub delete_row : ℕ → ℕ → Shelf → Result Answer × Shelf
delete_row id tenant f =
    if is_some (seen tenant (f id))
    then (ok deleted, place f id none)
    else (err (sentinel artifact_not_found), f)

-- A context without a tenant's UUID gets no further.
unfoldable pub with_tenant :
    Result ℕ → (ℕ → Shelf → Result Answer × Shelf) → Shelf → Result Answer × Shelf
with_tenant (ok tenant) op f = op tenant f
with_tenant (err e) op f = (err e, f)
with_tenant (panic p) op f = (panic p, f)

module _ ⦃uuid : Uuid⦄ where
  unfoldable pub act : Request → Exec Answer
  unfolding create_artifact get_artifact delete_artifact
  act (create ctx fresh a) = do row ← create_artifact ctx fresh a; pure (created row)
  act (get ctx id) = do row ← get_artifact ctx id; pure (got row)
  act (delete ctx id) = do _ ← delete_artifact ctx id; pure deleted

  unfoldable pub spec : List Session → ℕ → Request → Shelf → Result Answer × Shelf
  unfolding with_tenant put_row get_row delete_row
  spec sessions now (create ctx fresh a) =
      with_tenant (tenant_uuid_from_ctx ctx)
        (λ tenant. put_row sessions now (filled_artifact tenant fresh a))
  spec sessions now (get ctx id) = with_tenant (tenant_uuid_from_ctx ctx) (get_row id)
  spec sessions now (delete ctx id) = with_tenant (tenant_uuid_from_ctx ctx) (delete_row id)

  -- The repository's answers to the requests, in turn.
  unfoldable pub act_all : List Request → World → List (Result Answer) × World
  unfolding act
  act_all [] w = ([], w)
  act_all (r ∷ rest) w =
      let (a, v) = act r w in let (answers, u) = act_all rest v in (a ∷ answers, u)

  -- The map answers each request, except those whose statement the database refuses.
  pub data Replay (sessions : List Session) (now : ℕ)
      : List Request → Shelf → List (Result Answer) → Shelf → Type 0 where
    done : {f : Shelf} → Replay sessions now [] f [] f
    served :
        {r : Request} {rest : List Request} {f g h : Shelf} {a : Result Answer}
        {answers : List (Result Answer)}
        → spec sessions now r f ≡ (a, g)
        → Replay sessions now rest g answers h
        → Replay sessions now (r ∷ rest) f (a ∷ answers) h
    refused :
        {r : Request} {rest : List Request} {f h : Shelf} {a : Result Answer}
        {answers : List (Result Answer)}
        → a ≡ err (other "database error")
        → Replay sessions now rest f answers h
        → Replay sessions now (r ∷ rest) f (a ∷ answers) h
