-- ===== src/Storage/Artifacts/Tests.antt =====
-- pkg/storage/artifact_repo.go at a concrete table.
use ragivka.Prelude.{◌≡◌, refl, List, [], ◌∷◌}
use ragivka.Errors.{ok, err, sentinel, artifact_not_found}
use ragivka.Runtime.Sessions.{find_session}
use ragivka.Tenant.{tenant_uuid_from_ctx}
use ragivka.Tenant.Sample.{unary_uuid, tenant_ctx}
use ragivka.Storage.Types.{Artifact}
use ragivka.Storage.Artifacts.Shelf.{IsKeyed, shelf_of}
use ragivka.Storage.Artifacts.Spec.{
  Request, create, get, delete, created, got, deleted, act_all, Replay,
}
use ragivka.Storage.Artifacts.Refines.{act_all-refines}
use ragivka.World.Sample.{start}

abbrev report : Artifact
report = record {
  id = 0;
  tenant_id = 0;
  session_id = 1;
  kind = "pdf";
  s3_key = "artifacts/report.pdf";
  size_bytes = 9;
  created_at = 0;
}

-- Tenant 6 neither sees nor deletes what tenant 5 stored.
abbrev requests : List Request
requests =
    create (tenant_ctx 5) 3 report
    ∷ get (tenant_ctx 6) 3
    ∷ delete (tenant_ctx 6) 3
    ∷ get (tenant_ctx 5) 3
    ∷ delete (tenant_ctx 5) 3
    ∷ delete (tenant_ctx 5) 3
    ∷ []

abbrev row : Artifact
row = record report { id = 3; tenant_id = 5 }

act_all_answers : (act_all ⦃uuid = unary_uuid⦄ requests start).0 ≡ (
    ok (created row)
    ∷ err (sentinel artifact_not_found)
    ∷ err (sentinel artifact_not_found)
    ∷ ok (got (record row { created_at = 10 }))
    ∷ ok deleted
    ∷ err (sentinel artifact_not_found)
    ∷ [])
unfolding act_all tenant_uuid_from_ctx find_session
act_all_answers = refl

act_all-refines_example :
    Replay ⦃uuid = unary_uuid⦄ start.sessions 10 requests
      (shelf_of [])
      (act_all ⦃uuid = unary_uuid⦄ requests start).0
      (shelf_of (act_all ⦃uuid = unary_uuid⦄ requests start).1.artifacts)
    × IsKeyed (act_all ⦃uuid = unary_uuid⦄ requests start).1.artifacts
act_all-refines_example = act_all-refines ⦃uuid = unary_uuid⦄ requests start tt
