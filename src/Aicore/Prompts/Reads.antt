-- ===== src/Aicore/Prompts/Reads.antt =====
-- What the lookup of pkg/aicore/registry.go leaves as it was.
use ragivka.Prelude.{◌≡◌, refl, ap, Bool, String, List, Option, none, some}
use ragivka.Tenant.{Ctx, Uuid, tenant_uuid_from_ctx}
use ragivka.Aicore.Types.{PromptVersion}
use ragivka.Aicore.Prompts.{content_or_not_found, load_latest}
use ragivka.World.{World, lift}
use ragivka.World.Keeps.{Keeps, >>=-Keeps, statement-Keeps}

content_or_not_found-same :
    (row : Option PromptVersion) (w : World) → (content_or_not_found row w).1 ≡ w
unfolding content_or_not_found
content_or_not_found-same none w = refl
content_or_not_found-same (some p) w = refl

-- Nothing but the schedule of failures changes.
pub load_latest-Keeps :
    ⦃uuid : Uuid⦄ {S : Type 0} (view : World → S)
    → ((w : World) (fs : List Bool) → view (record w { faults = fs }) ≡ view w)
    → (ctx : Ctx) (name : String) → Keeps view (load_latest ctx name)
unfolding load_latest
load_latest-Keeps view blind ctx name =
    >>=-Keeps view (lift (tenant_uuid_from_ctx ctx)) _ (λ w. refl)
      λ tenant. statement-Keeps view _ blind λ w. ap view (content_or_not_found-same _ w)
