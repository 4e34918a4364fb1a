-- ===== src/Runtime/GenerateJob/Tests.antt =====
-- Runs of the worker of pkg/runtime/jobs.go: a session with one question.
use ragivka.Prelude.{ℕ, ◌≡◌, refl, none}
use ragivka.Errors.{Result, ok}
use ragivka.Tenant.{Ctx, tenant_id_from_ctx, tenant_uuid_from_ctx, with_tenant_id}
use ragivka.Tenant.Sample.{unary_uuid, tenant_ctx}
use ragivka.Aicore.Router.{default_policy, generate, ask}
use ragivka.Aicore.Prompts.{load_latest}
use ragivka.Runtime.Types.{GenerateResponseArgs}
use ragivka.Runtime.Sessions.{find_session, get_by_id}
use ragivka.Runtime.Messages.{create_message, list_for_session, get_by_job_id}
use ragivka.Runtime.GenerateJob.{work}
use ragivka.Runtime.GenerateJob.Rerun.{work-rerun}
use ragivka.World.{World}
use ragivka.World.Sample.{percent, plain, parrot, start}

abbrev job_args : GenerateResponseArgs
job_args = record { tenant_id = 5; session_id = 1; message_id = 2; idempotency_key = "k" }

abbrev run : Ctx → ℕ → World → Result (Unit {0}) × World
run ctx fresh w =
    work ⦃uuid = unary_uuid⦄ ⦃floats = percent⦄ ⦃regexp = plain⦄ parrot default_policy none ctx
      fresh 8 job_args w

abbrev after : World
after = (run (tenant_ctx 9) 3 start).1

finished : (run (tenant_ctx 9) 3 start).0 ≡ ok tt
unfolding work get_by_job_id ask tenant_id_from_ctx with_tenant_id get_by_id list_for_session
    load_latest create_message generate default_policy tenant_uuid_from_ctx find_session
finished = refl

work-rerun_example :
    ((run (tenant_ctx 1) 4 after).1.calls ≡ after.calls)
    × ((run (tenant_ctx 1) 4 after).1.messages ≡ after.messages)
work-rerun_example =
    work-rerun ⦃uuid = unary_uuid⦄ ⦃floats = percent⦄ ⦃regexp = plain⦄ parrot default_policy none
      (tenant_ctx 9) (tenant_ctx 1) 3 4 8 job_args start finished
