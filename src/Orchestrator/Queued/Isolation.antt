-- ===== src/Orchestrator/Queued/Isolation.antt =====
-- What the handler of pkg/orchestrator/l2.go leaves of the other tenants.
use ragivka.Prelude.{ℕ, ◌≢◌, String}
use ragivka.Tenant.{Ctx, Uuid, tenant_id_from_ctx-with_tenant_id}
use ragivka.Orchestrator.Parts.{user_message, session_ctx}
use ragivka.Orchestrator.Queued.{JobEnqueuer, handle_l2, enqueue, job_args}
use ragivka.Runtime.Types.{Session}
use ragivka.Runtime.Messages.{create_message}
use ragivka.Runtime.Isolation.{seen_by, create_message-seen_by, enqueue-seen_by}
use ragivka.World.{context}
use ragivka.World.Keeps.{Keeps, >>=-Keeps}

pub handle_l2-seen_by :
    ⦃uuid : Uuid⦄ (t : ℕ) (queue : JobEnqueuer) (fresh : ℕ) (ctx : Ctx) (session : Session)
    (text : String)
    → session.tenant_id ≢ t
    → Keeps (seen_by t) (handle_l2 queue fresh ctx session text)
unfolding handle_l2 enqueue
handle_l2-seen_by t queue fresh ctx session text apart =
    let tctx = session_ctx ctx session in
    >>=-Keeps (seen_by t)
      (context "l2: save user message"
        (create_message tctx fresh (user_message fresh session text)))
      _
      (create_message-seen_by t session.tenant_id apart tctx
        (tenant_id_from_ctx-with_tenant_id ctx session.tenant_id) fresh
        (user_message fresh session text))
      (λ asked w. enqueue-seen_by t w (job_args session asked) apart)
