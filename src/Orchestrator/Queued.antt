-- ===== src/Orchestrator/Queued.antt =====
-- pkg/orchestrator/l2.go: the question is stored and a job is enqueued that will answer it.
pub mod Enqueued
pub mod Isolation
pub mod Accepted
use ragivka.Prelude.{ℕ, String, length, List, ◌∷◌}
use ragivka.Errors.{Result}
use ragivka.Tenant.{Ctx, Uuid}
use ragivka.Orchestrator.Parts.{user_message, session_ctx}
use ragivka.Runtime.Types.{Session, Message, GenerateResponseArgs}
use ragivka.Runtime.Messages.{create_message}
use ragivka.World.{World, Exec, Call, ◌>>=◌, pure, context}

-- JobEnqueuer: whether the queue takes the job may change from call to call.
abbrev pub JobEnqueuer : Type 0
JobEnqueuer = GenerateResponseArgs → ℕ → Result (Unit {0})

enqueue : JobEnqueuer → GenerateResponseArgs → Exec (Unit {0})
enqueue queue args w =
    (queue args (length w.calls), record w { calls = Call.enqueue args ∷ w.calls })

module _ ⦃uuid : Uuid⦄ where
  abbrev pub job_args : Session → Message → GenerateResponseArgs
  job_args session m = record {
    tenant_id = session.tenant_id;
    session_id = session.id;
    message_id = m.id;
    idempotency_key = uuid.to_string m.id;
  }

  -- Handle; Create fills in the message that the job names.
  unfoldable pub handle_l2 : JobEnqueuer → ℕ → Ctx → Session → String → Exec (Unit {0})
  unfolding enqueue
  handle_l2 queue fresh ctx session text =
      let tctx = session_ctx ctx session in
      (do
        asked ←
            context "l2: save user message"
              (create_message tctx fresh (user_message fresh session text))
        context "l2: enqueue" (enqueue queue (job_args session asked)))
