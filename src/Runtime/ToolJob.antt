-- ===== src/Runtime/ToolJob.antt =====
-- pkg/runtime/tool_job.go: the worker that runs a tool: gate, idempotency check, call, audit log.
pub mod Guarded
pub mod Escalation
mod Tests
use ragivka.Prelude.{ℕ, String, Bool, true, false, if◌then◌else◌}
use ragivka.Errors.{Err, Result, ok, err, panic, is, hitl_required, optimistic_lock}
use ragivka.Tenant.{Ctx, Uuid, with_tenant_id}
use ragivka.Runtime.Fsm.{waiting_for_human}
use ragivka.Runtime.Types.{Session}
use ragivka.Runtime.Sessions.{get_by_id, transition}
use ragivka.Tools.Types.{ToolKind, kind_read, kind_draft, kind_write, Tool}
use ragivka.Tools.Registry.{Registry, get, execute}
use ragivka.Tools.Guards.{Floats, HitlGate, evaluate, AuditWriter, is_executed, log}
use ragivka.World.{Exec, ◌>>=◌, ◌>>◌, pure, fail, lift, attempt}

pub record ExecuteToolArgs ⦃floats : Floats⦄ : Type 0 where
  pub tenant_id : ℕ
  pub session_id : ℕ
  pub tool_name : String
  pub args : String
  pub idempotency_key : String
  pub confidence : floats.Float

-- A transition that lost a race is no error of the job.
escalated : Result ℕ → Exec (Unit {0})
escalated (ok version) = pure tt
escalated (err e) = if is e optimistic_lock then pure tt else fail e
escalated (panic p) = lift (panic p)

module _ ⦃uuid : Uuid⦄ ⦃floats : Floats⦄ (registry : Registry) (db : AuditWriter)
    (hash_json : String → String) (gate : HitlGate) where
  to_waiting : Ctx → ExecuteToolArgs → Session → Exec (Result ℕ)
  to_waiting tctx args session =
      attempt (transition tctx args.session_id session.state waiting_for_human session.version)

  -- The session waits for a human, and the job ends.
  escalate : Ctx → ExecuteToolArgs → Exec (Unit {0})
  unfolding escalated to_waiting
  escalate tctx args = do
    session ← get_by_id tctx args.session_id
    r ← to_waiting tctx args session
    escalated r

  run_and_log : Ctx → ExecuteToolArgs → Exec (Unit {0})
  run_and_log tctx args = do
    result ← execute registry tctx args.tool_name args.args kind_write
    log db hash_json tctx args.idempotency_key args.tool_name (uuid.to_string args.tenant_id)
        (uuid.to_string args.session_id) args.args result

  unless_executed : Bool → Ctx → ExecuteToolArgs → Exec (Unit {0})
  unfolding run_and_log
  unless_executed executed tctx args = if executed then pure tt else run_and_log tctx args

  checked : Ctx → ExecuteToolArgs → Exec (Unit {0})
  unfolding unless_executed
  checked tctx args = do
    executed ← is_executed db hash_json tctx args.idempotency_key
    unless_executed executed tctx args

  gated : Result (Unit {0}) → Ctx → ExecuteToolArgs → Exec (Unit {0})
  unfolding escalate checked
  gated (ok _) tctx args = checked tctx args
  gated (err e) tctx args = if is e hitl_required then escalate tctx args else fail e
  gated (panic p) tctx args = lift (panic p)

  unlogged : ToolKind → Ctx → ExecuteToolArgs → Exec (Unit {0})
  unlogged kind tctx args = do result ← execute registry tctx args.tool_name args.args kind; pure tt

  by_kind : ToolKind → Ctx → ExecuteToolArgs → Exec (Unit {0})
  unfolding gated unlogged
  by_kind kind_write tctx args = gated (evaluate gate args.confidence) tctx args
  by_kind kind_read tctx args = unlogged kind_read tctx args
  by_kind kind_draft tctx args = unlogged kind_draft tctx args

  -- Work
  pub work : Ctx → ExecuteToolArgs → Exec (Unit {0})
  unfolding by_kind
  work ctx args =
      let tctx = with_tenant_id ctx (uuid.to_string args.tenant_id) in
      (do t ← lift (get registry args.tool_name); by_kind t.kind tctx args)
