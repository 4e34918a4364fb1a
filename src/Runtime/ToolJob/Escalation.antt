-- ===== src/Runtime/ToolJob/Escalation.antt =====
-- A write tool's job with low confidence (pkg/runtime/tool_job.go).
use ragivka.Prelude.{◌≡◌, refl, String, true, some, [], map}
use ragivka.Errors.{ok, err, invalid_transition}
use ragivka.Tenant.{Ctx, Uuid, with_tenant_id, tenant_id_from_ctx-with_tenant_id}
use ragivka.Runtime.Fsm.{active, waiting_for_human, allowed}
use ragivka.Runtime.Types.{Session}
use ragivka.Runtime.Sessions.{has_key, find_session, advance_row}
use ragivka.Runtime.Sessions.Queries.{matched-find_session, get_by_id_quiet}
use ragivka.Runtime.Sessions.Transition.{transition_found, transition_disallowed}
use ragivka.Runtime.ToolJob.{ExecuteToolArgs, to_waiting, escalated, escalate, gated, by_kind, work}
use ragivka.Tools.Types.{kind_write, Tool}
use ragivka.Tools.Registry.{Registry, get}
use ragivka.Tools.Guards.{Floats, HitlGate, evaluate, AuditWriter}
use ragivka.World.{World}

module _ ⦃uuid : Uuid⦄ ⦃floats : Floats⦄ (registry : Registry) (db : AuditWriter)
    (hash_json : String → String) (gate : HitlGate) where
  work-escalate :
      (ctx : Ctx) (args : ExecuteToolArgs) (t : Tool) (w : World)
      → get registry args.tool_name ≡ ok t
      → t.kind ≡ kind_write
      → floats.less args.confidence gate.threshold ≡ true
      → work registry db hash_json gate ctx args w
        ≡ escalate registry db hash_json gate
            (with_tenant_id ctx (uuid.to_string args.tenant_id))
            args
            w
  unfolding work by_kind gated evaluate
  work-escalate ctx args t w et ek low = rw et (rw ek (rw low refl))

  -- If the tool is a write tool, the confidence is below the threshold, the job's session is
  -- Active and the database fails no statement, then the job ends without an error, having
  -- called no tool and written nothing but the session's move to WaitingForHuman.
  pub work-low_confidence :
      (ctx : Ctx) (args : ExecuteToolArgs) (t : Tool) (s : Session) (w : World)
      → w.faults ≡ []
      → get registry args.tool_name ≡ ok t
      → t.kind ≡ kind_write
      → floats.less args.confidence gate.threshold ≡ true
      → find_session (has_key args.session_id args.tenant_id) w.sessions ≡ some s
      → s.state ≡ active
      → work registry db hash_json gate ctx args w ≡ (
        ok tt,
        record w {
          sessions =
              map
                (advance_row args.session_id args.tenant_id waiting_for_human s.version w.now)
                w.sessions;
        },
      )
  unfolding escalate to_waiting escalated allowed
  work-low_confidence ctx args t s w quiet et ek low found act =
      let tctx = with_tenant_id ctx (uuid.to_string args.tenant_id) in
      let tenant = tenant_id_from_ctx-with_tenant_id ctx args.tenant_id in
      rw (work-escalate ctx args t w et ek low) (
        rw (get_by_id_quiet tctx args.session_id args.tenant_id s w quiet tenant found) (
          rw
            (transition_found tctx args.session_id s.state waiting_for_human s.version
              args.tenant_id w quiet tenant (rw act refl)
              (matched-find_session args.session_id args.tenant_id s w.sessions found))
            refl))

  -- Under the same conditions, a session that already waits for a human makes the job fail with
  -- the error of a transition that is not allowed, and changes nothing.
  pub work-already_waiting :
      (ctx : Ctx) (args : ExecuteToolArgs) (t : Tool) (s : Session) (w : World)
      → w.faults ≡ []
      → get registry args.tool_name ≡ ok t
      → t.kind ≡ kind_write
      → floats.less args.confidence gate.threshold ≡ true
      → find_session (has_key args.session_id args.tenant_id) w.sessions ≡ some s
      → s.state ≡ waiting_for_human
      → work registry db hash_json gate ctx args w
        ≡ (err (invalid_transition waiting_for_human waiting_for_human), w)
  unfolding escalate to_waiting escalated allowed
  work-already_waiting ctx args t s w quiet et ek low found waits =
      let tctx = with_tenant_id ctx (uuid.to_string args.tenant_id) in
      let tenant = tenant_id_from_ctx-with_tenant_id ctx args.tenant_id in
      rw (work-escalate ctx args t w et ek low) (
        rw (get_by_id_quiet tctx args.session_id args.tenant_id s w quiet tenant found) (
          rw
            (transition_disallowed tctx args.session_id s.state waiting_for_human s.version w
              (rw waits refl))
            (rw waits refl)))
