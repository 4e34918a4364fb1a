-- ===== src/Runtime/ToolJob/Guarded.antt =====
-- When the worker of pkg/runtime/tool_job.go runs a write tool.
use ragivka.Prelude.{ℕ, ◌≡◌, ◌≢◌, refl, ap, ◌∙◌, String, true, false, arith, Bool-cases, inl, inr}
use ragivka.Errors.{
  Result, ok, err, panic, is, hitl_required, optimistic_lock, Result-Cases, Cases, wrapped-ok,
  failed, panicked,
}
use ragivka.Tenant.{Ctx, Uuid, with_tenant_id}
use ragivka.Runtime.Fsm.{waiting_for_human}
use ragivka.Runtime.Sessions.{get_by_id}
use ragivka.Runtime.Sessions.Calls.{calls_of, get_by_id-calls, transition-calls}
use ragivka.Runtime.ToolJob.{
  ExecuteToolArgs, to_waiting, escalated, escalate, run_and_log, unless_executed, checked, gated,
  by_kind, work,
}
use ragivka.Tools.Types.{kind_write, Tool, AuditRecord}
use ragivka.Tools.Registry.{Registry, get, execute}
use ragivka.Tools.Guards.{Floats, HitlGate, evaluate, AuditWriter, IsDurable, is_executed, log}
use ragivka.World.{World, Exec, ◌>>=◌}
use ragivka.World.Keeps.{Keeps, >>=-Keeps}

escalated-calls : (r : Result ℕ) → Keeps calls_of (escalated r)
unfolding escalated
escalated-calls (ok version) w = refl
escalated-calls (err e) w = elim (Bool-cases (is e optimistic_lock)) [
  | inl h ↦ rw h refl
  | inr h ↦ rw h refl
]
escalated-calls (panic p) w = refl

same-at : {A : Type 0} {m n : Exec A} → m ≡ n → (w : World) → m w ≡ n w
same-at e w = ap (λ f. f w) e

module _ ⦃uuid : Uuid⦄ ⦃floats : Floats⦄ (registry : Registry) (db : AuditWriter)
    (hash_json : String → String) (gate : HitlGate) (durable : IsDurable db) where
  escalate-calls :
      (tctx : Ctx) (args : ExecuteToolArgs)
      → Keeps calls_of (escalate registry db hash_json gate tctx args)
  unfolding escalate to_waiting
  escalate-calls tctx args =
      >>=-Keeps calls_of (get_by_id tctx args.session_id)
        (λ s. to_waiting registry db hash_json gate tctx args s >>= escalated)
        (get_by_id-calls tctx args.session_id)
        λ s.
          >>=-Keeps calls_of (to_waiting registry db hash_json gate tctx args s) escalated
            (transition-calls tctx args.session_id s.state waiting_for_human s.version)
            escalated-calls

  is_executed-calls : (ctx : Ctx) (key : String) → Keeps calls_of (is_executed db hash_json ctx key)
  unfolding is_executed
  is_executed-calls ctx key w = durable.check_calls ctx key w

  -- A run that calls the tool was told by the audit log that the key is new.
  checked-not_executed :
      (tctx : Ctx) (args : ExecuteToolArgs) (w : World)
      → (checked registry db hash_json gate tctx args w).1.calls ≢ w.calls
      → (is_executed db hash_json tctx args.idempotency_key w).0 ≡ ok false
  unfolding checked unless_executed
  checked-not_executed tctx args w h =
      let kept = is_executed-calls tctx args.idempotency_key w in
      elim (Result-Cases (is_executed db hash_json tctx args.idempotency_key w).0) [
        | Cases.is_ok true e ↦ absurd (h (rw e kept))
        | Cases.is_ok false e ↦ e
        | Cases.is_err x e ↦ absurd (h (rw e kept))
        | Cases.is_panic p e ↦ absurd (h (rw e kept))
      ]

  gated-checked :
      (tctx : Ctx) (args : ExecuteToolArgs) (r : Result (Unit {0})) (w : World)
      → (gated registry db hash_json gate r tctx args w).1.calls ≢ w.calls
      → (r ≡ ok tt)
        × (gated registry db hash_json gate r tctx args w
            ≡ checked registry db hash_json gate tctx args w)
  unfolding gated
  gated-checked tctx args (ok tt) w h = (refl, refl)
  gated-checked tctx args (err e) w h = elim (Bool-cases (is e hitl_required)) [
    | inl b ↦ absurd (h (rw b (escalate-calls tctx args w)))
    | inr b ↦ absurd (h (rw b refl))
  ]
  gated-checked tctx args (panic p) w h = absurd (h refl)

  abbrev Tctx : Ctx → ExecuteToolArgs → Ctx
  Tctx ctx args = with_tenant_id ctx (uuid.to_string args.tenant_id)

  work-gated :
      (ctx : Ctx) (args : ExecuteToolArgs) (t : Tool)
      → get registry args.tool_name ≡ ok t
      → t.kind ≡ kind_write
      → work registry db hash_json gate ctx args
        ≡ gated registry db hash_json gate (evaluate gate args.confidence) (Tctx ctx args) args
  unfolding work by_kind
  work-gated ctx args t et ek = rw et (rw ek refl)

  -- If a run of the job makes a call, and the job's tool is a write tool, then the confidence is
  -- not below the gate's threshold and the audit log answered that the key was not executed.
  pub work-call_guarded :
      (ctx : Ctx) (args : ExecuteToolArgs) (t : Tool) (w : World)
      → get registry args.tool_name ≡ ok t
      → t.kind ≡ kind_write
      → (work registry db hash_json gate ctx args w).1.calls ≢ w.calls
      → (floats.less args.confidence gate.threshold ≡ false)
        × ((is_executed db hash_json
              (with_tenant_id ctx (uuid.to_string args.tenant_id))
              args.idempotency_key
              w).0
            ≡ ok false)
  unfolding evaluate
  work-call_guarded ctx args t w et ek h =
      let same = work-gated ctx args t et ek in
      let (passed, run) =
        gated-checked (Tctx ctx args) args (evaluate gate args.confidence) w (rw same at h) in
      (ground arith, checked-not_executed (Tctx ctx args) args w (rw (same, run) at h))

  log-recorded :
      (tctx : Ctx) (key tool tenant session args result : String) (w : World)
      → (log db hash_json tctx key tool tenant session args result w).0 ≡ ok tt
      → durable.recorded (log db hash_json tctx key tool tenant session args result w).1 key
  unfolding log
  log-recorded tctx key tool tenant session args result w h =
      let rec : AuditRecord = record {
        idempotency_key = key;
        tool_name = tool;
        tenant_id = tenant;
        session_id = session;
        request_hash = hash_json args;
        response_hash = hash_json result;
      } in
      durable.write_recorded tctx rec w (wrapped-ok "audit: write" (db.write tctx rec w).0 h)

  run_and_log-recorded :
      (tctx : Ctx) (args : ExecuteToolArgs) (w : World)
      → (run_and_log registry db hash_json gate tctx args w).0 ≡ ok tt
      → durable.recorded (run_and_log registry db hash_json gate tctx args w).1 args.idempotency_key
  unfolding run_and_log
  run_and_log-recorded tctx args w h =
      let run = execute registry tctx args.tool_name args.args kind_write w in
      elim (Result-Cases run.0) [
        | Cases.is_ok result e ↦ rw e (
            log-recorded tctx args.idempotency_key args.tool_name (uuid.to_string args.tenant_id)
              (uuid.to_string args.session_id) args.args result run.1 (rw e at h))
        | Cases.is_err x e ↦ absurd (failed (rw e at h))
        | Cases.is_panic p e ↦ absurd (panicked (rw e at h))
      ]

  checked-recorded :
      (tctx : Ctx) (args : ExecuteToolArgs) (w : World)
      → (checked registry db hash_json gate tctx args w).1.calls ≢ w.calls
      → (checked registry db hash_json gate tctx args w).0 ≡ ok tt
      → durable.recorded (checked registry db hash_json gate tctx args w).1 args.idempotency_key
  unfolding checked unless_executed
  checked-recorded tctx args w called h =
      let new = checked-not_executed tctx args w called in
      let asked = is_executed db hash_json tctx args.idempotency_key w in
      rw new (run_and_log-recorded tctx args asked.1 (rw new at h))

  recorded-silent :
      (tctx : Ctx) (args : ExecuteToolArgs) (w : World)
      → durable.recorded w args.idempotency_key
      → (checked registry db hash_json gate tctx args w).1.calls ≡ w.calls
  unfolding checked unless_executed is_executed
  recorded-silent tctx args w h =
      let kept = durable.check_calls tctx args.idempotency_key w in
      elim (Result-Cases (db.is_executed tctx args.idempotency_key w).0) [
        | Cases.is_ok true e ↦ rw e kept
        | Cases.is_ok false e ↦ absurd (durable.recorded_executed tctx args.idempotency_key w h e)
        | Cases.is_err x e ↦ rw e kept
        | Cases.is_panic p e ↦ rw e kept
      ]

  -- If a run of a write tool's job made a call and ended without an error, then running the job
  -- again at once makes no call, whatever fails then, provided that the audit writer keeps what its
  -- interface promises.
  pub work-rerun_silent :
      (ctx ctx' : Ctx) (args : ExecuteToolArgs) (t : Tool) (w : World)
      → get registry args.tool_name ≡ ok t
      → t.kind ≡ kind_write
      → (work registry db hash_json gate ctx args w).1.calls ≢ w.calls
      → (work registry db hash_json gate ctx args w).0 ≡ ok tt
      → (work registry db hash_json gate ctx' args
          (work registry db hash_json gate ctx args w).1).1.calls
        ≡ (work registry db hash_json gate ctx args w).1.calls
  unfolding gated
  work-rerun_silent ctx ctx' args t w et ek called done =
      let r = evaluate gate args.confidence in
      let same = work-gated ctx args t et ek in
      let (passed, run) = gated-checked (Tctx ctx args) args r w (rw same at called) in
      let first = same-at same w ∙ run in
      let v = (work registry db hash_json gate ctx args w).1 in
      let again =
        same-at (work-gated ctx' args t et ek) v
        ∙ ap (λ q. gated registry db hash_json gate q (Tctx ctx' args) args v) passed in
      let logged : durable.recorded v args.idempotency_key =
        rw first
          (checked-recorded (Tctx ctx args) args w (rw first at called) (rw first at done)) in
      ap (λ out. out.1.calls) again ∙ recorded-silent (Tctx ctx' args) args v logged
