-- ===== src/Runtime/GenerateJob/Rerun.antt =====
-- A second run of the worker of pkg/runtime/jobs.go.
use ragivka.Prelude.{
  ℕ, ◌≡◌, refl, ap, sym, ◌∙◌, inl, inr, Bool, true, Option, some, some-eq_some, Bool-cases, List,
  String,
}
use ragivka.Errors.{ok, is, not_found, Result-Cases, Cases, ok-injective}
use ragivka.Tenant.{Ctx, Uuid, tenant_id_from_ctx-with_tenant_id}
use ragivka.Aicore.Router.{LlmClient, RouterPolicy}
use ragivka.Aicore.Sanitize.{Regexp}
use ragivka.Knowledge.Retrieval.{Retriever}
use ragivka.Runtime.Fsm.{is_terminal}
use ragivka.Runtime.Types.{Session, GenerateResponseArgs}
use ragivka.Runtime.Sessions.{has_key, find_session, get_by_id}
use ragivka.Runtime.Sessions.Queries.{get_by_id-found}
use ragivka.Runtime.Sessions.Calls.{get_by_id-Keeps}
use ragivka.Runtime.Messages.{get_by_job_id}
use ragivka.Runtime.Messages.Lookup.{get_by_job_id-Keeps, get_by_job_id-answered}
use ragivka.Runtime.GenerateJob.{unless_ended, unless_answered, answer, work}
use ragivka.Runtime.GenerateJob.Once.{Settled, Tctx, work-Ends}
use ragivka.Tools.Guards.{Floats}
use ragivka.World.{World, ◌>>=◌}

module _ ⦃uuid : Uuid⦄ ⦃floats : Floats⦄ ⦃regexp : Regexp⦄ (client : LlmClient)
    (policy : RouterPolicy) (retriever : Option Retriever) where
  module _ {S : Type 0} (view : World → S)
      (blind : (w : World) (fs : List Bool) → view (record w { faults = fs }) ≡ view w) where
    ended-silent :
        (ctx : Ctx) (fresh job : ℕ) (args : GenerateResponseArgs) (s : Session) (w : World)
        → find_session (has_key args.session_id args.tenant_id) w.sessions ≡ some s
        → is_terminal s.state ≡ true
        → view
            ((get_by_id (Tctx client policy retriever ctx args) args.session_id
                >>= unless_ended client policy retriever
                    (Tctx client policy retriever ctx args)
                    fresh
                    job
                    args)
              w).1
          ≡ view w
    unfolding unless_ended
    ended-silent ctx fresh job args s w found ended =
        let tctx = Tctx client policy retriever ctx args in
        let read = get_by_id tctx args.session_id w in
        let kept = get_by_id-Keeps tctx view args.session_id blind w in
        elim (Result-Cases read.0) [
          | Cases.is_ok u es ↦
              let (t, et, row, same) =
                get_by_id-found tctx w args.session_id (ap (λ r. (r, read.1)) es) in
              let tenant : t ≡ args.tenant_id =
                ok-injective (sym et ∙ tenant_id_from_ctx-with_tenant_id ctx args.tenant_id) in
              let equal : s ≡ u = some-eq_some (sym found ∙ rw (← tenant) row) in
              let over : is_terminal u.state ≡ true = rw (← equal) ended in rw (es, over) kept
          | Cases.is_err x es ↦ rw es kept
          | Cases.is_panic p es ↦ rw es kept
        ]

    Settled-silent :
        (ctx : Ctx) (fresh job : ℕ) (args : GenerateResponseArgs) (w : World)
        → Settled job args w
        → view (work client policy retriever ctx fresh job args w).1 ≡ view w
    unfolding work unless_answered
    Settled-silent ctx fresh job args w settled =
        let tctx = Tctx client policy retriever ctx args in
        let et = tenant_id_from_ctx-with_tenant_id ctx args.tenant_id in
        let found = get_by_job_id tctx job w in
        let kept = get_by_job_id-Keeps tctx view job blind w in
        elim settled [
          | inl done ↦ elim (get_by_job_id-answered tctx job args.tenant_id w et done) [
            | inl (m, em) ↦ rw em kept
            | inr em ↦ rw em kept
          ]
          | inr (s, row, ended) ↦ elim (Result-Cases found.0) [
            | Cases.is_ok m em ↦ rw em kept
            | Cases.is_err x em ↦ elim (Bool-cases (is x not_found)) [
              | inl b ↦
                  let same = get_by_job_id-Keeps tctx (λ v. v.sessions) job (λ w fs. refl) w in
                  rw (em, b) (ended-silent ctx fresh job args s found.1 (rw same row) ended ∙ kept)
              | inr b ↦ rw (em, b) kept
            ]
            | Cases.is_panic p em ↦ rw em kept
          ]
        ]

  -- If a run of the job ended without an error, then running it again at once calls no model and
  -- nothing else, and writes no message, whatever the first run found and whatever fails then.
  pub work-rerun :
      (ctx ctx' : Ctx) (fresh fresh' job : ℕ) (args : GenerateResponseArgs) (w : World)
      → (work client policy retriever ctx fresh job args w).0 ≡ ok tt
      → ((work client policy retriever ctx' fresh' job args
            (work client policy retriever ctx fresh job args w).1).1.calls
          ≡ (work client policy retriever ctx fresh job args w).1.calls)
        × ((work client policy retriever ctx' fresh' job args
              (work client policy retriever ctx fresh job args w).1).1.messages
            ≡ (work client policy retriever ctx fresh job args w).1.messages)
  work-rerun ctx ctx' fresh fresh' job args w done =
      let v = (work client policy retriever ctx fresh job args w).1 in
      let settled = work-Ends client policy retriever ctx fresh job args w done in
      (
        Settled-silent (λ u. u.calls) (λ u fs. refl) ctx' fresh' job args v settled,
        Settled-silent (λ u. u.messages) (λ u fs. refl) ctx' fresh' job args v settled,
      )

  -- The worker does not look at the job's idempotency key: with another key it does the same.
  pub work_ignores_key :
      (ctx : Ctx) (fresh job : ℕ) (args : GenerateResponseArgs) (key : String) (w : World)
      → work client policy retriever ctx fresh job (record args { idempotency_key = key }) w
        ≡ work client policy retriever ctx fresh job args w
  unfolding work unless_answered unless_ended answer
  work_ignores_key ctx fresh job args key w = refl
