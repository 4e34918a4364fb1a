-- ===== src/Orchestrator/Queued/Accepted.antt =====
-- A question's way through pkg/orchestrator/handler.go, orchestrator.go and l2.go to the worker of
-- pkg/runtime/jobs.go.
use ragivka.Prelude.{ℕ, ◌≡◌, refl, sym, ◌∙◌, ap, String, Option, some, some-eq_some, ◌∷◌}
use ragivka.Errors.{ok, failed, panicked, Result-Cases, Cases, ok-injective}
use ragivka.Tenant.{Ctx, Uuid, tenant_id_from_ctx}
use ragivka.Aicore.Router.{LlmClient, RouterPolicy}
use ragivka.Aicore.Sanitize.{Regexp}
use ragivka.Tools.Guards.{Floats}
use ragivka.Knowledge.Retrieval.{Retriever}
use ragivka.Orchestrator.Parts.{user_message, session_ctx}
use ragivka.Orchestrator.Dispatch.{Handler, TieredOrchestrator, run}
use ragivka.Orchestrator.Dispatch.Tiers.{IsQueued, handler_for-queued}
use ragivka.Orchestrator.Endpoint.{HttpRequest, extract_session_id, serve}
use ragivka.Orchestrator.Endpoint.Status.{serve-accepted}
use ragivka.Orchestrator.Queued.{JobEnqueuer, job_args, handle_l2}
use ragivka.Orchestrator.Queued.Enqueued.{Enqueued, handle_l2-done}
use ragivka.Runtime.Types.{Session, Message}
use ragivka.Runtime.Sessions.{get_by_id, has_key, find_session}
use ragivka.Runtime.Sessions.Calls.{get_by_id-Keeps}
use ragivka.Runtime.Sessions.Queries.{get_by_id-found}
use ragivka.Runtime.Messages.{filled_message}
use ragivka.Runtime.GenerateJob.{work}
use ragivka.Runtime.GenerateJob.Once.{Settled, work-Ends}
use ragivka.World.{World, Call}

module _ ⦃uuid : Uuid⦄ (queue : JobEnqueuer) (fresh : ℕ) (l0 l1 : Handler) where
  abbrev pub with_queue : TieredOrchestrator
  with_queue = record { l0 = l0; l1 = l1; l2 = handle_l2 queue fresh }

  run-done :
      (ctx : Ctx) (id tenant : ℕ) (text : String) (s : Session) (w : World)
      → tenant_id_from_ctx ctx ≡ ok tenant
      → find_session (has_key id tenant) w.sessions ≡ some s
      → IsQueued s
      → (run with_queue ctx id text w).0 ≡ ok tt
      → Enqueued queue fresh s text w (run with_queue ctx id text w).1
  unfolding run
  run-done ctx id tenant text s w et found queued done =
      let loaded = get_by_id ctx id w in
      elim (Result-Cases loaded.0) [
        | Cases.is_err x e ↦ absurd (failed (rw e at done))
        | Cases.is_panic p e ↦ absurd (panicked (rw e at done))
        | Cases.is_ok s' e ↦
            let (t, et', found', kept) = get_by_id-found ctx w id (ap (λ r. (r, loaded.1)) e) in
            let one_tenant : t ≡ tenant = ok-injective (sym et' ∙ et) in
            let one : s' ≡ s = some-eq_some (sym (rw one_tenant at found') ∙ found) in
            let chosen = handler_for-queued with_queue s queued in
            let (m, same, stored, called) =
              handle_l2-done queue fresh (session_ctx ctx s) s text loaded.1
                (rw (e, one, chosen) at done) in
            let messages = get_by_id-Keeps ctx (λ v. v.messages) id (λ v fs. refl) w in
            let calls = get_by_id-Keeps ctx (λ v. v.calls) id (λ v fs. refl) w in
            let now = get_by_id-Keeps ctx (λ v. v.now) id (λ v fs. refl) w in
            rw (e, one, chosen) (m, same, rw (messages, now) at stored, rw calls at called)
      ]

  -- The row of a question.
  abbrev pub question_of : Session → String → Message
  question_of s text = filled_message s.tenant_id fresh (user_message fresh s text)

  -- Let the path of a request name a session of the context's tenant in tier L2 or L3, and let the
  -- endpoint answer 202 to the text that the body decodes to. Then the question stands in the
  -- session, as the newest row of the table and under the session's tenant, and its job is the one
  -- call made. And once that job has run without an error, in whatever world, under whatever context
  -- and with whatever model, a message of that world answers it, or the session has ended.
  pub accepted_answered :
      ⦃floats : Floats⦄ ⦃regexp : Regexp⦄ (client : LlmClient) (policy : RouterPolicy)
      (retriever : Option Retriever) (decode : ℕ → String → Option String) (ctx c : Ctx)
      (req : HttpRequest) (id tenant : ℕ) (s : Session) (text : String) (w u : World)
      (fresh' job : ℕ)
      → tenant_id_from_ctx ctx ≡ ok tenant
      → uuid.parse (extract_session_id req.path) ≡ some id
      → find_session (has_key id tenant) w.sessions ≡ some s
      → IsQueued s
      → decode 1048576 req.body ≡ some text
      → (serve (run with_queue) decode ctx req w).0 ≡ ok 202
      → (work client policy retriever c fresh' job (job_args s (question_of s text)) u).0 ≡ ok tt
      → ((serve (run with_queue) decode ctx req w).1.messages
          ≡ (record (question_of s text) { created_at = w.now } ∷ w.messages))
        × ((serve (run with_queue) decode ctx req w).1.calls
            ≡ (Call.enqueue (job_args s (question_of s text)) ∷ w.calls))
        × Settled job
            (job_args s (question_of s text))
            (work client policy retriever c fresh' job (job_args s (question_of s text)) u).1
  accepted_answered client policy retriever decode ctx c req id tenant s text w u fresh' job et ei
        found queued body accepted ended =
      let (post, (id', text', ei', body', full, done, same)) =
        serve-accepted (run with_queue) decode ctx req w accepted in
      let one : id' ≡ id = some-eq_some (sym ei' ∙ ei) in
      let said : text' ≡ text = some-eq_some (sym body' ∙ body) in
      let (m, filled, stored, called) =
        run-done ctx id tenant text s w et found queued (rw (one, said) at done) in
      (
        rw (same, one, said) (rw filled at stored),
        rw (same, one, said) (rw filled at called),
        work-Ends client policy retriever c fresh' job (job_args s (question_of s text)) u ended,
      )
