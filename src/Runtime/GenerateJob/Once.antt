-- ===== src/Runtime/GenerateJob/Once.antt =====
-- What the worker of pkg/runtime/jobs.go leaves when it ends without an error.
use ragivka.Prelude.{ℕ, ◌≡◌, refl, ap, sym, ◌∙◌, ◌⊎◌, inl, inr, true, Option, some, Bool-cases}
use ragivka.Errors.{ok, is, not_found, Result-Cases, Cases, ok-injective, failed, panicked}
use ragivka.Tenant.{Ctx, Uuid, with_tenant_id, tenant_id_from_ctx-with_tenant_id}
use ragivka.Aicore.Router.{LlmClient, RouterPolicy, generate}
use ragivka.Aicore.Sanitize.{Regexp}
use ragivka.Knowledge.Retrieval.{Retriever}
use ragivka.Runtime.Fsm.{is_terminal}
use ragivka.Runtime.Types.{Session, Message, GenerateResponseArgs}
use ragivka.Runtime.Sessions.{has_key, find_session, get_by_id}
use ragivka.Runtime.Sessions.Queries.{get_by_id-found}
use ragivka.Runtime.Messages.{list_for_session, get_by_job_id}
use ragivka.Runtime.Messages.Lookup.{
  IsAnswered, get_by_job_id-Keeps, get_by_job_id-found, create_message-answers,
}
use ragivka.Runtime.GenerateJob.{
  retrieved, system_prompt, llm_request, answer_message, answer, unless_ended, unless_answered,
  work,
}
use ragivka.Tools.Guards.{Floats}
use ragivka.World.{World, ◌>>=◌}
use ragivka.World.Keeps.{Ends, >>=-Ends}

-- The job has its message, or the session has ended.
abbrev pub Settled : ℕ → GenerateResponseArgs → World → Type 0
Settled job args w =
    IsAnswered job args.tenant_id w.messages
    ⊎ ((s : Session) × (find_session (has_key args.session_id args.tenant_id) w.sessions ≡ some s)
        × (is_terminal s.state ≡ true))

module _ ⦃uuid : Uuid⦄ ⦃floats : Floats⦄ ⦃regexp : Regexp⦄ (client : LlmClient)
    (policy : RouterPolicy) (retriever : Option Retriever) where
  abbrev pub Tctx : Ctx → GenerateResponseArgs → Ctx
  Tctx ctx args = with_tenant_id ctx (uuid.to_string args.tenant_id)

  answer-Ends :
      (ctx : Ctx) (fresh job : ℕ) (args : GenerateResponseArgs)
      → Ends
          (λ (m : Message) v. IsAnswered job args.tenant_id v.messages)
          (answer client policy retriever (Tctx ctx args) fresh job args)
  unfolding answer
  answer-Ends ctx fresh job args =
      let tctx = Tctx ctx args in
      let Q : Message → World → Type 0 = λ m v. IsAnswered job args.tenant_id v.messages in
      let et = tenant_id_from_ctx-with_tenant_id ctx args.tenant_id in
      >>=-Ends Q (list_for_session tctx args.session_id _) _ λ history.
        >>=-Ends Q (retrieved retriever tctx history) _ λ context.
          >>=-Ends Q (system_prompt client policy retriever tctx) _ λ prompt.
            >>=-Ends Q (generate client policy tctx (llm_request prompt context.0 history)) _
              λ resp w m done.
                create_message-answers tctx fresh job args.tenant_id
                  (answer_message args job fresh context.1 resp) m w et refl done

  unless_ended-Ends :
      (ctx : Ctx) (fresh job : ℕ) (args : GenerateResponseArgs) (s : Session) (w : World)
      → find_session (has_key args.session_id args.tenant_id) w.sessions ≡ some s
      → (unless_ended client policy retriever (Tctx ctx args) fresh job args s w).0 ≡ ok tt
      → Settled job args (unless_ended client policy retriever (Tctx ctx args) fresh job args s w).1
  unfolding unless_ended
  unless_ended-Ends ctx fresh job args s w found done =
      let run = answer client policy retriever (Tctx ctx args) fresh job args w in
      elim (Bool-cases (is_terminal s.state)) [
        | inl e ↦ rw e (inr (s, found, e))
        | inr e ↦ elim (Result-Cases run.0) [
          | Cases.is_ok m em ↦ rw (e, em) (inl (answer-Ends ctx fresh job args w m em))
          | Cases.is_err x em ↦ absurd (failed (rw (e, em) at done))
          | Cases.is_panic p em ↦ absurd (panicked (rw (e, em) at done))
        ]
      ]

  looked_up-Ends :
      (ctx : Ctx) (fresh job : ℕ) (args : GenerateResponseArgs) (w : World)
      → ((get_by_id (Tctx ctx args) args.session_id
            >>= unless_ended client policy retriever (Tctx ctx args) fresh job args)
          w).0
        ≡ ok tt
      → Settled job args
          ((get_by_id (Tctx ctx args) args.session_id
              >>= unless_ended client policy retriever (Tctx ctx args) fresh job args)
            w).1
  looked_up-Ends ctx fresh job args w done =
      let tctx = Tctx ctx args in
      let read = get_by_id tctx args.session_id w in
      elim (Result-Cases read.0) [
        | Cases.is_ok s es ↦
            let (t, et, found, same) =
              get_by_id-found tctx w args.session_id (ap (λ r. (r, read.1)) es) in
            let tenant : t ≡ args.tenant_id =
              ok-injective (sym et ∙ tenant_id_from_ctx-with_tenant_id ctx args.tenant_id) in
            rw es (
              unless_ended-Ends ctx fresh job args s read.1 (rw (same, ← tenant) found)
                (rw es at done))
        | Cases.is_err x es ↦ absurd (failed (rw es at done))
        | Cases.is_panic p es ↦ absurd (panicked (rw es at done))
      ]

  pub work-Ends :
      (ctx : Ctx) (fresh job : ℕ) (args : GenerateResponseArgs) (w : World)
      → (work client policy retriever ctx fresh job args w).0 ≡ ok tt
      → Settled job args (work client policy retriever ctx fresh job args w).1
  unfolding work unless_answered
  work-Ends ctx fresh job args w done =
      let tctx = Tctx ctx args in
      let et = tenant_id_from_ctx-with_tenant_id ctx args.tenant_id in
      let found = get_by_job_id tctx job w in
      let kept = get_by_job_id-Keeps tctx (λ v. v.messages) job (λ w fs. refl) w in
      elim (Result-Cases found.0) [
        | Cases.is_ok m em ↦
            rw em (inl (rw kept (get_by_job_id-found tctx job args.tenant_id w et em)))
        | Cases.is_err x em ↦ elim (Bool-cases (is x not_found)) [
          | inl b ↦ rw (em, b) (looked_up-Ends ctx fresh job args found.1 (rw (em, b) at done))
          | inr b ↦ absurd (failed (rw (em, b) at done))
        ]
        | Cases.is_panic p em ↦ absurd (panicked (rw em at done))
      ]
