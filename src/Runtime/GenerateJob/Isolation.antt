-- ===== src/Runtime/GenerateJob/Isolation.antt =====
-- What the worker of pkg/runtime/jobs.go leaves of the tenants that its job is not for.
use ragivka.Prelude.{
  ℕ, ◌≢◌, refl, Bool-cases, inl, inr, String, str_eq, Option, none, some, List, [], ◌∷◌, pos,
}
use ragivka.Errors.{Result, ok, err, panic, is, not_found, prompt_not_found}
use ragivka.Tenant.{Ctx, Uuid, with_tenant_id, tenant_id_from_ctx-with_tenant_id}
use ragivka.Aicore.Router.{LlmClient, RouterPolicy, generate}
use ragivka.Aicore.Router.Unchanged.{generate-Keeps}
use ragivka.Aicore.Prompts.{load_latest}
use ragivka.Aicore.Prompts.Reads.{load_latest-Keeps}
use ragivka.Aicore.Sanitize.{Regexp}
use ragivka.Knowledge.Retrieval.{RankedChunk, Retriever}
use ragivka.Runtime.Fsm.{is_terminal}
use ragivka.Runtime.Types.{Session, Message, GenerateResponseArgs}
use ragivka.Runtime.Sessions.{get_by_id}
use ragivka.Runtime.Sessions.Calls.{get_by_id-Keeps}
use ragivka.Runtime.Messages.{list_for_session, get_by_job_id}
use ragivka.Runtime.Messages.Insertion.{list_for_session-Keeps}
use ragivka.Runtime.Messages.Lookup.{get_by_job_id-Keeps}
use ragivka.Runtime.Isolation.{seen_by, ask-seen_by, create_message-seen_by}
use ragivka.Runtime.GenerateJob.{
  last_user_message, context_of, query_context, retrieved, prompt_or_empty, system_prompt,
  llm_request, answer_message, answer, unless_ended, unless_answered, work,
}
use ragivka.Tools.Guards.{Floats}
use ragivka.World.{attempt}
use ragivka.World.Keeps.{Keeps, >>=-Keeps}

-- The retriever, if there is one, leaves what a tenant sees.
abbrev pub Reads : ⦃floats : Floats⦄ → ℕ → Option Retriever → Type 0
Reads t none = Unit
Reads ⦃floats⦄ t (some r) =
    (c : Ctx) (query : String) (k : ℕ) (alpha : floats.Float)
    → Keeps (seen_by t) (r c query k alpha)

module _ ⦃uuid : Uuid⦄ ⦃floats : Floats⦄ ⦃regexp : Regexp⦄ (client : LlmClient)
    (policy : RouterPolicy) (retriever : Option Retriever) (t : ℕ) (reads : Reads t retriever) where
  context_of-seen_by : (r : Result (List RankedChunk)) → Keeps (seen_by t) (context_of r)
  unfolding context_of
  context_of-seen_by (ok []) w = refl
  context_of-seen_by (ok (c ∷ rest)) w = refl
  context_of-seen_by (err e) w = refl
  context_of-seen_by (panic p) w = refl

  prompt_or_empty-seen_by : (r : Result String) → Keeps (seen_by t) (prompt_or_empty r)
  unfolding prompt_or_empty
  prompt_or_empty-seen_by (ok prompt) w = refl
  prompt_or_empty-seen_by (err e) w = elim (Bool-cases (is e prompt_not_found)) [
    | inl absent ↦ rw absent refl
    | inr other ↦ rw other refl
  ]
  prompt_or_empty-seen_by (panic p) w = refl

  module _ (ctx : Ctx) (args : GenerateResponseArgs) (apart : args.tenant_id ≢ t) where
    abbrev Tctx : Ctx
    Tctx = with_tenant_id ctx (uuid.to_string args.tenant_id)

    query_context-seen_by :
        (r : Retriever) (query : String)
        → Reads t (some r)
        → Keeps (seen_by t) (query_context r Tctx query)
    unfolding query_context
    query_context-seen_by r query calls =
        >>=-Keeps (seen_by t) (attempt (r Tctx query 5 (floats.of_tenths 7))) context_of
          (calls Tctx query 5 (floats.of_tenths 7)) context_of-seen_by

    retrieved-seen_by :
        (r : Option Retriever) (history : List Message)
        → Reads t r
        → Keeps (seen_by t) (retrieved r Tctx history)
    unfolding retrieved
    retrieved-seen_by none history e w = refl
    retrieved-seen_by (some r) history e w =
        elim (Bool-cases (str_eq (last_user_message history) "")) [
          | inl empty ↦ rw empty refl
          | inr full ↦ rw full (query_context-seen_by r (last_user_message history) e w)
        ]

    answer-seen_by :
        (fresh job : ℕ) → Keeps (seen_by t) (answer client policy retriever Tctx fresh job args)
    unfolding answer system_prompt
    answer-seen_by fresh job =
        >>=-Keeps (seen_by t) (list_for_session Tctx args.session_id (pos 4096)) _
          (list_for_session-Keeps Tctx (seen_by t) (λ v fs. refl) args.session_id (pos 4096))
          λ history.
            >>=-Keeps (seen_by t) (retrieved retriever Tctx history) _
              (retrieved-seen_by retriever history reads)
              λ context.
                >>=-Keeps (seen_by t) (system_prompt client policy retriever Tctx) _
                  (>>=-Keeps (seen_by t) (attempt (load_latest Tctx "default")) prompt_or_empty
                    (load_latest-Keeps (seen_by t) (λ v fs. refl) Tctx "default")
                    prompt_or_empty-seen_by)
                  λ prompt.
                    let req = llm_request prompt context.0 history in
                    >>=-Keeps (seen_by t) (generate client policy Tctx req) _
                      (generate-Keeps (seen_by t) (ask-seen_by t) client policy Tctx req)
                      λ resp.
                        create_message-seen_by t args.tenant_id apart Tctx
                          (tenant_id_from_ctx-with_tenant_id ctx args.tenant_id) fresh
                          (answer_message args job fresh context.1 resp)

    unless_ended-seen_by :
        (fresh job : ℕ) (session : Session)
        → Keeps (seen_by t) (unless_ended client policy retriever Tctx fresh job args session)
    unfolding unless_ended
    unless_ended-seen_by fresh job session w = elim (Bool-cases (is_terminal session.state)) [
      | inl ended ↦ rw ended refl
      | inr going_on ↦ rw going_on (
          >>=-Keeps (seen_by t) (answer client policy retriever Tctx fresh job args) _
            (answer-seen_by fresh job) (λ m v. refl) w)
    ]

    unless_answered-seen_by :
        (fresh job : ℕ) (existing : Result Message)
        → Keeps (seen_by t) (unless_answered client policy retriever Tctx fresh job args existing)
    unfolding unless_answered
    unless_answered-seen_by fresh job (ok m) w = refl
    unless_answered-seen_by fresh job (panic p) w = refl
    unless_answered-seen_by fresh job (err e) w = elim (Bool-cases (is e not_found)) [
      | inr other ↦ rw other refl
      | inl absent ↦ rw absent (
          >>=-Keeps (seen_by t) (get_by_id Tctx args.session_id) _
            (get_by_id-Keeps Tctx (seen_by t) args.session_id (λ v fs. refl))
            (unless_ended-seen_by fresh job) w)
    ]

    -- A job for another tenant leaves what this one sees.
    pub work-seen_by :
        (fresh job : ℕ) → Keeps (seen_by t) (work client policy retriever ctx fresh job args)
    unfolding work
    work-seen_by fresh job =
        >>=-Keeps (seen_by t) (attempt (get_by_job_id Tctx job))
          (unless_answered client policy retriever Tctx fresh job args)
          (get_by_job_id-Keeps Tctx (seen_by t) job (λ v fs. refl))
          (unless_answered-seen_by fresh job)
