-- ===== src/Orchestrator/SingleShot/Conversation.antt =====
-- What a run of pkg/orchestrator/l0.go that succeeds has written.
use ragivka.Prelude.{ℕ, ◌≡◌, refl, ◌∙◌, String, List, [], ◌∷◌, arith, pos}
use ragivka.Errors.{Err, Result, ok, err, panic, Result-Cases, Cases}
use ragivka.Tenant.{Ctx, Uuid, tenant_id_from_ctx-with_tenant_id}
use ragivka.Aicore.Types.{GenerateRequest, GenerateResponse}
use ragivka.Aicore.Router.{LlmClient, RouterPolicy, generate}
use ragivka.Aicore.Router.Unchanged.{generate-Keeps}
use ragivka.Orchestrator.Parts.{new_message, user_message, to_ai_messages, session_ctx}
use ragivka.Orchestrator.SingleShot.{l0_request, handle_l0}
use ragivka.Runtime.Types.{Session, Message}
use ragivka.Runtime.Messages.{create_message, list_for_session, filled_message}
use ragivka.Runtime.Messages.Insertion.{
  create_message-Keeps, create_message-inserted, list_for_session-Keeps,
}
use ragivka.World.{World}

-- The row that an INSERT at a time stores.
abbrev pub stored_at : ℕ → Message → Message
stored_at time m = record m { created_at = time }

no_value : {A B : Type 0} {e : Err} {b : B} → ◌≡◌ {A = Result B} (err e) (ok b) → A
no_value h = absurd (ground arith)

no_panic : {A B : Type 0} {p : String} {b : B} → ◌≡◌ {A = Result B} (panic p) (ok b) → A
no_panic h = absurd (ground arith)

module _ ⦃uuid : Uuid⦄ (client : LlmClient) (policy : RouterPolicy) where
  abbrev before_reply : ℕ → Ctx → Session → String → List Message → World → World
  before_reply fresh ctx session text history w =
      let tctx = session_ctx ctx session in
      (generate client policy tctx (l0_request history)
        (list_for_session tctx session.id (pos 0)
          (create_message tctx fresh (user_message fresh session text) w).1).1).1

module _ ⦃uuid : Uuid⦄ (client : LlmClient) (policy : RouterPolicy) where
  -- The listing and the model leave the messages and the time as they were.
  two_stored :
      (fresh fresh' : ℕ) (ctx : Ctx) (session : Session) (text : String) (w : World) (m n : Message)
      (history : List Message) (resp : GenerateResponse)
      → (create_message (session_ctx ctx session) fresh (user_message fresh session text) w).0
        ≡ ok m
      → (create_message
          (session_ctx ctx session)
          fresh'
          (new_message fresh' session "assistant" resp.content [])
          (before_reply client policy fresh ctx session text history w)).0
        ≡ ok n
      → (create_message
          (session_ctx ctx session)
          fresh'
          (new_message fresh' session "assistant" resp.content [])
          (before_reply client policy fresh ctx session text history w)).1.messages
        ≡ (stored_at w.now (
              filled_message session.tenant_id fresh'
                (new_message fresh' session "assistant" resp.content []))
            ∷ stored_at w.now
                (filled_message session.tenant_id fresh (user_message fresh session text))
            ∷ w.messages)
  two_stored fresh fresh' ctx session text w m n history resp e ea =
      let tctx = session_ctx ctx session in
      let row = user_message fresh session text in
      let reply = new_message fresh' session "assistant" resp.content [] in
      let et = tenant_id_from_ctx-with_tenant_id ctx session.tenant_id in
      let saved = (create_message tctx fresh row w).1 in
      let listed = (list_for_session tctx session.id (pos 0) saved).1 in
      let asked = (generate client policy tctx (l0_request history) listed).1 in
      let (first, stored) = create_message-inserted tctx fresh session.tenant_id row m w et e in
      let (second, appended) =
        create_message-inserted tctx fresh' session.tenant_id reply n asked et ea in
      let messages : asked.messages ≡ saved.messages =
        generate-Keeps (λ v. v.messages) (λ v asked. refl) client policy tctx (l0_request history)
          listed
        ∙ list_for_session-Keeps tctx (λ v. v.messages) (λ v fs. refl) session.id (pos 0) saved in
      let time : asked.now ≡ w.now =
        generate-Keeps (λ v. v.now) (λ v asked. refl) client policy tctx (l0_request history) listed
        ∙ list_for_session-Keeps tctx (λ v. v.now) (λ v fs. refl) session.id (pos 0) saved
        ∙ create_message-Keeps tctx (λ v. v.now) (λ v fs. refl) fresh row (λ v ms. refl) w in
      appended ∙ rw (second, messages, stored, first, time) refl

  -- The router's answer to the session's history, listed after the question was stored.
  abbrev pub IsAnswer : ℕ → Ctx → Session → String → World → GenerateResponse → Type 0
  IsAnswer fresh ctx session text w resp =
      let tctx = session_ctx ctx session in
      let saved = create_message tctx fresh (user_message fresh session text) w in
      let listed = list_for_session tctx session.id (pos 0) saved.1 in
      (history : List Message) × (req : GenerateRequest) × (listed.0 ≡ ok history)
      × (req.messages ≡ to_ai_messages history)
      × ((generate client policy tctx req listed.1).0 ≡ ok resp)

  -- If the handler ends without an error, then the router has answered, to a request with the
  -- session's history as it was listed after the user's text was stored, and the handler has stored
  -- two messages of the session and nothing else: the user's text, and after it the content of that
  -- answer.
  pub handle_l0-stored :
      (fresh fresh' : ℕ) (ctx : Ctx) (session : Session) (text : String) (w : World)
      → (handle_l0 client policy fresh fresh' ctx session text w).0 ≡ ok tt
      → (resp : GenerateResponse) × IsAnswer fresh ctx session text w resp
        × ((handle_l0 client policy fresh fresh' ctx session text w).1.messages ≡ (
            stored_at w.now (
              filled_message session.tenant_id fresh'
                (new_message fresh' session "assistant" resp.content []))
            ∷ stored_at w.now
                (filled_message session.tenant_id fresh (user_message fresh session text))
            ∷ w.messages))
  unfolding handle_l0
  handle_l0-stored fresh fresh' ctx session text w done =
      let tctx = session_ctx ctx session in
      let row = user_message fresh session text in
      let et = tenant_id_from_ctx-with_tenant_id ctx session.tenant_id in
      let saved = create_message tctx fresh row w in
      elim (Result-Cases saved.0) [
        | Cases.is_err x e ↦ no_value (rw e at done)
        | Cases.is_panic p e ↦ no_panic (rw e at done)
        | Cases.is_ok m e ↦
            let listed = list_for_session tctx session.id (pos 0) saved.1 in
            elim (Result-Cases listed.0) [
              | Cases.is_err x el ↦ no_value (rw (e, el) at done)
              | Cases.is_panic p el ↦ no_panic (rw (e, el) at done)
              | Cases.is_ok history el ↦
                  let asked = generate client policy tctx (l0_request history) listed.1 in
                  elim (Result-Cases asked.0) [
                    | Cases.is_err x eg ↦ no_value (rw (e, el, eg) at done)
                    | Cases.is_panic p eg ↦ no_panic (rw (e, el, eg) at done)
                    | Cases.is_ok resp eg ↦
                        let reply = new_message fresh' session "assistant" resp.content [] in
                        let answered = create_message tctx fresh' reply asked.1 in
                        elim (Result-Cases answered.0) [
                          | Cases.is_err x ea ↦ no_value (rw (e, el, eg, ea) at done)
                          | Cases.is_panic p ea ↦ no_panic (rw (e, el, eg, ea) at done)
                          | Cases.is_ok n ea ↦ (
                            resp,
                            (history, l0_request history, el, refl, eg),
                            rw (e, el, eg, ea)
                                (two_stored fresh fresh' ctx session text w m n history resp e ea),
                          )
                        ]
                  ]
            ]
      ]
