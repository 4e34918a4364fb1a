-- ===== src/Orchestrator/Grounded/Answered.antt =====
-- The whole run of pkg/orchestrator/l1.go: when it shows an answer.
use mathlib.Core.Path.{subst}
use ragivka.Prelude.{ℕ, ◌≢◌, refl, ◌∙◌, String, List, pos}
use ragivka.Errors.{Result-Cases, Cases}
use ragivka.Tenant.{Ctx, Uuid}
use ragivka.Aicore.Types.{GenerateResponse}
use ragivka.Aicore.Router.{LlmClient, RouterPolicy, generate}
use ragivka.Aicore.Router.Unchanged.{generate-Keeps}
use ragivka.Knowledge.Retrieval.{RankedChunk, Retriever}
use ragivka.Orchestrator.Parts.{user_message, session_ctx}
use ragivka.Orchestrator.Grounded.{Decoder, l1_request, settle, reply, handle_l1}
use ragivka.Orchestrator.Grounded.Trust.{Shown, settle-Shown}
use ragivka.Runtime.Types.{Session, Message}
use ragivka.Runtime.Messages.{create_message, list_for_session}
use ragivka.Runtime.Messages.Insertion.{list_for_session-Keeps}
use ragivka.Tools.Guards.{Floats, HitlGate}
use ragivka.World.{World}
use ragivka.World.Keeps.{Keeps}

-- Retrieval writes no message.
abbrev pub ReadsOnly : ⦃floats : Floats⦄ → Retriever → Type 0
ReadsOnly ⦃floats⦄ retriever =
    (ctx : Ctx) (query : String) (k : ℕ) (alpha : floats.Float)
    → Keeps (λ v. v.messages) (retriever ctx query k alpha)

module _ ⦃uuid : Uuid⦄ ⦃floats : Floats⦄ (client : LlmClient) (policy : RouterPolicy)
    (retriever : Retriever) (gate : HitlGate) (decode : Decoder) (ctx : Ctx)
    (session : Session) where
  abbrev settled : ℕ → List RankedChunk → GenerateResponse → World → List Message
  settled fresh chunks resp w =
      (settle client policy retriever gate decode fresh (session_ctx ctx session) session chunks
        resp w).1.messages

  reply-Shown :
      (fresh : ℕ) (text : String) (w : World)
      → ReadsOnly retriever
      → (reply client policy retriever gate decode fresh
          (session_ctx ctx session)
          session
          text
          w).1.messages
        ≢ w.messages
      → (resp : GenerateResponse) × Shown client policy retriever gate decode ctx session resp
          w.messages
          (reply client policy retriever gate decode fresh
            (session_ctx ctx session)
            session
            text
            w).1.messages
  unfolding reply
  reply-Shown fresh text w reads h =
      let tctx = session_ctx ctx session in
      let found = retriever tctx text 5 (floats.of_tenths 7) w in
      let kept = reads tctx text 5 (floats.of_tenths 7) w in
      elim (Result-Cases found.0) [
        | Cases.is_err x e ↦ absurd (h (rw e kept))
        | Cases.is_panic p e ↦ absurd (h (rw e kept))
        | Cases.is_ok chunks e ↦
            let listed = list_for_session tctx session.id (pos 0) found.1 in
            let kept' =
              list_for_session-Keeps tctx (λ v. v.messages) (λ v fs. refl) session.id (pos 0)
                found.1
              ∙ kept in
            elim (Result-Cases listed.0) [
              | Cases.is_err x el ↦ absurd (h (rw (e, el) kept'))
              | Cases.is_panic p el ↦ absurd (h (rw (e, el) kept'))
              | Cases.is_ok history el ↦
                  let req = l1_request history chunks in
                  let asked = generate client policy tctx req listed.1 in
                  let same =
                    generate-Keeps (λ v. v.messages) (λ v asked. refl) client policy tctx req
                      listed.1
                    ∙ kept' in
                  elim (Result-Cases asked.0) [
                    | Cases.is_err x eg ↦ absurd (h (rw (e, el, eg) same))
                    | Cases.is_panic p eg ↦ absurd (h (rw (e, el, eg) same))
                    | Cases.is_ok resp eg ↦ (
                      resp,
                      rw (e, el, eg)
                          (subst
                            (λ l.
                              Shown client policy retriever gate decode ctx session resp l
                                (settled fresh chunks resp asked.1))
                            same
                            (settle-Shown client policy retriever gate decode ctx session fresh
                              chunks resp asked.1 (λ q. h (rw (e, el, eg) (q ∙ same))))),
                    )
                  ]
            ]
      ]

  -- If retrieval writes no message and the handler has written more than the user's message, then
  -- it has written one message after it: the assistant's, whose text is the answer of a response
  -- that was parsed, whose confidence is not below the gate's threshold, and that asks for no human.
  pub handle_l1-Shown :
      (fresh fresh' : ℕ) (text : String) (w : World)
      → ReadsOnly retriever
      → (handle_l1 client policy retriever gate decode fresh fresh' ctx session text w).1.messages
        ≢ (create_message
            (session_ctx ctx session)
            fresh
            (user_message fresh session text)
            w).1.messages
      → (resp : GenerateResponse) × Shown client policy retriever gate decode ctx session resp
          (create_message
            (session_ctx ctx session)
            fresh
            (user_message fresh session text)
            w).1.messages
          (handle_l1 client policy retriever gate decode fresh fresh' ctx session text w).1.messages
  unfolding handle_l1
  handle_l1-Shown fresh fresh' text w reads h =
      let saved =
        create_message (session_ctx ctx session) fresh (user_message fresh session text) w in
      elim (Result-Cases saved.0) [
        | Cases.is_err x e ↦ absurd (h (rw e refl))
        | Cases.is_panic p e ↦ absurd (h (rw e refl))
        | Cases.is_ok m e ↦ rw e (reply-Shown fresh' text saved.1 reads (rw e at h))
      ]
