-- ===== src/Orchestrator/Grounded/Isolation.antt =====
-- What the handler of pkg/orchestrator/l1.go leaves of the other tenants.
use ragivka.Prelude.{ℕ, ◌≢◌, refl, String, List, Option, some, none, pos}
use ragivka.Tenant.{Ctx, Uuid, tenant_id_from_ctx-with_tenant_id}
use ragivka.Aicore.Types.{GenerateResponse}
use ragivka.Aicore.Router.{LlmClient, RouterPolicy, generate}
use ragivka.Aicore.Router.Unchanged.{generate-Keeps}
use ragivka.Knowledge.Retrieval.{RankedChunk, Retriever}
use ragivka.Orchestrator.Parts.{new_message, user_message, session_ctx}
use ragivka.Orchestrator.Grounded.{
  Decoder, StructuredAnswer, l1_request, verdict, chunk_ids, escalate, conclude, settle, reply,
  handle_l1,
}
use ragivka.Runtime.Fsm.{waiting_for_human}
use ragivka.Runtime.Types.{Session}
use ragivka.Runtime.Sessions.{transition}
use ragivka.Runtime.Messages.{create_message, list_for_session}
use ragivka.Runtime.Messages.Insertion.{list_for_session-Keeps}
use ragivka.Runtime.Isolation.{seen_by, ask-seen_by, create_message-seen_by, transition-seen_by}
use ragivka.Tools.Guards.{Floats, HitlGate}
use ragivka.World.{context, lift}
use ragivka.World.Keeps.{Keeps, >>=-Keeps}

module _ ⦃uuid : Uuid⦄ ⦃floats : Floats⦄ (t : ℕ) (ctx : Ctx) (session : Session)
    (apart : session.tenant_id ≢ t) where
  conclude-seen_by :
      (fresh : ℕ) (chunks : List RankedChunk) (a : Option StructuredAnswer)
      → Keeps (seen_by t) (conclude fresh (session_ctx ctx session) session chunks a)
  unfolding conclude escalate
  conclude-seen_by fresh chunks none =
      let tctx = session_ctx ctx session in
      >>=-Keeps (seen_by t)
        (context "l1: escalate to WaitingForHuman"
          (transition tctx session.id session.state waiting_for_human session.version))
        _
        (transition-seen_by t session.tenant_id apart tctx
          (tenant_id_from_ctx-with_tenant_id ctx session.tenant_id) session.id session.state
          waiting_for_human session.version)
        (λ version w. refl)
  conclude-seen_by fresh chunks (some a) =
      let tctx = session_ctx ctx session in
      let m = new_message fresh session "assistant" a.answer (chunk_ids chunks) in
      >>=-Keeps (seen_by t) (context "l1: save assistant message" (create_message tctx fresh m)) _
        (create_message-seen_by t session.tenant_id apart tctx
          (tenant_id_from_ctx-with_tenant_id ctx session.tenant_id) fresh m)
        (λ saved w. refl)

  module _ (client : LlmClient) (policy : RouterPolicy) (retriever : Retriever) (gate : HitlGate)
      (decode : Decoder)
      (reads : (c : Ctx) (query : String) (k : ℕ) (alpha : floats.Float)
        → Keeps (seen_by t) (retriever c query k alpha)) where
    settle-seen_by :
        (fresh : ℕ) (chunks : List RankedChunk) (resp : GenerateResponse)
        → Keeps (seen_by t) (
            settle client policy retriever gate decode fresh
              (session_ctx ctx session)
              session
              chunks
              resp)
    unfolding settle
    settle-seen_by fresh chunks resp =
        >>=-Keeps (seen_by t)
          (context "l1: hitl evaluate" (lift (verdict gate (decode resp.content)))) _ (λ w. refl)
          (conclude-seen_by fresh chunks)

    reply-seen_by :
        (fresh : ℕ) (text : String)
        → Keeps
            (seen_by t)
            (reply client policy retriever gate decode fresh (session_ctx ctx session) session text)
    unfolding reply
    reply-seen_by fresh text =
        let tctx = session_ctx ctx session in
        >>=-Keeps (seen_by t) (context "l1: retrieve" (retriever tctx text 5 (floats.of_tenths 7)))
          _ (reads tctx text 5 (floats.of_tenths 7))
          λ chunks.
            >>=-Keeps (seen_by t)
              (context "l1: load history" (list_for_session tctx session.id (pos 0))) _
              (list_for_session-Keeps tctx (seen_by t) (λ v fs. refl) session.id (pos 0))
              λ history.
                >>=-Keeps (seen_by t)
                  (context "l1: generate" (generate client policy tctx (l1_request history chunks)))
                  _
                  (generate-Keeps (seen_by t) (ask-seen_by t) client policy tctx
                    (l1_request history chunks))
                  (settle-seen_by fresh chunks)

    pub handle_l1-seen_by :
        (fresh fresh' : ℕ) (text : String)
        → Keeps
            (seen_by t)
            (handle_l1 client policy retriever gate decode fresh fresh' ctx session text)
    unfolding handle_l1
    handle_l1-seen_by fresh fresh' text =
        let tctx = session_ctx ctx session in
        >>=-Keeps (seen_by t)
          (context "l1: save user message"
            (create_message tctx fresh (user_message fresh session text)))
          _
          (create_message-seen_by t session.tenant_id apart tctx
            (tenant_id_from_ctx-with_tenant_id ctx session.tenant_id) fresh
            (user_message fresh session text))
          (λ asked. reply-seen_by fresh' text)
