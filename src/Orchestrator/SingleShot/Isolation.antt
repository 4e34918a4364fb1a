-- ===== src/Orchestrator/SingleShot/Isolation.antt =====
-- What the handler of pkg/orchestrator/l0.go leaves of the other tenants.
use ragivka.Prelude.{ℕ, ◌≢◌, refl, String, [], pos}
use ragivka.Tenant.{Ctx, Uuid, tenant_id_from_ctx-with_tenant_id}
use ragivka.Aicore.Router.{LlmClient, RouterPolicy, generate}
use ragivka.Aicore.Router.Unchanged.{generate-Keeps}
use ragivka.Orchestrator.Parts.{new_message, user_message, session_ctx}
use ragivka.Orchestrator.SingleShot.{l0_request, handle_l0}
use ragivka.Runtime.Types.{Session}
use ragivka.Runtime.Messages.{create_message, list_for_session}
use ragivka.Runtime.Messages.Insertion.{list_for_session-Keeps}
use ragivka.Runtime.Isolation.{seen_by, ask-seen_by, create_message-seen_by}
use ragivka.World.{context}
use ragivka.World.Keeps.{Keeps, >>=-Keeps}

pub handle_l0-seen_by :
    ⦃uuid : Uuid⦄ (t : ℕ) (client : LlmClient) (policy : RouterPolicy) (fresh fresh' : ℕ)
    (ctx : Ctx) (session : Session) (text : String)
    → session.tenant_id ≢ t
    → Keeps (seen_by t) (handle_l0 client policy fresh fresh' ctx session text)
unfolding handle_l0
handle_l0-seen_by t client policy fresh fresh' ctx session text apart =
    let tctx = session_ctx ctx session in
    let own =
      create_message-seen_by t session.tenant_id apart tctx
        (tenant_id_from_ctx-with_tenant_id ctx session.tenant_id) in
    >>=-Keeps (seen_by t)
      (context "l0: save user message"
        (create_message tctx fresh (user_message fresh session text)))
      _ (own fresh (user_message fresh session text))
      λ asked.
        >>=-Keeps (seen_by t)
          (context "l0: load history" (list_for_session tctx session.id (pos 0))) _
          (list_for_session-Keeps tctx (seen_by t) (λ v fs. refl) session.id (pos 0))
          λ history.
            >>=-Keeps (seen_by t)
              (context "l0: generate" (generate client policy tctx (l0_request history))) _
              (generate-Keeps (seen_by t) (ask-seen_by t) client policy tctx (l0_request history))
              λ resp.
                >>=-Keeps (seen_by t)
                  (context "l0: save assistant message" (
                    create_message tctx fresh'
                      (new_message fresh' session "assistant" resp.content [])))
                  _ (own fresh' (new_message fresh' session "assistant" resp.content []))
                  (λ m w. refl)
