-- ===== src/Server/Isolation.antt =====
-- Tenants' isolation through the whole of the Telegram webhook of cmd/server/main.go.
use ragivka.Errors.{ok}
use ragivka.Prelude.{ℕ, ◌≡◌, ◌≢◌, refl, String, some, ℤ}
use ragivka.Tenant.{Ctx, Uuid, tenant_id_from_ctx}
use ragivka.Aicore.Router.{default_policy}
use ragivka.Tools.Guards.{Floats}
use ragivka.Knowledge.Retrieval.Hybrid.{retrieve}
use ragivka.Knowledge.Retrieval.Hybrid.Reads.{retrieve-Keeps}
use ragivka.Orchestrator.Endpoint.{HttpRequest}
use ragivka.Orchestrator.SingleShot.Isolation.{handle_l0-seen_by}
use ragivka.Orchestrator.Grounded.Isolation.{handle_l1-seen_by}
use ragivka.Orchestrator.Queued.Isolation.{handle_l2-seen_by}
use ragivka.Orchestrator.Dispatch.{run}
use ragivka.Orchestrator.Dispatch.Isolation.{run-isolation}
use ragivka.Runtime.Isolation.{seen_by, embed-seen_by, send-seen_by}
use ragivka.Channel.Telegram.{extract_tenant_id, send_message}
use ragivka.Channel.Telegram.Isolation.{webhook-isolation}
use ragivka.Server.Wiring.{Outside, hitl_gate, tiered_orchestrator, telegram_webhook}
use ragivka.World.{World}
use ragivka.World.Keeps.{Keeps}

module _ ⦃uuid : Uuid⦄ ⦃floats : Floats⦄ (out : Outside) where
  -- A run of the orchestrator leaves what every tenant sees but its context's.
  pub tiered_orchestrator-seen_by :
      (fresh fresh' t : ℕ) (ctx : Ctx) (id : ℕ) (text : String)
      → tenant_id_from_ctx ctx ≢ ok t
      → Keeps (seen_by t) (run (tiered_orchestrator out fresh fresh') ctx id text)
  tiered_orchestrator-seen_by fresh fresh' t =
      run-isolation (tiered_orchestrator out fresh fresh') t
        (λ d s q. handle_l0-seen_by t out.client default_policy fresh fresh' d s q)
        (λ d s q apart.
          handle_l1-seen_by t d s apart out.client default_policy
            (retrieve out.embed out.format out.db) (hitl_gate out) out.decode_answer
            (retrieve-Keeps out.embed out.format out.db (seen_by t) (λ v fs. refl)
              (embed-seen_by t))
            fresh fresh' q)
        (λ d s q apart. handle_l2-seen_by t out.queue fresh d s q apart)

  -- A tenant whom the path of an update does not name sees after the server's webhook what it saw
  -- before, whatever the update says, whichever tier answers, and whatever the model, the embedder,
  -- the queue, the bot API and the database answer.
  pub telegram_webhook-isolation :
      (ttl : ℤ) (fresh fresh' fresh_user fresh_session : ℕ) (ctx : Ctx) (req : HttpRequest) (t : ℕ)
      → extract_tenant_id req.path ≢ some t
      → (w : World)
      → seen_by t (telegram_webhook out ttl fresh fresh' fresh_user fresh_session ctx req w).1
        ≡ seen_by t w
  unfolding telegram_webhook send_message
  telegram_webhook-isolation ttl fresh fresh' fresh_user fresh_session ctx req t not_named =
      webhook-isolation (run (tiered_orchestrator out fresh fresh'))
        (send_message out.api "https://api.telegram.org" (out.env "TELEGRAM_BOT_TOKEN"))
        out.decode_update ttl fresh_user fresh_session ctx req t not_named
        (tiered_orchestrator-seen_by fresh fresh' t) (λ c chat text v. send-seen_by t v chat text)
