-- ===== src/Server/Wiring.antt =====
-- cmd/server/main.go: the orchestrator and the Telegram webhook that the server puts together.
use ragivka.Prelude.{ℕ, Bool, String, Option, ℤ}
use ragivka.Tenant.{Ctx, Uuid}
use ragivka.Aicore.Router.{LlmClient, default_policy}
use ragivka.Tools.Guards.{Floats, HitlGate}
use ragivka.Knowledge.Retrieval.Hybrid.{EmbedTexts, Scoring, retrieve}
use ragivka.Orchestrator.Endpoint.{HttpRequest}
use ragivka.Orchestrator.SingleShot.{handle_l0}
use ragivka.Orchestrator.Grounded.{Decoder, handle_l1}
use ragivka.Orchestrator.Queued.{JobEnqueuer, handle_l2}
use ragivka.Orchestrator.Dispatch.{TieredOrchestrator, run}
use ragivka.Channel.Telegram.{BotApi, Update, send_message, webhook}
use ragivka.Errors.{Result}
use ragivka.Middleware.Auth.{Verifier}
use ragivka.Server.{Environment, hitl_threshold}
use ragivka.World.{Exec}

-- What the process talks to, and what the libraries decode: the environment, the model, the
-- embedder with how it prints a vector, the scores of the database, the queue, the bot API, JSON,
-- the tokens under a secret, and the limiter under a limit.
pub record Outside ⦃floats : Floats⦄ : Type 0 where
  pub env : Environment
  pub client : LlmClient
  pub embed : EmbedTexts
  pub format : floats.Float → String
  pub db : Scoring
  pub queue : JobEnqueuer
  pub api : BotApi
  pub decode_answer : Decoder
  pub parse_float : String → Option floats.Float
  pub atoi : String → Option ℤ
  pub decode_update : ℕ → String → Option Update
  pub decode_message : ℕ → String → Option String
  pub decode_tier : ℕ → String → String
  pub verifier : String → Verifier
  pub limiter : ℤ → String → Result Bool

module _ ⦃uuid : Uuid⦄ ⦃floats : Floats⦄ (out : Outside) where
  abbrev pub hitl_gate : HitlGate
  hitl_gate = record { threshold = hitl_threshold out.env out.parse_float }

  -- `fresh` and `fresh'` are the ids of the two messages of a turn.
  abbrev pub tiered_orchestrator : ℕ → ℕ → TieredOrchestrator
  tiered_orchestrator fresh fresh' = record {
    l0 = handle_l0 out.client default_policy fresh fresh';
    l1 =
        handle_l1 out.client default_policy (retrieve out.embed out.format out.db) hitl_gate
          out.decode_answer fresh fresh';
    l2 = handle_l2 out.queue fresh;
  }

  -- The webhook with the session's lifetime and the four ids that it may draw.
  unfoldable pub telegram_webhook : ℤ → ℕ → ℕ → ℕ → ℕ → Ctx → HttpRequest → Exec ℕ
  telegram_webhook ttl fresh fresh' fresh_user fresh_session =
      webhook (run (tiered_orchestrator fresh fresh'))
        (send_message out.api "https://api.telegram.org" (out.env "TELEGRAM_BOT_TOKEN"))
        out.decode_update ttl fresh_user fresh_session
