-- ===== src/Server/Routes.antt =====
-- cmd/server/main.go: what an HTTP request runs, from the route through its chain of middlewares to
-- its handler. Of an answer the status is kept.
pub mod Isolation
pub mod Refused
mod Tests
use ragivka.Prelude.{
  ℕ, ◌+◌, ◌-◌, ◌*◌, Bool, String, Option, none, some, List, str_eq, if◌then◌else◌, ℤ, pos, negsuc,
}
use ragivka.Errors.{Result, ok, err, panic}
use ragivka.Tenant.{Ctx, Uuid}
use ragivka.Aicore.Router.{LlmClient}
use ragivka.Tools.Guards.{Floats}
use ragivka.Knowledge.Retrieval.Hybrid.{EmbedTexts, Scoring}
use ragivka.Orchestrator.Endpoint.{HttpRequest, serve}
use ragivka.Orchestrator.Grounded.{Decoder}
use ragivka.Orchestrator.Queued.{JobEnqueuer}
use ragivka.Orchestrator.Dispatch.{run}
use ragivka.Channel.Telegram.{BotApi, Update}
use ragivka.Channel.Web.{
  Response, refused, listed, created, Socket, denied, opened, list_messages, create_web_session,
  open_socket,
}
use ragivka.Middleware.Auth.{Handler, Verifier}
use ragivka.Server.{Environment, getenv, env_int, web_chain, telegram_chain}
use ragivka.Server.Mux.{
  Route, metrics, health, post_message, list_history, post_session, web_socket, telegram, Target,
  handled_by, redirected, not_allowed, not_found, target_of,
}
use ragivka.Server.Wiring.{Outside, tiered_orchestrator, telegram_webhook}
use ragivka.World.{Exec, ◌>>=◌, pure}

-- A request with the headers that the middlewares read.
pub record ServedRequest : Type 0 where
  pub request : HttpRequest
  pub request_id : String
  pub auth_header : String
  pub telegram_secret : String

-- The ids that a request may draw.
pub record Ids : Type 0 where
  pub request : String
  pub user : ℕ
  pub session : ℕ
  pub question : ℕ
  pub answer : ℕ

-- time.Duration(m) * time.Minute
minutes : ℤ → ℤ
minutes (pos n) = pos (n * 60000000000)
minutes (negsuc n) = negsuc ((n + 1) * 60000000000 - 1)

status_of_response : Response → Exec ℕ
status_of_response (refused code) = pure code
status_of_response (listed views) = pure 200
status_of_response (created id) = pure 201

-- An upgrade switches protocols.
status_of_socket : Socket → Exec ℕ
status_of_socket (denied code) = pure code
status_of_socket (opened id) = pure 101

-- A redirect has no status here.
pub data Reply : Type 0 where
  status : ℕ → Reply
  redirect : Reply

module _ ⦃uuid : Uuid⦄ ⦃floats : Floats⦄ (out : Outside) (ids : Ids) where
  pub jwt_secret : String
  jwt_secret = getenv out.env "JWT_SECRET" "dev-insecure-secret-change-me"

  session_ttl : ℤ
  unfolding minutes
  session_ttl = minutes (env_int out.env out.atoi "SESSION_TTL_MINUTES" (pos 30))

  limit : ℤ
  limit = env_int out.env out.atoi "RATE_LIMIT_REQUESTS_PER_MIN" (pos 60)

  -- webChain, on a request's headers
  guarded : ServedRequest → Handler → Handler
  unfolding jwt_secret limit
  guarded msg =
      web_chain (out.verifier jwt_secret) (out.limiter limit) ids.request msg.request_id
        msg.auth_header

  send_turn : HttpRequest → Handler
  send_turn req ctx =
      serve (run (tiered_orchestrator out ids.question ids.answer)) out.decode_message ctx req

  webhook_of : HttpRequest → Handler
  unfolding session_ttl
  webhook_of req ctx =
      telegram_webhook out session_ttl ids.question ids.answer ids.user ids.session ctx req

  handle : ServedRequest → Route → Handler
  unfolding guarded send_turn webhook_of status_of_response status_of_socket session_ttl
  handle msg metrics ctx = pure 200
  handle msg health ctx = pure 200
  handle msg post_message ctx = guarded msg (send_turn msg.request) ctx
  handle msg list_history ctx =
      guarded msg (λ c. do r ← list_messages c msg.request; status_of_response r) ctx
  handle msg post_session ctx =
      guarded msg
        (λ c. do
          r ← create_web_session out.decode_tier session_ttl ids.session c msg.request
          status_of_response r)
        ctx
  handle msg web_socket ctx =
      guarded msg (λ c. do s ← open_socket c msg.request.path; status_of_socket s) ctx
  handle msg telegram ctx =
      telegram_chain (out.env "TELEGRAM_WEBHOOK_SECRET") ids.request msg.request_id
        msg.telegram_secret (webhook_of msg.request) ctx

  on_target : ServedRequest → Target → Ctx → Exec Reply
  unfolding handle
  on_target msg (handled_by route) ctx = do s ← handle msg route ctx; pure (status s)
  on_target msg redirected ctx = pure redirect
  on_target msg not_allowed ctx = pure (status 405)
  on_target msg not_found ctx = pure (status 404)

  -- mux.ServeHTTP
  pub serve_http : ServedRequest → Ctx → Exec Reply
  unfolding on_target
  serve_http msg ctx = on_target msg (target_of msg.request) ctx
