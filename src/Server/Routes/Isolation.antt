-- ===== src/Server/Routes/Isolation.antt =====
-- What an HTTP request to cmd/server/main.go leaves of the tenants that it does not speak for.
use ragivka.Prelude.{
  ℕ, Bool, ◌≡◌, ◌≢◌, refl, inl, inr, String, some, str_eq, if◌then◌else◌, Bool-cases, not, ◌||◌,
}
use ragivka.Errors.{Result, ok}
use ragivka.Tenant.{Ctx, Uuid, tenant_id_from_ctx, tenant_id_from_ctx-names}
use ragivka.Tools.Guards.{Floats}
use ragivka.Orchestrator.Endpoint.Isolation.{serve-Keeps}
use ragivka.Channel.Telegram.{extract_tenant_id}
use ragivka.Channel.Web.{
  Response, refused, listed, created, Socket, denied, opened, list_messages, create_web_session,
  open_socket,
}
use ragivka.Channel.Web.Isolation.{
  list_messages-Keeps, open_socket-Keeps, create_web_session-seen_by,
}
use ragivka.Middleware.Auth.{Handler, Claims, bearer_token, telegram_secret_auth}
use ragivka.Middleware.RateLimit.Admission.{Held, too_many, failed, panicked}
use ragivka.Middleware.RequestId.{request_id}
use ragivka.Runtime.Isolation.{seen_by}
use ragivka.Server.{chain_middleware, telegram_chain}
use ragivka.Server.Chain.{admitted, web_chain-admits}
use ragivka.Server.Isolation.{tiered_orchestrator-seen_by, telegram_webhook-isolation}
use ragivka.Server.Mux.{
  Route, metrics, health, post_message, list_history, post_session, web_socket, telegram, Target,
  handled_by, redirected, not_allowed, not_found, target_of,
}
use ragivka.Server.Wiring.{Outside}
use ragivka.Server.Routes.{
  ServedRequest, Ids, status, status_of_response, status_of_socket, jwt_secret, session_ttl, limit,
  guarded, send_turn, webhook_of, handle, on_target, serve_http,
}
use ragivka.World.{Exec, World, pure}
use ragivka.World.Keeps.{Keeps, >>=-Keeps}

module _ {S : Type 0} (view : World → S) where
  Held-Keeps : (r : Result Bool) (m : Exec ℕ) → Held r m → Keeps view m
  Held-Keeps r m (too_many _ e) w = rw e refl
  Held-Keeps r m (failed _ _ e) w = rw e refl
  Held-Keeps r m (panicked _ _ e) w = rw e refl

  status_of_response-Keeps : (r : Response) → Keeps view (status_of_response r)
  unfolding status_of_response
  status_of_response-Keeps (refused code) w = refl
  status_of_response-Keeps (listed views) w = refl
  status_of_response-Keeps (created id) w = refl

  status_of_socket-Keeps : (s : Socket) → Keeps view (status_of_socket s)
  unfolding status_of_socket
  status_of_socket-Keeps (denied code) w = refl
  status_of_socket-Keeps (opened id) w = refl

module _ ⦃uuid : Uuid⦄ ⦃floats : Floats⦄ (out : Outside) (ids : Ids) (t : ℕ) where
  -- No token of the request that verifies names the tenant, nor does its path.
  abbrev pub IsForeign : ServedRequest → Type 0
  IsForeign msg =
      ((token : String) (claims : Claims)
        → bearer_token (out.verifier (jwt_secret out ids)) msg.auth_header ≡ some token
        → (out.verifier (jwt_secret out ids)).verify token ≡ some claims
        → uuid.parse claims.tenant_id ≢ some t)
      × (extract_tenant_id msg.request.path ≢ some t)

  module _ (msg : ServedRequest) (foreign : IsForeign msg) where
    guarded-seen_by :
        (next : Handler) (ctx : Ctx)
        → ((c : Ctx) → tenant_id_from_ctx c ≢ ok t → Keeps (seen_by t) (next c))
        → Keeps (seen_by t) (guarded out ids msg next ctx)
    unfolding guarded
    guarded-seen_by next ctx isolates w =
        let v = out.verifier (jwt_secret out ids) in
        elim (web_chain-admits v (out.limiter (limit out ids)) ids.request msg.request_id
          msg.auth_header next ctx) [
            | inl (_, refused_401) ↦ rw refused_401 refl
            | inr (token, claims, et, ec, _, inl held) ↦ Held-Keeps (seen_by t) _ _ held w
            | inr (token, claims, et, ec, _, inr (let_through, ran)) ↦
                let c =
                  admitted (if str_eq msg.request_id "" then ids.request else msg.request_id)
                    claims in
                rw ran (
                  isolates c
                    (λ h.
                      foreign.0 token claims et ec
                        (tenant_id_from_ctx-names c claims.tenant_id t refl h))
                    w)
          ]

    handle-seen_by : (route : Route) (ctx : Ctx) → Keeps (seen_by t) (handle out ids msg route ctx)
    unfolding handle send_turn webhook_of telegram_chain chain_middleware request_id
        telegram_secret_auth
    handle-seen_by metrics ctx w = refl
    handle-seen_by health ctx w = refl
    handle-seen_by post_message ctx w =
        guarded-seen_by (send_turn out ids msg.request) ctx
          (λ c other.
            serve-Keeps (seen_by t) _ out.decode_message c
              (λ id text. tiered_orchestrator-seen_by out ids.question ids.answer t c id text other)
              msg.request)
          w
    handle-seen_by list_history ctx w =
        guarded-seen_by _ ctx
          (λ c other.
            >>=-Keeps (seen_by t) (list_messages c msg.request) status_of_response
              (list_messages-Keeps c (seen_by t) (λ v fs. refl) msg.request)
              (status_of_response-Keeps (seen_by t)))
          w
    handle-seen_by post_session ctx w =
        guarded-seen_by _ ctx
          (λ c other.
            >>=-Keeps (seen_by t)
              (create_web_session out.decode_tier (session_ttl out ids) ids.session c msg.request)
              status_of_response
              (create_web_session-seen_by c out.decode_tier (session_ttl out ids) ids.session t
                other msg.request)
              (status_of_response-Keeps (seen_by t)))
          w
    handle-seen_by web_socket ctx w =
        guarded-seen_by _ ctx
          (λ c other.
            >>=-Keeps (seen_by t) (open_socket c msg.request.path) status_of_socket
              (open_socket-Keeps c (seen_by t) (λ v fs. refl) msg.request.path)
              (status_of_socket-Keeps (seen_by t)))
          w
    handle-seen_by telegram ctx w =
        let secret = out.env "TELEGRAM_WEBHOOK_SECRET" in
        elim (Bool-cases (str_eq secret "" || not (str_eq msg.telegram_secret secret))) [
          | inl closed ↦ rw closed refl
          | inr let_in ↦ rw let_in (
              telegram_webhook-isolation out (session_ttl out ids) ids.question ids.answer ids.user
                ids.session _ msg.request t foreign.1 w)
        ]

    on_target-seen_by :
        (target : Target) (ctx : Ctx) → Keeps (seen_by t) (on_target out ids msg target ctx)
    unfolding on_target
    on_target-seen_by (handled_by route) ctx w =
        >>=-Keeps (seen_by t) (handle out ids msg route ctx) (λ s. pure (status s))
          (handle-seen_by route ctx) (λ s v. refl) w
    on_target-seen_by redirected ctx w = refl
    on_target-seen_by not_allowed ctx w = refl
    on_target-seen_by not_found ctx w = refl

    -- A request that does not speak for a tenant leaves what the tenant sees.
    pub serve_http-seen_by : (ctx : Ctx) → Keeps (seen_by t) (serve_http out ids msg ctx)
    unfolding serve_http
    serve_http-seen_by ctx = on_target-seen_by (target_of msg.request) ctx
