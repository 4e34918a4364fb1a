-- ===== src/Server/Routes/Refused.antt =====
-- What cmd/server/main.go answers to a request without credentials.
use ragivka.Prelude.{
  ◌≡◌, refl, inl, inr, true, ◌||◌, not, String, some, str_eq, if◌then◌else◌, eq_iff, arith,
}
use ragivka.Errors.{ok}
use ragivka.Tenant.{Ctx, Uuid}
use ragivka.Tools.Guards.{Floats}
use ragivka.Middleware.Auth.{Handler, Claims, bearer_token, telegram_secret_auth}
use ragivka.Middleware.Auth.Tenants.{jwt_auth-cases}
use ragivka.Middleware.RateLimit.{rate_limit}
use ragivka.Middleware.RequestId.{request_id}
use ragivka.Server.{chain_middleware, web_chain, telegram_chain}
use ragivka.Server.Mux.{
  Route, metrics, health, post_message, list_history, post_session, web_socket, telegram, Target,
  handled_by, redirected, not_allowed, not_found, target_of,
}
use ragivka.Server.Wiring.{Outside}
use ragivka.Server.Routes.{
  ServedRequest, Ids, Reply, status, redirect, jwt_secret, limit, guarded, handle, on_target,
  serve_http,
}
use ragivka.World.{World, pure}

-- The answer to a stranger: the two public routes, 401 on every other one, and what the mux answers
-- by itself.
abbrev pub refusal : Target → Reply
refusal (handled_by metrics) = status 200
refusal (handled_by health) = status 200
refusal (handled_by _) = status 401
refusal redirected = redirect
refusal not_allowed = status 405
refusal not_found = status 404

module _ ⦃uuid : Uuid⦄ ⦃floats : Floats⦄ (out : Outside) (ids : Ids) (msg : ServedRequest) where
  -- No token that verifies names a tenant.
  abbrev pub HasNoTenant : Type 0
  HasNoTenant =
      (token : String) (claims : Claims)
      → bearer_token (out.verifier (jwt_secret out ids)) msg.auth_header ≡ some token
      → (out.verifier (jwt_secret out ids)).verify token ≡ some claims
      → claims.tenant_id ≡ ""

  -- The secret of Telegram's webhook is not configured, or not the request's.
  abbrev pub HasNoSecret : Type 0
  HasNoSecret =
      (str_eq (out.env "TELEGRAM_WEBHOOK_SECRET") ""
        || not (str_eq msg.telegram_secret (out.env "TELEGRAM_WEBHOOK_SECRET")))
      ≡ true

  module _ (no_tenant : HasNoTenant) where
    guarded-refused : (next : Handler) (ctx : Ctx) → guarded out ids msg next ctx ≡ pure 401
    unfolding guarded web_chain chain_middleware request_id
    guarded-refused next ctx =
        let v = out.verifier (jwt_secret out ids) in
        let ctx' : Ctx = record ctx {
          request_id = some (if str_eq msg.request_id "" then ids.request else msg.request_id);
        } in
        elim (jwt_auth-cases v msg.auth_header (rate_limit (out.limiter (limit out ids)) next)
          ctx') [
            | inl (_, e) ↦ e
            | inr (token, claims, et, ec, full, e) ↦
                let empty : str_eq claims.tenant_id "" ≡ true =
                  (eq_iff claims.tenant_id "").1 (no_tenant token claims et ec) in
                absurd (ground (arith, empty, full))
          ]

    module _ (no_secret : HasNoSecret) where
      handle-refused :
          (route : Route) (ctx : Ctx) (w : World)
          → on_target out ids msg (handled_by route) ctx w ≡ (ok (refusal (handled_by route)), w)
      unfolding on_target handle telegram_chain chain_middleware request_id telegram_secret_auth
      handle-refused metrics ctx w = refl
      handle-refused health ctx w = refl
      handle-refused post_message ctx w = rw (guarded-refused _ ctx) refl
      handle-refused list_history ctx w = rw (guarded-refused _ ctx) refl
      handle-refused post_session ctx w = rw (guarded-refused _ ctx) refl
      handle-refused web_socket ctx w = rw (guarded-refused _ ctx) refl
      handle-refused telegram ctx w = rw no_secret refl

      on_target-refused :
          (target : Target) (ctx : Ctx) (w : World)
          → on_target out ids msg target ctx w ≡ (ok (refusal target), w)
      unfolding on_target
      on_target-refused (handled_by route) ctx w = handle-refused route ctx w
      on_target-refused redirected ctx w = refl
      on_target-refused not_allowed ctx w = refl
      on_target-refused not_found ctx w = refl

-- A request that bears no token which verifies and names a tenant, and not the webhook's secret,
-- changes nothing whatsoever, neither a table nor a call. The routes for metrics and health answer
-- 200, every other route 401, and without a route it is redirected to a clean path or gets 404 or
-- 405.
pub serve_http-refused :
    ⦃uuid : Uuid⦄ ⦃floats : Floats⦄ (out : Outside) (ids : Ids) (msg : ServedRequest) (ctx : Ctx)
    (w : World)
    → HasNoTenant out ids msg
    → HasNoSecret out ids msg
    → serve_http out ids msg ctx w ≡ (ok (refusal (target_of msg.request)), w)
unfolding serve_http
serve_http-refused out ids msg ctx w no_tenant no_secret =
    on_target-refused out ids msg no_tenant no_secret (target_of msg.request) ctx w
