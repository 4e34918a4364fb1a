-- ===== src/Server/Chain.antt =====
-- Which requests the chain of cmd/server/main.go lets through to a web handler, and as whom.
use ragivka.Prelude.{
  ◌≡◌, ◌≢◌, eq_iff, arith, ◌⊎◌, inl, inr, Bool, true, String, some, str_eq, if◌then◌else◌,
}
use ragivka.Errors.{Result, ok}
use ragivka.Tenant.{Ctx, with_tenant_id}
use ragivka.Middleware.Auth.{Handler, Claims, Verifier, bearer_token, with_user_id}
use ragivka.Middleware.Auth.Tenants.{
  authenticated, IsAnonymous, jwt_auth-cases, get_tenant_id-authenticated,
}
use ragivka.Middleware.RateLimit.{rate_limit}
use ragivka.Middleware.RateLimit.Admission.{Held, rate_limit-cases}
use ragivka.Middleware.RequestId.{request_id}
use ragivka.Server.{chain_middleware, web_chain}
use ragivka.World.{pure}

-- The context of a request that came through.
abbrev pub admitted : String → Claims → Ctx
admitted id claims = record {
  tenant_id = some claims.tenant_id;
  user_id = some claims.subject;
  request_id = some id;
}

-- For every request and every handler behind the web chain, either no token of the request verifies
-- with a tenant, and the answer is 401, or one does. Then the handler does not run if the limiter
-- refuses, fails or panics on that tenant, and the answer is 429, 500 or the panic; and if the
-- limiter lets the tenant through, then the handler runs under a context with the token's tenant
-- and subject and with a request id: the client's, or the new one if it sent none.
pub web_chain-admits :
    (v : Verifier) (limiter : String → Result Bool) (fresh request_header authorization : String)
    (next : Handler) (ctx : Ctx)
    → (IsAnonymous v authorization
        × (web_chain v limiter fresh request_header authorization next ctx ≡ pure 401))
      ⊎ ((token : String) × (claims : Claims) × (bearer_token v authorization ≡ some token)
          × (v.verify token ≡ some claims)
          × (claims.tenant_id ≢ "")
          × (Held
                (limiter claims.tenant_id)
                (web_chain v limiter fresh request_header authorization next ctx)
              ⊎ ((limiter claims.tenant_id ≡ ok true)
                  × (web_chain v limiter fresh request_header authorization next ctx
                      ≡ next (
                          admitted
                            (if str_eq request_header "" then fresh else request_header)
                            claims)))))
unfolding web_chain chain_middleware request_id with_user_id with_tenant_id
web_chain-admits v limiter fresh request_header authorization next ctx =
    let ctx' : Ctx = record ctx {
      request_id = some (if str_eq request_header "" then fresh else request_header);
    } in
    elim (jwt_auth-cases v authorization (rate_limit limiter next) ctx') [
      | inl e ↦ inl e
      | inr (token, claims, et, ec, full, e) ↦
          let named : claims.tenant_id ≢ "" =
            λ empty. absurd (ground (arith, full, (eq_iff claims.tenant_id "").1 empty)) in
          inr (
            token,
            claims,
            et,
            ec,
            named,
            rw e
                (elim (rate_limit-cases limiter next (authenticated ctx' claims) claims.tenant_id
                  (get_tenant_id-authenticated ctx' claims full)) [
                    | inl (through, same) ↦ inr (through, same)
                    | inr held ↦ inl held
                  ]),
          )
    ]
