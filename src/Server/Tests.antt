-- ===== src/Server/Tests.antt =====
-- cmd/server/main.go at a request with a token, and at an environment with few variables.
use ragivka.Prelude.{
  ◌≡◌, ◌≢◌, refl, ◌⊎◌, true, Bool, String, some, none, str_eq, if◌then◌else◌, pos,
}
use ragivka.Errors.{Result, ok}
use ragivka.Tenant.{Ctx, get_tenant_id, with_tenant_id}
use ragivka.Middleware.Auth.{Handler, Claims, Verifier, bearer_token, jwt_auth, with_user_id}
use ragivka.Middleware.Auth.Tenants.{IsAnonymous}
use ragivka.Middleware.RateLimit.{rate_limit}
use ragivka.Middleware.RateLimit.Admission.{Held}
use ragivka.Middleware.RequestId.{request_id}
use ragivka.Server.{chain_middleware, web_chain, getenv, env_int, db_config, Environment}
use ragivka.Server.Chain.{admitted, web_chain-admits}
use ragivka.World.{pure}

-- A token names its tenant.
abbrev verifier : Verifier
verifier = record {
  verify = λ token. some (record { tenant_id = token; subject = "u" });
  equal_fold = str_eq;
}

abbrev all_pass : String → Result Bool
all_pass tenant = ok true

abbrev handler : Handler
handler ctx = pure 200

abbrev no_ctx : Ctx
no_ctx = record { tenant_id = none; user_id = none; request_id = none }

abbrev unset : Environment
unset key = if str_eq key "SESSION_TTL_MINUTES" then "ten" else ""

web_chain_runs :
    web_chain verifier all_pass "r1" "" "Bearer 111" handler no_ctx
    ≡ handler (admitted "r1" (record { tenant_id = "111"; subject = "u" }))
unfolding web_chain chain_middleware request_id jwt_auth bearer_token with_tenant_id with_user_id
    rate_limit get_tenant_id
web_chain_runs = refl

web_chain-admits_example :
    (IsAnonymous verifier "Bearer 111"
      × (web_chain verifier all_pass "r1" "" "Bearer 111" handler no_ctx ≡ pure 401))
    ⊎ ((token : String) × (claims : Claims) × (bearer_token verifier "Bearer 111" ≡ some token)
        × (verifier.verify token ≡ some claims)
        × (claims.tenant_id ≢ "")
        × (Held
              (all_pass claims.tenant_id)
              (web_chain verifier all_pass "r1" "" "Bearer 111" handler no_ctx)
            ⊎ ((all_pass claims.tenant_id ≡ ok true)
                × (web_chain verifier all_pass "r1" "" "Bearer 111" handler no_ctx
                    ≡ handler (admitted (if str_eq "" "" then "r1" else "") claims)))))
web_chain-admits_example = web_chain-admits verifier all_pass "r1" "" "Bearer 111" handler no_ctx

-- A variable that is no number counts for nothing.
env_int_invalid : env_int unset (λ text. none) "SESSION_TTL_MINUTES" (pos 30) ≡ pos 30
unfolding env_int
env_int_invalid = refl

db_config_defaults : (db_config unset).host ≡ "localhost"
unfolding db_config getenv
db_config_defaults = refl
