-- ===== src/Middleware/Auth/Tenants.antt =====
-- Who gets past pkg/middleware/jwtauth.go, and as whom.
use ragivka.Prelude.{
  ◌≡◌, ◌≢◌, refl, ◌⊎◌, inl, inr, true, false, ◌||◌, not, String, Option, none, some, some-eq_some,
  ap, sym, ◌∙◌, arith, str_eq, Bool-cases, Option-cases, eq_iff, eq_refl,
}
use ragivka.Errors.{ok}
use ragivka.Tenant.{Ctx, with_tenant_id, get_tenant_id}
use ragivka.Middleware.Auth.{
  Handler, Claims, Verifier, bearer_token, with_user_id, admit, verified, jwt_auth,
  telegram_secret_auth,
}
use ragivka.World.{pure}

-- The context that JWTAuth makes of a token's claims.
abbrev pub authenticated : Ctx → Claims → Ctx
authenticated ctx claims = with_user_id (with_tenant_id ctx claims.tenant_id) claims.subject

-- The header holds no token that verifies with a tenant.
abbrev pub IsAnonymous : Verifier → String → Type 0
IsAnonymous v header =
    (token : String) (claims : Claims)
    → bearer_token v header ≡ some token
    → v.verify token ≡ some claims
    → claims.tenant_id ≡ ""

none-IsAnonymous :
    (v : Verifier) (header : String) → bearer_token v header ≡ none → IsAnonymous v header
none-IsAnonymous v header gone token claims et ec =
    let never : ◌≡◌ {A = Option String} none (some token) = sym gone ∙ et in absurd (ground arith)

unverified-IsAnonymous :
    (v : Verifier) (header token : String)
    → bearer_token v header ≡ some token
    → v.verify token ≡ none
    → IsAnonymous v header
unverified-IsAnonymous v header token et gone token' claims et' ec =
    let same : token ≡ token' = some-eq_some (sym et ∙ et') in
    let never : ◌≡◌ {A = Option Claims} none (some claims) = sym gone ∙ ap v.verify same ∙ ec in
    absurd (ground arith)

no_tenant-IsAnonymous :
    (v : Verifier) (header token : String) (claims : Claims)
    → bearer_token v header ≡ some token
    → v.verify token ≡ some claims
    → claims.tenant_id ≡ ""
    → IsAnonymous v header
no_tenant-IsAnonymous v header token claims et ec empty token' claims' et' ec' =
    let same : token ≡ token' = some-eq_some (sym et ∙ et') in
    let same_claims : claims ≡ claims' = some-eq_some (sym ec ∙ ap v.verify same ∙ ec') in
    sym (ap (λ c. c.tenant_id) same_claims) ∙ empty

-- JWTAuth answers 401 if no token verifies with a tenant, and else hands the handler the context of
-- the one that does.
pub jwt_auth-cases :
    (v : Verifier) (header : String) (next : Handler) (ctx : Ctx)
    → (IsAnonymous v header × (jwt_auth v header next ctx ≡ pure 401))
      ⊎ ((token : String) × (claims : Claims) × (bearer_token v header ≡ some token)
          × (v.verify token ≡ some claims)
          × (str_eq claims.tenant_id "" ≡ false)
          × (jwt_auth v header next ctx ≡ next (authenticated ctx claims)))
unfolding jwt_auth admit verified
jwt_auth-cases v header next ctx = elim (Option-cases (bearer_token v header)) [
  | inl gone ↦ inl (none-IsAnonymous v header gone, rw gone refl)
  | inr (token, et) ↦ elim (Option-cases (v.verify token)) [
    | inl gone ↦ inl (unverified-IsAnonymous v header token et gone, rw (et, gone) refl)
    | inr (claims, ec) ↦ elim (Bool-cases (str_eq claims.tenant_id "")) [
      | inl e ↦ inl (
        no_tenant-IsAnonymous v header token claims et ec ((eq_iff claims.tenant_id "").0 e),
        rw (et, ec, e) refl,
      )
      | inr e ↦ inr (token, claims, et, ec, e, rw (et, ec, e) refl)
    ]
  ]
]

pub get_tenant_id-authenticated :
    (ctx : Ctx) (claims : Claims)
    → str_eq claims.tenant_id "" ≡ false
    → get_tenant_id (authenticated ctx claims) ≡ ok claims.tenant_id
unfolding get_tenant_id with_user_id with_tenant_id
get_tenant_id-authenticated ctx claims e = rw e refl

-- With an empty secret, or a header that is not the secret, the Telegram webhook answers 401; with
-- a secret that is not empty and the same header the handler runs.
pub telegram_secret_auth-decides :
    (secret got : String) (next : Handler) (ctx : Ctx)
    → ((str_eq secret "" || not (str_eq got secret)) ≡ true
        → telegram_secret_auth secret got next ctx ≡ pure 401)
      × (secret ≢ "" → got ≡ secret → telegram_secret_auth secret got next ctx ≡ next ctx)
unfolding telegram_secret_auth
telegram_secret_auth-decides secret got next ctx = (
  λ h. rw h refl,
  λ full same.
      let matches : str_eq got secret ≡ true = rw same (eq_refl secret) in
      elim (Bool-cases (str_eq secret "")) [
        | inl e ↦ absurd (full ((eq_iff secret "").0 e))
        | inr e ↦ rw (e, matches) refl
      ],
)
