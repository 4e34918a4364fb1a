-- ===== src/Middleware/Auth.antt =====
-- pkg/middleware/jwtauth.go and telegramauth.go. A handler gets the context and answers a status;
-- the body of an error's answer is left out.
pub mod Tenants
use ragivka.Prelude.{
  ℕ, zero, suc, Bool, true, false, ◌||◌, String, Option, none, some, str_eq, if◌then◌else◌, not,
  ltb,
}
use ragivka.Tenant.{Ctx, with_tenant_id}
use ragivka.World.{Exec, pure}

abbrev pub Handler : Type 0
Handler = Ctx → Exec ℕ

pub record Claims : Type 0 where
  pub tenant_id : String
  pub subject : String

-- What the JWT library and strings.EqualFold answer: the claims of a token whose HMAC signature
-- and times are valid.
pub record Verifier : Type 0 where
  pub verify : String → Option Claims
  pub equal_fold : String → String → Bool

text_length : String → ℕ
text_length String.[] = 0
text_length (String.◌∷◌ c s) = suc (text_length s)

take_text : ℕ → String → String
take_text zero s = ""
take_text (suc n) String.[] = ""
take_text (suc n) (String.◌∷◌ c s) = String.◌∷◌ c (take_text n s)

drop_text : ℕ → String → String
drop_text zero s = s
drop_text (suc n) String.[] = ""
drop_text (suc n) (String.◌∷◌ c s) = drop_text n s

non_empty : String → Option String
non_empty token = if str_eq token "" then none else some token

-- The header's token, or nothing where the code has an error.
unfoldable pub bearer_token : Verifier → String → Option String
unfolding text_length take_text drop_text non_empty
bearer_token v header =
    if ltb (text_length header) 7 || not (v.equal_fold (take_text 7 header) "Bearer ")
    then none
    else non_empty (drop_text 7 header)

unfoldable pub with_user_id : Ctx → String → Ctx
with_user_id ctx id = record ctx { user_id = some id }

admit : Handler → Ctx → Option Claims → Exec ℕ
admit next ctx none = pure 401
admit next ctx (some claims) =
    if str_eq claims.tenant_id ""
    then pure 401
    else next (with_user_id (with_tenant_id ctx claims.tenant_id) claims.subject)

verified : Verifier → Option String → Option Claims
verified v none = none
verified v (some token) = v.verify token

-- JWTAuth, on the Authorization header
unfoldable pub jwt_auth : Verifier → String → Handler → Handler
unfolding admit verified
jwt_auth v header next ctx = admit next ctx (verified v (bearer_token v header))

-- TelegramSecretAuth, on the secret token's header
unfoldable pub telegram_secret_auth : String → String → Handler → Handler
telegram_secret_auth secret got next ctx =
    if str_eq secret "" || not (str_eq got secret) then pure 401 else next ctx
