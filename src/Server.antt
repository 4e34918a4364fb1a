-- ===== src/Server.antt =====
-- cmd/server/main.go: the configuration from the environment, and the chains of middlewares before
-- the handlers.
pub mod Chain
pub mod Wiring
pub mod Isolation
pub mod Mux
pub mod Routes
pub mod Traces
mod Tests
use Prim.Native.Char.{Char}
use ragivka.Prelude.{
  ℕ, suc, ◌+◌, ◌-◌, ◌*◌, Bool, true, false, ◌&&◌, ◌||◌, String, Option, none, some, List, [], ◌∷◌,
  str_eq, leb, ltb, if◌then◌else◌, ℤ, pos, negsuc,
}
use ragivka.Errors.{Result}
use ragivka.Tools.Guards.{Floats}
use ragivka.Middleware.Auth.{Handler, Verifier, jwt_auth, telegram_secret_auth}
use ragivka.Middleware.RateLimit.{rate_limit}
use ragivka.Middleware.RequestId.{request_id}

-- The first middleware runs outermost.
pub chain_middleware : List (Handler → Handler) → Handler → Handler
chain_middleware [] final = final
chain_middleware (mw ∷ rest) final = mw (chain_middleware rest final)

-- webChain and telegramChain, on the headers of a request
pub web_chain : Verifier → (String → Result Bool) → String → String → String → Handler → Handler
web_chain v limiter fresh request_header authorization =
    chain_middleware
      (request_id fresh request_header ∷ jwt_auth v authorization ∷ rate_limit limiter ∷ [])

pub telegram_chain : String → String → String → String → Handler → Handler
telegram_chain secret fresh request_header got =
    chain_middleware (request_id fresh request_header ∷ telegram_secret_auth secret got ∷ [])

-- os.Getenv: a variable that is not set is empty.
abbrev pub Environment : Type 0
Environment = String → String

pub getenv : Environment → String → String → String
getenv env key fallback = if str_eq (env key) "" then fallback else env key

-- strconv.Atoi is a parameter; a text that it refuses is logged and forgotten.
or_fallback : ℤ → Option ℤ → ℤ
or_fallback fallback none = fallback
or_fallback fallback (some v) = v

pub env_int : Environment → (String → Option ℤ) → String → ℤ → ℤ
unfolding or_fallback
env_int env atoi key fallback =
    if str_eq (env key) "" then fallback else or_fallback fallback (atoi (env key))

pub record DbConfig : Type 0 where
  pub host : String
  pub port : String
  pub user : String
  pub password : String
  pub database : String
  pub ssl_mode : String
  pub max_conns : ℕ
  pub min_conns : ℕ

pub db_config : Environment → DbConfig
db_config env = record {
  host = getenv env "DB_HOST" "localhost";
  port = getenv env "DB_PORT" "5432";
  user = getenv env "DB_USER" "ragivka";
  password = getenv env "DB_PASSWORD" "ragivka_password";
  database = getenv env "DB_NAME" "ragivka_db";
  ssl_mode = getenv env "DB_SSLMODE" "disable";
  max_conns = 20;
  min_conns = 2;
}

module _ ⦃floats : Floats⦄ where
  threshold_or : Option floats.Float → floats.Float
  threshold_or none = floats.of_tenths 7
  threshold_or (some v) = v

  -- strconv.ParseFloat is a parameter.
  pub hitl_threshold : Environment → (String → Option floats.Float) → floats.Float
  unfolding threshold_or
  hitl_threshold env parse_float =
      if str_eq (env "HITL_CONFIDENCE_THRESHOLD") ""
      then floats.of_tenths 7
      else threshold_or (parse_float (env "HITL_CONFIDENCE_THRESHOLD"))
