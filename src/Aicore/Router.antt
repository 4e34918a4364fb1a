-- ===== src/Aicore/Router.antt =====
-- pkg/aicore/router.go: the choice of a model, and the one fallback.
pub mod Fallback
pub mod Unchanged
use ragivka.Prelude.{
  ◌+◌, Bool, ◌&&◌, String, Option, none, some, List, [], ◌∷◌, length, not, str_eq, if◌then◌else◌, ℕ,
}
use ragivka.Errors.{Err, Result, ok, err, panic, wrap}
use ragivka.Tenant.{Ctx}
use ragivka.Aicore.Types.{TaskKind, GenerateRequest, GenerateResponse}
use ragivka.World.{World, Exec, Call, ◌>>=◌, lift, attempt, pure, fail}

-- A Go map with these keys, as a function.
pub record RouterPolicy : Type 0 where
  pub models : TaskKind → Option String
  pub default_model : String
  pub fallback : String

unfoldable pub default_policy : RouterPolicy
default_policy = record { models = λ task. none; default_model = "qwen3.5:cloud"; fallback = "" }

-- A provider: its answer may depend on everything, the number of earlier calls included.
abbrev pub LlmClient : Type 0
LlmClient = Ctx → GenerateRequest → ℕ → Result GenerateResponse

unfoldable pub ask : LlmClient → Ctx → GenerateRequest → Exec GenerateResponse
ask client ctx req w =
    (client ctx req (length w.calls), record w { calls = Call.generate req ∷ w.calls })

model_or : String → Option String → String
model_or default_model none = default_model
model_or default_model (some m) = m

-- A model that the caller named stays.
unfoldable pub with_model : RouterPolicy → GenerateRequest → GenerateRequest
unfolding model_or
with_model policy req =
    if str_eq req.model ""
    then record req { model = model_or policy.default_model (policy.models req.task_hint) }
    else req

-- A second failure is reported with both errors; the first one stays in the chain.
both : Err → Result GenerateResponse → Exec GenerateResponse
both first (ok resp) = pure resp
both first (err e) = fail (wrap "primary and fallback" first)
both first (panic p) = lift (panic p)

has_fallback : RouterPolicy → GenerateRequest → Bool
has_fallback policy req = not (str_eq policy.fallback "") && not (str_eq req.model policy.fallback)

module _ (client : LlmClient) (policy : RouterPolicy) where
  fall_back : Ctx → GenerateRequest → Err → Exec GenerateResponse
  unfolding both
  fall_back ctx req first = do
    r ← attempt (ask client ctx (record req { model = policy.fallback }))
    both first r

  or_fallback : Ctx → GenerateRequest → Result GenerateResponse → Exec GenerateResponse
  unfolding has_fallback fall_back
  or_fallback ctx req (ok resp) = pure resp
  or_fallback ctx req (err e) = if has_fallback policy req then fall_back ctx req e else fail e
  or_fallback ctx req (panic p) = lift (panic p)

  unfoldable pub generate : Ctx → GenerateRequest → Exec GenerateResponse
  unfolding or_fallback
  generate ctx req =
      let chosen = with_model policy req in
      (do r ← attempt (ask client ctx chosen); or_fallback ctx chosen r)
