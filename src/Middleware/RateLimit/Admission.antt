-- ===== src/Middleware/RateLimit/Admission.antt =====
-- Whom the middleware of pkg/middleware/ratelimit.go lets through.
use ragivka.Prelude.{◌≡◌, refl, ℕ, ◌⊎◌, inl, inr, Bool, true, false, String}
use ragivka.Errors.{Err, Result, ok, err, panic}
use ragivka.Tenant.{Ctx, get_tenant_id}
use ragivka.Middleware.Auth.{Handler}
use ragivka.Middleware.RateLimit.{rate_limit, answered, tenant_checked}
use ragivka.World.{Exec, pure, lift}

-- What stands in for the handler, by what the limiter answered: 429 if it refused, 500 if it failed,
-- and its panic.
pub data Held : Result Bool → Exec ℕ → Type 0 where
  too_many : {r : Result Bool} {m : Exec ℕ} → r ≡ ok false → m ≡ pure 429 → Held r m
  failed : {r : Result Bool} {m : Exec ℕ} (e : Err) → r ≡ err e → m ≡ pure 500 → Held r m
  panicked :
      {r : Result Bool} {m : Exec ℕ} (p : String) → r ≡ panic p → m ≡ lift (panic p) → Held r m

answered-cases :
    (next : Handler) (ctx : Ctx) (r : Result Bool)
    → ((r ≡ ok true) × (answered next ctx r ≡ next ctx)) ⊎ Held r (answered next ctx r)
unfolding answered
answered-cases next ctx (ok true) = inl (refl, refl)
answered-cases next ctx (ok false) = inr (too_many refl refl)
answered-cases next ctx (err e) = inr (failed e refl refl)
answered-cases next ctx (panic p) = inr (panicked p refl refl)

pub rate_limit-cases :
    (limiter : String → Result Bool) (next : Handler) (ctx : Ctx) (tenant : String)
    → get_tenant_id ctx ≡ ok tenant
    → ((limiter tenant ≡ ok true) × (rate_limit limiter next ctx ≡ next ctx))
      ⊎ Held (limiter tenant) (rate_limit limiter next ctx)
unfolding rate_limit tenant_checked
rate_limit-cases limiter next ctx tenant e = rw e (answered-cases next ctx (limiter tenant))
