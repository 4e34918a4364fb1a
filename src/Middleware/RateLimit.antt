-- ===== src/Middleware/RateLimit.antt =====
-- pkg/middleware/ratelimit.go: a counter for each tenant and minute, in Redis.
pub mod Budget
pub mod Admission
use ragivka.Prelude.{
  ℕ, suc, Bool, true, false, ◌&&◌, String, List, [], ◌∷◌, str_eq, ◌==◌, not, if◌then◌else◌, ℤ,
  exceeds,
}
use ragivka.Errors.{Err, Result, ok, err, panic, other}
use ragivka.Tenant.{Ctx, get_tenant_id}
use ragivka.Middleware.Auth.{Handler}
use ragivka.World.{Exec, pure, lift}

-- INCR on "ratelimit:{tenant}:{minute}". EXPIRE a minute after the first hit never ends a counter
-- before its minute is over.
abbrev pub Counters : Type 0
Counters = String → ℕ → ℕ

pub incr : String → ℕ → Counters → Counters
incr tenant minute hits t m = if str_eq tenant t && minute == m then suc (hits t m) else hits t m

-- One request: its minute, and whether Redis fails on INCR or on EXPIRE.
pub record Request : Type 0 where
  pub tenant : String
  pub minute : ℕ
  pub incr_fails : Bool
  pub expire_fails : Bool

-- The answer for the count that INCR returned.
counted : ℕ → ℤ → Bool → Result Bool
counted count limit expire_fails =
    if count == 1 && expire_fails
    then err (other "ratelimit: expire")
    else ok (not (exceeds count limit))

pub allow : Request → ℤ → Counters → Result Bool × Counters
unfolding counted
allow r limit hits =
    if r.incr_fails
    then (err (other "ratelimit: incr"), hits)
    else (counted (suc (hits r.tenant r.minute)) limit r.expire_fails, incr r.tenant r.minute hits)

answered : Handler → Ctx → Result Bool → Exec ℕ
answered next ctx (ok true) = next ctx
answered next ctx (ok false) = pure 429
answered next ctx (err e) = pure 500
answered next ctx (panic p) = lift (panic p)

tenant_checked : (String → Result Bool) → Handler → Ctx → Result String → Exec ℕ
unfolding answered
tenant_checked limiter next ctx (ok tenant) = answered next ctx (limiter tenant)
tenant_checked limiter next ctx (err e) = pure 401
tenant_checked limiter next ctx (panic p) = lift (panic p)

-- RateLimit, over what the limiter answers for a tenant
unfoldable pub rate_limit : (String → Result Bool) → Handler → Handler
unfolding tenant_checked
rate_limit limiter next ctx = tenant_checked limiter next ctx (get_tenant_id ctx)
