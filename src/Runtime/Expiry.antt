-- ===== src/Runtime/Expiry.antt =====
-- pkg/runtime/jobs.go: the worker of the periodic expiry sweep.
pub mod Sweep
pub mod Rows
pub mod Eventually
mod Tests
use ragivka.Prelude.{ℕ, ◌≡◌, Bool, List, [], ◌∷◌, if◌then◌else◌}
use ragivka.Errors.{Err, Result, ok, err, panic, is, optimistic_lock}
use ragivka.Tenant.{Ctx, Uuid, with_tenant_id}
use ragivka.Runtime.Fsm.{expired}
use ragivka.Runtime.Types.{Session}
use ragivka.Runtime.Sessions.{transition, list_expired}
use ragivka.World.{Exec, ◌>>=◌, pure, lift, attempt}

-- A lost race is skipped, any other error ends the sweep.
swept : Result ℕ → Exec (Unit {0}) → Exec (Unit {0})
swept (ok version) rest w = rest w
swept (err e) rest w = if is e optimistic_lock then rest w else (err e, w)
swept (panic p) rest w = (panic p, w)

module _ ⦃uuid : Uuid⦄ where
  -- One session, under its own tenant.
  pub expire_one : Ctx → Session → Exec ℕ
  expire_one ctx s =
      transition (with_tenant_id ctx (uuid.to_string s.tenant_id)) s.id s.state expired s.version

  -- The loop over the listed sessions.
  pub sweep : Ctx → List Session → Exec (Unit {0})
  unfolding swept
  sweep ctx [] = pure tt
  sweep ctx (s ∷ rest) = do r ← attempt (expire_one ctx s); swept r (sweep ctx rest)

  pub expire_sessions : Ctx → Exec (Unit {0})
  expire_sessions ctx = do found ← list_expired; sweep ctx found
