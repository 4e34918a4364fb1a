-- ===== src/Channel/Respond.antt =====
-- How an HTTP handler goes on after a call, and the clock that the handlers read.
pub mod Keeps
use ragivka.Prelude.{ℕ, ◌+◌, ℤ, is_positive, to_nat, if◌then◌else◌}
use ragivka.Errors.{Result, ok, err, panic}
use ragivka.World.{Exec}

module _ {A R : Type 0} where
  -- if err != nil { answer; return }
  abbrev pub answered : R → Result A → (A → Exec R) → Exec R
  answered failure (ok a) next w = next a w
  answered failure (err e) next w = (ok failure, w)
  answered failure (panic p) next w = (panic p, w)

  abbrev pub handled : R → Exec A → (A → Exec R) → Exec R
  handled failure m next w = let (r, v) = m w in answered failure r next v

-- 30 * time.Minute, in nanoseconds
abbrev pub default_session_ttl : ℕ
default_session_ttl = 1800000000000

abbrev pub ttl_or_default : ℤ → ℕ
ttl_or_default ttl = if is_positive ttl then to_nat ttl else default_session_ttl

-- time.Now().Add(ttl)
abbrev pub expiry : ℕ → Exec ℕ
expiry ttl w = (ok (w.now + ttl), w)
