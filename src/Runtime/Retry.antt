-- ===== src/Runtime/Retry.antt =====
-- How River calls the workers of pkg/runtime: a job that failed is run again.
use ragivka.Prelude.{ℕ, zero, suc, ◌+◌, ◌≤◌, ◌≡◌, ◌≢◌, refl, arith}
use ragivka.Errors.{Result, ok, err, panic}
use ragivka.World.{World, Exec}

unfoldable pub succeeded : {A : Type 0} → Result A → ℕ
succeeded (ok a) = 1
succeeded (err e) = 0
succeeded (panic p) = 0

pub succeeded-le : {A : Type 0} (r : Result A) → succeeded r ≤ 1
unfolding succeeded
succeeded-le r = ground arith

pub succeeded-failed : {A : Type 0} (r : Result A) → ((a : A) → r ≢ ok a) → succeeded r ≡ 0
unfolding succeeded
succeeded-failed (ok a) h = absurd (h a refl)
succeeded-failed (err e) h = refl
succeeded-failed (panic p) h = refl

-- A job that is run again and again: how many of its runs ended without an error, and the world.
unfoldable pub repeated : {A : Type 0} → ℕ → Exec A → World → ℕ × World
unfolding succeeded
repeated zero m w = (0, w)
repeated (suc n) m w = let (r, v) = m w in let (good, u) = repeated n m v in (succeeded r + good, u)
