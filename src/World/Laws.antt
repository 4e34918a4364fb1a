-- ===== src/World/Laws.antt =====
-- How to reason about a call: a statement fails or runs, with another schedule of failures.
use mathlib.Core.Path.{subst}
use ragivka.Prelude.{
  ℕ, suc, ◌≤◌, ◌<◌, ◌≡◌, refl, sym, Bool, true, false, String, arith, List, [], ◌∷◌,
}
use ragivka.Errors.{Err, Result, ok, err, panic, other}
use ragivka.World.{World, Exec, faulty, statement, continue}

module _ {ℓ} {A : Type 0} (m : Exec A) (w : World) (P : Result A × World → Type ℓ)
    (ran : (fs : List Bool) → P (m (record w { faults = fs })))
    (failed : (fs : List Bool) → P (err (other "database error"), record w { faults = fs })) where
  faulty-cases : (fs : List Bool) → P (faulty fs m (record w { faults = fs }))
  faulty-cases [] = ran []
  faulty-cases (false ∷ rest) = ran rest
  faulty-cases (true ∷ rest) = failed rest

  pub statement-cases : P (statement m w)
  statement-cases = faulty-cases w.faults

-- With no failure scheduled a statement runs.
pub statement_no_faults :
    {A : Type 0} (m : Exec A) (w : World) → w.faults ≡ [] → statement m w ≡ m w
statement_no_faults m w h = subst (λ fs. faulty fs m w ≡ m w) (sym h) refl

-- An error or a panic is not a value.
pub err-ne-ok :
    {A B : Type 0} {e : Err} {a : A} {w v : World}
    → ◌≡◌ {A = Result A × World} (err e, w) (ok a, v)
    → B
err-ne-ok h = absurd (ground arith)

pub panic-ne-ok :
    {A B : Type 0} {p : String} {a : A} {w v : World}
    → ◌≡◌ {A = Result A × World} (panic p, w) (ok a, v)
    → B
panic-ne-ok h = absurd (ground arith)

-- How many of the scheduled failures are left.
abbrev pub failures : List Bool → ℕ
failures [] = 0
failures (false ∷ rest) = failures rest
failures (true ∷ rest) = suc (failures rest)

-- A statement that fails uses up a failure, and one that runs does not add any.
module _ {ℓ} {A : Type 0} (m : Exec A) (w : World) (P : Result A × World → Type ℓ) where
  faulty_counted :
      (total : ℕ) (fs : List Bool)
      → failures fs ≤ total
      → ((left : List Bool) → failures left ≤ total → P (m (record w { faults = left })))
      → ((left : List Bool)
          → failures left < total
          → P (err (other "database error"), record w { faults = left }))
      → P (faulty fs m (record w { faults = fs }))
  faulty_counted total [] h ran failed = ran [] h
  faulty_counted total (false ∷ rest) h ran failed = ran rest h
  faulty_counted total (true ∷ rest) h ran failed = failed rest (omega arith)

  pub statement_counted :
      ((left : List Bool) → failures left ≤ failures w.faults → P (m (record w { faults = left })))
      → ((left : List Bool)
          → failures left < failures w.faults
          → P (err (other "database error"), record w { faults = left }))
      → P (statement m w)
  statement_counted = faulty_counted (failures w.faults) w.faults (omega arith)

-- A sequence that returned a value got one from its first call.
pub continue-returned :
    {A B : Type 0} {b : B} (r : Result A) (f : A → Exec B) (w : World)
    → (continue r f w).0 ≡ ok b
    → (a : A) × (r ≡ ok a) × ((f a w).0 ≡ ok b)
continue-returned (ok a) f w h = (a, refl, h)
continue-returned (err e) f w h = absurd (ground arith)
continue-returned (panic p) f w h = absurd (ground arith)
