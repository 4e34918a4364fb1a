-- ===== src/Runtime/Sessions/Counted.antt =====
-- A transition of pkg/runtime/session_repo.go under a database that fails.
use ragivka.Prelude.{ℕ, ◌+◌, ◌≤◌, ◌<◌, ◌≡◌, refl, sym, ◌⊎◌, inl, inr, true, map, Option-cases}
use ragivka.Errors.{Result, ok, err, other, sentinel, optimistic_lock}
use ragivka.Tenant.{Ctx, Uuid, tenant_id_from_ctx}
use ragivka.Runtime.Fsm.{State, allowed}
use ragivka.Runtime.Sessions.{advance_row, matched, update_row, transition}
use ragivka.Runtime.Sessions.Transition.{advance_lost}
use ragivka.World.{World}
use ragivka.World.Laws.{failures, statement_counted}

-- The transition used up a failure, or it was made or lost.
pub data Counted (id tenant : ℕ) (to : State) (version : ℕ) (w : World) (out : Result ℕ × World)
    : Type 0 where
  failed :
      out.0 ≡ err (other "database error")
      → out.1.sessions ≡ w.sessions
      → failures out.1.faults < failures w.faults
      → out.1.now ≡ w.now
      → Counted id tenant to version w out
  ran :
      ((n : ℕ) × (out.0 ≡ ok n)) ⊎ (out.0 ≡ err (sentinel optimistic_lock))
      → out.1.sessions ≡ map (advance_row id tenant to version w.now) w.sessions
      → failures out.1.faults ≤ failures w.faults
      → out.1.now ≡ w.now
      → Counted id tenant to version w out

pub transition-Counted :
    ⦃uuid : Uuid⦄ (ctx : Ctx) (id tenant : ℕ) (from to : State) (version : ℕ) (w : World)
    → tenant_id_from_ctx ctx ≡ ok tenant
    → allowed from to ≡ true
    → Counted id tenant to version w (transition ctx id from to version w)
unfolding transition update_row
transition-Counted ctx id tenant from to version w et ea =
    rw (ea, et)
      (statement_counted _ w (Counted id tenant to version w)
        (λ left h. elim (Option-cases (matched id tenant version w.sessions)) [
          | inl lost ↦ rw lost (
              ran (inr refl) (sym (advance_lost id tenant to version w.now w.sessions lost)) h refl)
          | inr (s, found) ↦ rw found (ran (inl (s.version + 1, refl)) refl h refl)
        ])
        (λ left h. failed refl refl h refl))
