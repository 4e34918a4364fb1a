-- ===== src/Runtime/Expiry/Rows.antt =====
-- What runs of the expiry sweep of pkg/runtime/jobs.go keep of the rows.
use ragivka.Prelude.{ℕ, ◌≡◌, inl, inr, true, false, List, [], ◌∷◌, map, arith, All, Bool-cases}
use ragivka.Errors.{Result-Cases, Cases, is, optimistic_lock}
use ragivka.Tenant.{Ctx, Uuid, with_tenant_id}
use ragivka.Runtime.Fsm.{active, expired}
use ragivka.Runtime.Types.{Session}
use ragivka.Runtime.Sessions.{is_overdue, filter_sessions, advance_row, list_expired}
use ragivka.Runtime.Sessions.Transition.{refused, moved, transition-Outcome}
use ragivka.Runtime.Expiry.{swept, expire_one, sweep, expire_sessions}
use ragivka.World.{World, continue}
use ragivka.World.Laws.{statement_counted}

abbrev pub NoneOverdue : ℕ → List Session → Type 0
NoneOverdue now = All (λ r. is_overdue now r ≡ false)

abbrev pub OverdueActive : ℕ → List Session → Type 0
OverdueActive now = All (λ r. is_overdue now r ≡ true → r.state ≡ active)

pub NoneOverdue-advance :
    (id tenant version t now : ℕ) (table : List Session)
    → NoneOverdue now table
    → NoneOverdue now (map (advance_row id tenant expired version t) table)
unfolding advance_row
NoneOverdue-advance id tenant version t now [] h = tt
NoneOverdue-advance id tenant version t now (r ∷ table) h =
    (ground (arith, h.0), NoneOverdue-advance id tenant version t now table h.1)

pub OverdueActive-advance :
    (id tenant version t now : ℕ) (table : List Session)
    → OverdueActive now table
    → OverdueActive now (map (advance_row id tenant expired version t) table)
unfolding advance_row
OverdueActive-advance id tenant version t now [] h = tt
OverdueActive-advance id tenant version t now (r ∷ table) h =
    (ground (arith, h.0), OverdueActive-advance id tenant version t now table h.1)

module _ ⦃uuid : Uuid⦄ (ctx : Ctx) where
  -- What a run leaves true of every row, whatever it comes back with.
  module _ (P : Session → Type 0)
      (expiring : (id tenant version t : ℕ) (table : List Session)
        → All P table
        → All P (map (advance_row id tenant expired version t) table)) where
    expire_one-All :
        (s : Session) (w : World) → All P w.sessions → All P (expire_one ctx s w).1.sessions
    unfolding expire_one
    expire_one-All s w h =
        elim (transition-Outcome (with_tenant_id ctx (uuid.to_string s.tenant_id)) s.id s.state
          expired s.version w) [
            | refused _ same ↦ rw same h
            | moved t q _ _ _ _ new ↦ rw new (expiring s.id t s.version w.now w.sessions h)
          ]

    sweep-All :
        (listed : List Session) (w : World)
        → All P w.sessions
        → All P (sweep ctx listed w).1.sessions
    unfolding sweep swept
    sweep-All [] w h = h
    sweep-All (s ∷ rest) w h =
        let h' = expire_one-All s w h in
        elim (Result-Cases (expire_one ctx s w).0) [
          | Cases.is_ok n e ↦ rw e (sweep-All rest (expire_one ctx s w).1 h')
          | Cases.is_err x e ↦ rw e (elim (Bool-cases (is x optimistic_lock)) [
            | inl lock ↦ rw lock (sweep-All rest (expire_one ctx s w).1 h')
            | inr not_lock ↦ rw not_lock h'
          ])
          | Cases.is_panic p e ↦ rw e h'
        ]

    pub expire_sessions-All :
        (w : World) → All P w.sessions → All P (expire_sessions ctx w).1.sessions
    unfolding expire_sessions list_expired
    expire_sessions-All w h =
        statement_counted _ w (λ out. All P (continue out.0 (sweep ctx) out.1).1.sessions)
          (λ left few.
            sweep-All (filter_sessions (is_overdue w.now) w.sessions) (record w { faults = left })
              h)
          (λ left fewer. h)
