-- ===== src/Runtime/Expiry/Eventually.antt =====
-- Repeated runs of the expiry sweep of pkg/runtime/jobs.go under a failing database.
use mathlib.Core.Path.{subst}
use ragivka.Prelude.{
  ℕ, zero, suc, ◌≤◌, ◌<◌, ◌≡◌, refl, ◌⊎◌, inl, inr, true, false, List, [], ◌∷◌, ◌∙◌, map, arith,
  All, sym,
}
use ragivka.Errors.{Result, ok}
use ragivka.Tenant.{Ctx, Uuid, with_tenant_id, tenant_id_from_ctx-with_tenant_id}
use ragivka.Runtime.Fsm.{active, expired, allowed}
use ragivka.Runtime.Types.{Session}
use ragivka.Runtime.Sessions.{is_overdue, filter_sessions, advance_row, list_expired}
use ragivka.Runtime.Sessions.Counted.{Counted, failed, ran, transition-Counted}
use ragivka.Runtime.Sessions.Listing.{All-filter}
use ragivka.Runtime.Expiry.{swept, expire_one, sweep, expire_sessions}
use ragivka.Runtime.Expiry.Sweep.{OldRow, Covers-advance, listed_covers, none_old}
use ragivka.Runtime.Expiry.Rows.{
  NoneOverdue, OverdueActive, NoneOverdue-advance, OverdueActive-advance, expire_sessions-All,
}
use ragivka.Runtime.Retry.{repeated, succeeded}
use ragivka.World.{World, continue}
use ragivka.World.Laws.{failures, statement_counted}

module _ ⦃uuid : Uuid⦄ (ctx : Ctx) where
  -- One expiry of an Active session used up a failure, or the session is out of the way.
  expire_one-Counted :
      (s : Session) (w : World)
      → s.state ≡ active
      → Counted s.id s.tenant_id expired s.version w (expire_one ctx s w)
  unfolding expire_one
  expire_one-Counted s w e =
      transition-Counted (with_tenant_id ctx (uuid.to_string s.tenant_id)) s.id s.tenant_id s.state
        expired s.version w (tenant_id_from_ctx-with_tenant_id ctx s.tenant_id)
        (unfold allowed in ground arith)

  OldRow-later :
      (now : ℕ) (s : Session) (rest : List Session) (w v : World)
      → w.now ≡ now
      → v.sessions ≡ map (advance_row s.id s.tenant_id expired s.version w.now) w.sessions
      → All (OldRow now (s ∷ rest)) w.sessions
      → All (OldRow now rest) v.sessions
  OldRow-later now s rest w v at new old =
      subst (All (OldRow now rest))
        (sym (
          subst
            (λ k. v.sessions ≡ map (advance_row s.id s.tenant_id expired s.version k) w.sessions) at
            new))
        (Covers-advance s rest w.sessions now old)

  -- A run of the sweep left no session overdue, or used up a failure.
  abbrev Advances : ℕ → World → Result (Unit {0}) × World → Type 0
  Advances now w out =
      (((out.0 ≡ ok tt) × NoneOverdue now out.1.sessions)
        ⊎ (failures out.1.faults < failures w.faults))
      × (failures out.1.faults ≤ failures w.faults)
      × (out.1.now ≡ w.now)

  Advances-later :
      (now : ℕ) (v w : World) (out : Result (Unit {0}) × World)
      → failures v.faults ≤ failures w.faults
      → v.now ≡ w.now
      → Advances now v out
      → Advances now w out
  Advances-later now v w out left t (inl done, fewer, same) = (inl done, omega arith, same ∙ t)
  Advances-later now v w out left t (inr used, fewer, same) =
      (inr (omega arith), omega arith, same ∙ t)

  later :
      (now : ℕ) (s : Session) (rest : List Session) (w : World)
      → failures (expire_one ctx s w).1.faults ≤ failures w.faults
      → (expire_one ctx s w).1.now ≡ w.now
      → Advances now (expire_one ctx s w).1 (sweep ctx rest (expire_one ctx s w).1)
      → Advances now w (sweep ctx rest (expire_one ctx s w).1)
  later now s rest w left t =
      Advances-later now (expire_one ctx s w).1 w (sweep ctx rest (expire_one ctx s w).1) left t

  sweep-Advances :
      (now : ℕ) (listed : List Session) (w : World)
      → w.now ≡ now
      → All (λ s. s.state ≡ active) listed
      → All (OldRow now listed) w.sessions
      → Advances now w (sweep ctx listed w)
  unfolding sweep swept
  sweep-Advances now [] w at h old = (inl (refl, none_old now w.sessions old), omega arith, refl)
  sweep-Advances now (s ∷ rest) w at h old = elim (expire_one-Counted s w h.0) [
    | failed e same fewer t ↦ rw e (inr fewer, omega arith, t)
    | ran (inl (n, e)) new left t ↦ rw e (
        later now s rest w left t (
          sweep-Advances now rest (expire_one ctx s w).1 (t ∙ at) h.1
            (OldRow-later now s rest w (expire_one ctx s w).1 at new old)))
    | ran (inr e) new left t ↦ rw e (
        later now s rest w left t (
          sweep-Advances now rest (expire_one ctx s w).1 (t ∙ at) h.1
            (OldRow-later now s rest w (expire_one ctx s w).1 at new old)))
  ]

  expire_sessions-Advances :
      (now : ℕ) (w : World)
      → w.now ≡ now
      → OverdueActive now w.sessions
      → Advances now w (expire_sessions ctx w)
  unfolding expire_sessions list_expired
  expire_sessions-Advances now w at h =
      statement_counted _ w (λ out. Advances now w (continue out.0 (sweep ctx) out.1))
        (λ left few.
          let v = record w { faults = left } in
          Advances-later now v w (sweep ctx (filter_sessions (is_overdue w.now) w.sessions) v) few
            refl
            (sweep-Advances now (filter_sessions (is_overdue w.now) w.sessions) v at
              (All-filter _ (is_overdue w.now) w.sessions
                (subst (λ k. OverdueActive k w.sessions) (sym at) h))
              (subst
                (λ k. All (OldRow k (filter_sessions (is_overdue w.now) w.sessions)) w.sessions) at
                (listed_covers w.now w.sessions))))
        (λ left fewer. (inr fewer, omega arith, refl))

  repeated-NoneOverdue :
      (now n : ℕ) (w : World)
      → NoneOverdue now w.sessions
      → NoneOverdue now (repeated n (expire_sessions ctx) w).1.sessions
  unfolding repeated
  repeated-NoneOverdue now zero w h = h
  repeated-NoneOverdue now (suc n) w h = repeated-NoneOverdue now n (expire_sessions ctx w).1 (
      expire_sessions-All ctx (λ r. is_overdue now r ≡ false)
        (λ i t v u. NoneOverdue-advance i t v u now) w h)

  eventually :
      (now n : ℕ) (w : World)
      → w.now ≡ now
      → failures w.faults < n
      → OverdueActive now w.sessions
      → (0 < (repeated n (expire_sessions ctx) w).0)
        × NoneOverdue now (repeated n (expire_sessions ctx) w).1.sessions
  unfolding repeated succeeded
  eventually now zero w at few actives = absurd (omega arith)
  eventually now (suc n) w at few actives =
      let v = (expire_sessions ctx w).1 in
      let (progress, _, same) = expire_sessions-Advances now w at actives in
      elim progress [
        | inl (e, clear) ↦ rw e (omega arith, repeated-NoneOverdue now n v clear)
        | inr fewer ↦
            let (good, clear) = eventually now n v (same ∙ at) (omega arith) (
              expire_sessions-All ctx (λ r. is_overdue now r ≡ true → r.state ≡ active)
                (λ i t k u. OverdueActive-advance i t k u now) w actives) in
            (omega arith, clear)
      ]

  -- If every overdue session is Active and the database fails fewer statements than the sweep is
  -- run times, then some run ends without an error, and after the runs no session is overdue.
  pub expire_sessions_eventually :
      (n : ℕ) (w : World)
      → failures w.faults < n
      → All (λ r. is_overdue w.now r ≡ true → r.state ≡ active) w.sessions
      → (0 < (repeated n (expire_sessions ctx) w).0)
        × All (λ r. is_overdue w.now r ≡ false) (repeated n (expire_sessions ctx) w).1.sessions
  expire_sessions_eventually n w few actives = eventually w.now n w refl few actives
