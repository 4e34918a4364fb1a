-- ===== src/Runtime/Expiry/Sweep.antt =====
-- What the expiry sweep of pkg/runtime/jobs.go does to the overdue sessions.
use ragivka.Prelude.{
  ℕ, ◌≡◌, refl, ◌⊎◌, inl, inr, Bool, true, false, ◌&&◌, List, [], ◌∷◌, ◌∙◌, ap, map, arith, All, In,
  All-of_In, sym, ◌≢◌, ◌==◌, Bool-cases, Option-cases,
}
use ragivka.Errors.{ok, err, invalid_transition, Result-Cases, Cases, is, optimistic_lock}
use ragivka.Tenant.{Ctx, Uuid, with_tenant_id, tenant_id_from_ctx-with_tenant_id}
use ragivka.Runtime.Fsm.{active, waiting_for_human, expired, allowed}
use ragivka.Runtime.Types.{Session}
use ragivka.Runtime.Sessions.{has_key, is_overdue, filter_sessions, advance_row, matched}
use ragivka.Runtime.Sessions.Transition.{
  transition_disallowed, transition_found, transition_lost, advance_lost,
}
use ragivka.Runtime.Sessions.Listing.{
  In-filter, All-filter, list_expired-cases, list_expired_no_faults,
}
use ragivka.Runtime.Expiry.{swept, expire_one, sweep, expire_sessions}
use ragivka.World.{World}

-- The row is the one that a listed session names, at the listed version.
abbrev pub names_row : Session → Session → Bool
names_row s r = has_key s.id s.tenant_id r && r.version == s.version

abbrev pub Covers : List Session → Session → Type 0
Covers [] r = ⊥
Covers (s ∷ rest) r = (names_row s r ≡ true) ⊎ Covers rest r

abbrev pub OldRow : ℕ → List Session → Session → Type 0
OldRow now listed r = is_overdue now r ≡ true → Covers listed r

-- An expired row is not overdue, and another stays covered by the rest of the list.
pub Covers-advance :
    (s : Session) (rest table : List Session) (now : ℕ)
    → All (OldRow now (s ∷ rest)) table
    → All (OldRow now rest) (map (advance_row s.id s.tenant_id expired s.version now) table)
unfolding advance_row
Covers-advance s rest [] now h = tt
Covers-advance s rest (r ∷ table) now h = (ground (arith, h.0), Covers-advance s rest table now h.1)

In-Covers : (r : Session) (listed : List Session) → In r listed → Covers listed r
In-Covers r [] m = absurd m
In-Covers r (s ∷ rest) (inl e) = inl (ground arith)
In-Covers r (s ∷ rest) (inr m) = inr (In-Covers r rest m)

pub listed_covers :
    (now : ℕ) (table : List Session)
    → All (OldRow now (filter_sessions (is_overdue now) table)) table
listed_covers now table = All-of_In _ table λ r m e.
    In-Covers r (filter_sessions (is_overdue now) table) (In-filter (is_overdue now) r table m e)

pub none_old :
    (now : ℕ) (table : List Session)
    → All (OldRow now []) table
    → All (λ r. is_overdue now r ≡ false) table
none_old now [] h = tt
none_old now (r ∷ table) h = elim (Bool-cases (is_overdue now r)) [
  | inl e ↦ absurd (h.0 e)
  | inr e ↦ (e, none_old now table h.1)
]

module _ ⦃uuid : Uuid⦄ (ctx : Ctx) where
  expire_one_waiting :
      (s : Session) (w : World)
      → s.state ≡ waiting_for_human
      → expire_one ctx s w ≡ (err (invalid_transition waiting_for_human expired), w)
  unfolding expire_one allowed
  expire_one_waiting s w e =
      transition_disallowed (with_tenant_id ctx (uuid.to_string s.tenant_id)) s.id s.state expired
        s.version w (ground arith)
      ∙ ap (λ q. (err (invalid_transition q expired), w)) e

  -- The world after one session of the list was expired, or was found moved by another worker.
  after_one : Session → World → World
  after_one s w = record w {
    sessions = map (advance_row s.id s.tenant_id expired s.version w.now) w.sessions;
  }

  sweep_active :
      (s : Session) (rest : List Session) (w : World)
      → w.faults ≡ []
      → s.state ≡ active
      → sweep ctx (s ∷ rest) w ≡ sweep ctx rest (after_one s w)
  unfolding sweep expire_one after_one
  sweep_active s rest w quiet e =
      let ea : allowed s.state expired ≡ true = unfold allowed in ground arith in
      let et = tenant_id_from_ctx-with_tenant_id ctx s.tenant_id in
      elim (Option-cases (matched s.id s.tenant_id s.version w.sessions)) [
        | inl lost ↦
            rw
              (
                transition_lost _ s.id s.state expired s.version s.tenant_id w quiet et ea lost,
                advance_lost s.id s.tenant_id expired s.version w.now w.sessions lost,
              )
              refl
        | inr (t, found) ↦
            rw (transition_found _ s.id s.state expired s.version s.tenant_id w quiet et ea found)
              refl
      ]

  sweep_actives :
      (listed : List Session) (w : World)
      → w.faults ≡ []
      → All (λ s. s.state ≡ active) listed
      → All (OldRow w.now listed) w.sessions
      → (v : World) × (sweep ctx listed w ≡ (ok tt, v))
        × All (λ r. is_overdue w.now r ≡ false) v.sessions
  unfolding sweep after_one
  sweep_actives [] w quiet h old = (w, refl, none_old w.now w.sessions old)
  sweep_actives (s ∷ rest) w quiet h old =
      rw (sweep_active s rest w quiet h.0)
        (sweep_actives rest (after_one s w) quiet h.1 (Covers-advance s rest w.sessions w.now old))

  -- If the database fails no statement and every overdue session is Active, the worker of the
  -- expiry sweep returns no error and leaves no session overdue.
  pub expire_sessions_complete :
      (w : World)
      → w.faults ≡ []
      → All (λ r. is_overdue w.now r ≡ true → r.state ≡ active) w.sessions
      → (v : World) × (expire_sessions ctx w ≡ (ok tt, v))
        × All (λ r. is_overdue w.now r ≡ false) v.sessions
  unfolding expire_sessions
  expire_sessions_complete w quiet h = rw (list_expired_no_faults w quiet) (
      sweep_actives (filter_sessions (is_overdue w.now) w.sessions) w quiet
        (All-filter _ (is_overdue w.now) w.sessions h) (listed_covers w.now w.sessions))

  sweep_stuck :
      (s : Session) (listed : List Session) (w : World)
      → s.state ≡ waiting_for_human
      → In s listed
      → (sweep ctx listed w).0 ≢ ok tt
  unfolding sweep swept
  sweep_stuck s [] w e m = absurd m
  sweep_stuck s (q ∷ rest) w e (inl same) =
      rw (expire_one_waiting q w (ap (λ t. t.state) (sym same) ∙ e)) (λ h. cc)
  sweep_stuck s (q ∷ rest) w e (inr m) = elim (Result-Cases (expire_one ctx q w).0) [
    | Cases.is_ok n er ↦ rw er (sweep_stuck s rest (expire_one ctx q w).1 e m)
    | Cases.is_err x er ↦ rw er (elim (Bool-cases (is x optimistic_lock)) [
      | inl lock ↦ rw lock (sweep_stuck s rest (expire_one ctx q w).1 e m)
      | inr not_lock ↦ rw not_lock (λ h. cc)
    ])
    | Cases.is_panic p er ↦ rw er (λ h. cc)
  ]

  -- If some overdue session waits for a human, the expiry sweep fails, whatever the database does.
  pub expire_sessions_waiting :
      (s : Session) (w : World)
      → In s w.sessions
      → is_overdue w.now s ≡ true
      → s.state ≡ waiting_for_human
      → (expire_sessions ctx w).0 ≢ ok tt
  unfolding expire_sessions
  expire_sessions_waiting s w m overdue waiting = elim (list_expired-cases w) [
    | inl (v, e) ↦
        rw e (sweep_stuck s _ v waiting (In-filter (is_overdue w.now) s w.sessions m overdue))
    | inr (x, e) ↦ rw e (λ h. cc)
  ]
