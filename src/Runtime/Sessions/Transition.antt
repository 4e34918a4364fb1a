-- ===== src/Runtime/Sessions/Transition.antt =====
-- What Transition of pkg/runtime/session_repo.go does to the session table.
use ragivka.Prelude.{
  ℕ, ◌+◌, ◌≡◌, ◌≢◌, refl, true, false, List, [], ◌∷◌, map, arith, ◌==◌, Bool-cases, Option-cases,
  none, some, inl, inr, ap,
}
use ragivka.Errors.{
  Result, Result-Cases, Cases, ok, err, invalid_transition, sentinel, optimistic_lock,
}
use ragivka.Tenant.{Ctx, Uuid, tenant_id_from_ctx}
use ragivka.Runtime.Fsm.{State, allowed}
use ragivka.Runtime.Types.{Session}
use ragivka.Runtime.Sessions.{
  find_session, filter_sessions, advance_row, matched, update_row, transition,
}
use ragivka.World.{World}
use ragivka.World.Laws.{statement-cases, statement_no_faults}

-- The rows of one tenant.
abbrev pub rows_of : ℕ → List Session → List Session
rows_of t = filter_sessions (λ s. s.tenant_id == t)

-- An UPDATE under one tenant leaves the rows of another as they are.
pub rows_of-advance :
    (id tenant : ℕ) (to : State) (version now t : ℕ) (table : List Session)
    → (tenant == t) ≡ false
    → rows_of t (map (advance_row id tenant to version now) table) ≡ rows_of t table
unfolding filter_sessions advance_row
rows_of-advance id tenant to version now t [] h = refl
rows_of-advance id tenant to version now t (s ∷ rest) h =
    ground (arith, rows_of-advance id tenant to version now t rest h)

other_tenant : (a b : ℕ) → a ≢ b → (a == b) ≡ false
other_tenant a b h = ground arith

-- No row is left at the version that an UPDATE asked for.
pub matched-advance :
    (id tenant : ℕ) (to : State) (version now : ℕ) (table : List Session)
    → matched id tenant version (map (advance_row id tenant to version now) table) ≡ none
unfolding matched find_session advance_row
matched-advance id tenant to version now [] = refl
matched-advance id tenant to version now (s ∷ rest) =
    ground (arith, matched-advance id tenant to version now rest)

-- An UPDATE that matches no row changes none.
pub advance_lost :
    (id tenant : ℕ) (to : State) (version now : ℕ) (table : List Session)
    → matched id tenant version table ≡ none
    → map (advance_row id tenant to version now) table ≡ table
unfolding matched advance_row
advance_lost id tenant to version now [] h = refl
advance_lost id tenant to version now (s ∷ rest) h =
    ground (arith, advance_lost id tenant to version now rest)

-- A transition leaves the table as it was, or makes one UPDATE under the context's tenant.
pub data Outcome ⦃uuid : Uuid⦄ (ctx : Ctx) (id : ℕ) (from to : State) (version : ℕ)
    (table : List Session) (now : ℕ) (out : Result ℕ × World) : Type 0 where
  refused :
      ((n : ℕ) → out.0 ≢ ok n)
      → out.1.sessions ≡ table
      → Outcome ctx id from to version table now out
  moved :
      (tenant : ℕ) (s : Session)
      → tenant_id_from_ctx ctx ≡ ok tenant
      → allowed from to ≡ true
      → matched id tenant version table ≡ some s
      → out.0 ≡ ok (s.version + 1)
      → out.1.sessions ≡ map (advance_row id tenant to version now) table
      → Outcome ctx id from to version table now out

module _ ⦃uuid : Uuid⦄ (ctx : Ctx) (id : ℕ) (from to : State) (version : ℕ) where
  update_row-Outcome :
      (tenant : ℕ) (w : World)
      → tenant_id_from_ctx ctx ≡ ok tenant
      → allowed from to ≡ true
      → Outcome ctx id from to version w.sessions w.now
          (update_row id tenant to version (matched id tenant version w.sessions) w)
  unfolding update_row
  update_row-Outcome tenant w et ea = elim (Option-cases (matched id tenant version w.sessions)) [
    | inl e ↦ rw e (refused (λ n h. cc) refl)
    | inr (s, e) ↦ rw (e, update_row) (moved tenant s et ea e refl refl)
  ]

  pub transition-Outcome :
      (w : World)
      → Outcome ctx id from to version w.sessions w.now (transition ctx id from to version w)
  unfolding transition
  transition-Outcome w = elim (Bool-cases (allowed from to)) [
    | inr e ↦ rw e (refused (λ n h. cc) refl)
    | inl ea ↦ rw ea (elim (Result-Cases (tenant_id_from_ctx ctx)) [
      | Cases.is_ok t et ↦ rw et (
          statement-cases _ w (Outcome ctx id from to version w.sessions w.now)
            (λ fs. update_row-Outcome t (record w { faults = fs }) et ea)
            (λ fs. refused (λ n h. cc) refl))
      | Cases.is_err e et ↦ rw et (refused (λ n h. cc) refl)
      | Cases.is_panic p et ↦ rw et (refused (λ n h. cc) refl)
    ])
  ]

module _ ⦃uuid : Uuid⦄ where
  -- Whatever a transition comes back with, it leaves the rows of every tenant but the context's as
  -- they were, in their order.
  pub transition-isolation :
      (ctx : Ctx) (id : ℕ) (from to : State) (version : ℕ) (w : World) (t : ℕ)
      → tenant_id_from_ctx ctx ≢ ok t
      → rows_of t (transition ctx id from to version w).1.sessions ≡ rows_of t w.sessions
  transition-isolation ctx id from to version w t other =
      elim (transition-Outcome ctx id from to version w) [
        | refused _ same ↦ ap (rows_of t) same
        | moved tenant s et _ _ _ new ↦ rw new (
            rows_of-advance id tenant to version w.now t w.sessions
              (other_tenant tenant t (λ e. other (rw (← e) et))))
      ]

  -- Of two transitions of one session from one version, the second never succeeds, whatever
  -- states it names and whatever happened to the failure schedule.
  pub transition_once :
      (ctx : Ctx) (id : ℕ) (from to from' to' : State) (version n m : ℕ) (w : World)
      → (transition ctx id from to version w).0 ≡ ok n
      → (transition ctx id from' to' version (transition ctx id from to version w).1).0 ≢ ok m
  transition_once ctx id from to from' to' version n m w first second =
      elim (transition-Outcome ctx id from to version w) [
        | refused no_value _ ↦ no_value n first
        | moved t s et _ _ _ new ↦
            elim (transition-Outcome ctx id from' to' version
              (transition ctx id from to version w).1) [
                | refused no_value _ ↦ no_value m second
                | moved u v eu _ found _ _ ↦ cc (matched-advance id t to version w.now w.sessions)
              ]
      ]

  -- Transition does not look at the state that the row is in: with any pair of states that the
  -- table of transitions allows, and the row's version, it moves the row, out of a terminal state
  -- too.
  pub transition_ignores_row_state :
      (ctx : Ctx) (id : ℕ) (from to : State) (tenant : ℕ) (s : Session) (w : World)
      → w.faults ≡ []
      → tenant_id_from_ctx ctx ≡ ok tenant
      → allowed from to ≡ true
      → matched id tenant s.version w.sessions ≡ some s
      → (transition ctx id from to s.version w).0 ≡ ok (s.version + 1)
  unfolding transition update_row
  transition_ignores_row_state ctx id from to tenant s w quiet et ea found =
      rw (ea, et) (rw (statement_no_faults _ w quiet) (rw (found, update_row)))

  -- A pair of states that is not in the transition table is refused before any statement.
  pub transition_disallowed :
      (ctx : Ctx) (id : ℕ) (from to : State) (version : ℕ) (w : World)
      → allowed from to ≡ false
      → transition ctx id from to version w ≡ (err (invalid_transition from to), w)
  unfolding transition
  transition_disallowed ctx id from to version w e = rw e

  module _ (ctx : Ctx) (id : ℕ) (from to : State) (version tenant : ℕ) (w : World)
      (quiet : w.faults ≡ []) (et : tenant_id_from_ctx ctx ≡ ok tenant)
      (ea : allowed from to ≡ true) where
    pub transition_found :
        {s : Session}
        → matched id tenant version w.sessions ≡ some s
        → transition ctx id from to version w ≡ (
          ok (s.version + 1),
          record w { sessions = map (advance_row id tenant to version w.now) w.sessions },
        )
    unfolding transition update_row
    transition_found found =
        rw (ea, et) (rw (statement_no_faults _ w quiet) (rw (found, update_row)))

    pub transition_lost :
        matched id tenant version w.sessions ≡ none
        → transition ctx id from to version w ≡ (err (sentinel optimistic_lock), w)
    unfolding transition update_row
    transition_lost lost = rw (ea, et) (rw (statement_no_faults _ w quiet) (rw (lost, update_row)))
