-- ===== src/Runtime/Sessions/Concurrency.antt =====
-- Several workers over one session table (pkg/runtime/session_repo.go): what holds if each names,
-- as the `from` and the version of a transition, those of a row that it has read or created.
use ragivka.Prelude.{
  ℕ, ◌+◌, ◌≡◌, refl, ◌⊎◌, inl, inr, true, List, [], ◌∷◌, map, arith, All, In, All-In, Bool-cases,
  ◌&&◌, ◌==◌,
}
use ragivka.Errors.{ok}
use ragivka.Tenant.{Ctx, Uuid}
use ragivka.Runtime.Fsm.{State, allowed}
use ragivka.Runtime.Types.{Session}
use ragivka.Runtime.Sessions.{has_key, advance_row, transition, create_session, get_by_id}
use ragivka.Runtime.Sessions.Transition.{refused, moved, transition-Outcome}
use ragivka.Runtime.Sessions.Queries.{stored, get_by_id-found, create_session-inserted}
use ragivka.Runtime.Sessions.Snapshots.{
  Agrees, Coherent, found-known, found-All-Agrees, Coherent-created, Coherent-advance,
}
use ragivka.World.{World}

-- The rows that some worker has seen, and the shared state: steps of any workers, in any order.
pub data Run ⦃uuid : Uuid⦄ : List Session → World → Type 0 where
  started : {w : World} → w.sessions ≡ [] → Run [] w
  created :
      {seen : List Session} {w v : World} {s : Session} (ctx : Ctx) (fresh : ℕ) (row : Session)
      → Run seen w
      → create_session ctx fresh row w ≡ (ok s, v)
      → Run (s ∷ seen) v
  read :
      {seen : List Session} {w v : World} {s : Session} (ctx : Ctx) (id : ℕ)
      → Run seen w
      → get_by_id ctx id w ≡ (ok s, v)
      → Run (s ∷ seen) v
  moved_on :
      {seen : List Session} {w v : World} (ctx : Ctx) (s : Session) (to : State)
      → Run seen w
      → In s seen
      → v ≡ (transition ctx s.id s.state to s.version w).1
      → Run seen v
  elsewhere :
      {seen : List Session} {w v : World} → Run seen w → v.sessions ≡ w.sessions → Run seen v

-- The row before and after a step: the same, or moved along the transition table.
abbrev pub MovesRow : Session → Session → Type 0
MovesRow t t' =
    (t' ≡ t)
    ⊎ ((allowed t.state t'.state ≡ true)
        × (t'.version ≡ t.version + 1)
        × (t'.id ≡ t.id)
        × (t'.tenant_id ≡ t.tenant_id))

abbrev pub Moves : List Session → List Session → Type 0
Moves [] [] = Unit
Moves (t ∷ table) (t' ∷ table') = MovesRow t t' × Moves table table'
Moves _ _ = ⊥

Moves-refl : (table : List Session) → Moves table table
Moves-refl [] = tt
Moves-refl (t ∷ table) = (inl refl, Moves-refl table)

advance-MovesRow :
    (s t : Session) (tenant : ℕ) (to : State) (now : ℕ)
    → allowed s.state to ≡ true
    → Agrees s t
    → MovesRow t (advance_row s.id tenant to s.version now t)
unfolding advance_row
advance-MovesRow s t tenant to now ea h =
    elim (Bool-cases (has_key s.id tenant t && t.version == s.version)) [
      | inl e ↦ rw e (inr (ground (arith, h), refl, refl, refl))
      | inr e ↦ rw e (inl refl)
    ]

advance-Moves :
    (s : Session) (tenant : ℕ) (to : State) (now : ℕ) (table : List Session)
    → allowed s.state to ≡ true
    → All (Agrees s) table
    → Moves table (map (advance_row s.id tenant to s.version now) table)
advance-Moves s tenant to now [] ea h = tt
advance-Moves s tenant to now (t ∷ table) ea h =
    (advance-MovesRow s t tenant to now ea h.0, advance-Moves s tenant to now table ea h.1)

module _ ⦃uuid : Uuid⦄ where
  Run-Coherent : {seen : List Session} {w : World} → Run seen w → Coherent seen w.sessions
  Run-Coherent (started e) = rw e (record { unique = tt; agree = tt; known = tt })
  Run-Coherent (created {seen} {w} {v} {s} ctx fresh row r e) =
      let (free, new) = create_session-inserted ctx w fresh row e in
      rw new (Coherent-created seen w.sessions s (stored w s) refl refl refl free (Run-Coherent r))
  Run-Coherent (read {seen} {w} {v} {s} ctx id r e) =
      let (t, et, found, same) = get_by_id-found ctx w id e in
      let c = Run-Coherent r in
      rw same (record {
        unique = c.unique;
        agree = (found-All-Agrees _ w.sessions c.unique found, c.agree);
        known = (found-known _ s w.sessions found, c.known);
      })
  Run-Coherent (moved_on {seen} {w} {v} ctx s to r m e) =
      rw e (elim (transition-Outcome ctx s.id s.state to s.version w) [
        | refused _ same ↦ rw same (Run-Coherent r)
        | moved t q et ea em eo new ↦
            rw new (Coherent-advance s.id t to s.version w.now seen w.sessions (Run-Coherent r))
      ])
  Run-Coherent (elsewhere r e) = rw e (Run-Coherent r)

  -- In any interleaving of workers that each name the state and the version of a row that they
  -- have read or created, a transition leaves each row as it is or moves it along the transition
  -- table of the FSM from the state that the row itself is in, with the next version.
  pub honest_transition-Moves :
      (ctx : Ctx) (s : Session) (to : State) {seen : List Session} {w : World}
      → Run seen w
      → In s seen
      → Moves w.sessions (transition ctx s.id s.state to s.version w).1.sessions
  honest_transition-Moves ctx s to {seen} {w} r m =
      elim (transition-Outcome ctx s.id s.state to s.version w) [
        | refused _ same ↦ rw same (Moves-refl w.sessions)
        | moved t q et ea em eo new ↦ rw new (
            advance-Moves s t to w.now w.sessions ea
              (All-In (λ q. All (Agrees q) w.sessions) seen (Run-Coherent r).agree m))
      ]
