-- ===== src/Runtime/Sessions/Tenants.antt =====
-- What the INSERT of pkg/runtime/session_repo.go leaves as it was.
use ragivka.Prelude.{ℕ, ◌≡◌, ◌≢◌, refl, Bool, Bool-cases, inl, inr, List, ◌∷◌, arith}
use ragivka.Errors.{ok}
use ragivka.Tenant.{Ctx, Uuid, tenant_id_from_ctx}
use ragivka.Runtime.Types.{Session}
use ragivka.Runtime.Sessions.{create_session, insert_session, accepts, filled, filter_sessions}
use ragivka.Runtime.Sessions.Transition.{rows_of}
use ragivka.Runtime.Sessions.Queries.{stored}
use ragivka.World.{World}
use ragivka.World.Keeps.{Keeps, statement-Keeps}

-- A row of one tenant is none of another's.
pub rows_of-cons :
    (t : ℕ) (row : Session) (table : List Session)
    → row.tenant_id ≢ t
    → rows_of t (row ∷ table) ≡ rows_of t table
unfolding filter_sessions
rows_of-cons t row table h = ground arith

module _ {S : Type 0} (view : World → S) (tenant : ℕ)
    (blind : (w : World) (fs : List Bool) → view (record w { faults = fs }) ≡ view w)
    (own : (w : World) (row : Session)
      → row.tenant_id ≡ tenant
      → view (record w { sessions = row ∷ w.sessions }) ≡ view w) where
  insert_session-Keeps : (row : Session) → row.tenant_id ≡ tenant → Keeps view (insert_session row)
  unfolding insert_session
  insert_session-Keeps row mine w = elim (Bool-cases (accepts w row)) [
    | inr bad ↦ rw bad refl
    | inl good ↦ rw good (own w (stored w row) mine)
  ]

  pub create_session-Keeps :
      ⦃uuid : Uuid⦄ (ctx : Ctx) (fresh : ℕ) (s : Session)
      → tenant_id_from_ctx ctx ≡ ok tenant
      → Keeps view (create_session ctx fresh s)
  unfolding create_session
  create_session-Keeps ctx fresh s et w = rw et (
      statement-Keeps view (insert_session (filled tenant fresh s)) blind
        (insert_session-Keeps (filled tenant fresh s) refl) w)
