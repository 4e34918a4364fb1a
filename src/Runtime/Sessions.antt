-- ===== src/Runtime/Sessions.antt =====
-- pkg/runtime/session_repo.go: the session table and its statements.
pub mod Transition
pub mod Queries
pub mod Listing
pub mod Snapshots
pub mod Concurrency
pub mod Calls
pub mod Counted
pub mod Active
pub mod Tenants
mod Tests
use ragivka.Prelude.{
  ℕ, ◌+◌, Bool, ◌&&◌, ◌||◌, String, Option, none, some, List, [], ◌∷◌, map, ltb, not, is_some, ◌==◌,
  str_eq, if◌then◌else◌,
}
use ragivka.Errors.{ok, err, other, sentinel, not_found, optimistic_lock, invalid_transition}
use ragivka.Tenant.{Ctx, Uuid, tenant_id_from_ctx}
use ragivka.Runtime.Fsm.{State, active, waiting_for_human, same_state, allowed}
use ragivka.Runtime.Types.{Session}
use ragivka.World.{World, Exec, ◌>>=◌, pure, fail, lift, statement}

-- WHERE id = $1 AND tenant_id = $2
abbrev pub has_key : ℕ → ℕ → Session → Bool
has_key id tenant s = s.id == id && s.tenant_id == tenant

-- The first row that meets the WHERE clause.
unfoldable pub find_session : (Session → Bool) → List Session → Option Session
find_session p [] = none
find_session p (s ∷ rest) = if p s then some s else find_session p rest

row_or_not_found : Option Session → Exec Session
row_or_not_found none = fail (sentinel not_found)
row_or_not_found (some s) = pure s

-- state IN ('Active', 'WaitingForHuman')
abbrev pub is_open : State → Bool
is_open s = same_state s active || same_state s waiting_for_human

-- ORDER BY created_at DESC LIMIT 1
newest : Option Session → List Session → Option Session
newest best [] = best
newest none (s ∷ rest) = newest (some s) rest
newest (some b) (s ∷ rest) = newest (if ltb b.created_at s.created_at then some s else some b) rest

pub filter_sessions : (Session → Bool) → List Session → List Session
filter_sessions p [] = []
filter_sessions p (s ∷ rest) = let kept = filter_sessions p rest in if p s then s ∷ kept else kept

-- SET state = $1, version = version + 1, updated_at = NOW() WHERE id = $2 AND tenant_id = $3
-- AND version = $4
unfoldable pub advance_row : ℕ → ℕ → State → ℕ → ℕ → Session → Session
advance_row id tenant to version now s =
    if has_key id tenant s && s.version == version
    then record s { state = to; version = s.version + 1; updated_at = now }
    else s

-- RETURNING version: the row that the UPDATE matched.
pub matched : ℕ → ℕ → ℕ → List Session → Option Session
unfolding find_session
matched id tenant version = find_session (λ s. has_key id tenant s && s.version == version)

update_row : ℕ → ℕ → State → ℕ → Option Session → Exec ℕ
unfolding advance_row
update_row id tenant to version none w = (err (sentinel optimistic_lock), w)
update_row id tenant to version (some s) w = (
  ok (s.version + 1),
  record w { sessions = map (advance_row id tenant to version w.now) w.sessions },
)

-- orchestration_tier IN ('L0', 'L1', 'L2', 'L3')
unfoldable pub known_tier : String → Bool
known_tier t = str_eq t "L0" || str_eq t "L1" || str_eq t "L2" || str_eq t "L3"

-- The primary key and the CHECK constraints of migrations/002_sessions.sql. The foreign keys are
-- left out: tenants and users are not tables of the model.
pub accepts : World → Session → Bool
unfolding find_session known_tier
accepts w row =
    not (is_some (find_session (λ s. s.id == row.id) w.sessions))
    && ltb w.now row.expires_at
    && known_tier row.tier

pub insert_session : Session → Exec Session
unfolding accepts
insert_session row w =
    if accepts w row
    then (
      ok row,
      record w { sessions = record row { created_at = w.now; updated_at = w.now } ∷ w.sessions },
    )
    else (err (other "constraint violation"), w)

-- `uuid.New()` gave the fresh id; an id that the caller set is kept.
abbrev pub filled : ℕ → ℕ → Session → Session
filled tenant fresh s = record s { tenant_id = tenant; id = if s.id == 0 then fresh else s.id }

module _ ⦃uuid : Uuid⦄ where
  -- The caller's struct gets the tenant and the id.
  unfoldable pub create_session : Ctx → ℕ → Session → Exec Session
  unfolding insert_session
  create_session ctx fresh s = do
    tenant ← lift (tenant_id_from_ctx ctx)
    statement (insert_session (filled tenant fresh s))

  unfoldable pub get_by_id : Ctx → ℕ → Exec Session
  unfolding row_or_not_found find_session
  get_by_id ctx id = do
    tenant ← lift (tenant_id_from_ctx ctx)
    statement (λ w. row_or_not_found (find_session (has_key id tenant) w.sessions) w)

  unfoldable pub get_active_by_user_id : Ctx → ℕ → Exec Session
  unfolding row_or_not_found filter_sessions newest
  get_active_by_user_id ctx user = do
    tenant ← lift (tenant_id_from_ctx ctx)
    statement λ w.
        row_or_not_found
          (newest none (
            filter_sessions (λ s. s.tenant_id == tenant && s.user_id == user && is_open s.state)
              w.sessions))
          w

  -- The new version of the row, or the error that says why there is none.
  pub transition : Ctx → ℕ → State → State → ℕ → Exec ℕ
  unfolding update_row matched
  transition ctx id from to version =
      if allowed from to
      then (do
        tenant ← lift (tenant_id_from_ctx ctx)
        statement (λ w. update_row id tenant to version (matched id tenant version w.sessions) w))
      else fail (invalid_transition from to)

-- WHERE expires_at < NOW() AND state IN ($1, $2), over the rows of every tenant
abbrev pub is_overdue : ℕ → Session → Bool
is_overdue now s = ltb s.expires_at now && is_open s.state

unfoldable pub list_expired : Exec (List Session)
unfolding filter_sessions
list_expired = statement (λ w. (ok (filter_sessions (is_overdue w.now) w.sessions), w))
