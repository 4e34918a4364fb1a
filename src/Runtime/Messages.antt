-- ===== src/Runtime/Messages.antt =====
-- pkg/runtime/message_repo.go: the message table and its statements. Rows with the same time come
-- in no order that SQL promises; the model lists the row that was inserted last first.
pub mod Window
pub mod History
pub mod Listing
pub mod Lookup
pub mod Insertion
pub mod Tenants
mod Tests
use ragivka.Prelude.{
  ℕ, ◌-◌, Bool, false, ◌&&◌, ◌||◌, String, Option, none, some, List, [], ◌∷◌, reverse, ltb, not,
  is_some, ◌==◌, str_eq, if◌then◌else◌, ℤ, is_positive, to_nat,
}
use ragivka.Errors.{ok, err, other, sentinel, not_found}
use ragivka.Tenant.{Ctx, Uuid, tenant_id_from_ctx}
use ragivka.Runtime.Types.{Message}
use ragivka.Runtime.Sessions.{has_key, find_session}
use ragivka.World.{World, Exec, ◌>>=◌, pure, fail, lift, statement}

pub find_message : (Message → Bool) → List Message → Option Message
find_message p [] = none
find_message p (m ∷ rest) = if p m then some m else find_message p rest

pub filter_messages : (Message → Bool) → List Message → List Message
filter_messages p [] = []
filter_messages p (m ∷ rest) = let kept = filter_messages p rest in if p m then m ∷ kept else kept

-- role IN ('user', 'assistant', 'system')
known_role : String → Bool
known_role r = str_eq r "user" || str_eq r "assistant" || str_eq r "system"

-- The primary key, the CHECK on the role and the foreign key (tenant_id, session_id) of
-- migrations/002_sessions.sql.
accepts_message : World → Message → Bool
unfolding find_message known_role
accepts_message w m =
    not (is_some (find_message (λ n. n.id == m.id) w.messages))
    && known_role m.role
    && is_some (find_session (has_key m.session_id m.tenant_id) w.sessions)

insert_message : Message → Exec Message
unfolding accepts_message
insert_message m w =
    if accepts_message w m
    then (ok m, record w { messages = record m { created_at = w.now } ∷ w.messages })
    else (err (other "constraint violation"), w)

-- The caller's struct gets the tenant, and a new id if it has none.
abbrev pub filled_message : ℕ → ℕ → Message → Message
filled_message tenant fresh m = record m {
  tenant_id = tenant;
  id = if m.id == 0 then fresh else m.id;
}

-- ORDER BY created_at DESC
pub insert_newest : Message → List Message → List Message
insert_newest m [] = m ∷ []
insert_newest m (n ∷ rest) =
    let later = insert_newest m rest in
    if ltb m.created_at n.created_at then n ∷ later else m ∷ n ∷ rest

pub newest_first : List Message → List Message
unfolding insert_newest
newest_first [] = []
newest_first (m ∷ rest) = insert_newest m (newest_first rest)

-- A nil TokenCount costs nothing.
abbrev pub cost : Option ℕ → ℕ
cost none = 0
cost (some tokens) = tokens

-- The loop over the rows: it ends at the first message that the budget does not cover.
pub within_budget : ℕ → List Message → List Message
within_budget budget [] = []
within_budget budget (m ∷ rest) =
    let kept = within_budget (budget - cost m.token_count) rest in
    if ltb budget (cost m.token_count) then [] else m ∷ kept

-- A budget that is not positive is no limit.
unfoldable pub windowed : ℤ → List Message → List Message
unfolding within_budget
windowed max_tokens rows =
    if is_positive max_tokens then within_budget (to_nat max_tokens) rows else rows

-- WHERE session_id = $1 AND tenant_id = $2
abbrev pub in_session : ℕ → ℕ → Message → Bool
in_session session tenant m = m.session_id == session && m.tenant_id == tenant

-- NULL equals nothing.
abbrev pub is_job : Option ℕ → ℕ → Bool
is_job none job = false
is_job (some j) job = j == job

-- WHERE job_id = $1 AND tenant_id = $2
abbrev pub from_job : ℕ → ℕ → Message → Bool
from_job job tenant m = is_job m.job_id job && m.tenant_id == tenant

message_or_not_found : Option Message → Exec Message
message_or_not_found none = fail (sentinel not_found)
message_or_not_found (some m) = pure m

module _ ⦃uuid : Uuid⦄ where
  unfoldable pub create_message : Ctx → ℕ → Message → Exec Message
  unfolding insert_message
  create_message ctx fresh m = do
    tenant ← lift (tenant_id_from_ctx ctx)
    statement (insert_message (filled_message tenant fresh m))

  unfoldable pub list_for_session : Ctx → ℕ → ℤ → Exec (List Message)
  unfolding filter_messages newest_first windowed
  list_for_session ctx session max_tokens = do
    tenant ← lift (tenant_id_from_ctx ctx)
    statement λ w. (
      ok (
          reverse (
            windowed max_tokens
              (newest_first (filter_messages (in_session session tenant) w.messages)))),
      w,
    )

  unfoldable pub get_by_job_id : Ctx → ℕ → Exec Message
  unfolding message_or_not_found find_message
  get_by_job_id ctx job = do
    tenant ← lift (tenant_id_from_ctx ctx)
    statement (λ w. message_or_not_found (find_message (from_job job tenant) w.messages) w)
