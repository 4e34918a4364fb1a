-- ===== src/Runtime/Types.antt =====
-- pkg/runtime/types.go: sessions and messages, as the tables hold them.
use ragivka.Prelude.{ℕ, String, Option, List}
use ragivka.Runtime.Fsm.{State}

-- A UUID is a number, a time is a number of ticks.
pub record Session : Type 0 where
  pub id : ℕ
  pub tenant_id : ℕ
  pub user_id : ℕ
  pub state : State
  pub version : ℕ  -- optimistic locking counter; the column is checked to be ≥ 0
  pub tier : String
  pub channel : String
  pub expires_at : ℕ
  pub created_at : ℕ
  pub updated_at : ℕ

pub record Message : Type 0 where
  pub id : ℕ
  pub session_id : ℕ
  pub tenant_id : ℕ
  pub role : String
  pub content : String
  pub citation_refs : List ℕ
  pub token_count : Option ℕ
  pub job_id : Option ℕ
  pub created_at : ℕ

-- A row of the table "user" of migrations/001_foundation.sql.
pub record User : Type 0 where
  pub id : ℕ
  pub tenant_id : ℕ
  pub channel_type : String
  pub channel_id : String

-- The payload of the job that writes an answer (pkg/runtime/jobs.go).
pub record GenerateResponseArgs : Type 0 where
  pub tenant_id : ℕ
  pub session_id : ℕ
  pub message_id : ℕ
  pub idempotency_key : String
