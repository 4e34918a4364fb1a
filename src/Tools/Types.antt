-- ===== src/Tools/Types.antt =====
-- pkg/tools/types.go: tool kinds, tools and audit records.
use ragivka.Prelude.{ℕ, String}
use ragivka.Errors.{Result}
use ragivka.Tenant.{Ctx}

pub data ToolKind : Type 0 where
  kind_read kind_draft kind_write : ToolKind

-- The `iota` values, by which kinds are compared.
abbrev pub rank : ToolKind → ℕ
rank kind_read = 0
rank kind_draft = 1
rank kind_write = 2

-- A tool. What it answers may change from call to call: `run` also takes the number of calls
-- that left the process before.
pub record Tool : Type 0 where
  pub name : String
  pub kind : ToolKind
  pub run : Ctx → String → ℕ → Result String

pub record AuditRecord : Type 0 where
  pub idempotency_key : String
  pub tool_name : String
  pub tenant_id : String
  pub session_id : String
  pub request_hash : String
  pub response_hash : String
