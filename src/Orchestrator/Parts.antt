-- ===== src/Orchestrator/Parts.antt =====
-- What the tier handlers of pkg/orchestrator share: the messages they write and their chat form.
use ragivka.Prelude.{ℕ, String, List, [], map, none}
use ragivka.Tenant.{Ctx, Uuid, with_tenant_id}
use ragivka.Aicore.Types.{ChatMessage}
use ragivka.Runtime.Types.{Session, Message}

-- A new message of a session, with the id that uuid.New() gave.
abbrev pub new_message : ℕ → Session → String → String → List ℕ → Message
new_message fresh session role content refs = record {
  id = fresh;
  session_id = session.id;
  tenant_id = session.tenant_id;
  role = role;
  content = content;
  citation_refs = refs;
  token_count = none;
  job_id = none;
  created_at = 0;
}

abbrev pub user_message : ℕ → Session → String → Message
user_message fresh session text = new_message fresh session "user" text []

abbrev pub chat_of : Message → ChatMessage
chat_of m = record { role = m.role; content = m.content }

abbrev pub to_ai_messages : List Message → List ChatMessage
to_ai_messages = map chat_of

-- The handlers work under the tenant of the session.
abbrev pub session_ctx : ⦃uuid : Uuid⦄ → Ctx → Session → Ctx
session_ctx ⦃uuid⦄ ctx session = with_tenant_id ctx (uuid.to_string session.tenant_id)
