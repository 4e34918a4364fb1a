-- ===== src/Orchestrator/SingleShot.antt =====
-- pkg/orchestrator/l0.go: one question to the model, without retrieval.
pub mod Conversation
pub mod Isolation
use ragivka.Prelude.{ℕ, String, false, pos, []}
use ragivka.Tenant.{Ctx, Uuid}
use ragivka.Aicore.Types.{GenerateRequest, task_generation}
use ragivka.Aicore.Router.{LlmClient, RouterPolicy, generate}
use ragivka.Orchestrator.Parts.{new_message, user_message, to_ai_messages, session_ctx}
use ragivka.Runtime.Types.{Session, Message}
use ragivka.Runtime.Messages.{create_message, list_for_session}
use ragivka.World.{Exec, ◌>>=◌, pure, context}
use ragivka.Prelude.{List}

abbrev pub l0_request : List Message → GenerateRequest
l0_request history = record {
  model = "";
  messages = to_ai_messages history;
  max_tokens = 0;
  force_json = false;
  task_hint = task_generation;
}

-- Handle; the two fresh ids are those of the user's message and of the answer.
unfoldable pub handle_l0 :
    ⦃uuid : Uuid⦄ → LlmClient → RouterPolicy → ℕ → ℕ → Ctx → Session → String → Exec (Unit {0})
handle_l0 client policy fresh fresh' ctx session text =
    let tctx = session_ctx ctx session in
    (do
      asked ←
          context "l0: save user message"
            (create_message tctx fresh (user_message fresh session text))
      history ← context "l0: load history" (list_for_session tctx session.id (pos 0))
      resp ← context "l0: generate" (generate client policy tctx (l0_request history))
      answered ←
          context "l0: save assistant message"
            (create_message tctx fresh' (new_message fresh' session "assistant" resp.content []))
      pure tt)
