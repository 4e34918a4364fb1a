-- ===== src/Runtime/GenerateJob.antt =====
-- pkg/runtime/jobs.go: the worker that writes an assistant's answer. Logging is left out.
pub mod Once
pub mod Rerun
pub mod Isolation
mod Tests
use ragivka.Prelude.{
  ℕ, suc, Bool, false, String, Option, none, some, List, [], ◌∷◌, ◌++◌, map, str_eq, if◌then◌else◌,
  pos, append, concat, decimal,
}
use ragivka.Errors.{Err, Result, ok, err, panic, is, not_found, prompt_not_found}
use ragivka.Tenant.{Ctx, Uuid, with_tenant_id}
use ragivka.Aicore.Types.{ChatMessage, GenerateRequest, GenerateResponse, task_generation}
use ragivka.Aicore.Router.{LlmClient, RouterPolicy, generate}
use ragivka.Aicore.Prompts.{load_latest}
use ragivka.Aicore.Sanitize.{Regexp, sanitize_input}
use ragivka.Knowledge.Retrieval.{RankedChunk, Retriever}
use ragivka.Runtime.Fsm.{is_terminal}
use ragivka.Runtime.Types.{Session, Message, GenerateResponseArgs}
use ragivka.Runtime.Sessions.{get_by_id}
use ragivka.Runtime.Messages.{create_message, list_for_session, get_by_job_id}
use ragivka.Tools.Guards.{Floats}
use ragivka.World.{Exec, ◌>>=◌, ◌>>◌, pure, fail, lift, attempt}

-- The last user message, given the first one found so far.
last_user : String → List Message → String
last_user found [] = found
last_user found (m ∷ rest) = last_user (if str_eq m.role "user" then m.content else found) rest

last_user_message : List Message → String
unfolding last_user
last_user_message history = last_user "" history

module _ ⦃floats : Floats⦄ where
  context_lines : ℕ → List RankedChunk → String
  context_lines i [] = ""
  context_lines i (c ∷ rest) =
      concat ("[" ∷ decimal (suc i) ∷ "] " ∷ c.content ∷ "\n\n" ∷ context_lines (suc i) rest ∷ [])

  build_context_block : List RankedChunk → String
  unfolding context_lines
  build_context_block chunks =
      append "<retrieved_context>\n" (append (context_lines 0 chunks) "</retrieved_context>")

  chunk_ids : List RankedChunk → List ℕ
  chunk_ids = map (λ c. c.chunk_id)

  -- A retrieval error leaves the answer without context.
  context_of : Result (List RankedChunk) → Exec (String × List ℕ)
  unfolding build_context_block chunk_ids
  context_of (ok []) = pure ("", [])
  context_of (ok (c ∷ rest)) = pure (build_context_block (c ∷ rest), chunk_ids (c ∷ rest))
  context_of (err e) = pure ("", [])
  context_of (panic p) = lift (panic p)

  query_context : Retriever → Ctx → String → Exec (String × List ℕ)
  unfolding context_of
  query_context retriever tctx query = do
    r ← attempt (retriever tctx query 5 (floats.of_tenths 7))
    context_of r

  retrieved : Option Retriever → Ctx → List Message → Exec (String × List ℕ)
  unfolding last_user_message query_context
  retrieved none tctx history = pure ("", [])
  retrieved (some retriever) tctx history =
      if str_eq (last_user_message history) ""
      then pure ("", [])
      else query_context retriever tctx (last_user_message history)

prompt_or_empty : Result String → Exec String
prompt_or_empty (ok prompt) = pure prompt
prompt_or_empty (err e) = if is e prompt_not_found then pure "" else fail e
prompt_or_empty (panic p) = lift (panic p)

system_message : String → List ChatMessage
system_message text = if str_eq text "" then [] else record { role = "system"; content = text } ∷ []

-- Only what the user wrote is sanitised.
chat_message : ⦃regexp : Regexp⦄ → Message → ChatMessage
chat_message m = record {
  role = m.role;
  content = if str_eq m.role "user" then sanitize_input m.content else m.content;
}

llm_request : ⦃regexp : Regexp⦄ → String → String → List Message → GenerateRequest
unfolding system_message chat_message
llm_request system_prompt context history = record {
  model = "";
  messages = system_message system_prompt ++ (system_message context ++ map chat_message history);
  max_tokens = 0;
  force_json = false;
  task_hint = task_generation;
}

abbrev pub answer_message : GenerateResponseArgs → ℕ → ℕ → List ℕ → GenerateResponse → Message
answer_message args job fresh refs resp = record {
  id = fresh;
  session_id = args.session_id;
  tenant_id = args.tenant_id;
  role = "assistant";
  content = resp.content;
  citation_refs = refs;
  token_count = some resp.output_tokens;
  job_id = some job;
  created_at = 0;
}

module _ ⦃uuid : Uuid⦄ ⦃floats : Floats⦄ ⦃regexp : Regexp⦄ (client : LlmClient)
    (policy : RouterPolicy) (retriever : Option Retriever) where
  system_prompt : Ctx → Exec String
  unfolding prompt_or_empty
  system_prompt tctx = do r ← attempt (load_latest tctx "default"); prompt_or_empty r

  -- The id of the new message is `fresh`.
  answer : Ctx → ℕ → ℕ → GenerateResponseArgs → Exec Message
  unfolding retrieved system_prompt llm_request
  answer tctx fresh job args = do
    history ← list_for_session tctx args.session_id (pos 4096)
    context ← retrieved retriever tctx history
    prompt ← system_prompt tctx
    resp ← generate client policy tctx (llm_request prompt context.0 history)
    create_message tctx fresh (answer_message args job fresh context.1 resp)

  -- No answer for a session that has ended.
  unless_ended : Ctx → ℕ → ℕ → GenerateResponseArgs → Session → Exec (Unit {0})
  unfolding answer
  unless_ended tctx fresh job args session =
      if is_terminal session.state then pure tt else (do m ← answer tctx fresh job args; pure tt)

  unless_answered : Ctx → ℕ → ℕ → GenerateResponseArgs → Result Message → Exec (Unit {0})
  unfolding unless_ended
  unless_answered tctx fresh job args (ok m) = pure tt
  unless_answered tctx fresh job args (err e) =
      if is e not_found
      then (do session ← get_by_id tctx args.session_id; unless_ended tctx fresh job args session)
      else fail e
  unless_answered tctx fresh job args (panic p) = lift (panic p)

  -- Work
  unfoldable pub work : Ctx → ℕ → ℕ → GenerateResponseArgs → Exec (Unit {0})
  unfolding unless_answered
  work ctx fresh job args =
      let tctx = with_tenant_id ctx (uuid.to_string args.tenant_id) in
      (do existing ← attempt (get_by_job_id tctx job); unless_answered tctx fresh job args existing)
