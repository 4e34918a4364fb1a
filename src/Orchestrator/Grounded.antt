-- ===== src/Orchestrator/Grounded.antt =====
-- pkg/orchestrator/l1.go: retrieval, a structured answer, and the gate before it is shown.
pub mod Trust
pub mod Answered
pub mod Isolation
use ragivka.Prelude.{
  ℕ, suc, Bool, true, false, String, Option, none, some, List, [], ◌∷◌, ◌++◌, map, if◌then◌else◌,
  pos, append, concat, decimal,
}
use ragivka.Errors.{Err, Result, ok, err, panic, is, hitl_required}
use ragivka.Tenant.{Ctx, Uuid}
use ragivka.Aicore.Types.{ChatMessage, GenerateRequest, GenerateResponse, task_generation}
use ragivka.Aicore.Router.{LlmClient, RouterPolicy, generate}
use ragivka.Knowledge.Retrieval.{RankedChunk, Retriever}
use ragivka.Orchestrator.Parts.{new_message, user_message, to_ai_messages, session_ctx}
use ragivka.Runtime.Fsm.{waiting_for_human}
use ragivka.Runtime.Types.{Session, Message}
use ragivka.Runtime.Sessions.{transition}
use ragivka.Runtime.Messages.{create_message, list_for_session}
use ragivka.Tools.Guards.{Floats, HitlGate, evaluate}
use ragivka.World.{Exec, ◌>>=◌, pure, lift, fail, context}

abbrev pub l1_system_instruction : String
l1_system_instruction =
    "You must respond with ONLY a JSON object matching this exact shape, no other text:\n{\"answer\": \"<your answer to the user's question, grounded in the provided context>\", \"confidence\": <float 0.0-1.0, your confidence that the answer is correct and fully supported by the context>, \"requires_human\": <true if you are unsure, the context does not contain the answer, or the question needs human judgement>}"

module _ ⦃floats : Floats⦄ where
  pub record StructuredAnswer : Type 0 where
    pub answer : String
    pub confidence : floats.Float
    pub requires_human : Bool

  -- json.Unmarshal into the answer's struct: nothing where it fails.
  abbrev pub Decoder : Type 0
  Decoder = String → Option StructuredAnswer

  reference_lines : ℕ → List RankedChunk → String
  reference_lines i [] = ""
  reference_lines i (c ∷ rest) =
      concat ("[" ∷ decimal (suc i) ∷ "] " ∷ c.content ∷ "\n\n" ∷ reference_lines (suc i) rest ∷ [])

  build_context_block : List RankedChunk → String
  unfolding reference_lines
  build_context_block chunks =
      append "Use the following retrieved context to answer the question:\n\n"
        (reference_lines 0 chunks)

  context_messages : List RankedChunk → List ChatMessage
  unfolding build_context_block
  context_messages [] = []
  context_messages (c ∷ rest) =
      record { role = "system"; content = build_context_block (c ∷ rest) } ∷ []

  build_rag_messages : List Message → List RankedChunk → List ChatMessage
  unfolding context_messages
  build_rag_messages history chunks =
      context_messages chunks
      ++ (record { role = "system"; content = l1_system_instruction } ∷ to_ai_messages history)

  l1_request : List Message → List RankedChunk → GenerateRequest
  unfolding build_rag_messages
  l1_request history chunks = record {
    model = "";
    messages = build_rag_messages history chunks;
    max_tokens = 0;
    force_json = true;
    task_hint = task_generation;
  }

  -- Whether the gate's answer lets the reply pass.
  gated : Result (Unit {0}) → StructuredAnswer → Result (Option StructuredAnswer)
  gated (ok _) a = ok (if a.requires_human then none else some a)
  gated (err e) a = if is e hitl_required then ok none else err e
  gated (panic p) a = panic p

  -- The answer to show, or nothing where a human is to be asked.
  verdict : HitlGate → Option StructuredAnswer → Result (Option StructuredAnswer)
  unfolding gated
  verdict gate none = ok none
  verdict gate (some a) = gated (evaluate gate a.confidence) a

  chunk_ids : List RankedChunk → List ℕ
  chunk_ids = map (λ c. c.chunk_id)

module _ ⦃uuid : Uuid⦄ ⦃floats : Floats⦄ where
  escalate : Ctx → Session → Exec (Unit {0})
  escalate tctx session = do
    version ←
        context "l1: escalate to WaitingForHuman"
          (transition tctx session.id session.state waiting_for_human session.version)
    pure tt

  conclude : ℕ → Ctx → Session → List RankedChunk → Option StructuredAnswer → Exec (Unit {0})
  unfolding escalate chunk_ids
  conclude fresh tctx session chunks none = escalate tctx session
  conclude fresh tctx session chunks (some a) = do
    m ← context "l1: save assistant message" (
        create_message tctx fresh
          (new_message fresh session "assistant" a.answer (chunk_ids chunks)))
    pure tt

  module _ (client : LlmClient) (policy : RouterPolicy) (retriever : Retriever) (gate : HitlGate)
      (decode : Decoder) where
    -- What follows the model's response.
    pub settle : ℕ → Ctx → Session → List RankedChunk → GenerateResponse → Exec (Unit {0})
    unfolding conclude verdict
    settle fresh tctx session chunks resp = do
      shown ← context "l1: hitl evaluate" (lift (verdict gate (decode resp.content)))
      conclude fresh tctx session chunks shown

    pub reply : ℕ → Ctx → Session → String → Exec (Unit {0})
    unfolding l1_request settle
    reply fresh tctx session text = do
      chunks ← context "l1: retrieve" (retriever tctx text 5 (floats.of_tenths 7))
      history ← context "l1: load history" (list_for_session tctx session.id (pos 0))
      resp ← context "l1: generate" (generate client policy tctx (l1_request history chunks))
      settle fresh tctx session chunks resp

    -- Handle
    unfoldable pub handle_l1 : ℕ → ℕ → Ctx → Session → String → Exec (Unit {0})
    unfolding reply
    handle_l1 fresh fresh' ctx session text =
        let tctx = session_ctx ctx session in
        (do
          asked ←
              context "l1: save user message"
                (create_message tctx fresh (user_message fresh session text))
          reply fresh' tctx session text)
