-- ===== src/Orchestrator/Tests.antt =====
-- Runs of pkg/orchestrator in a world with one session.
use ragivka.Prelude.{ℕ, ◌≡◌, ◌≢◌, refl, true, false, String, Option, none, some, [], ◌∷◌, arith}
use ragivka.Errors.{Result, ok}
use ragivka.Tenant.{Ctx, tenant_id_from_ctx, tenant_uuid_from_ctx, with_tenant_id}
use ragivka.Tenant.Sample.{unary_uuid, tenant_ctx}
use ragivka.Aicore.Types.{GenerateResponse}
use ragivka.Aicore.Router.{default_policy, generate, ask}
use ragivka.Knowledge.Retrieval.{Retriever}
use ragivka.Orchestrator.Parts.{new_message, user_message, session_ctx}
use ragivka.Orchestrator.SingleShot.{handle_l0}
use ragivka.Orchestrator.SingleShot.Conversation.{IsAnswer, stored_at, handle_l0-stored}
use ragivka.Orchestrator.Grounded.{Decoder, handle_l1}
use ragivka.Orchestrator.Grounded.Trust.{Shown}
use ragivka.Orchestrator.Grounded.Answered.{handle_l1-Shown}
use ragivka.Orchestrator.Queued.{JobEnqueuer, job_args, handle_l2}
use ragivka.Orchestrator.Queued.Accepted.{accepted_answered, question_of}
use ragivka.Aicore.Prompts.{load_latest}
use ragivka.Runtime.GenerateJob.{work}
use ragivka.Runtime.GenerateJob.Once.{Settled}
use ragivka.Orchestrator.Dispatch.{Handler, TieredOrchestrator, run}
use ragivka.Paths.{path_parts}
use ragivka.Orchestrator.Endpoint.{HttpRequest, extract_session_id, serve}
use ragivka.Runtime.Types.{Message}
use ragivka.Runtime.Sessions.{find_session, get_by_id, known_tier}
use ragivka.Runtime.Messages.{create_message, get_by_job_id, list_for_session, filled_message}
use ragivka.Tools.Guards.{HitlGate, evaluate}
use ragivka.World.{World, Exec, Call, pure}
use ragivka.World.Sample.{percent, plain, parrot, one_session, start}

abbrev ctx : Ctx
ctx = tenant_ctx 5

abbrev l0_run : Result (Unit {0}) × World
l0_run = handle_l0 ⦃uuid = unary_uuid⦄ parrot default_policy 3 4 ctx one_session "why?" start

l0_finished : l0_run.0 ≡ ok tt
unfolding handle_l0 create_message tenant_id_from_ctx with_tenant_id list_for_session generate ask
    default_policy find_session
l0_finished = refl

handle_l0-stored_example :
    (resp : GenerateResponse) × IsAnswer ⦃uuid = unary_uuid⦄ parrot default_policy 3 ctx one_session
      "why?" start resp
    × (l0_run.1.messages ≡ (
        stored_at 10 (filled_message 5 4 (new_message 4 one_session "assistant" resp.content []))
        ∷ stored_at 10 (filled_message 5 3 (user_message 3 one_session "why?"))
        ∷ start.messages))
handle_l0-stored_example =
    handle_l0-stored ⦃uuid = unary_uuid⦄ parrot default_policy 3 4 ctx one_session "why?" start
      l0_finished

abbrev queue : JobEnqueuer
queue args n = ok tt

abbrev nothing_found : Retriever ⦃floats = percent⦄
nothing_found c query k alpha = pure []

abbrev gate : HitlGate ⦃floats = percent⦄
gate = record { threshold = 80 }

abbrev certain : Decoder ⦃floats = percent⦄
certain text = some (record { answer = text; confidence = 95; requires_human = false })

abbrev l1_run : Result (Unit {0}) × World
l1_run =
    handle_l1 ⦃uuid = unary_uuid⦄ ⦃floats = percent⦄ parrot default_policy nothing_found gate
      certain 3 4 ctx one_session "why?" start

abbrev asked : World
asked =
    (create_message ⦃uuid = unary_uuid⦄ (session_ctx ⦃uuid = unary_uuid⦄ ctx one_session) 3
      (user_message 3 one_session "why?") start).1

l1_answered : l1_run.1.messages ≢ asked.messages
unfolding handle_l1 create_message tenant_id_from_ctx with_tenant_id list_for_session generate ask
    default_policy find_session evaluate
l1_answered h = absurd (ground arith)

handle_l1-Shown_example :
    (resp : GenerateResponse) × Shown ⦃uuid = unary_uuid⦄ ⦃floats = percent⦄ parrot default_policy
      nothing_found gate certain ctx one_session resp asked.messages l1_run.1.messages
handle_l1-Shown_example =
    handle_l1-Shown ⦃uuid = unary_uuid⦄ ⦃floats = percent⦄ parrot default_policy nothing_found gate
      certain ctx one_session 3 4 "why?" start (λ c q k a w. refl) l1_answered

abbrev tiers : TieredOrchestrator
tiers = record {
  l0 = λ c s t. pure tt;
  l1 = λ c s t. pure tt;
  l2 = handle_l2 ⦃uuid = unary_uuid⦄ queue 3;
}

loaded : get_by_id ⦃uuid = unary_uuid⦄ ctx 1 start ≡ (ok one_session, start)
unfolding get_by_id tenant_id_from_ctx find_session
loaded = refl

is_known : known_tier "L2" ≡ true
unfolding known_tier
is_known = refl

abbrev always : Ctx → ℕ → String → Exec (Unit {0})
always c id text = pure tt

abbrev whole : ℕ → String → Option String
whole limit body = some body

abbrev post : HttpRequest
post = record { method = "POST"; path = "/v1/sessions/111/messages"; body = "why?" }

accepted : (serve ⦃uuid = unary_uuid⦄ always whole ctx post start).0 ≡ ok 202
unfolding serve extract_session_id path_parts
accepted = refl

-- The question to the session 1, and the worker on its job.
abbrev ask_one : HttpRequest
ask_one = record post { path = "/v1/sessions/11/messages" }

abbrev idle : Handler
idle c s t = pure tt

abbrev stored_question : Message
stored_question = question_of ⦃uuid = unary_uuid⦄ queue 3 idle idle one_session "why?"

abbrev posted : Result ℕ × World
posted = serve ⦃uuid = unary_uuid⦄ (run ⦃uuid = unary_uuid⦄ tiers) whole ctx ask_one start

abbrev worked : Result (Unit {0}) × World
worked =
    work ⦃uuid = unary_uuid⦄ ⦃floats = percent⦄ ⦃regexp = plain⦄ parrot default_policy none ctx 4 8
      (job_args ⦃uuid = unary_uuid⦄ one_session stored_question) posted.1

accepted_answered_example :
    (posted.1.messages ≡ (record stored_question { created_at = 10 } ∷ start.messages))
    × (posted.1.calls
        ≡ (Call.enqueue (job_args ⦃uuid = unary_uuid⦄ one_session stored_question) ∷ start.calls))
    × Settled 8 (job_args ⦃uuid = unary_uuid⦄ one_session stored_question) worked.1
unfolding serve extract_session_id path_parts run get_by_id tenant_id_from_ctx find_session
    handle_l2 create_message with_tenant_id work get_by_job_id list_for_session load_latest generate
    ask default_policy tenant_uuid_from_ctx
accepted_answered_example =
    accepted_answered ⦃uuid = unary_uuid⦄ queue 3 idle idle ⦃floats = percent⦄ ⦃regexp = plain⦄
      parrot default_policy none whole ctx ctx ask_one 1 5 one_session "why?" start posted.1 4 8
      refl refl refl refl refl refl refl
