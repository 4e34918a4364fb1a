-- ===== src/Runtime/ToolJob/Tests.antt =====
-- Runs of the worker of pkg/runtime/tool_job.go: a write tool, and confidences that are numbers.
use ragivka.Prelude.{
  ℕ, ◌+◌, ◌-◌, ◌/◌, ◌*◌, ◌≡◌, ◌≢◌, refl, String, false, [], ◌∷◌, arith, ltb, lookup, map, some,
}
use ragivka.Errors.{Result, ok}
use ragivka.Tenant.{with_tenant_id}
use ragivka.Tenant.Sample.{unary_uuid, tenant_ctx}
use ragivka.Runtime.Fsm.{State, active, waiting_for_human}
use ragivka.Runtime.Types.{Session}
use ragivka.Runtime.Sessions.{has_key, find_session, advance_row}
use ragivka.Runtime.ToolJob.{ExecuteToolArgs, work}
use ragivka.Runtime.ToolJob.Guarded.{work-call_guarded, work-rerun_silent}
use ragivka.Runtime.ToolJob.Escalation.{work-low_confidence}
use ragivka.Tools.Types.{kind_write, Tool}
use ragivka.Tools.Registry.{Registry, get, execute}
use ragivka.Tools.Guards.{Floats, HitlGate, is_executed, evaluate, log}
use ragivka.Tools.Guards.Fulfilled.{table_writer, table_writer-IsDurable}
use ragivka.World.{World}

abbrev percent : Floats
percent = record {
  Float = ℕ;
  less = ltb;
  of_tenths = λ n. n * 10;
  add = λ a b. a + b;
  sub = λ a b. a - b;
  mul = λ a b. a * b / 100;
}

abbrev gate : HitlGate ⦃floats = percent⦄
gate = record { threshold = 80 }

abbrev refund : Tool
refund = record { name = "refund"; kind = kind_write; run = λ ctx args n. ok "done" }

abbrev registry : Registry
registry = ("refund", refund) ∷ []

abbrev sure : ExecuteToolArgs ⦃floats = percent⦄
sure = record {
  tenant_id = 5;
  session_id = 1;
  tool_name = "refund";
  args = "{}";
  idempotency_key = "k1";
  confidence = 90;
}

abbrev quiet : World
quiet = record {
  sessions = [];
  messages = [];
  audit_log = [];
  prompts = [];
  documents = [];
  chunks = [];
  artifacts = [];
  users = [];
  calls = [];
  faults = [];
  now = 1;
}

abbrev hash : String → String
hash s = s

abbrev first_run : Result (Unit {0}) × World
first_run =
    work ⦃uuid = unary_uuid⦄ ⦃floats = percent⦄ registry table_writer hash gate (tenant_ctx 5) sure
      quiet

found : get registry "refund" ≡ ok refund
unfolding get lookup
found = refl

called : first_run.1.calls ≢ quiet.calls
unfolding work get execute evaluate is_executed log lookup
called h = absurd (ground arith)

finished : first_run.0 ≡ ok tt
unfolding work get execute evaluate is_executed log lookup
finished = refl

work-call_guarded_example :
    (ltb 90 80 ≡ false)
    × ((is_executed table_writer hash
          (with_tenant_id (tenant_ctx 5) (unary_uuid.to_string 5))
          "k1"
          quiet).0
        ≡ ok false)
work-call_guarded_example =
    work-call_guarded ⦃uuid = unary_uuid⦄ ⦃floats = percent⦄ registry table_writer hash gate
      table_writer-IsDurable (tenant_ctx 5) sure refund quiet found refl called

work-rerun_silent_example :
    (work ⦃uuid = unary_uuid⦄ ⦃floats = percent⦄ registry table_writer hash gate
      (tenant_ctx 9)
      sure
      first_run.1).1.calls
    ≡ first_run.1.calls
work-rerun_silent_example =
    work-rerun_silent ⦃uuid = unary_uuid⦄ ⦃floats = percent⦄ registry table_writer hash gate
      table_writer-IsDurable (tenant_ctx 5) (tenant_ctx 9) sure refund quiet found refl called
      finished

abbrev unsure : ExecuteToolArgs ⦃floats = percent⦄
unsure = record sure { confidence = 10 }

abbrev session : State → Session
session state = record {
  id = 1;
  tenant_id = 5;
  user_id = 7;
  state = state;
  version = 3;
  tier = "L2";
  channel = "web";
  expires_at = 9;
  created_at = 0;
  updated_at = 0;
}

abbrev one_session : State → World
one_session state = record quiet { sessions = session state ∷ [] }

row :
    (state : State) → find_session (has_key 1 5) (one_session state).sessions ≡ some (session state)
unfolding find_session
row state = refl

work-low_confidence_example :
    work ⦃uuid = unary_uuid⦄ ⦃floats = percent⦄ registry table_writer hash gate
      (tenant_ctx 9)
      unsure
      (one_session active)
    ≡ (
      ok tt,
      record quiet {
        sessions = map (advance_row 1 5 waiting_for_human 3 1) (one_session active).sessions;
      },
    )
work-low_confidence_example =
    work-low_confidence ⦃uuid = unary_uuid⦄ ⦃floats = percent⦄ registry table_writer hash gate
      (tenant_ctx 9) unsure refund (session active) (one_session active) refl found refl refl
      (row active) refl
