-- ===== src/Aicore/Tests.antt =====
-- The router of pkg/aicore with a client whose first answer is an error.
use ragivka.Prelude.{ℕ, zero, suc, ◌≡◌, refl, ◌⊎◌, none, some, [], false, String}
use ragivka.Errors.{Result, ok, err, other}
use ragivka.Tenant.Sample.{tenant_ctx}
use ragivka.Aicore.Types.{GenerateRequest, GenerateResponse, task_generation}
use ragivka.Aicore.Router.{LlmClient, RouterPolicy, with_model, ask, generate}
use ragivka.Aicore.Router.Fallback.{IsChosen, Once, Twice, generate-asks}
use ragivka.World.{World}

abbrev answer_at : GenerateRequest → ℕ → Result GenerateResponse
answer_at req zero = err (other "overloaded")
answer_at req (suc n) =
    ok (record { content = "hello"; model = req.model; input_tokens = 1; output_tokens = 1 })

abbrev flaky : LlmClient
flaky ctx req n = answer_at req n

abbrev policy : RouterPolicy
policy = record { models = λ task. none; default_model = "big"; fallback = "small" }

abbrev request : GenerateRequest
request = record {
  model = "";
  messages = [];
  max_tokens = 0;
  force_json = false;
  task_hint = task_generation;
}

abbrev quiet : World
quiet = record {
  sessions = [];
  messages = [];
  audit_log = [];
  prompts = [];
  documents = [];
  chunks = [];
  artifacts = [];
  users = [];
  calls = [];
  faults = [];
  now = 1;
}

rescued :
    (generate flaky policy (tenant_ctx 5) request quiet).0
    ≡ ok (record { content = "hello"; model = "small"; input_tokens = 1; output_tokens = 1 })
unfolding generate ask with_model
rescued = refl

generate-asks_example :
    (model : String) × IsChosen policy request model
    × (Once flaky policy
          (tenant_ctx 5)
          (record request { model = model })
          quiet
          (generate flaky policy (tenant_ctx 5) request quiet)
        ⊎ Twice flaky policy
            (tenant_ctx 5)
            (record request { model = model })
            quiet
            (generate flaky policy (tenant_ctx 5) request quiet))
generate-asks_example = generate-asks flaky policy (tenant_ctx 5) request quiet

-- An entry that is present and empty is taken, and not the default.
with_model_empty_entry :
    (with_model (record policy { models = λ task. some "" }) request).model ≡ ""
unfolding with_model
with_model_empty_entry = refl
