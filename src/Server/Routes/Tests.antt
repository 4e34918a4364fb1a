-- ===== src/Server/Routes/Tests.antt =====
-- Requests to cmd/server/main.go: a stranger is refused, then tenant 5 asks and the worker answers,
-- while tenant 6 looks on.
use ragivka.Prelude.{
  ℕ, ◌≡◌, refl, decimal, pos, false, ap, ◌∙◌, true, String, List, [], ◌∷◌, inl, Option, none, some,
  some-eq_some, str_eq, arith,
}
use ragivka.Errors.{Result, ok}
use ragivka.Tenant.{Ctx, with_tenant_id, get_tenant_id, tenant_id_from_ctx}
use ragivka.Tenant.Sample.{unary_uuid}
use ragivka.Knowledge.Parsers.{Libraries, nil}
use ragivka.Knowledge.Retrieval.Hybrid.{Scoring}
use ragivka.Middleware.Auth.{Claims, Verifier, bearer_token, jwt_auth, with_user_id}
use ragivka.Middleware.RateLimit.{rate_limit}
use ragivka.Middleware.RequestId.{request_id}
use ragivka.Orchestrator.Endpoint.{serve, extract_session_id}
use ragivka.Orchestrator.Dispatch.{run}
use ragivka.Orchestrator.Queued.{handle_l2}
use ragivka.Runtime.Sessions.{get_active_by_user_id, create_session, get_by_id, find_session}
use ragivka.Runtime.Messages.{create_message, list_for_session}
use ragivka.Server.{getenv, env_int, web_chain, chain_middleware}
use ragivka.Server.Mux.{target_of}
use ragivka.Paths.{path_parts, split_path}
use ragivka.Channel.Telegram.{extract_tenant_id}
use ragivka.Runtime.Types.{GenerateResponseArgs}
use ragivka.Runtime.Isolation.{seen_by, jobs_of}
use ragivka.Runtime.Worker.{Resources, generate_response_job, work_job}
use ragivka.Server.Wiring.{Outside, telegram_webhook}
use ragivka.Aicore.Types.{GenerateRequest, task_generation}
use ragivka.Aicore.Router.{generate, ask as ask_model, with_model, default_policy}
use ragivka.Orchestrator.Endpoint.{HttpRequest}
use ragivka.Orchestrator.SingleShot.{handle_l0}
use ragivka.Channel.Telegram.{
  Update, webhook, resolve_or_create_session, reply_with_latest_assistant_message, send_message,
  format_int,
}
use ragivka.Runtime.Users.{resolve_or_create}
use ragivka.Server.Routes.{ServedRequest, Ids, status, serve_http, jwt_secret}
use ragivka.Server.Routes.Refused.{serve_http-refused}
use ragivka.Server.Routes.Isolation.{IsForeign}
use ragivka.Server.Traces.{others_unseen, stay, and_then, requested, answered}
use ragivka.World.{World, Call}
use ragivka.World.Sample.{percent, plain, parrot, start, one_session}

abbrev no_chunks : Scoring ⦃floats = percent⦄
no_chunks = record { vec_score = λ row vec. 0; text_score = λ row query. 0 }

abbrev embed_one : Ctx → List String → ℕ → Result (List (List ℕ))
embed_one ctx texts n = ok ((1 ∷ []) ∷ [])

-- A token is the text of its tenant.
abbrev tokens : String → Verifier
tokens secret = record {
  verify = λ token. some (record { tenant_id = token; subject = "1" });
  equal_fold = str_eq;
}

abbrev outside : Outside ⦃floats = percent⦄
outside = record {
  env = λ key. "";
  client = parrot;
  embed = embed_one;
  format = λ n. "1";
  db = no_chunks;
  queue = λ args n. ok tt;
  api = λ url chat text n. ok 200;
  decode_answer = λ text. none;
  parse_float = λ text. none;
  atoi = λ text. none;
  decode_update = λ max body. none;
  decode_message = λ max body. some body;
  decode_tier = λ max body. "";
  verifier = tokens;
  limiter = λ limit tenant. ok true;
}

abbrev no_libraries : Libraries
no_libraries = record {
  to_text = λ bytes. "";
  parse_html = λ bytes. ok nil;
  open_pdf = λ bytes. ok [];
  open_zip = λ bytes. ok [];
  trim_space = λ text. text;
}

abbrev resources : Resources ⦃floats = percent⦄
resources = record {
  client = parrot;
  embed = embed_one;
  format = λ n. "1";
  db = no_chunks;
  is_vector = λ v. true;
  presign = λ ctx key ttl now. ok key;
  http_get = λ ctx url now. ok (200, []);
  libraries = no_libraries;
  to_lower = λ text. text;
  error_text = λ e. "failed";
}

abbrev ids : Ids
ids = record { request = "r"; user = 20; session = 21; question = 22; answer = 23 }

-- Unary, a number has one stroke more than it counts.
abbrev ask : ServedRequest
ask = record {
  request = record { method = "POST"; path = "/v1/sessions/11/messages"; body = "why?" };
  request_id = "";
  auth_header = "Bearer 111111";
  telegram_secret = "";
}

abbrev no_ctx : Ctx
no_ctx = record { tenant_id = none; user_id = none; request_id = none }

abbrev two_tenants : World
two_tenants = record start {
  sessions = record one_session { id = 9; tenant_id = 6 } ∷ start.sessions;
}

abbrev asked : World
asked = (serve_http ⦃uuid = unary_uuid⦄ ⦃floats = percent⦄ outside ids ask no_ctx two_tenants).1

abbrev job : GenerateResponseArgs
job = record {
  tenant_id = 5;
  session_id = 1;
  message_id = 22;
  idempotency_key = "11111111111111111111111";
}

-- The question is stored, and its job is queued.
job_queued : asked.calls ≡ Call.enqueue job ∷ []
unfolding serve_http target_of split_path jwt_secret getenv env_int web_chain chain_middleware
    request_id jwt_auth bearer_token with_user_id with_tenant_id rate_limit get_tenant_id serve
    extract_session_id path_parts run get_by_id tenant_id_from_ctx handle_l2 create_message
    find_session
job_queued = refl

abbrev answered_world : World
answered_world =
    (work_job ⦃uuid = unary_uuid⦄ ⦃floats = percent⦄ ⦃regexp = plain⦄ resources 24 (λ i. i) no_ctx
      (generate_response_job 8 job) asked).1

-- The token speaks for tenant 5, and the path for nobody.
ask-IsForeign : IsForeign ⦃uuid = unary_uuid⦄ ⦃floats = percent⦄ outside ids 6 ask
unfolding extract_tenant_id path_parts jwt_secret bearer_token
ask-IsForeign = (
  λ token claims et ec h.
      let same : "111111" ≡ claims.tenant_id =
        some-eq_some et ∙ ap (λ (c : Claims). c.tenant_id) (some-eq_some ec) in
      let five_six : ◌≡◌ {A = Option ℕ} (some 5) (some 6) = ap unary_uuid.parse same ∙ h in
      absurd (ground (arith, some-eq_some five_six)),
  λ h. let nothing_six : ◌≡◌ {A = Option ℕ} none (some 6) = h in absurd (ground arith),
)

-- Tenant 6 still has its session, and no more.
others_unseen_example : seen_by 6 answered_world ≡ seen_by 6 two_tenants
unfolding jobs_of
others_unseen_example =
    others_unseen ⦃uuid = unary_uuid⦄ ⦃floats = percent⦄ ⦃regexp = plain⦄ outside resources 6 refl (
      and_then (and_then stay (requested ids ask no_ctx ask-IsForeign))
        (answered 24 (λ i. i) no_ctx 8 job (rw job_queued (inl refl))))

abbrev stranger : ServedRequest
stranger = record ask { auth_header = "Basic 111111" }

serve_http-refused_example :
    serve_http ⦃uuid = unary_uuid⦄ ⦃floats = percent⦄ outside ids stranger no_ctx two_tenants
    ≡ (ok (status 401), two_tenants)
unfolding target_of split_path bearer_token
serve_http-refused_example =
    serve_http-refused ⦃uuid = unary_uuid⦄ ⦃floats = percent⦄ outside ids stranger no_ctx
      two_tenants
      (λ token claims et ec.
        let nothing : ◌≡◌ {A = Option String} none (some token) = et in absurd (ground arith))
      refl

-- An update for the bot of tenant 5.
abbrev hello : HttpRequest
hello = record { method = "POST"; path = "/telegram/webhook/111111"; body = "{}" }

abbrev hello_update : Update
hello_update = record {
  update_id = pos 1;
  message = some (record { from = some (pos 9); chat = pos 42; text = "hi" });
}

abbrev handled_hello : Result ℕ × World
handled_hello =
    telegram_webhook ⦃uuid = unary_uuid⦄ ⦃floats = percent⦄
      (record outside { decode_update = λ max body. some hello_update }) (pos 100) 20 21 22 23
      no_ctx hello two_tenants

abbrev hello_request : GenerateRequest
hello_request = record {
  model = "qwen3.5:cloud";
  messages = record { role = "user"; content = "hi" } ∷ [];
  max_tokens = 0;
  force_json = false;
  task_hint = task_generation;
}

-- The model is hello_request, and its answer is sent.
hello_answered :
    handled_hello.1.calls ≡ Call.send (pos 42) "hello" ∷ Call.generate hello_request ∷ []
unfolding telegram_webhook webhook extract_tenant_id path_parts with_tenant_id tenant_id_from_ctx
    resolve_or_create resolve_or_create_session get_active_by_user_id get_by_id create_session
    reply_with_latest_assistant_message list_for_session send_message format_int decimal run
    create_message generate ask_model with_model default_policy handle_l0
hello_answered = refl
