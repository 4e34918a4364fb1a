-- ===== src/World/Sample.antt =====
-- Data for the tests: confidences in percent, a model that always greets, and a world with one
-- session of tenant 5 and one question in it.
use ragivka.Prelude.{ℕ, ◌+◌, ◌-◌, ◌/◌, ◌*◌, [], ◌∷◌, none, ltb}
use ragivka.Errors.{ok}
use ragivka.Aicore.Router.{LlmClient}
use ragivka.Aicore.Sanitize.{Regexp}
use ragivka.Runtime.Fsm.{active}
use ragivka.Runtime.Types.{Session, Message}
use ragivka.Tools.Guards.{Floats}
use ragivka.World.{World}

abbrev pub percent : Floats
percent = record {
  Float = ℕ;
  less = ltb;
  of_tenths = λ n. n * 10;
  add = λ a b. a + b;
  sub = λ a b. a - b;
  mul = λ a b. a * b / 100;
}

abbrev pub plain : Regexp
plain = record { replace_all_literal = λ pattern input replacement. input }

abbrev pub parrot : LlmClient
parrot ctx req n =
    ok (record { content = "hello"; model = req.model; input_tokens = 3; output_tokens = 2 })

abbrev pub one_session : Session
one_session = record {
  id = 1;
  tenant_id = 5;
  user_id = 7;
  state = active;
  version = 1;
  tier = "L2";
  channel = "web";
  expires_at = 30;
  created_at = 0;
  updated_at = 0;
}

abbrev pub question : Message
question = record {
  id = 2;
  session_id = 1;
  tenant_id = 5;
  role = "user";
  content = "hi";
  citation_refs = [];
  token_count = none;
  job_id = none;
  created_at = 4;
}

abbrev pub start : World
start = record {
  sessions = one_session ∷ [];
  messages = question ∷ [];
  audit_log = [];
  prompts = [];
  documents = [];
  chunks = [];
  artifacts = [];
  users = [];
  calls = [];
  faults = [];
  now = 10;
}
