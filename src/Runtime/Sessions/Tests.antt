-- ===== src/Runtime/Sessions/Tests.antt =====
-- The session theorems at concrete tables, and runs of pkg/runtime/session_repo.go.
use ragivka.Prelude.{ℕ, ◌≡◌, ◌≢◌, refl, inl, Bool, List, [], ◌∷◌}
use ragivka.Errors.{ok}
use ragivka.Tenant.{tenant_id_from_ctx}
use ragivka.Tenant.Sample.{unary_uuid, tenant_ctx}
use ragivka.Runtime.Fsm.{State, active, completed, expired, allowed}
use ragivka.Runtime.Types.{Session}
use ragivka.Runtime.Sessions.{transition, create_session, matched}
use ragivka.Runtime.Sessions.Transition.{transition_once}
use ragivka.Runtime.Sessions.Concurrency.{Run, started, created, Moves, honest_transition-Moves}
use ragivka.World.{World}

abbrev pub session : ℕ → ℕ → State → ℕ → Session
session id tenant state version = record {
  id = id;
  tenant_id = tenant;
  user_id = 7;
  state = state;
  version = version;
  tier = "L1";
  channel = "web";
  expires_at = 30;
  created_at = 0;
  updated_at = 0;
}

abbrev pub world : List Session → List Bool → World
world table faults = record {
  sessions = table;
  messages = [];
  audit_log = [];
  prompts = [];
  documents = [];
  chunks = [];
  artifacts = [];
  users = [];
  calls = [];
  faults = faults;
  now = 10;
}

abbrev two_tenants : World
two_tenants = world (session 1 5 active 1 ∷ session 1 6 active 1 ∷ session 2 5 completed 4 ∷ []) []

first_wins :
    (transition ⦃uuid = unary_uuid⦄ (tenant_ctx 5) 1 active completed 1 two_tenants).0 ≡ ok 2
unfolding transition matched tenant_id_from_ctx allowed
first_wins = refl

transition_once_example :
    (transition ⦃uuid = unary_uuid⦄
      (tenant_ctx 5)
      1
      active
      expired
      1
      (transition ⦃uuid = unary_uuid⦄ (tenant_ctx 5) 1 active completed 1 two_tenants).1).0
    ≢ ok 3
transition_once_example =
    transition_once ⦃uuid = unary_uuid⦄ (tenant_ctx 5) 1 active completed active expired 1 2 3
      two_tenants first_wins

abbrev empty : World
empty = world [] []

abbrev after_create : World
after_create = (create_session ⦃uuid = unary_uuid⦄ (tenant_ctx 5) 9 (session 0 0 active 1) empty).1

created-Run : Run ⦃uuid = unary_uuid⦄ (session 9 5 active 1 ∷ []) after_create
unfolding create_session tenant_id_from_ctx
created-Run = created {w = empty} (tenant_ctx 5) 9 (session 0 0 active 1) (started refl) refl

honest_transition-Moves_example :
    Moves after_create.sessions
      (transition ⦃uuid = unary_uuid⦄ (tenant_ctx 5) 9 active completed 1 after_create).1.sessions
honest_transition-Moves_example =
    honest_transition-Moves ⦃uuid = unary_uuid⦄ (tenant_ctx 5) (session 9 5 active 1) completed
      created-Run (inl refl)
