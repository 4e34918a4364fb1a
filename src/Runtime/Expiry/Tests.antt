-- ===== src/Runtime/Expiry/Tests.antt =====
-- The expiry sweep of pkg/runtime/jobs.go at concrete tables.
use ragivka.Prelude.{ℕ, ◌<◌, ◌≡◌, true, arith, ◌≢◌, refl, inl, false, List, [], ◌∷◌, All}
use ragivka.Errors.{ok}
use ragivka.Tenant.Sample.{unary_uuid, tenant_ctx}
use ragivka.Runtime.Fsm.{State, active, waiting_for_human}
use ragivka.Runtime.Types.{Session}
use ragivka.Runtime.Sessions.{is_overdue}
use ragivka.Runtime.Expiry.{expire_sessions}
use ragivka.Runtime.Expiry.Sweep.{expire_sessions_waiting}
use ragivka.Runtime.Expiry.Eventually.{expire_sessions_eventually}
use ragivka.Runtime.Retry.{repeated}
use ragivka.World.{World}

abbrev old_session : ℕ → ℕ → State → Session
old_session id tenant state = record {
  id = id;
  tenant_id = tenant;
  user_id = 7;
  state = state;
  version = 1;
  tier = "L1";
  channel = "web";
  expires_at = 3;
  created_at = 0;
  updated_at = 0;
}

abbrev world_of : List Session → World
world_of table = record {
  sessions = table;
  messages = [];
  audit_log = [];
  prompts = [];
  documents = [];
  chunks = [];
  artifacts = [];
  users = [];
  calls = [];
  faults = [];
  now = 10;
}

abbrev all_active : World
all_active = world_of (old_session 1 5 active ∷ old_session 2 6 active ∷ [])

abbrev one_waiting : World
one_waiting = world_of (old_session 1 5 waiting_for_human ∷ old_session 2 6 active ∷ [])

expire_sessions_waiting_example :
    (expire_sessions ⦃uuid = unary_uuid⦄ (tenant_ctx 1) one_waiting).0 ≢ ok tt
expire_sessions_waiting_example =
    expire_sessions_waiting ⦃uuid = unary_uuid⦄ (tenant_ctx 1) (old_session 1 5 waiting_for_human)
      one_waiting (inl refl) refl refl

-- Two statements fail: the third run gets through.
abbrev flaky : World
flaky = record all_active { faults = true ∷ false ∷ true ∷ [] }

expire_sessions_eventually_example :
    (0 < (repeated 3 (expire_sessions ⦃uuid = unary_uuid⦄ (tenant_ctx 1)) flaky).0)
    × All
        (λ r. is_overdue 10 r ≡ false)
        (repeated 3 (expire_sessions ⦃uuid = unary_uuid⦄ (tenant_ctx 1)) flaky).1.sessions
expire_sessions_eventually_example =
    expire_sessions_eventually ⦃uuid = unary_uuid⦄ (tenant_ctx 1) 3 flaky (omega arith)
      ((λ h. refl), ((λ h. refl), tt))
