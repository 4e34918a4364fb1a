-- ===== src/Runtime/Messages/Tests.antt =====
-- ListForSession of pkg/runtime/message_repo.go with a limit that keeps two of three messages.
use ragivka.Prelude.{
  ℕ, ◌≤◌, ◌≡◌, ◌↔◌, refl, List, [], ◌∷◌, ◌++◌, reverse, none, some, Option, true, pos, to_nat, In,
}
use ragivka.Errors.{ok}
use ragivka.Tenant.{tenant_id_from_ctx}
use ragivka.Tenant.Sample.{unary_uuid, tenant_ctx}
use ragivka.Runtime.Types.{Message}
use ragivka.Runtime.Messages.{list_for_session, in_session}
use ragivka.Runtime.Messages.Window.{total_cost, Overflows}
use ragivka.Runtime.Messages.History.{NewestFirst}
use ragivka.Runtime.Messages.Listing.{list_for_session-Window}
use ragivka.World.{World}

abbrev message : ℕ → ℕ → Option ℕ → ℕ → Message
message id session tokens time = record {
  id = id;
  session_id = session;
  tenant_id = 5;
  role = "user";
  content = "hi";
  citation_refs = [];
  token_count = tokens;
  job_id = none;
  created_at = time;
}

abbrev table : List Message
table =
    message 1 1 (some 4) 2 ∷ message 2 1 none 6 ∷ message 3 2 none 7 ∷ message 4 1 (some 9) 4 ∷ []

abbrev world : World
world = record {
  sessions = [];
  messages = table;
  audit_log = [];
  prompts = [];
  documents = [];
  chunks = [];
  artifacts = [];
  users = [];
  calls = [];
  faults = [];
  now = 10;
}

-- The oldest message, 4 tokens, does not fit beside 9 in a limit of 12.
listed :
    list_for_session ⦃uuid = unary_uuid⦄ (tenant_ctx 5) 1 (pos 12) world
    ≡ (ok (message 4 1 (some 9) 4 ∷ message 2 1 none 6 ∷ []), world)
unfolding list_for_session tenant_id_from_ctx
listed = refl

list_for_session-Window_example :
    (tenant : ℕ) × (recent : List Message) × (older : List Message) × (tenant_id_from_ctx
        ⦃uuid = unary_uuid⦄
        (tenant_ctx 5)
      ≡ ok tenant)
    × ((message 4 1 (some 9) 4 ∷ message 2 1 none 6 ∷ []) ≡ reverse recent)
    × NewestFirst (recent ++ older)
    × ((m : Message) → In m (recent ++ older) ↔ (In m table × (in_session 1 tenant m ≡ true)))
    × (total_cost recent ≤ to_nat (pos 12))
    × Overflows (to_nat (pos 12)) (total_cost recent) older
list_for_session-Window_example =
    list_for_session-Window ⦃uuid = unary_uuid⦄ (tenant_ctx 5) 1 (pos 12) world listed refl
