-- ===== src/Channel/Telegram/Tests.antt =====
-- pkg/channel/telegram and pkg/runtime/user_repo.go at a bot of tenant 5.
use ragivka.Prelude.{ℕ, ◌≡◌, refl, some, [], ◌∷◌, pos, negsuc, decimal}
use ragivka.Errors.{ok}
use ragivka.Paths.{path_parts}
use ragivka.Tenant.{tenant_id_from_ctx, with_tenant_id}
use ragivka.Tenant.Sample.{unary_uuid, tenant_ctx}
use ragivka.Orchestrator.Endpoint.{HttpRequest}
use ragivka.Runtime.Fsm.{active}
use ragivka.Runtime.Types.{Session, Message}
use ragivka.Runtime.Sessions.{find_session, get_by_id, create_session, get_active_by_user_id}
use ragivka.Runtime.Messages.{list_for_session}
use ragivka.Runtime.Users.{resolve_or_create}
use ragivka.Runtime.Users.Identity.{resolve_or_create_again}
use ragivka.Channel.Telegram.{
  Update, Sender, send_message, format_int, extract_tenant_id, resolve_or_create_session,
  reply_with_latest_assistant_message, webhook,
}
use ragivka.Channel.Telegram.Sessions.{Serves, resolve_or_create_session-Serves}
use ragivka.Channel.Telegram.Replies.{reply-latest}
use ragivka.World.{World, Call}
use ragivka.World.Sample.{start, one_session, question}

abbrev bot : Sender
bot = send_message (λ url chat text n. ok 200) "https://api.telegram.org" "token"

abbrev answer : Message
answer = record question { id = 4; role = "assistant"; content = "old answer"; created_at = 2 }

-- The question came after the answer.
abbrev asked_again : World
asked_again = record start {
  sessions = record one_session { tier = "L1" } ∷ [];
  messages = question ∷ answer ∷ [];
}

abbrev met_again : World
met_again = record asked_again {
  users = record { id = 7; tenant_id = 5; channel_type = "telegram"; channel_id = "9" } ∷ [];
}

abbrev hello : HttpRequest
hello = record { method = "POST"; path = "/telegram/webhook/111111"; body = "{}" }

abbrev hello_update : Update
hello_update = record {
  update_id = pos 1;
  message = some (record { from = some (pos 9); chat = negsuc 41; text = "hi" });
}

format_negative : format_int (negsuc 41) ≡ "-42"
unfolding format_int decimal
format_negative = refl

extract_tenant_id_reads : extract_tenant_id ⦃uuid = unary_uuid⦄ "/telegram/webhook/111111/" ≡ some 5
unfolding extract_tenant_id path_parts
extract_tenant_id_reads = refl

-- A run that writes no answer: user 7 gets the old one again.
webhook_repeats :
    (webhook ⦃uuid = unary_uuid⦄
      (λ ctx id text w. (ok tt, w))
      bot
      (λ limit body. some hello_update)
      (pos 0)
      7
      8
      (tenant_ctx 5)
      hello
      met_again).1.calls
    ≡ Call.send (negsuc 41) "old answer" ∷ []
unfolding webhook extract_tenant_id path_parts with_tenant_id tenant_id_from_ctx resolve_or_create
    resolve_or_create_session get_active_by_user_id get_by_id reply_with_latest_assistant_message
    list_for_session send_message format_int decimal
webhook_repeats = refl

reply-latest_example :
    reply_with_latest_assistant_message ⦃uuid = unary_uuid⦄ (tenant_ctx 5) 1 (pos 3) bot asked_again
    ≡ bot (tenant_ctx 5) (pos 3) "old answer" asked_again
unfolding list_for_session tenant_id_from_ctx
reply-latest_example =
    reply-latest ⦃uuid = unary_uuid⦄ (tenant_ctx 5) 1 (pos 3) bot [] (question ∷ []) answer
      asked_again asked_again refl refl (refl, tt)

abbrev served : World
served = (resolve_or_create_session ⦃uuid = unary_uuid⦄ (tenant_ctx 5) 8 5 6 100 start).1

abbrev new_row : Session
new_row = record {
  id = 8;
  tenant_id = 5;
  user_id = 6;
  state = active;
  version = 1;
  tier = "L0";
  channel = "telegram";
  expires_at = 110;
  created_at = 0;
  updated_at = 0;
}

resolve_or_create_session-Serves_example : Serves 5 6 start new_row served
unfolding find_session resolve_or_create_session get_active_by_user_id tenant_id_from_ctx
    create_session
resolve_or_create_session-Serves_example =
    resolve_or_create_session-Serves ⦃uuid = unary_uuid⦄ (tenant_ctx 5) 8 5 6 100 refl start refl

abbrev met : World
met = (resolve_or_create ⦃uuid = unary_uuid⦄ (tenant_ctx 5) 7 "telegram" "9" start).1

resolve_or_create_again_example :
    ((resolve_or_create ⦃uuid = unary_uuid⦄ (tenant_ctx 5) 12 "telegram" "9" met).1.users
      ≡ met.users)
    × ((m : ℕ)
        → (resolve_or_create ⦃uuid = unary_uuid⦄ (tenant_ctx 5) 12 "telegram" "9" met).0 ≡ ok m
        → m ≡ 7)
unfolding resolve_or_create tenant_id_from_ctx
resolve_or_create_again_example =
    resolve_or_create_again ⦃uuid = unary_uuid⦄ (tenant_ctx 5) "telegram" "9" 7 12 7 start refl
