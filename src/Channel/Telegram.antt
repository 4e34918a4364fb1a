-- ===== src/Channel/Telegram.antt =====
-- pkg/channel/telegram: the webhook of a tenant's bot, and the sender of replies.
pub mod Sessions
pub mod Replies
pub mod Isolation
mod Tests
use ragivka.Prelude.{
  ℕ, suc, Bool, ◌||◌, ◌&&◌, not, String, Option, none, some, List, [], ◌∷◌, reverse, length, append,
  concat, decimal, str_eq, ◌==◌, if◌then◌else◌, ℤ, pos, negsuc,
}
use ragivka.Errors.{Err, Result, ok, err, panic, is, other, wrap, not_found}
use ragivka.Paths.{path_parts}
use ragivka.Tenant.{Ctx, Uuid, with_tenant_id}
use ragivka.Orchestrator.Endpoint.{HttpRequest}
use ragivka.Runtime.Fsm.{active}
use ragivka.Runtime.Types.{Session, Message}
use ragivka.Runtime.Sessions.{get_by_id, get_active_by_user_id, create_session}
use ragivka.Runtime.Messages.{list_for_session}
use ragivka.Runtime.Users.{resolve_or_create}
use ragivka.Channel.Respond.{handled, ttl_or_default, expiry}
use ragivka.World.{World, Exec, Call, ◌>>=◌, pure, fail, lift, attempt, context}

-- The parts of an Update that the webhook reads; a nil pointer is `none`.
pub record Incoming : Type 0 where
  pub from : Option ℤ
  pub chat : ℤ
  pub text : String

pub record Update : Type 0 where
  pub update_id : ℤ
  pub message : Option Incoming

abbrev pub Sender : Type 0
Sender = Ctx → ℤ → String → Exec (Unit {0})

-- What the Bot API answers: an HTTP status, after so many calls.
abbrev pub BotApi : Type 0
BotApi = String → ℤ → String → ℕ → Result ℕ

status_checked : Result ℕ → Result (Unit {0})
status_checked (ok status) =
    if status == 200 then ok tt else err (other "telegram: sendMessage returned status")
status_checked (err e) = err (wrap "telegram: send request" e)
status_checked (panic p) = panic p

-- HTTPSender; the request has no more than the chat and the text in it.
unfoldable pub send_message : BotApi → String → String → Sender
unfolding status_checked
send_message api base_url token ctx chat text w = (
  status_checked
      (api (concat (base_url ∷ "/bot" ∷ token ∷ "/sendMessage" ∷ [])) chat text (length w.calls)),
  record w { calls = Call.send chat text ∷ w.calls },
)

-- strconv.FormatInt
unfoldable pub format_int : ℤ → String
format_int (pos n) = decimal n
format_int (negsuc n) = append "-" (decimal (suc n))

tenant_segment : List String → Option String
tenant_segment (t ∷ h ∷ id ∷ []) =
    if str_eq t "telegram" && str_eq h "webhook" then some id else none
tenant_segment _ = none

-- The newest message of the assistant in a history.
pub latest_assistant : List Message → Option String
latest_assistant [] = none
latest_assistant (m ∷ newest_first) =
    if str_eq m.role "assistant" then some m.content else latest_assistant newest_first

send_found : Sender → Ctx → ℤ → Option String → Exec (Unit {0})
send_found sender ctx chat none = fail (other "no assistant message found after orchestrator run")
send_found sender ctx chat (some text) = sender ctx chat text

module _ ⦃uuid : Uuid⦄ where
  parse_segment : Option String → Option ℕ
  parse_segment none = none
  parse_segment (some id) = uuid.parse id

  unfoldable pub extract_tenant_id : String → Option ℕ
  unfolding tenant_segment parse_segment
  extract_tenant_id path = parse_segment (tenant_segment (path_parts path))

  -- A session of the first tier, with the id that uuid.New() gave.
  abbrev pub new_session : ℕ → ℕ → ℕ → ℕ → Session
  new_session fresh tenant user expires_at = record {
    id = fresh;
    tenant_id = tenant;
    user_id = user;
    state = active;
    version = 1;
    tier = "L0";
    channel = "telegram";
    expires_at = expires_at;
    created_at = 0;
    updated_at = 0;
  }

  found_or_create : Ctx → ℕ → ℕ → ℕ → ℕ → Result Session → Exec Session
  found_or_create ctx fresh tenant user ttl (ok session) = pure session
  found_or_create ctx fresh tenant user ttl (err e) =
      if is e not_found
      then (do
        expires_at ← expiry ttl
        context "create session"
            (create_session ctx fresh (new_session fresh tenant user expires_at)))
      else fail (wrap "get active session" e)
  found_or_create ctx fresh tenant user ttl (panic p) = lift (panic p)

  unfoldable pub resolve_or_create_session : Ctx → ℕ → ℕ → ℕ → ℕ → Exec Session
  unfolding found_or_create
  resolve_or_create_session ctx fresh tenant user ttl = do
    found ← attempt (get_active_by_user_id ctx user)
    found_or_create ctx fresh tenant user ttl found

  unfoldable pub reply_with_latest_assistant_message : Ctx → ℕ → ℤ → Sender → Exec (Unit {0})
  unfolding send_found latest_assistant
  reply_with_latest_assistant_message ctx session chat sender = do
    history ← context "load history" (list_for_session ctx session (pos 0))
    send_found sender ctx chat (latest_assistant (reverse history))

  -- `fresh_user` is the database's random id, `fresh_session` the handler's.
  module _ (run : Ctx → ℕ → String → Exec (Unit {0})) (sender : Sender)
      (decode : ℕ → String → Option Update) (ttl : ℤ) (fresh_user fresh_session : ℕ) where
    -- The session is read again: its tier may have changed.
    reply : Ctx → ℕ → ℤ → Exec ℕ
    reply ctx session chat = handled 200 (get_by_id ctx session) λ current.
        if str_eq current.tier "L0" || str_eq current.tier "L1"
        then handled 200 (reply_with_latest_assistant_message ctx session chat sender)
            (λ _. pure 200)
        else pure 200

    turn : Ctx → ℕ → ℤ → ℤ → String → Exec ℕ
    unfolding reply
    turn ctx tenant from chat text =
        handled 500 (resolve_or_create ctx fresh_user "telegram" (format_int from)) λ user.
          handled 500 (resolve_or_create_session ctx fresh_session tenant user (ttl_or_default ttl))
            λ session. handled 500 (run ctx session.id text) (λ _. reply ctx session.id chat)

    -- An update without a text, or without its sender, is answered and forgotten.
    from_sender : Ctx → ℕ → Option ℤ → ℤ → String → Exec ℕ
    unfolding turn
    from_sender ctx tenant none chat text = pure 200
    from_sender ctx tenant (some from) chat text =
        if str_eq text "" then pure 200 else turn ctx tenant from chat text

    of_update : Ctx → ℕ → Option Incoming → Exec ℕ
    unfolding from_sender
    of_update ctx tenant none = pure 200
    of_update ctx tenant (some m) =
        from_sender (with_tenant_id ctx (uuid.to_string tenant)) tenant m.from m.chat m.text

    decoded : Ctx → ℕ → Option Update → Exec ℕ
    unfolding of_update
    decoded ctx tenant none = pure 400
    decoded ctx tenant (some update) = of_update ctx tenant update.message

    for_tenant : Ctx → String → Option ℕ → Exec ℕ
    unfolding decoded
    for_tenant ctx body none = pure 400
    for_tenant ctx body (some tenant) = decoded ctx tenant (decode 1048576 body)

    -- NewWebhookHandler
    unfoldable pub webhook : Ctx → HttpRequest → Exec ℕ
    unfolding for_tenant
    webhook ctx req =
        if not (str_eq req.method "POST")
        then pure 405
        else for_tenant ctx req.body (extract_tenant_id req.path)
