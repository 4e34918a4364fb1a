-- ===== src/Channel/Web.antt =====
-- pkg/channel/web: creating a session, listing its messages, and the WebSocket of a session. Every
-- request carries what the middlewares put into its context; of an error's answer the status is
-- kept.
pub mod History
pub mod Canonical
pub mod Created
pub mod Isolation
mod Tests
use ragivka.Prelude.{
  ℕ, Bool, true, false, ◌||◌, ◌&&◌, not, String, Option, none, some, List, [], ◌∷◌, map, str_eq,
  if◌then◌else◌, ℤ, pos,
}
use ragivka.Errors.{Err, Result, ok, err, panic}
use ragivka.Paths.{path_parts}
use ragivka.Tenant.{Ctx, Uuid, get_tenant_id}
use ragivka.Orchestrator.Endpoint.{HttpRequest}
use ragivka.Runtime.Fsm.{active}
use ragivka.Runtime.Types.{Session, Message}
use ragivka.Runtime.Sessions.{get_by_id, create_session}
use ragivka.Runtime.Messages.{list_for_session}
use ragivka.Channel.Respond.{answered, handled, ttl_or_default, expiry}
use ragivka.World.{World, Exec, ◌>>=◌, pure, lift, attempt}

-- MessageView
pub record View : Type 0 where
  pub id : String
  pub role : String
  pub content : String
  pub citation_refs : List String
  pub created_at : ℕ

-- What a handler answers: an error's status, the messages with 200, the session's id with 201.
pub data Response : Type 0 where
  refused : ℕ → Response
  listed : List View → Response
  created : String → Response

-- /v1/sessions/{id}/messages
session_segment : List String → Option String
session_segment (v ∷ s ∷ id ∷ m ∷ []) =
    if str_eq v "v1" && str_eq s "sessions" && str_eq m "messages" then some id else none
session_segment _ = none

-- UserIDFromContext
abbrev pub user_id_from_context : Option String → String
user_id_from_context none = ""
user_id_from_context (some id) = id

tier_or_default : String → String
tier_or_default tier = if str_eq tier "" then "L0" else tier

module _ ⦃uuid : Uuid⦄ where
  abbrev pub view_of : Message → View
  view_of m = record {
    id = uuid.to_string m.id;
    role = m.role;
    content = m.content;
    citation_refs = map uuid.to_string m.citation_refs;
    created_at = m.created_at;
  }

  parse_part : Option String → Option ℕ
  parse_part none = none
  parse_part (some id) = uuid.parse id

  pub extract_session_uuid : String → Option ℕ
  unfolding session_segment parse_part
  extract_session_uuid path = parse_part (session_segment (path_parts path))

  -- The text of the row's tenant is compared with the text in the context.
  own_session : Ctx → ℕ → String → Session → Exec Response
  own_session ctx id tenant session =
      if not (str_eq (uuid.to_string session.tenant_id) tenant)
      then pure (refused 404)
      else handled (refused 500) (list_for_session ctx id (pos 0))
          (λ history. pure (listed (map view_of history)))

  of_session : Ctx → Option ℕ → Exec Response
  unfolding own_session
  of_session ctx none = pure (refused 400)
  of_session ctx (some id) =
      handled (refused 401) (lift (get_tenant_id ctx))
        λ tenant. handled (refused 404) (get_by_id ctx id) (own_session ctx id tenant)

  -- NewListMessagesHandler
  pub list_messages : Ctx → HttpRequest → Exec Response
  unfolding of_session
  list_messages ctx req =
      if not (str_eq req.method "GET")
      then pure (refused 405)
      else of_session ctx (extract_session_uuid req.path)

  abbrev pub web_session : ℕ → ℕ → ℕ → String → ℕ → Session
  web_session fresh tenant user tier expires_at = record {
    id = fresh;
    tenant_id = tenant;
    user_id = user;
    state = active;
    version = 1;
    tier = tier;
    channel = "web";
    expires_at = expires_at;
    created_at = 0;
    updated_at = 0;
  }

  -- The body is optional, and what it decodes to is the tier or nothing.
  for_user : (ℕ → String → String) → Ctx → ℤ → ℕ → String → ℕ → Option ℕ → Exec Response
  unfolding tier_or_default
  for_user decode ctx ttl fresh body tenant none = pure (refused 401)
  for_user decode ctx ttl fresh body tenant (some user) = do
    expires_at ← expiry (ttl_or_default ttl)
    handled (refused 500)
        (create_session ctx fresh
          (web_session fresh tenant user (tier_or_default (decode 1048576 body)) expires_at))
        (λ session. pure (created (uuid.to_string session.id)))

  for_tenant : (ℕ → String → String) → Ctx → ℤ → ℕ → String → Option ℕ → Exec Response
  unfolding for_user
  for_tenant decode ctx ttl fresh body none = pure (refused 401)
  for_tenant decode ctx ttl fresh body (some tenant) =
      for_user decode ctx ttl fresh body tenant (uuid.parse (user_id_from_context ctx.user_id))

  -- NewCreateSessionHandler
  pub create_web_session : (ℕ → String → String) → ℤ → ℕ → Ctx → HttpRequest → Exec Response
  unfolding for_tenant
  create_web_session decode ttl fresh ctx req =
      if not (str_eq req.method "POST")
      then pure (refused 405)
      else handled (refused 401) (lift (get_tenant_id ctx))
          λ tenant. for_tenant decode ctx ttl fresh req.body (uuid.parse tenant)

-- /ws/sessions/{id}
socket_segment : List String → Option String
socket_segment (w ∷ s ∷ id ∷ []) = if str_eq w "ws" && str_eq s "sessions" then some id else none
socket_segment _ = none

-- What comes of a request for a WebSocket before the upgrade.
pub data Socket : Type 0 where
  denied : ℕ → Socket
  opened : ℕ → Socket

module _ ⦃uuid : Uuid⦄ where
  pub extract_ws_session_id : String → Option ℕ
  unfolding socket_segment parse_part
  extract_ws_session_id path = parse_part (socket_segment (path_parts path))

  own_socket : ℕ → String → Session → Exec Socket
  own_socket id tenant session =
      if str_eq (uuid.to_string session.tenant_id) tenant
      then pure (opened id)
      else pure (denied 404)

  socket_of : Ctx → Option ℕ → Exec Socket
  unfolding own_socket
  socket_of ctx none = pure (denied 400)
  socket_of ctx (some id) =
      handled (denied 401) (lift (get_tenant_id ctx))
        λ tenant. handled (denied 404) (get_by_id ctx id) (own_socket id tenant)

  -- NewWebSocketHandler, to the upgrade
  pub open_socket : Ctx → String → Exec Socket
  unfolding socket_of
  open_socket ctx path = socket_of ctx (extract_ws_session_id path)

-- What the loop of an open socket meets: a message of the subscription, which is written or not,
-- the end of the subscription, or that the client went away.
pub data SocketEvent : Type 0 where
  published : String → Bool → SocketEvent
  ended : SocketEvent
  disconnected : SocketEvent

-- The frames that the loop writes until it returns.
pub forward : List SocketEvent → List String
forward [] = []
forward (published msg true ∷ rest) = msg ∷ forward rest
forward (published msg false ∷ rest) = []
forward (ended ∷ rest) = []
forward (disconnected ∷ rest) = []
