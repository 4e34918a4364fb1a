-- ===== src/Channel/Web/Tests.antt =====
-- pkg/channel/web at a concrete session and its messages.
use ragivka.Prelude.{
  ℕ, zero, suc, ◌≡◌, ◌≢◌, ◌↔◌, refl, ap, true, false, String, some, none, List, [], ◌∷◌, map,
  reverse, In, str_eq, pos,
}
use ragivka.Errors.{ok}
use ragivka.Paths.{path_parts}
use ragivka.Tenant.{Ctx, get_tenant_id, tenant_id_from_ctx}
use ragivka.Tenant.Sample.{unary, unary_uuid, tenant_ctx}
use ragivka.Orchestrator.Endpoint.{HttpRequest}
use ragivka.Runtime.Types.{Session, Message}
use ragivka.Runtime.Sessions.{get_by_id, has_key, find_session, create_session}
use ragivka.Runtime.Messages.{in_session, list_for_session}
use ragivka.Runtime.Messages.History.{NewestFirst}
use ragivka.Channel.Web.{
  View, listed, created, opened, view_of, extract_session_uuid, list_messages, create_web_session,
  extract_ws_session_id, open_socket, published, forward,
}
use ragivka.Channel.Web.History.{list_messages-exact}
use ragivka.Channel.Web.Canonical.{noncanonical_tenant_refused}
use ragivka.Channel.Web.Created.{open_socket-create_web_session}
use ragivka.World.{World}
use ragivka.World.Sample.{start, question}

abbrev get : HttpRequest
get = record { method = "GET"; path = "/v1/sessions/11/messages"; body = "" }

abbrev shown : List View
shown = view_of ⦃uuid = unary_uuid⦄ question ∷ []

list_messages_answers :
    (list_messages ⦃uuid = unary_uuid⦄ (tenant_ctx 5) get start).0 ≡ ok (listed shown)
unfolding list_messages extract_session_uuid path_parts get_tenant_id get_by_id tenant_id_from_ctx
    list_for_session
list_messages_answers = refl

list_messages-exact_example :
    (id : ℕ) × (tenant : ℕ) × (s : Session) × (rows : List Message) × (extract_session_uuid
        ⦃uuid = unary_uuid⦄ "/v1/sessions/11/messages"
      ≡ some id)
    × (get_tenant_id (tenant_ctx 5) ≡ ok (unary tenant))
    × (find_session (has_key id tenant) start.sessions ≡ some s)
    × (shown ≡ map (view_of ⦃uuid = unary_uuid⦄) (reverse rows))
    × NewestFirst rows
    × ((m : Message) → In m rows ↔ (In m start.messages × (in_session id tenant m ≡ true)))
list_messages-exact_example =
    list_messages-exact ⦃uuid = unary_uuid⦄ (tenant_ctx 5) shown get start list_messages_answers

-- A text that parses to tenant 5 and is not how tenant 5 is printed.
abbrev odd_ctx : Ctx
odd_ctx = record { tenant_id = some "aaaaaa"; user_id = some "11111111"; request_id = none }

abbrev first : String → String
first String.[] = ""
first (String.◌∷◌ c s) = String.◌∷◌ c ""

not_printed : (t : ℕ) → "aaaaaa" ≢ unary t
not_printed zero h =
    let never : str_eq "a" "1" ≡ str_eq "1" "1" = ap (λ s. str_eq (first s) "1") h in cc never
not_printed (suc t) h =
    let never : str_eq "a" "1" ≡ str_eq "1" "1" = ap (λ s. str_eq (first s) "1") h in cc never

post : HttpRequest
post = record { method = "POST"; path = "/v1/sessions"; body = "" }

-- The same client does get a new session, of tenant 5, for 30 minutes.
create_web_session_answers :
    (create_web_session ⦃uuid = unary_uuid⦄ (λ limit body. "") (pos 0) 3 odd_ctx post start).0
    ≡ ok (created (unary 3))
unfolding create_web_session get_tenant_id create_session tenant_id_from_ctx find_session post
create_web_session_answers = refl

noncanonical_tenant_refused_example :
    ((req : HttpRequest) (views : List View)
      → (list_messages ⦃uuid = unary_uuid⦄ odd_ctx req start).0 ≢ ok (listed views))
    × ((path : String) (i : ℕ)
        → (open_socket ⦃uuid = unary_uuid⦄ odd_ctx path start).0 ≢ ok (opened i))
unfolding get_tenant_id
noncanonical_tenant_refused_example =
    noncanonical_tenant_refused ⦃uuid = unary_uuid⦄ odd_ctx "aaaaaa" refl not_printed start

open_socket_answers :
    (open_socket ⦃uuid = unary_uuid⦄ (tenant_ctx 5) "/ws/sessions/11" start).0 ≡ ok (opened 1)
unfolding open_socket extract_ws_session_id path_parts get_tenant_id get_by_id tenant_id_from_ctx
open_socket_answers = refl

forward_stops :
    forward (published "a" true ∷ published "b" false ∷ published "c" true ∷ []) ≡ "a" ∷ []
unfolding forward
forward_stops = refl

-- A client of tenant 5 creates a session and opens its socket.
abbrev user_ctx : Ctx
user_ctx = record { tenant_id = some (unary 5); user_id = some "11111111"; request_id = none }

abbrev with_session : World
with_session =
    (create_web_session ⦃uuid = unary_uuid⦄ (λ limit body. "") (pos 0) 3 user_ctx post start).1

open_socket-create_web_session_example :
    (open_socket ⦃uuid = unary_uuid⦄ user_ctx "/ws/sessions/1111" with_session).0 ≡ ok (opened 3)
unfolding create_web_session get_tenant_id create_session tenant_id_from_ctx find_session post
    extract_ws_session_id path_parts
open_socket-create_web_session_example =
    open_socket-create_web_session ⦃uuid = unary_uuid⦄ user_ctx 5 3 refl (λ limit body. "") (pos 0)
      post "/ws/sessions/1111" (unary 3) start refl refl refl
