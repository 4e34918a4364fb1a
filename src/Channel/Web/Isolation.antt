-- ===== src/Channel/Web/Isolation.antt =====
-- What the handlers of pkg/channel/web leave of the other tenants: two only read, and a session is
-- created for the context's tenant.
use ragivka.Prelude.{
  ℕ, ◌+◌, ◌≡◌, ◌≢◌, refl, ◌∙◌, ap, Bool, Bool-cases, inl, inr, String, str_eq, not, Option, none,
  some, Option-cases, map, List, ℤ, pos,
}
use ragivka.Errors.{ok, Result-Cases, Cases}
use ragivka.Tenant.{Ctx, Uuid, get_tenant_id, tenant_id_from_ctx, tenant_id_from_ctx-parsed}
use ragivka.Orchestrator.Endpoint.{HttpRequest}
use ragivka.Runtime.Types.{Session}
use ragivka.Runtime.Sessions.{get_by_id, create_session}
use ragivka.Runtime.Sessions.Calls.{get_by_id-Keeps}
use ragivka.Runtime.Messages.{list_for_session}
use ragivka.Runtime.Messages.Insertion.{list_for_session-Keeps}
use ragivka.Runtime.Isolation.{seen_by, create_session-seen_by}
use ragivka.Channel.Respond.{handled, ttl_or_default}
use ragivka.Channel.Respond.Keeps.{handled-Keeps}
use ragivka.Channel.Web.{
  refused, listed, created, view_of, own_session, of_session, list_messages, web_session,
  tier_or_default, for_user, for_tenant, create_web_session, user_id_from_context, denied,
  own_socket, socket_of, open_socket, extract_session_uuid, extract_ws_session_id,
}
use ragivka.World.{World, lift, pure}
use ragivka.World.Keeps.{Keeps}

module _ ⦃uuid : Uuid⦄ (ctx : Ctx) where
  module _ {S : Type 0} (view : World → S)
      (blind : (w : World) (fs : List Bool) → view (record w { faults = fs }) ≡ view w) where
    own_session-Keeps :
        (id : ℕ) (tenant : String) (session : Session)
        → Keeps view (own_session ctx id tenant session)
    unfolding own_session
    own_session-Keeps id tenant session w =
        elim (Bool-cases (not (str_eq (uuid.to_string session.tenant_id) tenant))) [
          | inl other ↦ rw other refl
          | inr mine ↦ rw mine (
              handled-Keeps view (refused 500) (list_for_session ctx id (pos 0))
                (λ history. pure (listed (map view_of history)))
                (list_for_session-Keeps ctx view blind id (pos 0)) (λ history v. refl) w)
        ]

    of_session-Keeps : (id : Option ℕ) → Keeps view (of_session ctx id)
    unfolding of_session
    of_session-Keeps none w = refl
    of_session-Keeps (some id) w =
        handled-Keeps view (refused 401) (lift (get_tenant_id ctx))
          (λ tenant. handled (refused 404) (get_by_id ctx id) (own_session ctx id tenant))
          (λ v. refl)
          (λ tenant.
            handled-Keeps view (refused 404) (get_by_id ctx id) (own_session ctx id tenant)
              (get_by_id-Keeps ctx view id blind) (own_session-Keeps id tenant))
          w

    -- Listing only reads.
    pub list_messages-Keeps : (req : HttpRequest) → Keeps view (list_messages ctx req)
    unfolding list_messages
    list_messages-Keeps req w = elim (Bool-cases (not (str_eq req.method "GET"))) [
      | inl other ↦ rw other refl
      | inr get ↦ rw get (of_session-Keeps (extract_session_uuid req.path) w)
    ]

    own_socket-Keeps :
        (id : ℕ) (tenant : String) (session : Session) → Keeps view (own_socket id tenant session)
    unfolding own_socket
    own_socket-Keeps id tenant session w =
        elim (Bool-cases (str_eq (uuid.to_string session.tenant_id) tenant)) [
          | inl mine ↦ rw mine refl
          | inr other ↦ rw other refl
        ]

    socket_of-Keeps : (id : Option ℕ) → Keeps view (socket_of ctx id)
    unfolding socket_of
    socket_of-Keeps none w = refl
    socket_of-Keeps (some id) w =
        handled-Keeps view (denied 401) (lift (get_tenant_id ctx))
          (λ tenant. handled (denied 404) (get_by_id ctx id) (own_socket id tenant)) (λ v. refl)
          (λ tenant.
            handled-Keeps view (denied 404) (get_by_id ctx id) (own_socket id tenant)
              (get_by_id-Keeps ctx view id blind) (own_socket-Keeps id tenant))
          w

    -- So does the request for a WebSocket.
    pub open_socket-Keeps : (path : String) → Keeps view (open_socket ctx path)
    unfolding open_socket
    open_socket-Keeps path = socket_of-Keeps (extract_ws_session_id path)

  module _ (decode : ℕ → String → String) (ttl : ℤ) (fresh t : ℕ)
      (foreign : tenant_id_from_ctx ctx ≢ ok t) where
    for_user-seen_by :
        (body : String) (tenant : ℕ) (user : Option ℕ)
        → tenant_id_from_ctx ctx ≡ ok tenant
        → Keeps (seen_by t) (for_user decode ctx ttl fresh body tenant user)
    unfolding for_user
    for_user-seen_by body tenant none et w = refl
    for_user-seen_by body tenant (some user) et w =
        let session =
          web_session fresh tenant user (tier_or_default (decode 1048576 body))
            (w.now + ttl_or_default ttl) in
        handled-Keeps (seen_by t) (refused 500) (create_session ctx fresh session)
          (λ s. pure (created (uuid.to_string s.id)))
          (create_session-seen_by t tenant (λ same. foreign (et ∙ ap ok same)) ctx et fresh session)
          (λ s v. refl) w

    for_tenant-seen_by :
        (body raw : String)
        → get_tenant_id ctx ≡ ok raw
        → Keeps (seen_by t) (for_tenant decode ctx ttl fresh body (uuid.parse raw))
    unfolding for_tenant
    for_tenant-seen_by body raw named w = elim (Option-cases (uuid.parse raw)) [
      | inl e ↦ rw e refl
      | inr (tenant, e) ↦ rw e (
          for_user-seen_by body tenant (uuid.parse (user_id_from_context ctx.user_id))
            (tenant_id_from_ctx-parsed ctx raw tenant named e) w)
    ]

    -- A session for another tenant leaves what this one sees.
    pub create_web_session-seen_by :
        (req : HttpRequest) → Keeps (seen_by t) (create_web_session decode ttl fresh ctx req)
    unfolding create_web_session
    create_web_session-seen_by req w = elim (Bool-cases (not (str_eq req.method "POST"))) [
      | inl other ↦ rw other refl
      | inr post ↦ elim (Result-Cases (get_tenant_id ctx)) [
        | Cases.is_err x e ↦ rw (post, e) refl
        | Cases.is_panic p e ↦ rw (post, e) refl
        | Cases.is_ok raw e ↦ rw (post, e) (for_tenant-seen_by req.body raw e w)
      ]
    ]
