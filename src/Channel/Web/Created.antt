-- ===== src/Channel/Web/Created.antt =====
-- From the session that pkg/channel/web/session_handler.go creates to its WebSocket in ws.go.
use ragivka.Prelude.{
  ℕ, ◌+◌, ◌≡◌, ◌≢◌, refl, sym, ◌∙◌, ap, Bool-cases, inl, inr, Option, some, none, [], String,
  str_eq, eq_refl, arith, ℤ,
}
use ragivka.Errors.{Result, ok, panic, Result-Cases, Cases, ok-injective}
use ragivka.Tenant.{Ctx, Uuid, get_tenant_id, tenant_id_from_ctx-printed}
use ragivka.Orchestrator.Endpoint.{HttpRequest}
use ragivka.Runtime.Types.{Session}
use ragivka.Runtime.Sessions.{create_session, find_session, has_key, filled}
use ragivka.Runtime.Sessions.Queries.{
  stored, create_session-inserted, create_session-filled, get_by_id_quiet,
}
use ragivka.Channel.Respond.{ttl_or_default}
use ragivka.Channel.Web.{
  Response, refused, listed, created, opened, web_session, create_web_session, for_tenant, for_user,
  tier_or_default, user_id_from_context, extract_ws_session_id, open_socket, socket_of, own_socket,
}
use ragivka.World.{World}

text_or : String → Response → String
text_or d (refused n) = d
text_or d (listed views) = d
text_or d (created text) = text

created-injective :
    {a b : String} → ◌≡◌ {A = Result Response} (ok (created a)) (ok (created b)) → a ≡ b
unfolding text_or
created-injective {a} h = ap (text_or a) (ok-injective h)

refused-ne-created :
    (n : ℕ) {text : String} → ◌≢◌ {A = Result Response} (ok (refused n)) (ok (created text))
refused-ne-created n h = absurd (ground arith)

panic-ne-created :
    (p : String) {text : String} → ◌≢◌ {A = Result Response} (panic p) (ok (created text))
panic-ne-created p h = absurd (ground arith)

module _ ⦃uuid : Uuid⦄ (ctx : Ctx) (tenant fresh : ℕ)
    (raw : get_tenant_id ctx ≡ ok (uuid.to_string tenant)) where
  -- The answer names the row of the tenant that the table now has.
  abbrev Made : String → World → Type 0
  Made text v =
      (text ≡ uuid.to_string fresh)
      × ((row : Session) × (row.tenant_id ≡ tenant)
          × (find_session (has_key fresh tenant) v.sessions ≡ some row))

  for_user-Made :
      (decode : ℕ → String → String) (ttl : ℤ) (body : String) (user : Option ℕ) (w : World)
      {text : String}
      → (for_user decode ctx ttl fresh body tenant user w).0 ≡ ok (created text)
      → Made text (for_user decode ctx ttl fresh body tenant user w).1
  unfolding for_user find_session
  for_user-Made decode ttl body none w h = absurd (refused-ne-created 401 h)
  for_user-Made decode ttl body (some user) w h =
      let new =
        web_session fresh tenant user (tier_or_default (decode 1048576 body))
          (w.now + ttl_or_default ttl) in
      elim (Result-Cases (create_session ctx fresh new w).0) [
        | Cases.is_err x e ↦ absurd (refused-ne-created 500 (rw e at h))
        | Cases.is_panic p e ↦ absurd (panic-ne-created p (rw e at h))
        | Cases.is_ok s e ↦
            let same : s ≡ filled tenant fresh new =
              create_session-filled ctx fresh tenant new w
                (tenant_id_from_ctx-printed ctx tenant raw) e in
            let (_, grown) =
              create_session-inserted ctx w fresh new
                (ap (λ r. (r, (create_session ctx fresh new w).1)) e) in
            let id : s.id ≡ fresh = ap (λ q. q.id) same ∙ ground arith in
            let its : s.tenant_id ≡ tenant = ap (λ q. q.tenant_id) same in
            rw e (
              sym (created-injective (rw e at h)) ∙ ap uuid.to_string id,
              (stored w s, its, rw grown (ground arith)),
            )
      ]

  create_web_session-Made :
      (decode : ℕ → String → String) (ttl : ℤ) (req : HttpRequest) (w : World) {text : String}
      → (create_web_session decode ttl fresh ctx req w).0 ≡ ok (created text)
      → Made text (create_web_session decode ttl fresh ctx req w).1
  unfolding create_web_session for_tenant
  create_web_session-Made decode ttl req w h = elim (Bool-cases (str_eq req.method "POST")) [
    | inr e ↦ absurd (refused-ne-created 405 (rw e at h))
    | inl e ↦
        rw (e, raw, uuid.parse-to_string tenant)
          (for_user-Made decode ttl req.body (uuid.parse (user_id_from_context ctx.user_id)) w
            (rw (e, raw, uuid.parse-to_string tenant) at h))
  ]

  -- If a tenant whose text is the one that its UUID prints creates a session, the WebSocket at the
  -- path of the session that the answer names is opened on that very session, provided that the
  -- database does not fail in between.
  pub open_socket-create_web_session :
      (decode : ℕ → String → String) (ttl : ℤ) (req : HttpRequest) (path text : String) (w : World)
      → (create_web_session decode ttl fresh ctx req w).0 ≡ ok (created text)
      → extract_ws_session_id path ≡ uuid.parse text
      → (create_web_session decode ttl fresh ctx req w).1.faults ≡ []
      → (open_socket ctx path (create_web_session decode ttl fresh ctx req w).1).0
        ≡ ok (opened fresh)
  unfolding open_socket socket_of own_socket
  open_socket-create_web_session decode ttl req path text w h at_path quiet =
      let v = (create_web_session decode ttl fresh ctx req w).1 in
      let (named, (row, its, found)) = create_web_session-Made decode ttl req w h in
      let there =
        get_by_id_quiet ctx fresh tenant row v quiet (tenant_id_from_ctx-printed ctx tenant raw)
          found in
      rw
        (
          at_path,
          named,
          uuid.parse-to_string fresh,
          raw,
          there,
          its,
          eq_refl (uuid.to_string tenant),
        )
        refl
