-- ===== src/Channel/Web/History.antt =====
-- What pkg/channel/web/messages_handler.go lists.
use ragivka.Prelude.{
  ℕ, ◌≡◌, ◌≢◌, ◌↔◌, refl, sym, ◌∙◌, ap, true, Bool-cases, inl, inr, Option, some, none, List,
  reverse, map, arith, In, String, str_eq, eq_iff, pos,
}
use ragivka.Errors.{Result, ok, panic, Result-Cases, Cases, ok-injective}
use ragivka.Tenant.{Ctx, Uuid, get_tenant_id, tenant_id_from_ctx}
use ragivka.Orchestrator.Endpoint.{HttpRequest}
use ragivka.Runtime.Types.{Session, Message}
use ragivka.Runtime.Sessions.{get_by_id, has_key, find_session}
use ragivka.Runtime.Sessions.Queries.{get_by_id-found, find_session-holds, has_key-tenant}
use ragivka.Runtime.Sessions.Calls.{get_by_id-Keeps}
use ragivka.Runtime.Messages.{list_for_session, in_session, windowed, filter_messages}
use ragivka.Runtime.Messages.Listing.{history, In-history, list_for_session-ok}
use ragivka.Runtime.Messages.History.{NewestFirst, newest_first-NewestFirst}
use ragivka.Channel.Web.{
  Response, View, refused, listed, created, view_of, extract_session_uuid, own_session, of_session,
  list_messages,
}
use ragivka.Channel.Respond.{handled}
use ragivka.World.{World}

abbrev views_or : List View → Response → List View
views_or d (refused n) = d
views_or d (listed views) = views
views_or d (created id) = d

pub listed-injective : {a b : List View} → listed a ≡ listed b → a ≡ b
listed-injective {a} h = ap (views_or a) h

pub refused-ne-listed :
    (n : ℕ) {views : List View} → ◌≢◌ {A = Result Response} (ok (refused n)) (ok (listed views))
refused-ne-listed n h = absurd (ground arith)

windowed-zero : (rows : List Message) → windowed (pos 0) rows ≡ rows
unfolding windowed
windowed-zero rows = refl

module _ ⦃uuid : Uuid⦄ (ctx : Ctx) (w : World) {views : List View} where
  -- A listing got its session's row and the rows of its messages.
  own_session-listed :
      (id : ℕ) (tenant : String) (s : Session)
      → (own_session ctx id tenant s w).0 ≡ ok (listed views)
      → (tenant ≡ uuid.to_string s.tenant_id)
        × ((t : ℕ) × (tenant_id_from_ctx ctx ≡ ok t)
            × (views ≡ map view_of (reverse (history id t w.messages))))
  unfolding own_session
  own_session-listed id tenant s h =
      elim (Bool-cases (str_eq (uuid.to_string s.tenant_id) tenant)) [
        | inr e ↦ absurd (refused-ne-listed 404 (rw e at h))
        | inl e ↦ elim (Result-Cases (list_for_session ctx id (pos 0) w).0) [
          | Cases.is_ok l el ↦
              let (t, et, rows) =
                list_for_session-ok ctx id (pos 0) w
                  (ap (λ r. (r, (list_for_session ctx id (pos 0) w).1)) el) in
              let shown : listed (map view_of l) ≡ listed views = ok-injective (rw (e, el) at h) in
              (
                sym ((eq_iff (uuid.to_string s.tenant_id) tenant).0 e),
                (
                  t,
                  et,
                  sym (listed-injective shown)
                      ∙ ap (map view_of)
                          (rows ∙ ap reverse (windowed-zero (history id t w.messages))),
                ),
              )
          | Cases.is_err x el ↦ absurd (refused-ne-listed 500 (rw (e, el) at h))
          | Cases.is_panic p el ↦
              let never : ◌≡◌ {A = Result Response} (panic p) (ok (listed views)) =
                rw (e, el) at h in
              absurd (ground arith)
        ]
      ]

module _ ⦃uuid : Uuid⦄ (ctx : Ctx) (views : List View) where
  -- The session is the tenant's, under the tenant's own text.
  abbrev Shown : ℕ → World → Type 0
  Shown id w =
      (t : ℕ) × (s : Session) × (get_tenant_id ctx ≡ ok (uuid.to_string t))
      × (find_session (has_key id t) w.sessions ≡ some s)
      × (views ≡ map view_of (reverse (history id t w.messages)))

  found-Shown :
      (id : ℕ) (tenant : String) (w : World)
      → get_tenant_id ctx ≡ ok tenant
      → (handled (refused 404) (get_by_id ctx id) (own_session ctx id tenant) w).0
        ≡ ok (listed views)
      → Shown id w
  found-Shown id tenant w raw h = elim (Result-Cases (get_by_id ctx id w).0) [
    | Cases.is_err x e ↦ absurd (refused-ne-listed 404 (rw e at h))
    | Cases.is_panic p e ↦
        let never : ◌≡◌ {A = Result Response} (panic p) (ok (listed views)) = rw e at h in
        absurd (ground arith)
    | Cases.is_ok s e ↦
        let v = (get_by_id ctx id w).1 in
        let (t, et, found, _) = get_by_id-found ctx w id (ap (λ r. (r, v)) e) in
        let (text, (u, eu, shown)) = own_session-listed ctx v id tenant s (rw e at h) in
        let mine : s.tenant_id ≡ t =
          has_key-tenant id t s (find_session-holds (has_key id t) w.sessions found) in
        let kept : v.messages ≡ w.messages =
          get_by_id-Keeps ctx (λ q. q.messages) id (λ q fs. refl) w in
        let one : u ≡ t = ok-injective (sym eu ∙ et) in
        (
          t,
          s,
          raw ∙ ap ok (text ∙ ap uuid.to_string mine),
          found,
          shown
              ∙ ap (λ k. map view_of (reverse (history id k v.messages))) one
              ∙ ap (λ ms. map view_of (reverse (history id t ms))) kept,
        )
  ]

  of_session-Shown :
      (id : Option ℕ) (w : World)
      → (of_session ctx id w).0 ≡ ok (listed views)
      → (i : ℕ) × (id ≡ some i) × Shown i w
  unfolding of_session
  of_session-Shown none w h = absurd (refused-ne-listed 400 h)
  of_session-Shown (some id) w h = elim (Result-Cases (get_tenant_id ctx)) [
    | Cases.is_ok raw e ↦ (id, refl, found-Shown id raw w e (rw e at h))
    | Cases.is_err x e ↦ absurd (refused-ne-listed 401 (rw e at h))
    | Cases.is_panic p e ↦
        let never : ◌≡◌ {A = Result Response} (panic p) (ok (listed views)) = rw e at h in
        absurd (ground arith)
  ]

  list_messages-Shown :
      (req : HttpRequest) (w : World)
      → (list_messages ctx req w).0 ≡ ok (listed views)
      → (id : ℕ) × (extract_session_uuid req.path ≡ some id) × Shown id w
  unfolding list_messages
  list_messages-Shown req w h = elim (Bool-cases (str_eq req.method "GET")) [
    | inl e ↦ of_session-Shown (extract_session_uuid req.path) w (rw e at h)
    | inr e ↦ absurd (refused-ne-listed 405 (rw e at h))
  ]

  -- If the listing answers messages, then the path names a session, the context's tenant is the
  -- printed UUID of the tenant whose session it is, and the messages are the rows of that session
  -- and tenant and no others, in chronological order.
  pub list_messages-exact :
      (req : HttpRequest) (w : World)
      → (list_messages ctx req w).0 ≡ ok (listed views)
      → (id : ℕ) × (tenant : ℕ) × (s : Session) × (rows : List Message) × (extract_session_uuid
            req.path
          ≡ some id)
        × (get_tenant_id ctx ≡ ok (uuid.to_string tenant))
        × (find_session (has_key id tenant) w.sessions ≡ some s)
        × (views ≡ map view_of (reverse rows))
        × NewestFirst rows
        × ((m : Message) → In m rows ↔ (In m w.messages × (in_session id tenant m ≡ true)))
  list_messages-exact req w h =
      let (id, path, (t, s, raw, found, shown)) = list_messages-Shown req w h in
      (
        id,
        t,
        s,
        history id t w.messages,
        path,
        raw,
        found,
        shown,
        newest_first-NewestFirst (filter_messages (in_session id t) w.messages),
        In-history id t w.messages,
      )
