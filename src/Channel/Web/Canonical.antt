-- ===== src/Channel/Web/Canonical.antt =====
-- How pkg/channel/web meets a tenant whose text is not the one that its UUID prints.
use ragivka.Prelude.{
  ℕ, ◌≡◌, ◌≢◌, sym, ◌∙◌, ap, Bool-cases, inl, inr, Option, some, none, List, String, str_eq, eq_iff,
  arith,
}
use ragivka.Errors.{Result, ok, panic, Result-Cases, Cases, ok-injective}
use ragivka.Tenant.{Ctx, Uuid, get_tenant_id}
use ragivka.Orchestrator.Endpoint.{HttpRequest}
use ragivka.Runtime.Types.{Session}
use ragivka.Runtime.Sessions.{get_by_id}
use ragivka.Channel.Respond.{handled}
use ragivka.Channel.Web.{
  View, listed, Socket, denied, opened, own_socket, socket_of, open_socket, list_messages,
}
use ragivka.Channel.Web.History.{list_messages-exact}
use ragivka.World.{World}

denied-ne-opened : (n : ℕ) {id : ℕ} → ◌≢◌ {A = Result Socket} (ok (denied n)) (ok (opened id))
denied-ne-opened n h = absurd (ground arith)

panic-ne-opened : (p : String) {id : ℕ} → ◌≢◌ {A = Result Socket} (panic p) (ok (opened id))
panic-ne-opened p h = absurd (ground arith)

module _ ⦃uuid : Uuid⦄ (w : World) {i : ℕ} where
  own_socket-opened :
      (id : ℕ) (tenant : String) (s : Session)
      → (own_socket id tenant s w).0 ≡ ok (opened i)
      → tenant ≡ uuid.to_string s.tenant_id
  unfolding own_socket
  own_socket-opened id tenant s h = elim (Bool-cases (str_eq (uuid.to_string s.tenant_id) tenant)) [
    | inl e ↦ sym ((eq_iff (uuid.to_string s.tenant_id) tenant).0 e)
    | inr e ↦ absurd (denied-ne-opened 404 (rw e at h))
  ]

module _ ⦃uuid : Uuid⦄ (ctx : Ctx) (w : World) {i : ℕ} where
  found-opened :
      (id : ℕ) (tenant : String)
      → (handled (denied 404) (get_by_id ctx id) (own_socket id tenant) w).0 ≡ ok (opened i)
      → (t : ℕ) × (tenant ≡ uuid.to_string t)
  found-opened id tenant h = elim (Result-Cases (get_by_id ctx id w).0) [
    | Cases.is_ok s e ↦
        (s.tenant_id, own_socket-opened (get_by_id ctx id w).1 id tenant s (rw e at h))
    | Cases.is_err x e ↦ absurd (denied-ne-opened 404 (rw e at h))
    | Cases.is_panic p e ↦ absurd (panic-ne-opened p (rw e at h))
  ]

  socket_of-opened :
      (id : Option ℕ)
      → (socket_of ctx id w).0 ≡ ok (opened i)
      → (t : ℕ) × (get_tenant_id ctx ≡ ok (uuid.to_string t))
  unfolding socket_of
  socket_of-opened none h = absurd (denied-ne-opened 400 h)
  socket_of-opened (some id) h = elim (Result-Cases (get_tenant_id ctx)) [
    | Cases.is_ok raw e ↦ let (t, same) = found-opened id raw (rw e at h) in (t, e ∙ ap ok same)
    | Cases.is_err x e ↦ absurd (denied-ne-opened 401 (rw e at h))
    | Cases.is_panic p e ↦ absurd (panic-ne-opened p (rw e at h))
  ]

-- If the tenant's text in the context is not the text that a UUID prints, the listing answers no
-- messages and no WebSocket is opened, whatever sessions there are.
pub noncanonical_tenant_refused :
    ⦃uuid : Uuid⦄ (ctx : Ctx) (raw : String)
    → get_tenant_id ctx ≡ ok raw
    → ((t : ℕ) → raw ≢ uuid.to_string t)
    → (w : World)
    → ((req : HttpRequest) (views : List View) → (list_messages ctx req w).0 ≢ ok (listed views))
      × ((path : String) (i : ℕ) → (open_socket ctx path w).0 ≢ ok (opened i))
unfolding open_socket
noncanonical_tenant_refused ⦃uuid⦄ ctx raw e odd w = (
  λ req views h.
      let (_, t, _, _, _, text, _, _, _, _) = list_messages-exact ctx views req w h in
      odd t (ok-injective (sym e ∙ text)),
  λ path i h. let (t, text) = socket_of-opened ctx w _ h in odd t (ok-injective (sym e ∙ text)),
)
