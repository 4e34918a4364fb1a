-- ===== src/Channel/Telegram/Sessions.antt =====
-- The session that the webhook of pkg/channel/telegram/handler.go runs on.
use mathlib.Core.Path.{subst}
use ragivka.Prelude.{
  ℕ, ◌+◌, ◌≡◌, refl, sym, ◌∙◌, ap, ◌⊎◌, inl, inr, true, false, ◌∷◌, All, In, arith,
}
use ragivka.Errors.{Result, ok, err, wrapped-ok, ok-injective}
use ragivka.Tenant.{Ctx, Uuid, tenant_id_from_ctx}
use ragivka.Runtime.Types.{Session}
use ragivka.Runtime.Sessions.{create_session, filled, get_active_by_user_id}
use ragivka.Runtime.Sessions.Active.{
  is_active_of, there, absent, failed, get_active_by_user_id-Lookup,
}
use ragivka.Runtime.Sessions.Queries.{stored, create_session-inserted, create_session-filled}
use ragivka.Channel.Telegram.{new_session, resolve_or_create_session, found_or_create}
use ragivka.World.{World}

-- The row of the session is the user's open one: one that was there, or a new one if there was none.
abbrev pub Serves : ℕ → ℕ → World → Session → World → Type 0
Serves tenant user w s v =
    (row : Session) × (row.id ≡ s.id)
    × (is_active_of tenant user row ≡ true)
    × ((In row w.sessions × (v.sessions ≡ w.sessions))
        ⊎ (All (λ r. is_active_of tenant user r ≡ false) w.sessions
            × (v.sessions ≡ row ∷ w.sessions)))

module _ ⦃uuid : Uuid⦄ (ctx : Ctx) (fresh tenant user ttl : ℕ)
    (et : tenant_id_from_ctx ctx ≡ ok tenant) where
  -- The row that the webhook's INSERT leaves.
  created-active :
      (expires_at : ℕ) (u : World) {s : Session}
      → (create_session ctx fresh (new_session fresh tenant user expires_at) u).0 ≡ ok s
      → (row : Session) × (row.id ≡ s.id)
        × (is_active_of tenant user row ≡ true)
        × ((create_session ctx fresh (new_session fresh tenant user expires_at) u).1.sessions
            ≡ (row ∷ u.sessions))
  created-active expires_at u {s} h =
      let new = new_session fresh tenant user expires_at in
      let same : s ≡ filled tenant fresh new = create_session-filled ctx fresh tenant new u et h in
      let (_, grown) =
        create_session-inserted ctx u fresh new
          (ap (λ r. (r, (create_session ctx fresh new u).1)) h) in
      (
        stored u s,
        refl,
        subst (λ q. is_active_of tenant user (stored u q) ≡ true) (sym same) (ground arith),
        grown,
      )

  -- If the webhook gets a session, then its row belongs to the tenant and the user and is open:
  -- either the row was there and the table is as it was, or the user had no open session and the
  -- row is the one new row of the table.
  pub resolve_or_create_session-Serves :
      (w : World) {s : Session}
      → (resolve_or_create_session ctx fresh tenant user ttl w).0 ≡ ok s
      → Serves tenant user w s (resolve_or_create_session ctx fresh tenant user ttl w).1
  unfolding resolve_or_create_session found_or_create
  resolve_or_create_session-Serves w {s} h =
      elim (get_active_by_user_id-Lookup ctx tenant user w et) [
        | there t e m holds same _ ↦
            rw e (t, ap (λ q. q.id) (ok-injective (rw e at h)), holds, inl (m, same))
        | absent e none_open same now ↦
            let u = (get_active_by_user_id ctx user w).1 in
            let (row, id, holds, grown) = created-active (u.now + ttl) u (
              wrapped-ok "create session"
                (create_session ctx fresh (new_session fresh tenant user (u.now + ttl)) u).0
                (rw e at h)) in
            rw e (row, id, holds, inr (none_open, grown ∙ ap (λ table. row ∷ table) same))
        | failed e ↦
            let never : ◌≡◌ {A = Result Session} (err _) (ok s) = rw e at h in absurd (ground arith)
      ]
