-- ===== src/Runtime/Sessions/Queries.antt =====
-- What the reads and the INSERT of pkg/runtime/session_repo.go find and leave.
use mathlib.Core.Path.{subst}
use ragivka.Prelude.{
  true, refl, ap, [], Bool-cases, inl, inr, some-eq_some, ℕ, ◌≡◌, Bool, false, List, ◌∷◌, arith,
  ◌==◌, some, is_some,
}
use ragivka.Errors.{ok, Result-Cases, Cases}
use ragivka.Tenant.{Ctx, Uuid, tenant_id_from_ctx}
use ragivka.Runtime.Types.{Session}
use ragivka.Runtime.Sessions.{
  matched, row_or_not_found, has_key, find_session, accepts, insert_session, create_session, filled,
  get_by_id,
}
use ragivka.World.{World}
use ragivka.World.Laws.{statement-cases, statement_no_faults, err-ne-ok, panic-ne-ok}

-- A row with that primary key is in the table.
unfoldable pub holds_id : ℕ → List Session → Bool
unfolding find_session
holds_id id table = is_some (find_session (λ t. t.id == id) table)

abbrev pub stored : World → Session → Session
stored w s = record s { created_at = w.now; updated_at = w.now }

insert_session-inserted :
    (row : Session) (w : World) {s : Session} {v : World}
    → insert_session row w ≡ (ok s, v)
    → (holds_id s.id w.sessions ≡ false) × (v.sessions ≡ stored w s ∷ w.sessions)
unfolding insert_session accepts holds_id
insert_session-inserted row w {s} {v} h = ground arith

module _ ⦃uuid : Uuid⦄ (ctx : Ctx) (w : World) {s : Session} {v : World} where
  pub get_by_id-found :
      (id : ℕ)
      → get_by_id ctx id w ≡ (ok s, v)
      → (tenant : ℕ) × (tenant_id_from_ctx ctx ≡ ok tenant)
        × (find_session (has_key id tenant) w.sessions ≡ some s)
        × (v.sessions ≡ w.sessions)
  unfolding get_by_id
  get_by_id-found id h = elim (Result-Cases (tenant_id_from_ctx ctx)) [
    | Cases.is_ok t et ↦
        statement-cases (λ u. row_or_not_found (find_session (has_key id t) u.sessions) u) w
          (λ out.
            out ≡ (ok s, v)
            → (tenant : ℕ) × (tenant_id_from_ctx ctx ≡ ok tenant)
              × (find_session (has_key id tenant) w.sessions ≡ some s)
              × (v.sessions ≡ w.sessions))
          (λ fs e. (t, et, ground arith, ground arith)) (λ fs e. err-ne-ok e) (rw et at h)
    | Cases.is_err e et ↦ err-ne-ok (rw et at h)
    | Cases.is_panic p et ↦ panic-ne-ok (rw et at h)
  ]

  pub create_session-inserted :
      (fresh : ℕ) (row : Session)
      → create_session ctx fresh row w ≡ (ok s, v)
      → (holds_id s.id w.sessions ≡ false) × (v.sessions ≡ stored w s ∷ w.sessions)
  unfolding create_session
  create_session-inserted fresh row h = elim (Result-Cases (tenant_id_from_ctx ctx)) [
    | Cases.is_ok t et ↦
        statement-cases (insert_session (filled t fresh row)) w
          (λ out.
            out ≡ (ok s, v)
            → (holds_id s.id w.sessions ≡ false) × (v.sessions ≡ stored w s ∷ w.sessions))
          (λ fs e. insert_session-inserted (filled t fresh row) (record w { faults = fs }) e)
          (λ fs e. err-ne-ok e) (rw et at h)
    | Cases.is_err e et ↦ err-ne-ok (rw et at h)
    | Cases.is_panic p et ↦ panic-ne-ok (rw et at h)
  ]

-- The first row with a key is the row that an UPDATE at its version matches.
pub matched-find_session :
    (id tenant : ℕ) (s : Session) (table : List Session)
    → find_session (has_key id tenant) table ≡ some s
    → matched id tenant s.version table ≡ some s
unfolding find_session matched
matched-find_session id tenant s [] h = absurd (ground arith)
matched-find_session id tenant s (t ∷ rest) h = elim (Bool-cases (has_key id tenant t)) [
  | inl e ↦ let same : t ≡ s = some-eq_some (rw e at h) in rw (← same) (ground arith)
  | inr e ↦ rw e (matched-find_session id tenant s rest (rw e at h))
]

pub get_by_id_quiet :
    ⦃uuid : Uuid⦄ (ctx : Ctx) (id tenant : ℕ) (s : Session) (w : World)
    → w.faults ≡ []
    → tenant_id_from_ctx ctx ≡ ok tenant
    → find_session (has_key id tenant) w.sessions ≡ some s
    → get_by_id ctx id w ≡ (ok s, w)
unfolding get_by_id row_or_not_found
get_by_id_quiet ctx id tenant s w quiet et found =
    rw et (rw (statement_no_faults _ w quiet) (rw found refl))

insert_session-same :
    (row : Session) (w : World) {s : Session} {v : World}
    → insert_session row w ≡ (ok s, v)
    → s ≡ row
unfolding insert_session
insert_session-same row w {s} {v} h = ground arith

-- What an INSERT returned is the caller's row, with the tenant and an id.
pub create_session-filled :
    ⦃uuid : Uuid⦄ (ctx : Ctx) (fresh tenant : ℕ) (row : Session) (w : World) {s : Session}
    → tenant_id_from_ctx ctx ≡ ok tenant
    → (create_session ctx fresh row w).0 ≡ ok s
    → s ≡ filled tenant fresh row
unfolding create_session
create_session-filled ctx fresh tenant row w {s} et h =
    statement-cases (insert_session (filled tenant fresh row)) w
      (λ out. out.0 ≡ ok s → s ≡ filled tenant fresh row)
      (λ fs e.
        let v = record w { faults = fs } in
        insert_session-same (filled tenant fresh row) v
          (ap (λ r. (r, (insert_session (filled tenant fresh row) v).1)) e))
      (λ fs e. absurd (ground arith)) (rw et at h)

pub find_session-holds :
    (p : Session → Bool) (table : List Session) {s : Session}
    → find_session p table ≡ some s
    → p s ≡ true
unfolding find_session
find_session-holds p [] h = absurd (ground arith)
find_session-holds p (t ∷ rest) h = elim (Bool-cases (p t)) [
  | inl e ↦ subst (λ r. p r ≡ true) (some-eq_some (rw e at h)) e
  | inr e ↦ find_session-holds p rest (rw e at h)
]

pub has_key-tenant : (id t : ℕ) (s : Session) → has_key id t s ≡ true → s.tenant_id ≡ t
has_key-tenant id t s h = ground arith
