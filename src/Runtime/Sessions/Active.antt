-- ===== src/Runtime/Sessions/Active.antt =====
-- What the query for the active session of a user of pkg/runtime/session_repo.go finds.
use mathlib.Core.Path.{subst}
use ragivka.Prelude.{
  ℕ, ◌≡◌, refl, sym, ◌⊎◌, inl, inr, Bool, true, false, ◌&&◌, none, some, some-eq_some, List, [],
  ◌∷◌, arith, All, In, Bool-cases, Option-cases, ◌∙◌, ltb, ◌==◌,
}
use ragivka.Errors.{Result, ok, err, other, sentinel, not_found}
use ragivka.Tenant.{Ctx, Uuid, tenant_id_from_ctx}
use ragivka.Runtime.Types.{Session}
use ragivka.Runtime.Sessions.{
  filter_sessions, newest, is_open, row_or_not_found, get_active_by_user_id,
}
use ragivka.World.{World}
use ragivka.World.Laws.{statement-cases}

-- tenant_id = $1 AND user_id = $2 AND state IN ('Active', 'WaitingForHuman')
abbrev pub is_active_of : ℕ → ℕ → Session → Bool
is_active_of tenant user s = s.tenant_id == tenant && s.user_id == user && is_open s.state

newest-some :
    (rows : List Session) (b : Session)
    → (s : Session) × (newest (some b) rows ≡ some s) × ((s ≡ b) ⊎ In s rows)
unfolding newest
newest-some [] b = (b, refl, inl refl)
newest-some (r ∷ rows) b = elim (Bool-cases (ltb b.created_at r.created_at)) [
  | inl e ↦ rw e (let (s, found, from) = newest-some rows r in (s, found, inr from))
  | inr e ↦ rw e (
      let (s, found, from) = newest-some rows b in
      (s, found, elim from [ inl same ↦ inl same | inr m ↦ inr (inr m) ]))
]

first_or_later :
    (p : Session → Bool) (s t : Session) (rest : List Session)
    → p t ≡ true
    → (In s (filter_sessions p rest) → In s rest × (p s ≡ true))
    → In s (t ∷ filter_sessions p rest)
    → In s (t ∷ rest) × (p s ≡ true)
first_or_later p s t rest e later (inl same) = (inl same, subst (λ r. p r ≡ true) (sym same) e)
first_or_later p s t rest e later (inr m) = let (there, holds) = later m in (inr there, holds)

In-filtered :
    (p : Session → Bool) (s : Session) (table : List Session)
    → In s (filter_sessions p table)
    → In s table × (p s ≡ true)
unfolding filter_sessions
In-filtered p s [] m = absurd m
In-filtered p s (t ∷ rest) m = elim (Bool-cases (p t)) [
  | inr e ↦ let (there, holds) = In-filtered p s rest (rw e at m) in (inr there, holds)
  | inl e ↦ first_or_later p s t rest e (In-filtered p s rest) (rw e at m)
]

empty-All :
    (p : Session → Bool) (table : List Session)
    → newest none (filter_sessions p table) ≡ none
    → All (λ s. p s ≡ false) table
unfolding filter_sessions newest
empty-All p [] h = tt
empty-All p (t ∷ rest) h = elim (Bool-cases (p t)) [
  | inl e ↦
      let (s, found, _) = newest-some (filter_sessions p rest) t in
      let never : some s ≡ none = sym found ∙ (rw e at h) in absurd (ground arith)
  | inr e ↦ (e, empty-All p rest (rw e at h))
]

newest-In_rows : (rows : List Session) {s : Session} → newest none rows ≡ some s → In s rows
unfolding newest
newest-In_rows [] h = absurd (ground arith)
newest-In_rows (r ∷ rows) {s} h =
    let (t, found, from) = newest-some rows r in
    let same : t ≡ s = some-eq_some (sym found ∙ h) in subst (λ q. In q (r ∷ rows)) same from

newest-In :
    (p : Session → Bool) (table : List Session) {s : Session}
    → newest none (filter_sessions p table) ≡ some s
    → In s table × (p s ≡ true)
newest-In p table {s} h = In-filtered p s table (newest-In_rows (filter_sessions p table) h)

-- A user's open session, none, or the error of the database.
pub data Lookup (tenant user : ℕ) (w : World) (out : Result Session × World) : Type 0 where
  there :
      (s : Session)
      → out.0 ≡ ok s
      → In s w.sessions
      → is_active_of tenant user s ≡ true
      → out.1.sessions ≡ w.sessions
      → out.1.now ≡ w.now
      → Lookup tenant user w out
  absent :
      out.0 ≡ err (sentinel not_found)
      → All (λ s. is_active_of tenant user s ≡ false) w.sessions
      → out.1.sessions ≡ w.sessions
      → out.1.now ≡ w.now
      → Lookup tenant user w out
  failed : out.0 ≡ err (other "database error") → Lookup tenant user w out

pub get_active_by_user_id-Lookup :
    ⦃uuid : Uuid⦄ (ctx : Ctx) (tenant user : ℕ) (w : World)
    → tenant_id_from_ctx ctx ≡ ok tenant
    → Lookup tenant user w (get_active_by_user_id ctx user w)
unfolding get_active_by_user_id row_or_not_found
get_active_by_user_id-Lookup ctx tenant user w et = rw et (
    statement-cases _ w (Lookup tenant user w)
      (λ fs.
        elim (Option-cases (newest none (filter_sessions (is_active_of tenant user) w.sessions))) [
          | inl e ↦ rw e (absent refl (empty-All (is_active_of tenant user) w.sessions e) refl refl)
          | inr (s, e) ↦
              let (m, holds) = newest-In (is_active_of tenant user) w.sessions e in
              rw e (there s refl m holds refl refl)
        ])
      (λ fs. failed refl))
