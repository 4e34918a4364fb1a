-- ===== src/Runtime/Sessions/Calls.antt =====
-- What the reads and the transitions of pkg/runtime/session_repo.go leave as it was.
use ragivka.Prelude.{ℕ, ◌≡◌, refl, ap, Bool, List, Option, inl, inr, none, some, Bool-cases}
use ragivka.Tenant.{Ctx, Uuid, tenant_id_from_ctx}
use ragivka.Runtime.Fsm.{State, allowed}
use ragivka.Runtime.Types.{Session}
use ragivka.Runtime.Sessions.{
  row_or_not_found, has_key, find_session, get_by_id, get_active_by_user_id, transition, update_row,
  matched,
}
use ragivka.World.{World, Call, lift}
use ragivka.World.Keeps.{Keeps, >>=-Keeps, statement-Keeps}

abbrev pub calls_of : World → List Call
calls_of w = w.calls

row_or_not_found-same : (row : Option Session) (w : World) → (row_or_not_found row w).1 ≡ w
unfolding row_or_not_found
row_or_not_found-same none w = refl
row_or_not_found-same (some s) w = refl

update_row-Keeps :
    {S : Type 0} (view : World → S) (id tenant : ℕ) (to : State) (version : ℕ)
    (row : Option Session)
    → ((w : World) (ss : List Session) → view (record w { sessions = ss }) ≡ view w)
    → Keeps view (update_row id tenant to version row)
unfolding update_row
update_row-Keeps view id tenant to version none apart w = refl
update_row-Keeps view id tenant to version (some s) apart w = apart w _

module _ ⦃uuid : Uuid⦄ (ctx : Ctx) where
  -- A read changes nothing but the schedule of failures.
  pub get_by_id-Keeps :
      {S : Type 0} (view : World → S) (id : ℕ)
      → ((w : World) (fs : List Bool) → view (record w { faults = fs }) ≡ view w)
      → Keeps view (get_by_id ctx id)
  unfolding get_by_id
  get_by_id-Keeps view id blind =
      >>=-Keeps view (lift (tenant_id_from_ctx ctx)) _ (λ w. refl)
        λ tenant.
          statement-Keeps view _ blind
            λ w. ap view (row_or_not_found-same (find_session (has_key id tenant) w.sessions) w)

  pub get_active_by_user_id-Keeps :
      {S : Type 0} (view : World → S) (user : ℕ)
      → ((w : World) (fs : List Bool) → view (record w { faults = fs }) ≡ view w)
      → Keeps view (get_active_by_user_id ctx user)
  unfolding get_active_by_user_id
  get_active_by_user_id-Keeps view user blind =
      >>=-Keeps view (lift (tenant_id_from_ctx ctx)) _ (λ w. refl)
        λ tenant. statement-Keeps view _ blind λ w. ap view (row_or_not_found-same _ w)

  pub get_by_id-calls : (id : ℕ) → Keeps calls_of (get_by_id ctx id)
  get_by_id-calls id = get_by_id-Keeps calls_of id (λ w fs. refl)

  -- A transition changes nothing but the sessions and the schedule of failures.
  pub transition-Keeps :
      {S : Type 0} (view : World → S) (id : ℕ) (from to : State) (version : ℕ)
      → ((w : World) (fs : List Bool) → view (record w { faults = fs }) ≡ view w)
      → ((w : World) (ss : List Session) → view (record w { sessions = ss }) ≡ view w)
      → Keeps view (transition ctx id from to version)
  unfolding transition
  transition-Keeps view id from to version blind apart w = elim (Bool-cases (allowed from to)) [
    | inr e ↦ rw e refl
    | inl e ↦ rw e (
        >>=-Keeps view (lift (tenant_id_from_ctx ctx)) _ (λ w. refl)
          (λ tenant. statement-Keeps view _ blind λ w.
            update_row-Keeps view id tenant to version (matched id tenant version w.sessions) apart
              w)
          w)
  ]

  pub transition-calls :
      (id : ℕ) (from to : State) (version : ℕ) → Keeps calls_of (transition ctx id from to version)
  transition-calls id from to version =
      transition-Keeps calls_of id from to version (λ w fs. refl) (λ w ss. refl)
