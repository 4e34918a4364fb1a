-- ===== src/Runtime/Users/Identity.antt =====
-- One user for each channel identity (pkg/runtime/user_repo.go).
use ragivka.Prelude.{
  ℕ, ◌≡◌, refl, sym, ◌∙◌, inl, inr, true, String, some, Option-cases, arith, eq_refl,
}
use ragivka.Errors.{Result, ok, err, panic, wrapped, Result-Cases, Cases, ok-injective}
use ragivka.Tenant.{Ctx, Uuid, tenant_id_from_ctx}
use ragivka.Runtime.Types.{User}
use ragivka.Runtime.Users.{is_identity, find_user, upsert_user, resolve_or_create}
use ragivka.World.{World}
use ragivka.World.Laws.{statement-cases}

module _ ⦃uuid : Uuid⦄ (ctx : Ctx) (channel_type channel_id : String) where
  -- The upsert of an identity that has its row gives that row's id and leaves the table.
  resolve-known :
      (fresh tenant : ℕ) (u : User) (w : World)
      → tenant_id_from_ctx ctx ≡ ok tenant
      → find_user (is_identity tenant channel_type channel_id) w.users ≡ some u
      → ((resolve_or_create ctx fresh channel_type channel_id w).1.users ≡ w.users)
        × ((n : ℕ) → (resolve_or_create ctx fresh channel_type channel_id w).0 ≡ ok n → n ≡ u.id)
  unfolding resolve_or_create
  resolve-known fresh tenant u w et found = rw et (
      statement-cases
        (λ v.
          upsert_user fresh tenant channel_type channel_id
            (find_user (is_identity tenant channel_type channel_id) v.users) v)
        w
        (λ out.
          (out.1.users ≡ w.users)
          × ((n : ℕ) → wrapped "user repo: resolve or create" out.0 ≡ ok n → n ≡ u.id))
        (λ fs. rw found (refl, λ n h. sym (ok-injective h)))
        (λ fs. (refl, λ n h. absurd (ground arith))))

  resolve-stored :
      (fresh tenant n : ℕ) (w : World)
      → tenant_id_from_ctx ctx ≡ ok tenant
      → (resolve_or_create ctx fresh channel_type channel_id w).0 ≡ ok n
      → (u : User) × (u.id ≡ n)
        × (find_user
              (is_identity tenant channel_type channel_id)
              (resolve_or_create ctx fresh channel_type channel_id w).1.users
            ≡ some u)
  unfolding resolve_or_create
  resolve-stored fresh tenant n w et h = rw et (
      statement-cases
        (λ v.
          upsert_user fresh tenant channel_type channel_id
            (find_user (is_identity tenant channel_type channel_id) v.users) v)
        w
        (λ out.
          wrapped "user repo: resolve or create" out.0 ≡ ok n
          → (u : User) × (u.id ≡ n)
            × (find_user (is_identity tenant channel_type channel_id) out.1.users ≡ some u))
        (λ fs e.
          elim (Option-cases (find_user (is_identity tenant channel_type channel_id) w.users)) [
            | inl missing ↦
                let row : User = record {
                  id = fresh;
                  tenant_id = tenant;
                  channel_type = channel_type;
                  channel_id = channel_id;
                } in
                let itself : is_identity tenant channel_type channel_id row ≡ true =
                  ground (arith, eq_refl channel_type, eq_refl channel_id) in
                rw missing (row, ok-injective (rw missing at e), rw itself refl)
            | inr (u, found) ↦ rw found (u, ok-injective (rw found at e), found)
          ])
        (λ fs e. absurd (ground arith)) (rw et at h))

  no_tenant_no_user :
      (fresh n : ℕ) (w : World)
      → (resolve_or_create ctx fresh channel_type channel_id w).0 ≡ ok n
      → (tenant : ℕ) × (tenant_id_from_ctx ctx ≡ ok tenant)
  unfolding resolve_or_create
  no_tenant_no_user fresh n w h = elim (Result-Cases (tenant_id_from_ctx ctx)) [
    | Cases.is_ok t e ↦ (t, e)
    | Cases.is_err x e ↦
        let never : ◌≡◌ {A = Result ℕ} (err x) (ok n) = rw e at h in absurd (ground arith)
    | Cases.is_panic x e ↦
        let never : ◌≡◌ {A = Result ℕ} (panic x) (ok n) = rw e at h in absurd (ground arith)
  ]

  -- Once an identity was resolved to a user, resolving it again adds no row and gives no other
  -- user, whatever id the database would draw and whatever fails.
  pub resolve_or_create_again :
      (fresh fresh' n : ℕ) (w : World)
      → (resolve_or_create ctx fresh channel_type channel_id w).0 ≡ ok n
      → let v = (resolve_or_create ctx fresh channel_type channel_id w).1 in
        ((resolve_or_create ctx fresh' channel_type channel_id v).1.users ≡ v.users)
        × ((m : ℕ) → (resolve_or_create ctx fresh' channel_type channel_id v).0 ≡ ok m → m ≡ n)
  resolve_or_create_again fresh fresh' n w h =
      let (tenant, et) = no_tenant_no_user fresh n w h in
      let (u, same, found) = resolve-stored fresh tenant n w et h in
      let (kept, only) =
        resolve-known fresh' tenant u (resolve_or_create ctx fresh channel_type channel_id w).1 et
          found in
      (kept, λ m e. only m e ∙ same)
