-- ===== src/Runtime/Users/Tenants.antt =====
-- What the upsert of pkg/runtime/user_repo.go leaves as it was.
use ragivka.Prelude.{
  ℕ, ◌≡◌, ◌≢◌, refl, Bool, String, Option, none, some, List, [], ◌∷◌, arith, ◌==◌, if◌then◌else◌,
}
use ragivka.Errors.{ok}
use ragivka.Tenant.{Ctx, Uuid, tenant_id_from_ctx}
use ragivka.Runtime.Types.{User}
use ragivka.Runtime.Users.{is_identity, find_user, upsert_user, resolve_or_create}
use ragivka.World.{World}
use ragivka.World.Keeps.{Keeps, statement-Keeps}

pub users_of : ℕ → List User → List User
users_of t [] = []
users_of t (u ∷ rest) =
    let others = users_of t rest in if u.tenant_id == t then u ∷ others else others

-- A user of one tenant is none of another's.
pub users_of-cons :
    (t : ℕ) (u : User) (table : List User)
    → u.tenant_id ≢ t
    → users_of t (u ∷ table) ≡ users_of t table
unfolding users_of
users_of-cons t u table h = ground arith

module _ {S : Type 0} (view : World → S) (tenant : ℕ)
    (blind : (w : World) (fs : List Bool) → view (record w { faults = fs }) ≡ view w)
    (own : (w : World) (u : User)
      → u.tenant_id ≡ tenant
      → view (record w { users = u ∷ w.users }) ≡ view w) where
  upsert_user-Keeps :
      (fresh : ℕ) (channel_type channel_id : String) (u : Option User)
      → Keeps view (upsert_user fresh tenant channel_type channel_id u)
  unfolding upsert_user
  upsert_user-Keeps fresh channel_type channel_id (some u) w = refl
  upsert_user-Keeps fresh channel_type channel_id none w = own w _ refl

  pub resolve_or_create-Keeps :
      ⦃uuid : Uuid⦄ (ctx : Ctx) (fresh : ℕ) (channel_type channel_id : String)
      → tenant_id_from_ctx ctx ≡ ok tenant
      → Keeps view (resolve_or_create ctx fresh channel_type channel_id)
  unfolding resolve_or_create
  resolve_or_create-Keeps ctx fresh channel_type channel_id et w = rw et (
      statement-Keeps view
        (λ v.
          upsert_user fresh tenant channel_type channel_id
            (find_user (is_identity tenant channel_type channel_id) v.users) v)
        blind
        (λ v.
          upsert_user-Keeps fresh channel_type channel_id
            (find_user (is_identity tenant channel_type channel_id) v.users) v)
        w)
