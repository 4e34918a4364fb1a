-- ===== src/Runtime/Users.antt =====
-- pkg/runtime/user_repo.go: the users of a tenant, by channel identity.
pub mod Identity
pub mod Tenants
use ragivka.Prelude.{
  ℕ, Bool, ◌&&◌, String, Option, none, some, List, [], ◌∷◌, ◌==◌, str_eq, if◌then◌else◌,
}
use ragivka.Errors.{ok}
use ragivka.Tenant.{Ctx, Uuid, tenant_id_from_ctx}
use ragivka.Runtime.Types.{User}
use ragivka.World.{World, Exec, ◌>>=◌, lift, context, statement}

-- ON CONFLICT (tenant_id, channel_type, channel_id)
abbrev pub is_identity : ℕ → String → String → User → Bool
is_identity tenant channel_type channel_id u =
    u.tenant_id == tenant && str_eq u.channel_type channel_type && str_eq u.channel_id channel_id

pub find_user : (User → Bool) → List User → Option User
find_user p [] = none
find_user p (u ∷ rest) = if p u then some u else find_user p rest

-- DO UPDATE writes back the value that the row has. A new row gets `gen_random_uuid()`.
upsert_user : ℕ → ℕ → String → String → Option User → Exec ℕ
upsert_user fresh tenant channel_type channel_id (some u) w = (ok u.id, w)
upsert_user fresh tenant channel_type channel_id none w = (
  ok fresh,
  record w {
    users =
        record {
          id = fresh;
          tenant_id = tenant;
          channel_type = channel_type;
          channel_id = channel_id;
        }
        ∷ w.users;
  },
)

module _ ⦃uuid : Uuid⦄ where
  -- `fresh` is the random id that the database draws: it is no other row's.
  unfoldable pub resolve_or_create : Ctx → ℕ → String → String → Exec ℕ
  unfolding upsert_user find_user
  resolve_or_create ctx fresh channel_type channel_id = do
    tenant ← lift (tenant_id_from_ctx ctx)
    context "user repo: resolve or create" (
        statement λ w.
          upsert_user fresh tenant channel_type channel_id
            (find_user (is_identity tenant channel_type channel_id) w.users) w)
