-- ===== src/Aicore/Prompts.antt =====
-- pkg/aicore/registry.go: the prompts of a tenant, by name and version.
pub mod Reads
use ragivka.Prelude.{
  ℕ, Bool, ◌&&◌, String, Option, none, some, List, [], ◌∷◌, ltb, ◌==◌, str_eq, if◌then◌else◌,
}
use ragivka.Errors.{sentinel, prompt_not_found}
use ragivka.Tenant.{Ctx, Uuid, tenant_uuid_from_ctx}
use ragivka.Aicore.Types.{PromptVersion}
use ragivka.World.{Exec, ◌>>=◌, pure, fail, lift, statement}

content_or_not_found : Option PromptVersion → Exec String
content_or_not_found none = fail (sentinel prompt_not_found)
content_or_not_found (some p) = pure p.content

find_prompt : (PromptVersion → Bool) → List PromptVersion → Option PromptVersion
find_prompt q [] = none
find_prompt q (p ∷ rest) = if q p then some p else find_prompt q rest

-- ORDER BY version DESC LIMIT 1
latest : (PromptVersion → Bool) → Option PromptVersion → List PromptVersion → Option PromptVersion
latest q best [] = best
latest q none (p ∷ rest) = latest q (if q p then some p else none) rest
latest q (some b) (p ∷ rest) =
    latest q (if q p && ltb b.version p.version then some p else some b) rest

abbrev pub is_prompt : ℕ → String → PromptVersion → Bool
is_prompt tenant name p = p.tenant_id == tenant && str_eq p.name name

module _ ⦃uuid : Uuid⦄ where
  pub load : Ctx → String → ℕ → Exec String
  unfolding content_or_not_found find_prompt
  load ctx name version = do
    tenant ← lift (tenant_uuid_from_ctx ctx)
    statement λ w.
        content_or_not_found
          (find_prompt (λ p. is_prompt tenant name p && p.version == version) w.prompts) w

  unfoldable pub load_latest : Ctx → String → Exec String
  unfolding content_or_not_found latest
  load_latest ctx name = do
    tenant ← lift (tenant_uuid_from_ctx ctx)
    statement (λ w. content_or_not_found (latest (is_prompt tenant name) none w.prompts) w)
