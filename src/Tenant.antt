-- ===== src/Tenant.antt =====
-- The tenant in the request context (pkg/tenant/context.go) and its UUID, as the repositories
-- read it (tenantIDFromCtx of pkg/runtime/types.go, tenantUUIDFromCtx of pkg/aicore,
-- pkg/knowledge/ingestion and pkg/storage).
pub mod Sample
use ragivka.Prelude.{
  ℕ, ◌≡◌, refl, Bool, true, false, String, Option, none, some, arith, str_eq, if◌then◌else◌,
  Bool-cases, inl, inr, ap, eq_iff,
}
use ragivka.Errors.{Err, Result, ok, err, panic, sentinel, no_tenant, other, wrap}

-- The request context: the values that the program's own keys hold.
pub record Ctx : Type 0 where
  pub tenant_id : Option String
  pub user_id : Option String
  pub request_id : Option String

unfoldable pub with_tenant_id : Ctx → String → Ctx
with_tenant_id ctx id = record ctx { tenant_id = some id }

-- The type assertion with its comma-ok, and the test for the empty string.
tenant_or_error : Option String → Result String
tenant_or_error none = err (sentinel no_tenant)
tenant_or_error (some id) = if str_eq id "" then err (sentinel no_tenant) else ok id

unfoldable pub get_tenant_id : Ctx → Result String
unfolding tenant_or_error
get_tenant_id ctx = tenant_or_error ctx.tenant_id

or_panic : Result String → Result String
or_panic (ok id) = ok id
or_panic (err e) = panic "invariant violation"
or_panic (panic p) = panic p

pub must_get_tenant_id : Ctx → Result String
unfolding or_panic get_tenant_id
must_get_tenant_id ctx = or_panic (get_tenant_id ctx)

-- github.com/google/uuid: a UUID is its 128 bits, read as a number (`uuid.Nil` is 0).
-- Printing and parsing agree, and the empty text is no UUID.
pub record Uuid : Type 0 where
  pub parse : String → Option ℕ
  pub to_string : ℕ → String
  pub parse-to_string : (u : ℕ) → parse (to_string u) ≡ some u
  pub parse_empty : parse "" ≡ none

-- The text of a UUID is not empty.
pub to_string-not_empty : (uuid : Uuid) (u : ℕ) → str_eq (uuid.to_string u) "" ≡ false
to_string-not_empty uuid u = elim (Bool-cases (str_eq (uuid.to_string u) "")) [
  | inl e ↦
      cc (
        ap uuid.parse ((eq_iff (uuid.to_string u) "").0 e),
        uuid.parse-to_string u,
        uuid.parse_empty,
      )
  | inr e ↦ e
]

module _ ⦃uuid : Uuid⦄ where
  parsed : Option ℕ → Result ℕ
  parsed none = err (wrap "tenant ID in context is not a valid UUID" (other "invalid UUID"))
  parsed (some id) = ok id

  parse_tenant : Result String → Result ℕ
  unfolding parsed
  parse_tenant (ok raw) = parsed (uuid.parse raw)
  parse_tenant (err e) = err e
  parse_tenant (panic p) = panic p

  -- A missing tenant panics.
  unfoldable pub tenant_id_from_ctx : Ctx → Result ℕ
  unfolding parse_tenant must_get_tenant_id
  tenant_id_from_ctx ctx = parse_tenant (must_get_tenant_id ctx)

  -- A missing tenant is an error.
  unfoldable pub tenant_uuid_from_ctx : Ctx → Result ℕ
  unfolding parse_tenant get_tenant_id
  tenant_uuid_from_ctx ctx = parse_tenant (get_tenant_id ctx)

  -- A context into which a UUID's text was put gives that UUID back.
  pub tenant_id_from_ctx-with_tenant_id :
      (ctx : Ctx) (t : ℕ) → tenant_id_from_ctx (with_tenant_id ctx (uuid.to_string t)) ≡ ok t
  unfolding tenant_id_from_ctx with_tenant_id
  tenant_id_from_ctx-with_tenant_id ctx t =
      ground (arith, to_string-not_empty uuid t, uuid.parse-to_string t)

  pub tenant_uuid_from_ctx-with_tenant_id :
      (ctx : Ctx) (t : ℕ) → tenant_uuid_from_ctx (with_tenant_id ctx (uuid.to_string t)) ≡ ok t
  unfolding tenant_uuid_from_ctx get_tenant_id with_tenant_id
  tenant_uuid_from_ctx-with_tenant_id ctx t =
      ground (arith, to_string-not_empty uuid t, uuid.parse-to_string t)

  -- Where the context's text is a UUID's, that tenant is read.
  pub tenant_id_from_ctx-parsed :
      (ctx : Ctx) (raw : String) (t : ℕ)
      → get_tenant_id ctx ≡ ok raw
      → uuid.parse raw ≡ some t
      → tenant_id_from_ctx ctx ≡ ok t
  unfolding tenant_id_from_ctx must_get_tenant_id get_tenant_id
  tenant_id_from_ctx-parsed ctx raw t named parsed = ground (arith, named, parsed)

  pub tenant_id_from_ctx-names :
      (ctx : Ctx) (raw : String) (t : ℕ)
      → ctx.tenant_id ≡ some raw
      → tenant_id_from_ctx ctx ≡ ok t
      → uuid.parse raw ≡ some t
  unfolding tenant_id_from_ctx must_get_tenant_id
  tenant_id_from_ctx-names ctx raw t named found = ground (arith, named, found)

  -- Where the context's text is the printed UUID of a tenant, that tenant is read.
  pub tenant_id_from_ctx-printed :
      (ctx : Ctx) (t : ℕ)
      → get_tenant_id ctx ≡ ok (uuid.to_string t)
      → tenant_id_from_ctx ctx ≡ ok t
  unfolding tenant_id_from_ctx must_get_tenant_id get_tenant_id
  tenant_id_from_ctx-printed ctx t h = ground (arith, h, uuid.parse-to_string t)
