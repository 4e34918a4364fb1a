-- ===== src/Tenant/Sample.antt =====
-- A concrete text form of UUIDs, for the tests: the number in unary.

use ragivka.Prelude.{ℕ, zero, suc, ◌≡◌, refl, ap, String, Option, none, some}
use ragivka.Tenant.{Ctx, Uuid}

abbrev pub unary : ℕ → String
unary zero = "1"
unary (suc n) = String.◌∷◌ "1" (unary n)

abbrev pub chars : String → ℕ
chars String.[] = 0
chars (String.◌∷◌ c s) = suc (chars s)

abbrev pub parse_unary : String → Option ℕ
parse_unary String.[] = none
parse_unary (String.◌∷◌ c s) = some (chars s)

chars-unary : (n : ℕ) → chars (unary n) ≡ suc n
chars-unary zero = refl
chars-unary (suc n) = ap suc (chars-unary n)

pub parse-unary : (n : ℕ) → parse_unary (unary n) ≡ some n
parse-unary zero = refl
parse-unary (suc n) = ap some (chars-unary n)

abbrev pub unary_uuid : Uuid
unary_uuid = record {
  parse = parse_unary;
  to_string = unary;
  parse-to_string = parse-unary;
  parse_empty = refl;
}

abbrev pub tenant_ctx : ℕ → Ctx
tenant_ctx t = record { tenant_id = some (unary t); user_id = none; request_id = none }
