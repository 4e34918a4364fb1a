-- ===== src/Middleware/Tests.antt =====
-- A token that verifies, a webhook's secret, and four requests under a limit of two.
use ragivka.Prelude.{◌≤◌, ◌-◌, false, String, some, str_eq, List, [], ◌∷◌, pos, to_nat}
use ragivka.Middleware.Auth.{Handler, Verifier}
use ragivka.Middleware.RateLimit.{Counters, Request}
use ragivka.Middleware.RateLimit.Budget.{let_through, let_through-le}
use ragivka.World.{pure}

abbrev verifier : Verifier
verifier = record {
  verify = λ token. some (record { tenant_id = token; subject = "u" });
  equal_fold = str_eq;
}

abbrev answer : Handler
answer ctx = pure 200

abbrev none_yet : Counters
none_yet tenant minute = 0

abbrev request : String → Request
request tenant = record { tenant = tenant; minute = 7; incr_fails = false; expire_fails = false }

abbrev requests : List Request
requests = request "a" ∷ request "a" ∷ request "b" ∷ request "a" ∷ []

let_through-le_example : let_through "a" 7 (pos 2) requests none_yet ≤ to_nat (pos 2) - 0
let_through-le_example = let_through-le "a" 7 (pos 2) requests none_yet
