-- ===== src/Middleware/RateLimit/Budget.antt =====
-- How many requests pkg/middleware/ratelimit.go lets through.
use ragivka.Prelude.{
  ℕ, suc, ◌+◌, ◌-◌, ◌≤◌, ◌≡◌, refl, ap, ◌∙◌, Bool, true, false, ◌&&◌, String, List, [], ◌∷◌, str_eq,
  ◌==◌, if◌then◌else◌, ℤ, pos, negsuc, exceeds, to_nat, arith, Bool-cases, inl, inr, eq_iff,
}
use ragivka.Errors.{Result, ok, err, panic}
use ragivka.Middleware.RateLimit.{Counters, Request, incr, counted, allow}

abbrev pub passes : Result Bool → ℕ
passes (ok true) = 1
passes (ok false) = 0
passes (err e) = 0
passes (panic p) = 0

-- The requests of one tenant and minute that are let through, among any others.
pub let_through : String → ℕ → ℤ → List Request → Counters → ℕ
let_through tenant minute limit [] hits = 0
let_through tenant minute limit (r ∷ rest) hits =
    let later = let_through tenant minute limit rest (allow r limit hits).1 in
    if str_eq r.tenant tenant && r.minute == minute
    then passes (allow r limit hits).0 + later
    else later

counted-passes :
    (count : ℕ) (limit : ℤ) (expire_fails : Bool)
    → passes (counted (suc count) limit expire_fails) + (to_nat limit - suc count)
      ≤ to_nat limit - count
unfolding counted
counted-passes count (negsuc n) e = elim (Bool-cases (suc count == 1 && e)) [
  | inl fails ↦ rw fails (omega arith)
  | inr counts ↦ rw counts (omega arith)
]
counted-passes count (pos n) e = elim (Bool-cases (suc count == 1 && e)) [
  | inl fails ↦ rw fails (omega arith)
  | inr counts ↦ elim (Bool-cases (exceeds (suc count) (pos n))) [
    | inl over ↦ rw (counts, over) (omega arith)
    | inr within ↦ let room : suc count ≤ n = ground arith in rw (counts, within) (omega arith)
  ]
]

allow-counts :
    (r : Request) (limit : ℤ) (hits : Counters) (tenant : String) (minute : ℕ)
    → (str_eq r.tenant tenant && r.minute == minute) ≡ true
    → passes (allow r limit hits).0 + (to_nat limit - (allow r limit hits).1 tenant minute)
      ≤ to_nat limit - hits tenant minute
unfolding allow incr
allow-counts r limit hits tenant minute here =
    let one : str_eq r.tenant tenant ≡ true = ground arith in
    let et : r.tenant ≡ tenant = (eq_iff r.tenant tenant).0 one in
    let em : r.minute ≡ minute = ground arith in
    let same : hits r.tenant r.minute ≡ hits tenant minute =
      ap (λ t. hits t r.minute) et ∙ ap (hits tenant) em in
    elim (Bool-cases r.incr_fails) [
      | inl e ↦ rw e (omega arith)
      | inr e ↦ rw (e, here) (rw same (counted-passes (hits tenant minute) limit r.expire_fails))
    ]

allow-others :
    (r : Request) (limit : ℤ) (hits : Counters) (tenant : String) (minute : ℕ)
    → (str_eq r.tenant tenant && r.minute == minute) ≡ false
    → (allow r limit hits).1 tenant minute ≡ hits tenant minute
unfolding allow incr
allow-others r limit hits tenant minute other = elim (Bool-cases r.incr_fails) [
  | inl e ↦ rw e refl
  | inr e ↦ rw (e, other) refl
]

-- Whatever requests come, of any tenants, in any order and with any failures of Redis, those of one
-- tenant in one minute that are let through are no more than the limit, less those counted before.
pub let_through-le :
    (tenant : String) (minute : ℕ) (limit : ℤ) (requests : List Request) (hits : Counters)
    → let_through tenant minute limit requests hits ≤ to_nat limit - hits tenant minute
unfolding let_through
let_through-le tenant minute limit [] hits = omega arith
let_through-le tenant minute limit (r ∷ rest) hits =
    let ih = let_through-le tenant minute limit rest (allow r limit hits).1 in
    elim (Bool-cases (str_eq r.tenant tenant && r.minute == minute)) [
      | inl e ↦ rw e (omega (arith, ih, allow-counts r limit hits tenant minute e))
      | inr e ↦ rw e (omega (arith, ih, allow-others r limit hits tenant minute e))
    ]
