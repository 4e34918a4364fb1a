-- ===== src/Obs/Cost/Tests.antt =====
-- Prices in thousandths of a dollar, for a million tokens each way.
use ragivka.Prelude.{ℕ, ◌+◌, ◌*◌, ◌/◌, ◌≡◌, refl, true, false, lookup}
use ragivka.Obs.Cost.{Arithmetic, calculate_cost}

abbrev whole : Arithmetic
whole = record {
  Float = ℕ;
  of_thousandths = λ n. n;
  of_nat = λ n. n;
  add = λ a b. a + b;
  mul = λ a b. a * b;
  div = λ a b. a / b;
}

known_cost : calculate_cost ⦃floats = whole⦄ (λ m. m) "gpt-4o" 1000000 1000000 ≡ (12500, true)
unfolding calculate_cost lookup
known_cost = refl

unknown_cost : calculate_cost ⦃floats = whole⦄ (λ m. m) "other" 1000000 1000000 ≡ (750, false)
unfolding calculate_cost lookup
unknown_cost = refl
