-- ===== src/Runtime/Messages/Window.antt =====
-- The token window of ListForSession (pkg/runtime/message_repo.go).
use ragivka.Prelude.{
  ℕ, ◌+◌, ◌-◌, ◌≤◌, ◌<◌, ◌≡◌, refl, inl, inr, true, List, [], ◌∷◌, ◌++◌, arith, ap, Bool-cases, ltb,
  ℤ, is_positive, to_nat,
}
use ragivka.Runtime.Types.{Message}
use ragivka.Runtime.Messages.{cost, within_budget, windowed}

abbrev pub total_cost : List Message → ℕ
total_cost [] = 0
total_cost (m ∷ rest) = cost m.token_count + total_cost rest

-- What follows the kept rows does not fit: nothing is left, or its first row exceeds the budget.
abbrev pub Overflows : ℕ → ℕ → List Message → Type 0
Overflows budget kept [] = Unit
Overflows budget kept (m ∷ rest) = budget < kept + cost m.token_count

abbrev pub Split : ℕ → List Message → List Message → Type 0
Split budget rows kept =
    (rest : List Message) × (kept ++ rest ≡ rows)
    × (total_cost kept ≤ budget)
    × Overflows budget (total_cost kept) rest

Overflows-cost :
    (budget spent kept : ℕ) (rest : List Message)
    → spent ≤ budget
    → Overflows (budget - spent) kept rest
    → Overflows budget (spent + kept) rest
Overflows-cost budget spent kept [] h over = tt
Overflows-cost budget spent kept (m ∷ rest) h over = omega arith

within_budget-Split :
    (budget : ℕ) (rows : List Message) → Split budget rows (within_budget budget rows)
unfolding within_budget
within_budget-Split budget [] = ([], refl, omega arith, tt)
within_budget-Split budget (m ∷ rest) = elim (Bool-cases (ltb budget (cost m.token_count))) [
  | inl e ↦ rw e (m ∷ rest, refl, omega arith, ground arith)
  | inr e ↦
      let (left, same, fits, over) = within_budget-Split (budget - cost m.token_count) rest in
      rw e (
        left,
        ap (λ l. m ∷ l) same,
        ground arith,
        Overflows-cost budget (cost m.token_count) _ left (ground arith) over,
      )
]

-- The listed history, from the newest message back: the budget covers it and not one message more.
pub windowed-Split :
    (max_tokens : ℤ) (rows : List Message)
    → is_positive max_tokens ≡ true
    → Split (to_nat max_tokens) rows (windowed max_tokens rows)
unfolding windowed
windowed-Split max_tokens rows h = rw h (within_budget-Split (to_nat max_tokens) rows)
