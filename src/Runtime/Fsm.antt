-- ===== src/Runtime/Fsm.antt =====
-- The session states and the transition table (pkg/runtime/fsm.go, the states of types.go).
use ragivka.Prelude.{◌≡◌, Bool, true, false, List, [], ◌∷◌, arith, if◌then◌else◌}

pub data State : Type 0 where
  active waiting_for_human completed expired : State

-- from == to
abbrev pub same_state : State → State → Bool
same_state active active = true
same_state waiting_for_human waiting_for_human = true
same_state completed completed = true
same_state expired expired = true
same_state _ _ = false

-- `completed` and `expired` are no keys of the Go map, so the lookup gives the nil slice.
valid_transitions : State → List State
valid_transitions active = waiting_for_human ∷ completed ∷ expired ∷ []
valid_transitions waiting_for_human = active ∷ completed ∷ []
valid_transitions _ = []

-- The loop over the targets.
any_state : State → List State → Bool
any_state to [] = false
any_state to (s ∷ rest) = if same_state s to then true else any_state to rest

unfoldable pub allowed : State → State → Bool
unfolding valid_transitions any_state
allowed from to = any_state to (valid_transitions from)

-- The states that no transition leaves.
abbrev pub is_terminal : State → Bool
is_terminal completed = true
is_terminal expired = true
is_terminal _ = false

pub same_state→eq : (a b : State) → same_state a b ≡ true → a ≡ b
same_state→eq a b h = ground arith

pub allowed-not_terminal : (from to : State) → allowed from to ≡ true → is_terminal from ≡ false
unfolding allowed
allowed-not_terminal from to h = ground arith
