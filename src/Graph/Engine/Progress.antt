-- ===== src/Graph/Engine/Progress.antt =====
-- What a turn of the loop of pkg/graph/engine.go does to a measure of the walk.
use mathlib.Core.Path.{subst}
use ragivka.Prelude.{
  ℕ, ◌+◌, ◌-◌, ◌*◌, ◌≤◌, ◌<◌, ◌≡◌, refl, ap, ◌⊎◌, inl, inr, exceeds, to_nat, is_zero, ℤ, pos,
  negsuc, eq_iff, Bool, true, false, String, none, some, List, [], ◌∷◌, ◌++◌, arith, length, lookup,
  insert, is_some, str_eq, Bool-cases, Option-cases, In,
}
use ragivka.Errors.{Result, ok, err, panic}
use ragivka.Graph.Types.{Data, Edge, Graph}
use ragivka.Graph.Engine.{
  Walk, Turn, stop, next, edge_key, first_match, edges_of, advance, follow, after_run, turn,
}
use ragivka.Graph.Engine.Budget.{
  count_of, spent, count_of-bumped, spent-bumped, spent-le, unvisited, unvisited-le,
  unvisited-insert, all_keys, max_limit, followed_edge,
}

-- A loop-back costs one of `a`, and gives back at most `n` of `u`.
pay : (a a' n u u' : ℕ) → a' + 1 ≤ a → u' ≤ n → a' * (n + 1) + u' < a * (n + 1) + u
pay a a' n u u' h k = let step : (a' + 1) * (n + 1) ≤ a * (n + 1) = grind arith in omega arith

not_exceeds : (n : ℕ) (z : ℤ) → exceeds n z ≡ false → n ≤ to_nat z
not_exceeds n (pos k) h = ground arith
not_exceeds n (negsuc k) h = cc

pub Turn-cases :
    {V : Type 0} (t : Turn V)
    → ((r : Result (Data V)) × (ran : List String) × (t ≡ stop r ran))
      ⊎ ((w : Walk V) × (t ≡ next w))
Turn-cases (stop r ran) = inl (r, ran, refl)
Turn-cases (next w) = inr (w, refl)

abbrev walk_of : {V : Type 0} → Walk V → Turn V → Walk V
walk_of d (next w) = w
walk_of d (stop r ran) = d

module _ {V : Type 0} (g : Graph V) where
  -- The loop-backs that the limits allow in all.
  pub loop_budget : ℕ
  unfolding all_keys max_limit
  loop_budget = length (all_keys g.edges) * max_limit g.edges

  -- What is left of them, and the nodes that are off the path.
  unfoldable pub measure : List (String × ℕ) → List (String × ℕ) → ℕ
  measure iters path_idx =
      (loop_budget - spent iters (all_keys g.edges)) * (length g.nodes + 1)
      + unvisited path_idx g.nodes

  unfoldable pub fuel_bound : ℕ
  unfolding loop_budget
  fuel_bound = loop_budget * (length g.nodes + 1) + length g.nodes

  abbrev pub WithinLimits : List (String × ℕ) → Type 0
  WithinLimits iters = (k : String) → count_of iters k ≤ max_limit g.edges

  pub record Progress (w w' : Walk V) : Type 0 where
    pub within : WithinLimits w'.iters
    pub falls : measure w'.iters w'.path_idx < measure w.iters w.path_idx
    pub one_more : w'.ran ≡ w.ran

  forward :
      (e : Edge V) (out : Data V) (w : Walk V) {w' : Walk V}
      → lookup e.to w.path_idx ≡ none
      → is_some (lookup e.to g.nodes) ≡ true
      → WithinLimits w.iters
      → advance g none e out w ≡ next w'
      → Progress w w'
  unfolding advance measure
  forward e out w new node h eq = subst (Progress w) (ap (walk_of w) eq) (record {
    within = h;
    falls = omega (arith, unvisited-insert e.to (length w.path) w.path_idx g.nodes new node);
    one_more = refl;
  })

  within-bumped :
      (k : String) (iters : List (String × ℕ))
      → count_of iters k + 1 ≤ max_limit g.edges
      → WithinLimits iters
      → WithinLimits (insert k (count_of iters k + 1) iters)
  within-bumped k iters fits h j = rw (count_of-bumped k iters j) (elim (Bool-cases (str_eq k j)) [
    | inl e ↦ rw (e, ← (eq_iff k j).0 e) fits
    | inr e ↦ rw e (h j)
  ])

  looped :
      (k : String) (iters path_idx path_idx' : List (String × ℕ))
      → In k (all_keys g.edges)
      → count_of iters k + 1 ≤ max_limit g.edges
      → WithinLimits iters
      → measure (insert k (count_of iters k + 1) iters) path_idx' < measure iters path_idx
  unfolding measure loop_budget
  looped k iters path_idx path_idx' key fits h =
      pay _ _ (length g.nodes) _ _
        (omega (
          arith,
          spent-bumped k iters (all_keys g.edges) key,
          spent-le (insert k (count_of iters k + 1) iters) (max_limit g.edges) (all_keys g.edges)
              (within-bumped k iters fits h),
        ))
        (unvisited-le path_idx' g.nodes)

  loop_back :
      (idx : ℕ) (e : Edge V) (out : Data V) (w : Walk V) {w' : Walk V}
      → In (edge_key w.current_id e.to) (all_keys g.edges)
      → to_nat e.max_iterations ≤ max_limit g.edges
      → WithinLimits w.iters
      → advance g (some idx) e out w ≡ next w'
      → Progress w w'
  unfolding advance
  loop_back idx e out w key limit h eq = elim (Bool-cases (is_zero e.max_iterations)) [
    | inl z ↦ cc (rw z at eq)
    | inr z ↦
        elim (Bool-cases
          (exceeds (count_of w.iters (edge_key w.current_id e.to) + 1) e.max_iterations)) [
            | inl x ↦ cc (rw (z, x) at eq)
            | inr x ↦
                let fits : count_of w.iters (edge_key w.current_id e.to) + 1 ≤ max_limit g.edges =
                  omega (arith, not_exceeds _ e.max_iterations x) in
                subst (Progress w) (ap (walk_of w) (rw (z, x) at eq)) (record {
                  within = within-bumped (edge_key w.current_id e.to) w.iters fits h;
                  falls = looped (edge_key w.current_id e.to) w.iters w.path_idx _ key fits h;
                  one_more = refl;
                })
          ]
  ]

  follow-Progress :
      (e : Edge V) (out : Data V) (w : Walk V) {w' : Walk V}
      → In (edge_key w.current_id e.to) (all_keys g.edges)
      → to_nat e.max_iterations ≤ max_limit g.edges
      → WithinLimits w.iters
      → follow g (some e) out w ≡ next w'
      → Progress w w'
  unfolding follow
  follow-Progress e out w key limit h eq = elim (Bool-cases (is_some (lookup e.to g.nodes))) [
    | inr absent ↦ cc (rw absent at eq)
    | inl node ↦ elim (Option-cases (lookup e.to w.path_idx)) [
      | inl new ↦ forward e out w new node h (rw (node, new) at eq)
      | inr (idx, old) ↦ loop_back idx e out w key limit h (rw (node, old) at eq)
    ]
  ]

  after_run-Progress :
      (r : Result (Data V)) (w : Walk V) {w' : Walk V}
      → WithinLimits w.iters
      → after_run g r w ≡ next w'
      → Progress w w'
  unfolding after_run
  after_run-Progress (ok out) w h eq =
      elim (Option-cases (first_match out (edges_of (lookup w.current_id g.edges)))) [
        | inl terminal ↦ cc (rw terminal at eq)
        | inr (e, found) ↦
            let (key, limit) = followed_edge out e w.current_id g.edges found in
            follow-Progress e out w key limit h (rw found at eq)
      ]
  after_run-Progress (err x) w h eq = cc
  after_run-Progress (panic p) w h eq = cc

  -- A turn that goes on runs one node and makes progress.
  pub turn-Progress :
      (cancelled : ℕ → Bool) (w : Walk V) {w' : Walk V}
      → WithinLimits w.iters
      → turn g cancelled w ≡ next w'
      → Progress (record w { ran = w.ran ++ w.current_id ∷ [] }) w'
  unfolding turn
  turn-Progress cancelled w h eq = elim (Bool-cases (cancelled (length w.ran))) [
    | inl done ↦ cc (rw done at eq)
    | inr running ↦ elim (Option-cases (lookup w.current_id g.nodes)) [
      | inl absent ↦ cc (rw (running, absent) at eq)
      | inr (node, found) ↦
          after_run-Progress (node.run (length w.ran) w.current_input)
            (record w { ran = w.ran ++ w.current_id ∷ [] }) h (rw (running, found) at eq)
    ]
  ]
