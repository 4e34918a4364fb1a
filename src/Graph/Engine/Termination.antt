-- ===== src/Graph/Engine/Termination.antt =====
-- The loop of pkg/graph/engine.go ends: each turn makes progress and runs one node.
use ragivka.Prelude.{
  ℕ, zero, suc, ◌+◌, ◌-◌, ◌≤◌, ◌<◌, ◌≡◌, refl, ap, inl, inr, Bool, String, Option, none, some, List,
  [], ◌∷◌, ◌++◌, arith, length, lookup, is_some, Bool-cases, Option-cases, length-append,
}
use ragivka.Errors.{Result, ok, err, panic, wrap, sentinel, node_not_found}
use ragivka.Graph.Types.{Data, Edge, Graph}
use ragivka.Graph.Engine.{
  Walk, Turn, stop, next, first_match, edges_of, advance, follow, after_run, turn, walk, start_walk,
  execute,
}
use ragivka.Graph.Engine.Progress.{
  Turn-cases, loop_budget, measure, fuel_bound, WithinLimits, turn-Progress,
}
use ragivka.Graph.Engine.Budget.{spent-nil, unvisited-le, all_keys}

sub_zero : (n : ℕ) → n - 0 ≡ n
sub_zero n = omega arith

abbrev ran_of : {V : Type 0} → Turn V → List String
ran_of (stop r ran) = ran
ran_of (next w) = w.ran

module _ {V : Type 0} (g : Graph V) where
  advance_ran :
      (o : Option ℕ) (e : Edge V) (out : Data V) (w : Walk V) → ran_of (advance g o e out w) ≡ w.ran
  unfolding advance
  advance_ran none e out w = refl
  advance_ran (some idx) e out w = ground arith

  after_run_ran : (r : Result (Data V)) (w : Walk V) → ran_of (after_run g r w) ≡ w.ran
  unfolding after_run follow
  after_run_ran (ok out) w =
      elim (Option-cases (first_match out (edges_of (lookup w.current_id g.edges)))) [
        | inl terminal ↦ rw terminal refl
        | inr (e, found) ↦ rw found (elim (Bool-cases (is_some (lookup e.to g.nodes))) [
          | inl node ↦ rw node (advance_ran (lookup e.to w.path_idx) e out w)
          | inr absent ↦ rw absent refl
        ])
      ]
  after_run_ran (err x) w = refl
  after_run_ran (panic p) w = refl

  -- A turn runs one node at most.
  turn_ran :
      (cancelled : ℕ → Bool) (w : Walk V) → length (ran_of (turn g cancelled w)) ≤ length w.ran + 1
  unfolding turn
  turn_ran cancelled w = elim (Bool-cases (cancelled (length w.ran))) [
    | inl done ↦ rw done (omega arith)
    | inr running ↦ rw running (elim (Option-cases (lookup w.current_id g.nodes)) [
      | inl absent ↦ rw absent (omega arith)
      | inr (node, found) ↦
          rw
            (
              found,
              after_run_ran (node.run (length w.ran) w.current_input)
                  (record w { ran = w.ran ++ w.current_id ∷ [] }),
            )
            (omega (arith, length-append w.ran (w.current_id ∷ [])))
    ])
  ]

  abbrev Ends : (fuel : ℕ) (cancelled : ℕ → Bool) (w : Walk V) → Type 0
  Ends fuel cancelled w =
      (r : Result (Data V)) × (ran : List String) × (walk g fuel cancelled w ≡ some (r, ran))
      × (length ran ≤ length w.ran + measure g w.iters w.path_idx + 1)

  walk-Ends :
      (fuel : ℕ) (cancelled : ℕ → Bool) (w : Walk V)
      → WithinLimits g w.iters
      → measure g w.iters w.path_idx < fuel
      → Ends fuel cancelled w
  unfolding walk
  walk-Ends zero cancelled w h m = absurd (omega arith)
  walk-Ends (suc fuel) cancelled w h m = elim (Turn-cases (turn g cancelled w)) [
    | inl (r, ran, e) ↦
        (r, ran, rw (e, walk) refl, omega (arith, ap length (ap ran_of e), turn_ran cancelled w))
    | inr (w', e) ↦
        let p = turn-Progress g cancelled w h e in
        let (r, ran, ended, few) = walk-Ends fuel cancelled w' p.within (omega (arith, p.falls)) in
        (
          r,
          ran,
          rw (e, walk) ended,
          omega (arith, p.falls, ap length p.one_more, length-append w.ran (w.current_id ∷ [])),
        )
  ]

  start-WithinLimits : WithinLimits g []
  unfolding lookup
  start-WithinLimits k = omega arith

  start_measure : measure g [] ((g.start_id, 0) ∷ []) ≤ fuel_bound g
  unfolding measure fuel_bound
  start_measure =
      rw (spent-nil (all_keys g.edges), sub_zero (loop_budget g))
        (omega (arith, unvisited-le ((g.start_id, 0) ∷ []) g.nodes))

  -- With any fuel above the bound the engine's loop ends, whatever the nodes answer and whenever
  -- the context is cancelled, and runs no more nodes than the bound and one.
  pub execute_ends :
      (fuel : ℕ) (cancelled : ℕ → Bool) (input : Data V)
      → fuel_bound g < fuel
      → (r : Result (Data V)) × (ran : List String) × (execute g fuel cancelled input
          ≡ some (r, ran))
        × (length ran ≤ fuel_bound g + 1)
  unfolding execute fuel_bound
  execute_ends fuel cancelled input enough =
      elim (Bool-cases (is_some (lookup g.start_id g.nodes))) [
        | inr absent ↦
            (err (wrap "start" (sentinel node_not_found)), [], rw absent refl, omega arith)
        | inl present ↦ rw present (
            let (r, ran, ended, few) =
              walk-Ends fuel cancelled (start_walk g input) start-WithinLimits
                (omega (arith, start_measure)) in
            (r, ran, ended, omega (arith, start_measure)))
      ]
