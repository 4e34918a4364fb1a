-- ===== src/Graph/Tests.antt =====
-- Walks of small graphs, as in pkg/graph/graph_test.go, and the graph theorems at them.
use ragivka.Prelude.{
  ℕ, ◌≡◌, ◌≤◌, refl, ℤ, pos, Bool, false, String, none, some, List, [], ◌∷◌, arith, length, lookup,
  insert, remove, lookup-All, ◌+◌, ◌<◌,
}
use ragivka.Errors.{
  Result, ok, err, is, node_not_found, cycle_detected, max_iterations_exceeded, sentinel, wrap,
}
use ragivka.Graph.Types.{Data, Graph, Node, GraphDef, pass_node, echo_node}
use ragivka.Graph.Engine.{execute}
use ragivka.Graph.Engine.Progress.{fuel_bound}
use ragivka.Graph.Engine.Termination.{execute_ends}
use ragivka.Graph.Registry.{default_registry, build_graph}
use ragivka.Graph.Registry.Safety.{Honest, build_graph-execute}

abbrev looping : ℤ → GraphDef ℕ
looping limit = record {
  start = "A";
  nodes =
      ("A", record { kind = "branch"; params = none })
      ∷ ("B", record { kind = "echo"; params = none })
      ∷ [];
  edges =
      ("A", record { to = "B"; max_iterations = pos 0 } ∷ [])
      ∷ ("B", record { to = "A"; max_iterations = limit } ∷ [])
      ∷ [];
}

abbrev never : ℕ → Bool
never n = false

-- The graph of `looping`, as BuildGraph returns it.
abbrev cycle : ℤ → Graph ℕ
cycle limit = record {
  nodes = ("B", echo_node "B") ∷ ("A", pass_node "A") ∷ [];
  edges =
      ("B", record { to = "A"; predicate = none; max_iterations = limit } ∷ [])
      ∷ ("A", record { to = "B"; predicate = none; max_iterations = pos 0 } ∷ [])
      ∷ [];
  start_id = "A";
}

built : (limit : ℤ) → build_graph (default_registry ℕ) (looping limit) ≡ ok (cycle limit)
unfolding build_graph default_registry lookup insert
built limit = refl

-- TestEngine_LoopBackEdge_terminatesAtMaxIterations
stops_at_limit :
    execute (cycle (pos 2)) 10 never none
    ≡ some (
      err (wrap "edge" (sentinel max_iterations_exceeded)),
      "A" ∷ "B" ∷ "A" ∷ "B" ∷ "A" ∷ "B" ∷ [],
    )
unfolding execute echo_node pass_node lookup insert remove
stops_at_limit = refl

-- TestEngine_CycleWithoutGuard_returnsCycleDetected
cycle_found :
    execute (cycle (pos 0)) 10 never none
    ≡ some (err (wrap "edge" (sentinel cycle_detected)), "A" ∷ "B" ∷ [])
unfolding execute echo_node pass_node lookup insert remove
cycle_found = refl

bound_small : fuel_bound (cycle (pos 2)) < 20
unfolding fuel_bound
bound_small = omega arith

execute_ends_example :
    (r : Result (Data ℕ)) × (ran : List String) × (execute (cycle (pos 2)) 20 never none
      ≡ some (r, ran))
    × (length ran ≤ fuel_bound (cycle (pos 2)) + 1)
execute_ends_example = execute_ends (cycle (pos 2)) 20 never none bound_small

cycle-Honest : (limit : ℤ) → Honest (cycle limit)
unfolding echo_node pass_node
cycle-Honest limit id node n input e found =
    lookup-All (λ (x : Node ℕ). x.run n input ≡ err e → is e node_not_found ≡ false) id node
      (cycle limit).nodes ((λ h. cc), ((λ h. cc), tt)) found

build_graph-execute_example :
    is (wrap "edge" (sentinel max_iterations_exceeded)) node_not_found ≡ false
build_graph-execute_example =
    build_graph-execute (default_registry ℕ) (looping (pos 2)) (cycle (pos 2)) 10 never none
      (wrap "edge" (sentinel max_iterations_exceeded)) ("A" ∷ "B" ∷ "A" ∷ "B" ∷ "A" ∷ "B" ∷ [])
      (built (pos 2)) (cycle-Honest (pos 2)) stops_at_limit
