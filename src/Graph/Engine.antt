-- ===== src/Graph/Engine.antt =====
-- pkg/graph/engine.go: the walk of GraphEngine.Execute, one turn of its loop at a time.
pub mod Budget
pub mod Progress
pub mod Termination
use Prim.Native.String
use ragivka.Prelude.{
  ℕ, zero, suc, ◌+◌, exceeds, is_zero, Bool, String, Option, none, some, List, [], ◌∷◌, ◌++◌,
  length, take, drop, lookup, insert, remove, is_some, if◌then◌else◌,
}
use ragivka.Errors.{
  Result, ok, err, panic, other, wrap, sentinel, node_not_found, cycle_detected,
  max_iterations_exceeded,
}
use ragivka.Graph.Types.{Data, Node, Edge, Graph, copy_entries}

-- The variables of the loop, and the nodes that have run, in order.
pub record Walk (V : Type 0) : Type 0 where
  pub path : List String
  pub path_idx : List (String × ℕ)
  pub iters : List (String × ℕ)
  pub current_id : String
  pub current_input : Data V
  pub ran : List String

-- A turn of the loop returns or goes on.
pub data Turn (V : Type 0) : Type 0 where
  stop : Result (Data V) → List String → Turn V
  next : Walk V → Turn V

-- currentID + ":" + next.To
pub edge_key : String → String → String
edge_key from to = String.◌++◌ from (String.◌++◌ ":" to)

-- A missing key reads as 0.
abbrev pub count_or_zero : Option ℕ → ℕ
count_or_zero none = 0
count_or_zero (some n) = n

-- for i := len(path) - 1; i > idx; i-- { delete(pathIdx, path[i].nodeID) }, over path[idx+1:]
pub remove_all : List String → List (String × ℕ) → List (String × ℕ)
remove_all [] m = m
remove_all (id ∷ rest) m = remove_all rest (remove id m)

module _ {V : Type 0} where
  -- shallowCopyData
  pub shallow_copy_data : Data V → Data V
  unfolding copy_entries
  shallow_copy_data none = none
  shallow_copy_data (some m) = some (copy_entries m)

  abbrev pub passes : Option (Data V → Bool) → Data V → Bool
  passes none out = Bool.true
  passes (some p) out = p out

  unfoldable pub first_match : Data V → List (Edge V) → Option (Edge V)
  first_match out [] = none
  first_match out (e ∷ rest) = if passes e.predicate out then some e else first_match out rest

  abbrev pub edges_of : Option (List (Edge V)) → List (Edge V)
  edges_of none = []
  edges_of (some es) = es

  module _ (g : Graph V) where
    -- The loop-back branch, with the target's place in the path, or the forward branch.
    unfoldable pub advance : Option ℕ → Edge V → Data V → Walk V → Turn V
    unfolding shallow_copy_data remove_all edge_key
    advance none e out w = next (record w {
      path_idx = insert e.to (length w.path) w.path_idx;
      path = w.path ++ e.to ∷ [];
      current_id = e.to;
      current_input = shallow_copy_data out;
    })
    advance (some idx) e out w =
        let key = edge_key w.current_id e.to in
        let n = count_or_zero (lookup key w.iters) + 1 in
        if is_zero e.max_iterations
        then stop (err (wrap "edge" (sentinel cycle_detected))) w.ran
        else if exceeds n e.max_iterations
        then stop (err (wrap "edge" (sentinel max_iterations_exceeded))) w.ran
        else next (record w {
          iters = insert key n w.iters;
          path_idx = remove_all (drop (idx + 1) w.path) w.path_idx;
          path = take (idx + 1) w.path;
          current_id = e.to;
          current_input = shallow_copy_data out;
        })

    unfoldable pub follow : Option (Edge V) → Data V → Walk V → Turn V
    unfolding advance
    follow none out w = stop (ok out) w.ran
    follow (some e) out w =
        if is_some (lookup e.to g.nodes)
        then advance (lookup e.to w.path_idx) e out w
        else stop (err (wrap "target" (sentinel node_not_found))) w.ran

    unfoldable pub after_run : Result (Data V) → Walk V → Turn V
    unfolding follow first_match
    after_run (ok out) w = follow (first_match out (edges_of (lookup w.current_id g.edges))) out w
    after_run (err e) w = stop (err (wrap "graph: node" e)) w.ran
    after_run (panic p) w = stop (panic p) w.ran

    pub run_node : Option (Node V) → Walk V → Turn V
    unfolding after_run
    run_node none w = stop (err (wrap "current" (sentinel node_not_found))) w.ran
    run_node (some node) w =
        after_run (node.run (length w.ran) w.current_input)
          (record w { ran = w.ran ++ w.current_id ∷ [] })

    -- One turn; `cancelled n` says whether the context is done after n node runs.
    unfoldable pub turn : (ℕ → Bool) → Walk V → Turn V
    unfolding run_node
    turn cancelled w =
        if cancelled (length w.ran)
        then stop (err (wrap "graph" (other "context canceled"))) w.ran
        else run_node (lookup w.current_id g.nodes) w

    -- The loop on fuel: the result and the nodes that ran, or none if the fuel ran out.
    unfoldable pub walk : ℕ → (ℕ → Bool) → Walk V → Option (Result (Data V) × List String)
    unfolding turn
    walk zero cancelled w = none
    walk (suc fuel) cancelled w = elim (turn cancelled w) [
      | stop r ran ↦ some (r, ran)
      | next w' ↦ walk fuel cancelled w'
    ]

    abbrev pub start_walk : Data V → Walk V
    start_walk input = record {
      path = g.start_id ∷ [];
      path_idx = (g.start_id, 0) ∷ [];
      iters = [];
      current_id = g.start_id;
      current_input = input;
      ran = [];
    }

    unfoldable pub execute : ℕ → (ℕ → Bool) → Data V → Option (Result (Data V) × List String)
    unfolding walk
    execute fuel cancelled input =
        if is_some (lookup g.start_id g.nodes)
        then walk fuel cancelled (start_walk input)
        else some (err (wrap "start" (sentinel node_not_found)), [])
