-- ===== src/Graph/Registry/Safety.antt =====
-- A graph that BuildGraph of pkg/graph/registry.go returns never sends the engine of
-- pkg/graph/engine.go to a node that is not there.
use mathlib.Core.Path.{subst}
use ragivka.Prelude.{
  ℕ, zero, suc, ◌+◌, ◌++◌, length, is_zero, exceeds, ◌≡◌, refl, ap, inl, inr, Bool, true, false,
  String, Option, none, some, List, [], ◌∷◌, some-eq_some, All, lookup, is_some, Bool-cases,
  Option-cases,
}
use ragivka.Errors.{Result, ok, err, panic, Err, is, node_not_found}
use ragivka.Graph.Types.{Data, Node, Edge, Graph, GraphDef}
use ragivka.Graph.Engine.{
  Walk, Turn, stop, next, edge_key, count_or_zero, edges_of, passes, first_match, advance, follow,
  after_run, turn, walk, start_walk, execute,
}
use ragivka.Graph.Engine.Progress.{Turn-cases}
use ragivka.Graph.Registry.WellFormed.{WellFormed, build_graph-WellFormed}
use ragivka.Graph.Registry.{NodeRegistry, build_graph}

-- The turn does not stop for a missing node, and goes on at a node that is there.
abbrev Fine : {V : Type 0} → Graph V → Turn V → Type 0
Fine g (stop (err e) ran) = is e node_not_found ≡ false
Fine g (stop (ok out) ran) = Unit
Fine g (stop (panic p) ran) = Unit
Fine g (next w) = is_some (lookup w.current_id g.nodes) ≡ true

module _ {V : Type 0} (g : Graph V) where
  advance-Fine :
      (o : Option ℕ) (e : Edge V) (out : Data V) (w : Walk V)
      → is_some (lookup e.to g.nodes) ≡ true
      → Fine g (advance g o e out w)
  unfolding advance
  advance-Fine none e out w h = h
  advance-Fine (some idx) e out w h = elim (Bool-cases (is_zero e.max_iterations)) [
    | inl z ↦ rw z refl
    | inr z ↦
        rw z
          (elim (Bool-cases (
            exceeds (count_or_zero (lookup (edge_key w.current_id e.to) w.iters) + 1)
              e.max_iterations)) [ inl x ↦ rw x refl | inr x ↦ rw x h ])
  ]

  first_match-target :
      (out : Data V) (es : List (Edge V)) (e : Edge V)
      → All (λ x. is_some (lookup x.to g.nodes) ≡ true) es
      → first_match out es ≡ some e
      → is_some (lookup e.to g.nodes) ≡ true
  unfolding first_match
  first_match-target out [] e h m = cc
  first_match-target out (x ∷ es) e h m = elim (Bool-cases (passes x.predicate out)) [
    | inl p ↦
        let same : some x ≡ some e = rw p at m in
        subst (λ (y : Edge V). is_some (lookup y.to g.nodes) ≡ true) (some-eq_some same) h.0
    | inr p ↦ first_match-target out es e h.1 (rw p at m)
  ]

  -- The nodes do not report a missing node themselves.
  abbrev pub Honest : Type 0
  Honest =
      (id : String) (node : Node V) (n : ℕ) (input : Data V) (e : Err)
      → lookup id g.nodes ≡ some node
      → node.run n input ≡ err e
      → is e node_not_found ≡ false

  module _ (wf : WellFormed g) where
    after_run-Fine :
        (r : Result (Data V)) (w : Walk V)
        → ((e : Err) → r ≡ err e → is e node_not_found ≡ false)
        → Fine g (after_run g r w)
    unfolding after_run follow
    after_run-Fine (ok out) w h =
        elim (Option-cases (first_match out (edges_of (lookup w.current_id g.edges)))) [
          | inl e ↦ rw e tt
          | inr (e, found) ↦
              let there = first_match-target out _ e (wf.targets w.current_id) found in
              rw (found, there) (advance-Fine (lookup e.to w.path_idx) e out w there)
        ]
    after_run-Fine (err e) w h = h e refl
    after_run-Fine (panic p) w h = tt

    turn-Fine :
        (cancelled : ℕ → Bool) (w : Walk V)
        → Honest
        → is_some (lookup w.current_id g.nodes) ≡ true
        → Fine g (turn g cancelled w)
    unfolding turn
    turn-Fine cancelled w honest there = elim (Bool-cases (cancelled (length w.ran))) [
      | inl done ↦ rw done refl
      | inr running ↦ elim (Option-cases (lookup w.current_id g.nodes)) [
        | inl absent ↦ cc
        | inr (node, found) ↦
            rw (running, found)
              (after_run-Fine (node.run (length w.ran) w.current_input)
                (record w { ran = w.ran ++ w.current_id ∷ [] })
                (λ e. honest w.current_id node (length w.ran) w.current_input e found))
      ]
    ]

    walk-finds :
        (fuel : ℕ) (cancelled : ℕ → Bool) (w : Walk V) (e : Err) (ran : List String)
        → Honest
        → is_some (lookup w.current_id g.nodes) ≡ true
        → walk g fuel cancelled w ≡ some (err e, ran)
        → is e node_not_found ≡ false
    unfolding walk
    walk-finds zero cancelled w e ran honest there h = cc
    walk-finds (suc fuel) cancelled w e ran honest there h =
        elim (Turn-cases (turn g cancelled w)) [
          | inl (r, ran', stopped) ↦
              let fine : Fine g (stop r ran') =
                rw stopped at (turn-Fine cancelled w honest there) in
              let same : ◌≡◌ {A = Option (Result (Data V) × List String)} (some (r, ran'))
                  (some (err e, ran)) =
                rw (stopped, walk) at h in
              subst (λ q. Fine g (stop q ran'))
                (ap (λ (p : Result (Data V) × List String). p.0) (some-eq_some same)) fine
          | inr (w', going) ↦
              walk-finds fuel cancelled w' e ran honest
                (let fine : Fine g (next w') = rw going at (turn-Fine cancelled w honest there) in
                  fine)
                (rw (going, walk) at h)
        ]

-- A graph that BuildGraph returns never makes Execute end with ErrNodeNotFound, provided that no
-- node returns that error itself.
pub build_graph-execute :
    {V : Type 0} (r : NodeRegistry V) (gd : GraphDef V) (g : Graph V) (fuel : ℕ)
    (cancelled : ℕ → Bool) (input : Data V) (e : Err) (ran : List String)
    → build_graph r gd ≡ ok g
    → Honest g
    → execute g fuel cancelled input ≡ some (err e, ran)
    → is e node_not_found ≡ false
unfolding execute
build_graph-execute r gd g fuel cancelled input e ran built honest h =
    let wf = build_graph-WellFormed r gd g built in
    walk-finds g wf fuel cancelled (start_walk g input) e ran honest wf.start (rw wf.start at h)
