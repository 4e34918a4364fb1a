-- ===== src/Graph/Engine/Budget.antt =====
-- How many loop-backs the edges of a graph allow, and how many nodes are off the path, for the
-- walk of pkg/graph/engine.go.
use Prim.Native.Nat.{max}
use ragivka.Prelude.{
  ℕ, suc, ◌+◌, ◌*◌, ◌≤◌, ◌≡◌, refl, inl, inr, to_nat, true, String, none, some, List, [], ◌∷◌, ◌++◌,
  map, arith, length, lookup, insert, is_some, lookup-insert, str_eq, eq_iff, Bool-cases,
  if◌then◌else◌, In, ap,
}
use ragivka.Graph.Types.{Data, Edge}
use ragivka.Graph.Engine.{edge_key, count_or_zero, first_match, edges_of, passes}

abbrev pub count_of : List (String × ℕ) → String → ℕ
count_of iters k = count_or_zero (lookup k iters)

-- All loop-backs that are counted under the keys.
pub spent : List (String × ℕ) → List String → ℕ
spent iters [] = 0
spent iters (k ∷ keys) = count_of iters k + spent iters keys

module _ (k : String) (iters : List (String × ℕ)) where
  abbrev bumped : List (String × ℕ)
  bumped = insert k (count_of iters k + 1) iters

  pub count_of-bumped :
      (j : String)
      → count_of bumped j ≡ (if str_eq k j then count_of iters j + 1 else count_of iters j)
  count_of-bumped j =
      rw (lookup-insert k j (count_of iters k + 1) iters) (elim (Bool-cases (str_eq k j)) [
        | inl e ↦ rw e (cc ((eq_iff k j).0 e))
        | inr e ↦ rw e refl
      ])

  spent-le-bumped : (keys : List String) → spent iters keys ≤ spent bumped keys
  unfolding spent
  spent-le-bumped [] = omega arith
  spent-le-bumped (j ∷ keys) = ground (arith, spent-le-bumped keys, count_of-bumped j)

  pub spent-bumped : (keys : List String) → In k keys → spent iters keys + 1 ≤ spent bumped keys
  unfolding spent
  spent-bumped [] m = absurd m
  spent-bumped (j ∷ keys) (inl e) =
      ground (arith, spent-le-bumped keys, count_of-bumped j, eq_iff k j)
  spent-bumped (j ∷ keys) (inr m) = ground (arith, spent-bumped keys m, count_of-bumped j)

pub spent-le :
    (iters : List (String × ℕ)) (bound : ℕ) (keys : List String)
    → ((k : String) → count_of iters k ≤ bound)
    → spent iters keys ≤ length keys * bound
unfolding spent
spent-le iters bound [] h = omega arith
spent-le iters bound (k ∷ keys) h = ground (arith, spent-le iters bound keys h, h k)

pub spent-nil : (keys : List String) → spent [] keys ≡ 0
unfolding spent lookup
spent-nil [] = refl
spent-nil (k ∷ keys) = omega (arith, spent-nil keys)

module _ {A : Type 0} where
  -- The nodes that are not on the path.
  pub unvisited : List (String × ℕ) → List (String × A) → ℕ
  unvisited path_idx [] = 0
  unvisited path_idx ((id, a) ∷ nodes) =
      let rest = unvisited path_idx nodes in if is_some (lookup id path_idx) then rest else suc rest

  pub unvisited-le :
      (path_idx : List (String × ℕ)) (nodes : List (String × A))
      → unvisited path_idx nodes ≤ length nodes
  unfolding unvisited
  unvisited-le path_idx [] = omega arith
  unvisited-le path_idx ((id, a) ∷ nodes) = ground (arith, unvisited-le path_idx nodes)

  module _ (to : String) (n : ℕ) (path_idx : List (String × ℕ)) where
    unvisited-insert-le :
        (nodes : List (String × A))
        → unvisited (insert to n path_idx) nodes ≤ unvisited path_idx nodes
    unfolding unvisited
    unvisited-insert-le [] = omega arith
    unvisited-insert-le ((id, a) ∷ nodes) =
        ground (arith, unvisited-insert-le nodes, lookup-insert to id n path_idx)

    pub unvisited-insert :
        (nodes : List (String × A))
        → lookup to path_idx ≡ none
        → is_some (lookup to nodes) ≡ true
        → unvisited (insert to n path_idx) nodes + 1 ≤ unvisited path_idx nodes
    unfolding unvisited lookup
    unvisited-insert [] e m = cc
    unvisited-insert ((id, a) ∷ nodes) e m = elim (Bool-cases (str_eq id to)) [
      | inl same ↦ ground (
        arith,
        eq_iff id to,
        eq_iff to id,
        lookup-insert to id n path_idx,
        unvisited-insert-le nodes,
      )
      | inr other ↦ ground (
        arith,
        eq_iff id to,
        eq_iff to id,
        lookup-insert to id n path_idx,
        unvisited-insert nodes e,
      )
    ]

In-append : (k : String) (xs ys : List String) → In k ys → In k (xs ++ ys)
In-append k [] ys m = m
In-append k (x ∷ xs) ys m = inr (In-append k xs ys m)

module _ {V : Type 0} where
  edge_keys : String → List (Edge V) → List String
  edge_keys src es = map (λ e. edge_key src e.to) es

  -- The keys under which loop-backs are counted.
  unfoldable pub all_keys : List (String × List (Edge V)) → List String
  unfolding edge_keys
  all_keys [] = []
  all_keys ((src, es) ∷ rest) = edge_keys src es ++ all_keys rest

  limit : List (Edge V) → ℕ
  limit [] = 0
  limit (e ∷ es) = max (to_nat e.max_iterations) (limit es)

  -- The largest limit of an edge.
  unfoldable pub max_limit : List (String × List (Edge V)) → ℕ
  unfolding limit
  max_limit [] = 0
  max_limit ((src, es) ∷ rest) = max (limit es) (max_limit rest)

  first_match-limit :
      (out : Data V) (e : Edge V) (es : List (Edge V))
      → first_match out es ≡ some e
      → to_nat e.max_iterations ≤ limit es
  unfolding first_match limit
  first_match-limit out e [] h = cc
  first_match-limit out e (x ∷ es) h = ground (arith, first_match-limit out e es)

  first_match-key :
      (out : Data V) (e : Edge V) (src : String) (es : List (Edge V)) (more : List String)
      → first_match out es ≡ some e
      → In (edge_key src e.to) (edge_keys src es ++ more)
  unfolding first_match edge_keys
  first_match-key out e src [] more h = cc
  first_match-key out e src (x ∷ es) more h = elim (Bool-cases (passes x.predicate out)) [
    | inl here ↦ inl (ap (edge_key src) (ground arith))
    | inr later ↦ inr (first_match-key out e src es more (ground arith))
  ]

  -- The edge that a node follows is one of the graph's.
  pub followed_edge :
      (out : Data V) (e : Edge V) (src : String) (edges : List (String × List (Edge V)))
      → first_match out (edges_of (lookup src edges)) ≡ some e
      → In (edge_key src e.to) (all_keys edges) × (to_nat e.max_iterations ≤ max_limit edges)
  unfolding lookup all_keys max_limit
  followed_edge out e src [] h = absurd (unfold first_match in cc)
  followed_edge out e src ((j, es) ∷ edges) h = elim (Bool-cases (str_eq j src)) [
    | inl here ↦
        let found : first_match out es ≡ some e = rw here at h in
        (
          rw ((eq_iff j src).0 here) (first_match-key out e src es (all_keys edges) found),
          omega (arith, first_match-limit out e es found),
        )
    | inr later ↦
        let found : first_match out (edges_of (lookup src edges)) ≡ some e = rw later at h in
        let (m, l) = followed_edge out e src edges found in
        (In-append (edge_key src e.to) (edge_keys j es) (all_keys edges) m, omega arith)
  ]
