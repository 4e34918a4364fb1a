-- ===== src/Graph/Registry/WellFormed.antt =====
-- What BuildGraph of pkg/graph/registry.go has checked of the graph that it returns.
use mathlib.Core.Path.{subst}
use ragivka.Prelude.{
  ◌≡◌, inl, inr, true, String, List, [], ◌∷◌, arith, All, lookup, is_some, lookup-insert, str_eq,
  Bool-cases,
}
use ragivka.Errors.{ok, >>=-returned, ok-injective}
use ragivka.Graph.Types.{Node, Edge, Graph, EdgeDef, GraphDef}
use ragivka.Graph.Engine.{edges_of}
use ragivka.Graph.Registry.{
  NodeRegistry, edge_to, build_nodes, build_edges, put_edges, build_edge_map, start_in, build_graph,
}

module _ {V : Type 0} where
  -- The start and the target of every edge are nodes.
  pub record WellFormed (g : Graph V) : Type 0 where
    pub start : is_some (lookup g.start_id g.nodes) ≡ true
    pub targets :
        (src : String)
        → All (λ e. is_some (lookup e.to g.nodes) ≡ true) (edges_of (lookup src g.edges))

  abbrev TargetsIn : List (String × Node V) → List (Edge V) → Type 0
  TargetsIn nodes = All (λ e. is_some (lookup e.to nodes) ≡ true)

  edge_to-target :
      (nodes : List (String × Node V)) (ed : EdgeDef) (e : Edge V)
      → edge_to nodes ed ≡ ok e
      → is_some (lookup e.to nodes) ≡ true
  unfolding edge_to
  edge_to-target nodes ed e h = ground arith

  build_edges-TargetsIn :
      (nodes : List (String × Node V)) (defs : List EdgeDef) (es : List (Edge V))
      → build_edges nodes defs ≡ ok es
      → TargetsIn nodes es
  unfolding build_edges
  build_edges-TargetsIn nodes [] es h = subst (TargetsIn nodes) (ok-injective h) tt
  build_edges-TargetsIn nodes (ed ∷ defs) es h =
      let (e, he, h') = >>=-returned _ (edge_to nodes ed) h in
      let (es', hes, h'') = >>=-returned _ (build_edges nodes defs) h' in
      subst (TargetsIn nodes) (ok-injective h'')
        (edge_to-target nodes ed e he, build_edges-TargetsIn nodes defs es' hes)

  put_edges-TargetsIn :
      (nodes : List (String × Node V)) (s src : String) (es : List (Edge V))
      (edges : List (String × List (Edge V)))
      → TargetsIn nodes es
      → TargetsIn nodes (edges_of (lookup src edges))
      → TargetsIn nodes (edges_of (lookup src (put_edges s es edges)))
  unfolding put_edges
  put_edges-TargetsIn nodes s src [] edges h k = k
  put_edges-TargetsIn nodes s src (x ∷ es) edges h k =
      rw (lookup-insert s src (x ∷ es) edges)
        (elim (Bool-cases (str_eq s src)) [ inl e ↦ rw e h | inr e ↦ rw e k ])

  build_edge_map-TargetsIn :
      (nodes : List (String × Node V)) (defs : List (String × List EdgeDef))
      (edges : List (String × List (Edge V)))
      → build_edge_map nodes defs ≡ ok edges
      → (src : String) → TargetsIn nodes (edges_of (lookup src edges))
  unfolding build_edge_map
  build_edge_map-TargetsIn nodes [] edges h src =
      subst (λ m. TargetsIn nodes (edges_of (lookup src m))) (ok-injective h) (unfold lookup in tt)
  build_edge_map-TargetsIn nodes ((s, defs) ∷ rest) edges h src =
      let (es, he, h') = >>=-returned _ (build_edges nodes defs) h in
      let (edges', hes, h'') = >>=-returned _ (build_edge_map nodes rest) h' in
      subst (λ m. TargetsIn nodes (edges_of (lookup src m))) (ok-injective h'')
        (put_edges-TargetsIn nodes s src es edges' (build_edges-TargetsIn nodes defs es he)
          (build_edge_map-TargetsIn nodes rest edges' hes src))

  start_in-found :
      (nodes : List (String × Node V)) (start found : String)
      → start_in nodes start ≡ ok found
      → is_some (lookup found nodes) ≡ true
  unfolding start_in
  start_in-found nodes start found h = elim (Bool-cases (is_some (lookup start nodes))) [
    | inl e ↦ let same : ok start ≡ ok found = rw e at h in rw (← ok-injective same) e
    | inr e ↦ cc (rw e at h)
  ]

  pub build_graph-WellFormed :
      (r : NodeRegistry V) (gd : GraphDef V) (g : Graph V) → build_graph r gd ≡ ok g → WellFormed g
  unfolding build_graph
  build_graph-WellFormed r gd g h =
      let (nodes, hn, h1) = >>=-returned _ (build_nodes r gd.nodes) h in
      let (start, hs, h2) = >>=-returned _ (start_in nodes gd.start) h1 in
      let (edges, he, h3) = >>=-returned _ (build_edge_map nodes gd.edges) h2 in
      subst WellFormed (ok-injective h3) (record {
        start = start_in-found nodes gd.start start hs;
        targets = build_edge_map-TargetsIn nodes gd.edges edges he;
      })
