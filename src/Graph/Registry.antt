-- ===== src/Graph/Registry.antt =====
-- pkg/graph/registry.go: node factories by kind, and graphs built from their serialised form. Go
-- ranges over a map in any order: the model takes the order of the list.
pub mod WellFormed
pub mod Safety
use ragivka.Prelude.{
  String, Option, none, some, List, [], ◌∷◌, lookup, insert, is_some, if◌then◌else◌,
}
use ragivka.Errors.{Result, ok, err, other, ◌>>=◌}
use ragivka.Graph.Types.{Data, Node, Edge, Graph, NodeDef, EdgeDef, GraphDef, echo_node, pass_node}

abbrev pub NodeFactory : Type 0 → Type 0
NodeFactory V = String → NodeDef V → Result (Node V)

abbrev pub NodeRegistry : Type 0 → Type 0
NodeRegistry V = List (String × NodeFactory V)

pub new_registry : (V : Type 0) → NodeRegistry V
new_registry V = []

module _ {V : Type 0} where
  pub register : String → NodeFactory V → NodeRegistry V → NodeRegistry V
  register kind factory r = insert kind factory r

  passing : NodeFactory V
  passing id def = ok (pass_node id)

  echoing : NodeFactory V
  echoing id def = ok (echo_node id)

unfoldable pub default_registry : (V : Type 0) → NodeRegistry V
unfolding new_registry register passing echoing
default_registry V = register "branch" passing (
    register "critic" passing (
      register "tool_call" passing (
        register "generate" passing
          (register "retrieve" passing (register "echo" echoing (new_registry V))))))

module _ {V : Type 0} where
  build_with : Option (NodeFactory V) → String → NodeDef V → Result (Node V)
  build_with none id def = err (other "graph: unknown node kind")
  build_with (some factory) id def = factory id def

  pub build : NodeRegistry V → String → NodeDef V → Result (Node V)
  unfolding build_with
  build r id def = build_with (lookup def.kind r) id def

  build_nodes : NodeRegistry V → List (String × NodeDef V) → Result (List (String × Node V))
  unfolding build
  build_nodes r [] = ok []
  build_nodes r ((id, def) ∷ defs) = do
    n ← build r id def
    nodes ← build_nodes r defs
    ok (insert id n nodes)

  edge_to : List (String × Node V) → EdgeDef → Result (Edge V)
  edge_to nodes ed =
      if is_some (lookup ed.to nodes)
      then ok (record { to = ed.to; predicate = none; max_iterations = ed.max_iterations })
      else err (other "graph: edge: target node not defined")

  build_edges : List (String × Node V) → List EdgeDef → Result (List (Edge V))
  unfolding edge_to
  build_edges nodes [] = ok []
  build_edges nodes (ed ∷ defs) = do e ← edge_to nodes ed; es ← build_edges nodes defs; ok (e ∷ es)

  -- A source with no edge gets no entry.
  put_edges : String → List (Edge V) → List (String × List (Edge V)) → List (String × List (Edge V))
  put_edges src [] edges = edges
  put_edges src (e ∷ es) edges = insert src (e ∷ es) edges

  build_edge_map :
      List (String × Node V) → List (String × List EdgeDef) → Result (List (String × List (Edge V)))
  unfolding build_edges put_edges
  build_edge_map nodes [] = ok []
  build_edge_map nodes ((src, defs) ∷ rest) = do
    es ← build_edges nodes defs
    edges ← build_edge_map nodes rest
    ok (put_edges src es edges)

  start_in : List (String × Node V) → String → Result String
  start_in nodes start =
      if is_some (lookup start nodes) then ok start else err (other "graph: start node not defined")

  unfoldable pub build_graph : NodeRegistry V → GraphDef V → Result (Graph V)
  unfolding build_nodes start_in build_edge_map
  build_graph r gd = do
    nodes ← build_nodes r gd.nodes
    start ← start_in nodes gd.start
    edges ← build_edge_map nodes gd.edges
    ok (record { nodes = nodes; edges = edges; start_id = start })
