-- ===== src/Graph/Types.antt =====
-- pkg/graph/types.go and nodes.go: the data that nodes pass on, nodes, edges and graphs.
use ragivka.Prelude.{ℕ, ℤ, Bool, String, Option, none, some, List, [], ◌∷◌, insert}
use ragivka.Errors.{Result, ok}

-- map[string]any, over any type of values; a nil map is `none`. NodeInput and NodeOutput are
-- structs of this one field.
abbrev pub Data : Type 0 → Type 0
Data V = Option (List (String × V))

-- A node's answer may depend on how many nodes ran before it, so a node may keep state.
pub record Node (V : Type 0) : Type 0 where
  pub id : String
  pub run : ℕ → Data V → Result (Data V)

pub record Edge (V : Type 0) : Type 0 where
  pub to : String
  pub predicate : Option (Data V → Bool)
  pub max_iterations : ℤ

pub record Graph (V : Type 0) : Type 0 where
  pub nodes : List (String × Node V)
  pub edges : List (String × List (Edge V))
  pub start_id : String

pub record NodeDef (V : Type 0) : Type 0 where
  pub kind : String
  pub params : Data V

pub record EdgeDef : Type 0 where
  pub to : String
  pub max_iterations : ℤ

pub record GraphDef (V : Type 0) : Type 0 where
  pub start : String
  pub nodes : List (String × NodeDef V)
  pub edges : List (String × List EdgeDef)

module _ {V : Type 0} where
  -- The loop `for k, v := range m { cp[k] = v }` into a new map.
  unfoldable pub copy_entries : List (String × V) → List (String × V)
  copy_entries [] = []
  copy_entries ((k, v) ∷ m) = insert k v (copy_entries m)

  -- EchoNode copies its input into a map that is never nil.
  pub echo_data : Data V → Data V
  unfolding copy_entries
  echo_data none = some []
  echo_data (some m) = some (copy_entries m)

  unfoldable pub echo_node : String → Node V
  unfolding echo_data
  echo_node id = record { id = id; run = λ n input. ok (echo_data input) }

  -- RetrieveNode, GenerateNode, ToolCallNode, CriticNode and BranchNode pass their input on.
  unfoldable pub pass_node : String → Node V
  pass_node id = record { id = id; run = λ n input. ok input }

  pub func_node : String → (ℕ → Data V → Result (Data V)) → Node V
  func_node id fn = record { id = id; run = fn }
