-- ===== src/Discovery/Graph.antt =====
-- app/engine/discovery/graph.py: the flow graph that grows with each observation (`observe`
-- is in Graph/Observe, what is asked after the call in Graph/Finish). The dict `_nodes` is
-- the list of its nodes in insertion order, each with its key; a node that the source mutates in place
-- is replaced in the list. `casefold` of Python's `str` is an argument.
pub mod Observe
pub mod Finish
pub mod Places
pub mod Layout
pub mod Gates
pub mod Paths
pub mod Explored
use Prim.Native.String.{◌++◌ as append_text}
use qa_test_backend.Prelude.{
  ℕ, zero, suc, ◌+◌, ◌*◌, Option, none, some, Bool, true, false, List, [], ◌∷◌, ◌++◌, ◌&&◌, ◌||◌,
  not, ◌==◌, String, text_eq, any, find, map, select, update_where, length, if◌then◌else◌, is_some,
}
use qa_test_backend.Store.Payload.{NodeState, mapped, blocked}
use qa_test_backend.Discovery.Observation.{
  NodeKind, GateResult, TurnObservation, gate, menu, intent, handoff, passed, rejected, pending,
}

pub record GraphNode : Type 0 where
  pub key : String
  pub label : String
  pub kind : NodeKind
  pub depth : ℕ
  pub row : ℕ
  pub parent : Option String
  pub first_turn : ℕ
  pub incoming : List String
  pub visits : ℕ
  pub gate_passed : Bool
  pub gate_rejection : Option String
  pub gate_unresolved : Bool
  pub state : NodeState
  pub blocked_reason : Option String

pub record FlowGraph : Type 0 where
  pub nodes : List GraphNode
  pub rows_per_depth : ℕ → ℕ
  pub current : Option String
  pub last_gate : Option String

abbrev pub layer_width : ℕ
layer_width = 240

abbrev pub row_height : ℕ
row_height = 110

abbrev pub x : GraphNode → ℕ
x n = n.depth * layer_width

abbrev pub y : GraphNode → ℕ
y n = n.row * row_height

abbrev pub default_rejection : String
default_rejection = "The agent did not accept the supplied details."

abbrev pub unresolved_gate : String
unresolved_gate = "The call ended before the agent accepted or rejected the supplied details."

-- `_refresh_gate_state`
unfoldable pub refresh_gate_state : GraphNode → GraphNode
refresh_gate_state n =
    if n.gate_passed
    then record n { state = mapped; blocked_reason = none }
    else elim n.gate_rejection [
      | some why ↦ record n { state = blocked; blocked_reason = some why }
      | none ↦
          if n.gate_unresolved
          then record n { state = blocked; blocked_reason = some unresolved_gate }
          else record n { state = mapped; blocked_reason = none }
    ]

abbrev pub is_gate : NodeKind → Bool
is_gate gate = true
is_gate _ = false

abbrev pub is_menu : NodeKind → Bool
is_menu menu = true
is_menu _ = false

abbrev pub is_intent : NodeKind → Bool
is_intent intent = true
is_intent _ = false

-- `kind in ("intent", "handoff")`
abbrev pub is_outcome : NodeKind → Bool
is_outcome intent = true
is_outcome handoff = true
is_outcome _ = false

abbrev pub has_key : String → GraphNode → Bool
has_key key n = text_eq n.key key

-- `self._nodes.get(key)`
abbrev pub node_at : String → FlowGraph → Option GraphNode
node_at key g = find (has_key key) g.nodes

abbrev pub node_at? : Option String → FlowGraph → Option GraphNode
node_at? none g = none
node_at? (some key) g = node_at key g

-- A change of the node with some key, in place.
abbrev pub change_node : String → (GraphNode → GraphNode) → FlowGraph → FlowGraph
change_node key f g = record g { nodes = update_where (has_key key) f g.nodes }

abbrev pub contains : String → List String → Bool
contains s l = any (λ t. text_eq t s) l

abbrev pub add_once : String → List String → List String
add_once s l = if contains s l then l else l ++ s ∷ []

unfoldable pub initial : FlowGraph
initial = record { nodes = []; rows_per_depth = λ d. 0; current = none; last_gate = none }

-- `edges`
unfoldable pub edges_of : List GraphNode → List (String × String)
edges_of [] = []
edges_of (n ∷ ns) = map (λ src. (src, n.key)) n.incoming ++ edges_of ns

abbrev pub depth_below : Option GraphNode → ℕ
depth_below none = 0
depth_below (some parent) = parent.depth + 1

abbrev pub key_of : Option GraphNode → Option String
key_of none = none
key_of (some n) = some n.key

-- The node that `_create` makes below `parent`.
unfoldable pub new_node : ℕ → TurnObservation → Option GraphNode → FlowGraph → GraphNode
new_node turn_index obs parent g = record {
  key = obs.node_key;
  label = obs.label;
  kind = obs.kind;
  depth = depth_below parent;
  row = g.rows_per_depth (depth_below parent);
  parent = key_of parent;
  first_turn = turn_index;
  incoming = [];
  visits = 1;
  gate_passed = false;
  gate_rejection = none;
  gate_unresolved = false;
  state = mapped;
  blocked_reason = none;
}

unfoldable pub create : ℕ → TurnObservation → Option String → FlowGraph → FlowGraph
create turn_index obs parent_key g =
    let parent = node_at? parent_key g in
    let depth = depth_below parent in
    record g {
      nodes = g.nodes ++ new_node turn_index obs parent g ∷ [];
      rows_per_depth = λ d. if d == depth then g.rows_per_depth depth + 1 else g.rows_per_depth d;
    }
