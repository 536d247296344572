-- ===== src/Discovery/Graph/Observe.antt =====
-- `FlowGraph.observe` of app/engine/discovery/graph.py.
use qa_test_backend.Prelude.{
  ℕ, ◌+◌, Option, none, some, Bool, true, false, List, [], ◌∷◌, ◌++◌, ◌&&◌, ◌||◌, not, String,
  text_eq, find, if◌then◌else◌,
}
use qa_test_backend.Store.Payload.{NodeState, mapped, blocked}
use qa_test_backend.Discovery.Observation.{
  NodeKind, GateResult, TurnObservation, passed, rejected, pending,
}
use qa_test_backend.Discovery.Graph.{
  GraphNode, FlowGraph, default_rejection, refresh_gate_state, is_gate, is_menu, is_intent,
  is_outcome, has_key, node_at, node_at?, change_node, contains, add_once, key_of, create,
}

-- Consecutive gate observations are folded into the gate that the call is in.
unfoldable pub folded : Option GraphNode → TurnObservation → TurnObservation
folded none obs = obs
folded (some here) obs =
    if is_gate obs.kind && is_gate here.kind
    then record obs { node_key = here.key; label = here.label }
    else obs

-- `returns_to_menu`: the key of the menu through which one topic leads to the next.
unfoldable pub returns_to_menu : Option GraphNode → TurnObservation → FlowGraph → Option String
returns_to_menu none obs g = none
returns_to_menu (some here) obs g =
    if is_outcome obs.kind && is_intent here.kind && not (text_eq obs.node_key here.key)
    then key_of (find (λ n. is_menu n.kind) g.nodes)
    else none

-- A graph and the keys of the nodes to emit again.
pub record Observed : Type 0 where
  pub graph : FlowGraph
  pub changed : List String

abbrev pub add_visit : GraphNode → GraphNode
add_visit n = record n { visits = n.visits + 1 }

unfoldable pub visit : ℕ → TurnObservation → Option String → FlowGraph → Observed
visit turn_index obs prev g = elim (node_at obs.node_key g) [
  | none ↦ record { graph = create turn_index obs prev g; changed = obs.node_key ∷ [] }
  | some n ↦ record { graph = change_node obs.node_key add_visit g; changed = [] }
]

abbrev pub add_incoming : String → GraphNode → GraphNode
add_incoming src n = record n { incoming = n.incoming ++ src ∷ [] }

abbrev pub lists_source : String → Option GraphNode → Bool
lists_source src none = true
lists_source src (some n) = contains src n.incoming

-- An edge from the intent that the call is in back to the menu.
unfoldable pub link_menu : Option String → Option GraphNode → Observed → Observed
link_menu (some menu_key) (some here) o =
    if lists_source here.key (node_at menu_key o.graph) then o else record {
      graph = change_node menu_key (add_incoming here.key) o.graph;
      changed = o.changed ++ menu_key ∷ [];
    }
link_menu _ _ o = o

-- An edge from `prev` into the node that is now visited.
unfoldable pub link_prev : Option String → String → Observed → Observed
link_prev none key o = o
link_prev (some prev) key o =
    if text_eq prev key || lists_source prev (node_at key o.graph) then o else record {
      graph = change_node key (add_incoming prev) o.graph;
      changed = add_once key o.changed;
    }

-- `kind` of the node that is now visited, for a key that is in the graph.
abbrev pub kind_at : String → FlowGraph → Option NodeKind
kind_at key g = elim (node_at key g) [ none ↦ none | some n ↦ some n.kind ]

abbrev pub is_gate? : Option NodeKind → Bool
is_gate? none = false
is_gate? (some kind) = is_gate kind

-- `self._current = node.key`, and `_last_gate` if the node is a gate
unfoldable pub move_to : String → FlowGraph → FlowGraph
move_to key g = record g {
  current = some key;
  last_gate = if is_gate? (kind_at key g) then some key else g.last_gate;
}

-- `self._last_gate or ""`
abbrev pub or_empty : Option String → String
or_empty none = ""
or_empty (some s) = s

-- `obs.reason or _DEFAULT_REJECTION`, where an empty text is no reason
abbrev pub reason_or_default : Option String → String
reason_or_default none = default_rejection
reason_or_default (some why) = if text_eq why "" then default_rejection else why

unfoldable pub set_result : GateResult → Option String → GraphNode → GraphNode
unfolding refresh_gate_state
set_result passed why n = refresh_gate_state (record n { gate_passed = true })
set_result rejected why n =
    refresh_gate_state (record n { gate_rejection = some (reason_or_default why) })
set_result pending why n = refresh_gate_state n

-- `_apply_gate_result`: the outcome lands on the node if it is a gate, else on the last gate.
unfoldable pub apply_gate_result : String → TurnObservation → FlowGraph → FlowGraph
apply_gate_result key obs g = elim obs.gate_result [
  | none ↦ g
  | some result ↦
      let target = if is_gate? (kind_at key g) then key else or_empty g.last_gate in
      change_node target (set_result result obs.reason) g
]

-- `(node.state, node.blocked_reason)` is the same before and after.
abbrev pub same_state : NodeState → NodeState → Bool
same_state mapped mapped = true
same_state blocked blocked = true
same_state _ _ = false

abbrev pub same_reason : Option String → Option String → Bool
same_reason none none = true
same_reason (some s) (some t) = text_eq s t
same_reason _ _ = false

abbrev pub same_outcome : GraphNode → GraphNode → Bool
same_outcome n m = same_state n.state m.state && same_reason n.blocked_reason m.blocked_reason

abbrev same_outcome? : Option GraphNode → GraphNode → Bool
same_outcome? none n = false
same_outcome? (some old) n = same_outcome old n

-- The gates whose snapshot differs from `before`, appended to `changed` in the order of the nodes.
unfoldable pub changed_gates : List GraphNode → List GraphNode → List String → List String
changed_gates before [] changed = changed
changed_gates before (n ∷ ns) changed =
    let old = find (λ m. is_gate m.kind && has_key n.key m) before in
    changed_gates before ns
      (if is_gate n.kind && not (same_outcome? old n) then add_once n.key changed else changed)

unfoldable pub settle_gate : String → TurnObservation → Observed → Observed
settle_gate key obs o =
    let before = o.graph.nodes in
    let after = apply_gate_result key obs o.graph in
    record { graph = after; changed = changed_gates before after.nodes o.changed }

abbrev pub or_else : Option String → Option String → Option String
or_else none other_key = other_key
or_else (some key) other_key = some key

unfoldable pub observe : ℕ → TurnObservation → FlowGraph → Observed
observe turn_index raw g =
    let here = node_at? g.current g in
    let obs = folded here raw in
    let back = returns_to_menu here obs g in
    let prev = or_else back g.current in
    let visited = visit turn_index obs prev g in
    let linked = link_prev prev obs.node_key (link_menu back here visited) in
    settle_gate obs.node_key obs
      (record { graph = move_to obs.node_key linked.graph; changed = linked.changed })
