-- ===== src/Discovery/Graph/Places.antt =====
-- Where the nodes of the flow graph lie (app/engine/discovery/graph.py): an observation moves no node,
-- and no two nodes share a position.
use qa_test_backend.Prelude.{
  ℕ, ◌≡◌, inl, inr, refl, ◌∙◌, Option, none, some, Bool, true, List, [], ◌∷◌, map, update_where,
  arith, String, text_eq, ◌||◌, Option-cases, Bool-cases,
}
use qa_test_backend.Discovery.Observation.{TurnObservation, GateResult, passed, rejected, pending}
use qa_test_backend.Discovery.Graph.{
  GraphNode, FlowGraph, refresh_gate_state, has_key, node_at, change_node, create, node_at?,
}
use qa_test_backend.Discovery.Graph.Observe.{
  Observed, visit, add_visit, add_incoming, link_menu, link_prev, move_to, set_result,
  apply_gate_result, settle_gate, observe, folded, returns_to_menu, or_else, reason_or_default,
  lists_source,
}

-- What never changes of a node.
pub record Place : Type 0 where
  pub key : String
  pub depth : ℕ
  pub row : ℕ
  pub parent : Option String
  pub first_turn : ℕ

abbrev pub place : GraphNode → Place
place n = record {
  key = n.key;
  depth = n.depth;
  row = n.row;
  parent = n.parent;
  first_turn = n.first_turn;
}

abbrev pub places : FlowGraph → List Place
places g = map place g.nodes

-- `h` has the nodes of `g` in their places, and the same free rows.
pub record IsUnmoved (g h : FlowGraph) : Type 0 where
  pub nodes : places h ≡ places g
  pub rows : h.rows_per_depth ≡ g.rows_per_depth

IsUnmoved-refl : (g : FlowGraph) → IsUnmoved g g
IsUnmoved-refl g = record { nodes = refl; rows = refl }

IsUnmoved-trans : {g h k : FlowGraph} → IsUnmoved g h → IsUnmoved h k → IsUnmoved g k
IsUnmoved-trans u v = record { nodes = v.nodes ∙ u.nodes; rows = v.rows ∙ u.rows }

places-update_where :
    (test : GraphNode → Bool) (f : GraphNode → GraphNode)
    → ((n : GraphNode) → place (f n) ≡ place n)
    → (ns : List GraphNode) → map place (update_where test f ns) ≡ map place ns
unfolding update_where
places-update_where test f keeps [] = refl
places-update_where test f keeps (n ∷ ns) =
    ground (arith, keeps n, places-update_where test f keeps ns)

change_node-IsUnmoved :
    (key : String) (f : GraphNode → GraphNode) (g : FlowGraph)
    → ((n : GraphNode) → place (f n) ≡ place n)
    → IsUnmoved g (change_node key f g)
change_node-IsUnmoved key f g keeps = record {
  nodes = places-update_where (has_key key) f keeps g.nodes;
  rows = refl;
}

pub refresh-place : (n : GraphNode) → place (refresh_gate_state n) ≡ place n
unfolding refresh_gate_state
refresh-place n = ground arith

set_result-place :
    (result : GateResult) (why : Option String) (n : GraphNode)
    → place (set_result result why n) ≡ place n
unfolding set_result
set_result-place passed why n = refresh-place (record n { gate_passed = true })
set_result-place rejected why n =
    refresh-place (record n { gate_rejection = some (reason_or_default why) })
set_result-place pending why n = refresh-place n

apply_gate_result-IsUnmoved :
    (key : String) (obs : TurnObservation) (g : FlowGraph)
    → IsUnmoved g (apply_gate_result key obs g)
apply_gate_result-IsUnmoved key obs g = elim (Option-cases obs.gate_result) [
  | inl e ↦ unfold apply_gate_result in rw e (IsUnmoved-refl g)
  | inr (result, e) ↦
      unfold apply_gate_result in
      rw e (
        change_node-IsUnmoved _ (set_result result obs.reason) g
          (set_result-place result obs.reason))
]

settle_gate-IsUnmoved :
    (key : String) (obs : TurnObservation) (o : Observed)
    → IsUnmoved o.graph (settle_gate key obs o).graph
unfolding settle_gate
settle_gate-IsUnmoved key obs o = apply_gate_result-IsUnmoved key obs o.graph

link_menu-IsUnmoved :
    (back : Option String) (here : Option GraphNode) (o : Observed)
    → IsUnmoved o.graph (link_menu back here o).graph
unfolding link_menu
link_menu-IsUnmoved none here o = IsUnmoved-refl o.graph
link_menu-IsUnmoved (some menu_key) none o = IsUnmoved-refl o.graph
link_menu-IsUnmoved (some menu_key) (some here) o =
    elim (Bool-cases (lists_source here.key (node_at menu_key o.graph))) [
      | inl e ↦ rw e (IsUnmoved-refl o.graph)
      | inr e ↦ rw e (change_node-IsUnmoved menu_key (add_incoming here.key) o.graph (λ n. refl))
    ]

link_prev-IsUnmoved :
    (prev : Option String) (key : String) (o : Observed)
    → IsUnmoved o.graph (link_prev prev key o).graph
unfolding link_prev
link_prev-IsUnmoved none key o = IsUnmoved-refl o.graph
link_prev-IsUnmoved (some prev) key o =
    elim (Bool-cases (text_eq prev key || lists_source prev (node_at key o.graph))) [
      | inl e ↦ rw e (IsUnmoved-refl o.graph)
      | inr e ↦ rw e (change_node-IsUnmoved key (add_incoming prev) o.graph (λ n. refl))
    ]

move_to-IsUnmoved : (key : String) (g : FlowGraph) → IsUnmoved g (move_to key g)
unfolding move_to
move_to-IsUnmoved key g = record { nodes = refl; rows = refl }

-- What an observation does to the places: it finds a node and moves nothing, or it adds one node below
-- the node that it came from.
pub data Grows (turn_index : ℕ) (g h : FlowGraph) : Type 0 where
  found : IsUnmoved g h → Grows turn_index g h
  added :
      (obs : TurnObservation) (parent : Option String)
      → node_at obs.node_key g ≡ none
      → IsUnmoved (create turn_index obs parent g) h
      → Grows turn_index g h

Grows-then :
    {turn_index : ℕ} {g h k : FlowGraph}
    → Grows turn_index g h
    → IsUnmoved h k
    → Grows turn_index g k
Grows-then (found u) v = found (IsUnmoved-trans u v)
Grows-then (added obs parent fresh u) v = added obs parent fresh (IsUnmoved-trans u v)

pub visit_fresh :
    (turn_index : ℕ) (obs : TurnObservation) (prev : Option String) (g : FlowGraph)
    → node_at obs.node_key g ≡ none
    → (visit turn_index obs prev g).graph ≡ create turn_index obs prev g
unfolding visit
visit_fresh turn_index obs prev g e = ground arith

pub visit_again :
    (turn_index : ℕ) (obs : TurnObservation) (prev : Option String) (g : FlowGraph) (n : GraphNode)
    → node_at obs.node_key g ≡ some n
    → (visit turn_index obs prev g).graph ≡ change_node obs.node_key add_visit g
unfolding visit
visit_again turn_index obs prev g n e = ground arith

visit-Grows :
    (turn_index : ℕ) (obs : TurnObservation) (prev : Option String) (g : FlowGraph)
    → Grows turn_index g (visit turn_index obs prev g).graph
visit-Grows turn_index obs prev g = elim (Option-cases (node_at obs.node_key g)) [
  | inl fresh ↦
      rw (visit_fresh turn_index obs prev g fresh) (added obs prev fresh (IsUnmoved-refl _))
  | inr (n, e) ↦
      rw (visit_again turn_index obs prev g n e)
        (found (change_node-IsUnmoved obs.node_key add_visit g (λ m. refl)))
]

pub observe-Grows :
    (turn_index : ℕ) (raw : TurnObservation) (g : FlowGraph)
    → Grows turn_index g (observe turn_index raw g).graph
unfolding observe
observe-Grows turn_index raw g =
    let here = node_at? g.current g in
    let obs = folded here raw in
    let back = returns_to_menu here obs g in
    let prev = or_else back g.current in
    let visited = visit turn_index obs prev g in
    let by_menu = link_menu back here visited in
    let linked = link_prev prev obs.node_key by_menu in
    Grows-then (visit-Grows turn_index obs prev g) (
      IsUnmoved-trans (link_menu-IsUnmoved back here visited) (
        IsUnmoved-trans (link_prev-IsUnmoved prev obs.node_key by_menu) (
          IsUnmoved-trans (move_to-IsUnmoved obs.node_key linked.graph) (
            settle_gate-IsUnmoved obs.node_key obs
              (record { graph = move_to obs.node_key linked.graph; changed = linked.changed })))))
