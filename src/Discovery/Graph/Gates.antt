-- ===== src/Discovery/Graph/Gates.antt =====
-- The gate rule of app/engine/discovery/graph.py: a gate is mapped once it was passed, and blocked, with
-- a reason, if it was rejected or left unresolved.
use qa_test_backend.Prelude.{
  ℕ, ◌≡◌, ◌⊎◌, inl, inr, refl, ap, Option, none, some, Bool, true, false, List, [], ◌∷◌, ◌||◌, not,
  map, update_where, arith, All, All-append, String, text_eq, Option-cases, Bool-cases,
}
use qa_test_backend.Store.Payload.{mapped, blocked}
use qa_test_backend.Discovery.Observation.{TurnObservation, GateResult, passed, rejected, pending}
use qa_test_backend.Discovery.Graph.{
  GraphNode, FlowGraph, refresh_gate_state, unresolved_gate, has_key, is_gate, node_at, node_at?,
  create, new_node,
}
use qa_test_backend.Discovery.Graph.Observe.{
  Observed, visit, add_visit, add_incoming, link_menu, link_prev, lists_source, move_to, set_result,
  reason_or_default, apply_gate_result, settle_gate, observe, folded, returns_to_menu, or_else,
}
use qa_test_backend.Discovery.Graph.Finish.{finalize_node, finalize}
use qa_test_backend.Discovery.Graph.Places.{visit_fresh, visit_again}

-- The state of a node is what its gate flags say.
pub record IsSettled (n : GraphNode) : Type 0 where
  pub accepted : n.gate_passed ≡ true → (n.state ≡ mapped) × (n.blocked_reason ≡ none)
  pub refused :
      (why : String)
      → n.gate_passed ≡ false
      → n.gate_rejection ≡ some why
      → (n.state ≡ blocked) × (n.blocked_reason ≡ some why)
  pub unresolved :
      n.gate_passed ≡ false
      → n.gate_rejection ≡ none
      → n.gate_unresolved ≡ true
      → (n.state ≡ blocked) × (n.blocked_reason ≡ some unresolved_gate)
  pub untried :
      n.gate_passed ≡ false
      → n.gate_rejection ≡ none
      → n.gate_unresolved ≡ false
      → (n.state ≡ mapped) × (n.blocked_reason ≡ none)

refresh-IsSettled : (n : GraphNode) → IsSettled (refresh_gate_state n)
unfolding refresh_gate_state
refresh-IsSettled n = record {
  accepted = ground arith;
  refused = ground arith;
  unresolved = ground arith;
  untried = ground arith;
}

All-update_where {κ} :
    (P : GraphNode → Type κ) (test : GraphNode → Bool) (f : GraphNode → GraphNode)
    → ((n : GraphNode) → P n → P (f n))
    → (ns : List GraphNode) → All P ns
    → All P (update_where test f ns)
unfolding update_where
All-update_where P test f keeps [] h = tt
All-update_where P test f keeps (n ∷ ns) h = elim (Bool-cases (test n)) [
  | inl e ↦ rw e (keeps n h.0, All-update_where P test f keeps ns h.1)
  | inr e ↦ rw e (h.0, All-update_where P test f keeps ns h.1)
]

-- Every node's state is settled.
abbrev pub AreSettled : FlowGraph → Type 0
AreSettled g = All IsSettled g.nodes

add_visit-IsSettled : (n : GraphNode) → IsSettled n → IsSettled (add_visit n)
add_visit-IsSettled n h = record {
  accepted = h.accepted;
  refused = h.refused;
  unresolved = h.unresolved;
  untried = h.untried;
}

add_incoming-IsSettled :
    (src : String) (n : GraphNode) → IsSettled n → IsSettled (add_incoming src n)
add_incoming-IsSettled src n h = record {
  accepted = h.accepted;
  refused = h.refused;
  unresolved = h.unresolved;
  untried = h.untried;
}

set_result-IsSettled :
    (result : GateResult) (why : Option String) (n : GraphNode)
    → IsSettled (set_result result why n)
unfolding set_result
set_result-IsSettled passed why n = refresh-IsSettled (record n { gate_passed = true })
set_result-IsSettled rejected why n =
    refresh-IsSettled (record n { gate_rejection = some (reason_or_default why) })
set_result-IsSettled pending why n = refresh-IsSettled n

new_node-IsSettled :
    (turn_index : ℕ) (obs : TurnObservation) (above : Option GraphNode) (g : FlowGraph)
    → IsSettled (new_node turn_index obs above g)
unfolding new_node
new_node-IsSettled turn_index obs above g = record {
  accepted = ground arith;
  refused = ground arith;
  unresolved = ground arith;
  untried = ground arith;
}

visit-AreSettled :
    (turn_index : ℕ) (obs : TurnObservation) (prev : Option String) (g : FlowGraph)
    → AreSettled g
    → AreSettled (visit turn_index obs prev g).graph
visit-AreSettled turn_index obs prev g h = elim (Option-cases (node_at obs.node_key g)) [
  | inl fresh ↦ rw (visit_fresh turn_index obs prev g fresh) (
      unfold create in
      All-append IsSettled g.nodes _ h (new_node-IsSettled turn_index obs (node_at? prev g) g, tt))
  | inr (n, e) ↦
      rw (visit_again turn_index obs prev g n e)
        (All-update_where IsSettled (has_key obs.node_key) add_visit add_visit-IsSettled g.nodes h)
]

link_menu-AreSettled :
    (back : Option String) (here : Option GraphNode) (o : Observed)
    → AreSettled o.graph
    → AreSettled (link_menu back here o).graph
unfolding link_menu
link_menu-AreSettled none here o h = h
link_menu-AreSettled (some menu_key) none o h = h
link_menu-AreSettled (some menu_key) (some here) o h =
    elim (Bool-cases (lists_source here.key (node_at menu_key o.graph))) [
      | inl e ↦ rw e h
      | inr e ↦ rw e (
          All-update_where IsSettled (has_key menu_key) _ (add_incoming-IsSettled here.key)
            o.graph.nodes h)
    ]

link_prev-AreSettled :
    (prev : Option String) (key : String) (o : Observed)
    → AreSettled o.graph
    → AreSettled (link_prev prev key o).graph
unfolding link_prev
link_prev-AreSettled none key o h = h
link_prev-AreSettled (some prev) key o h =
    elim (Bool-cases (text_eq prev key || lists_source prev (node_at key o.graph))) [
      | inl e ↦ rw e h
      | inr e ↦
          rw e (
            All-update_where IsSettled (has_key key) _ (add_incoming-IsSettled prev) o.graph.nodes
              h)
    ]

apply_gate_result-AreSettled :
    (key : String) (obs : TurnObservation) (g : FlowGraph)
    → AreSettled g
    → AreSettled (apply_gate_result key obs g)
apply_gate_result-AreSettled key obs g h = elim (Option-cases obs.gate_result) [
  | inl e ↦ unfold apply_gate_result in rw e h
  | inr (result, e) ↦
      unfold apply_gate_result in
      rw e
        (All-update_where IsSettled _ _ (λ n s. set_result-IsSettled result obs.reason n) g.nodes h)
]

-- An observation keeps every node's state settled.
pub observe-AreSettled :
    (turn_index : ℕ) (raw : TurnObservation) (g : FlowGraph)
    → AreSettled g
    → AreSettled (observe turn_index raw g).graph
unfolding observe settle_gate move_to
observe-AreSettled turn_index raw g h =
    let here = node_at? g.current g in
    let obs = folded here raw in
    let back = returns_to_menu here obs g in
    let prev = or_else back g.current in
    let visited = visit turn_index obs prev g in
    let by_menu = link_menu back here visited in
    let linked = link_prev prev obs.node_key by_menu in
    apply_gate_result-AreSettled obs.node_key obs (move_to obs.node_key linked.graph) (
      link_prev-AreSettled prev obs.node_key by_menu
        (link_menu-AreSettled back here visited (visit-AreSettled turn_index obs prev g h)))

-- A gate after the call: passed and mapped, or blocked for a reason.
abbrev pub IsDecided : GraphNode → Type 0
IsDecided n =
    (n.gate_passed ≡ true) × (n.state ≡ mapped)
    ⊎ (n.gate_passed ≡ false) × (n.state ≡ blocked) × (why : String) × (n.blocked_reason ≡ some why)

finalize_node-IsSettled : (n : GraphNode) → IsSettled n → IsSettled (finalize_node n)
finalize_node-IsSettled n h = elim (Bool-cases (not (is_gate n.kind) || n.gate_passed)) [
  | inl e ↦ unfold finalize_node in rw e h
  | inr e ↦ unfold finalize_node in rw e (refresh-IsSettled (record n { gate_unresolved = true }))
]

refresh_unresolved :
    (n : GraphNode)
    → n.gate_passed ≡ false
    → n.gate_unresolved ≡ true
    → IsDecided (refresh_gate_state n)
refresh_unresolved n p u = elim (Option-cases n.gate_rejection) [
  | inl e ↦ unfold refresh_gate_state in rw (p, e, u) (inr (p, refl, unresolved_gate, refl))
  | inr (why, e) ↦ unfold refresh_gate_state in rw (p, e) (inr (p, refl, why, refl))
]

finalize_passed : (n : GraphNode) → n.gate_passed ≡ true → finalize_node n ≡ n
unfolding finalize_node
finalize_passed n p = ground arith

finalize_open :
    (n : GraphNode)
    → n.gate_passed ≡ false
    → is_gate n.kind ≡ true
    → finalize_node n ≡ refresh_gate_state (record n { gate_unresolved = true })
unfolding finalize_node
finalize_open n p e = ground arith

finalize_other : (n : GraphNode) → is_gate n.kind ≡ false → finalize_node n ≡ n
unfolding finalize_node
finalize_other n e = ground arith

finalize_node-IsDecided :
    (n : GraphNode)
    → IsSettled n
    → is_gate (finalize_node n).kind ≡ true
    → IsDecided (finalize_node n)
finalize_node-IsDecided n h e = elim (Bool-cases n.gate_passed) [
  | inl p ↦ rw (finalize_passed n p) (inl (p, (h.accepted p).0))
  | inr p ↦ elim (Bool-cases (is_gate n.kind)) [
    | inl k ↦
        rw (finalize_open n p k) (refresh_unresolved (record n { gate_unresolved = true }) p refl)
    | inr k ↦ absurd (no_gate k)
  ]
]
  where
    no_gate : is_gate n.kind ≡ false → ⊥
    no_gate k =
        let same : (finalize_node n).kind ≡ n.kind = ap (λ m. m.kind) (finalize_other n k) in
        ground (arith, same, k, e)

-- A blocked node has a reason, as the tables require.
abbrev pub HasReason : GraphNode → Type 0
HasReason n = n.state ≡ blocked → (why : String) × (n.blocked_reason ≡ some why)

IsSettled-HasReason : (n : GraphNode) → IsSettled n → HasReason n
IsSettled-HasReason n h b = elim (Bool-cases n.gate_passed) [
  | inl p ↦ absurd (not_mapped (h.accepted p).0)
  | inr p ↦ elim (Option-cases n.gate_rejection) [
    | inr (why, e) ↦ (why, (h.refused why p e).1)
    | inl e ↦ elim (Bool-cases n.gate_unresolved) [
      | inl u ↦ (unresolved_gate, (h.unresolved p e u).1)
      | inr u ↦ absurd (not_mapped (h.untried p e u).0)
    ]
  ]
]
  where
    not_mapped : n.state ≡ mapped → ⊥
    not_mapped m = ground (arith, m, b)

-- What holds of each node once the call has ended.
pub record IsFinal (n : GraphNode) : Type 0 where
  pub decided : is_gate n.kind ≡ true → IsDecided n
  pub reason : HasReason n

finalize_node-IsFinal : (n : GraphNode) → IsSettled n → IsFinal (finalize_node n)
finalize_node-IsFinal n h = record {
  decided = finalize_node-IsDecided n h;
  reason = IsSettled-HasReason (finalize_node n) (finalize_node-IsSettled n h);
}

pub finalize-IsFinal : (g : FlowGraph) → AreSettled g → All IsFinal (finalize g).graph.nodes
unfolding finalize
finalize-IsFinal g h = final g.nodes h
  where
    final : (ns : List GraphNode) → All IsSettled ns → All IsFinal (map finalize_node ns)
    final [] k = tt
    final (n ∷ ns) k = (finalize_node-IsFinal n k.0, final ns k.1)
