-- ===== src/Discovery/Graph/Finish.antt =====
-- What app/engine/discovery/graph.py answers once the call has ended: `finalize`, `_path` and `intents`.
-- `casefold` of Python's `str` is an argument.
use mathlib.Core.Option
use qa_test_backend.Prelude.{
  ℕ, zero, suc, Option, none, some, Bool, true, false, List, [], ◌∷◌, ◌++◌, ◌&&◌, ◌||◌, not, map,
  String, find, select, append_text, if◌then◌else◌, ◌>>=◌,
}
use qa_test_backend.Store.Payload.{NodeState, mapped, blocked}
use qa_test_backend.Discovery.Graph.{
  GraphNode, FlowGraph, refresh_gate_state, is_gate, is_outcome, node_at, contains,
}
use qa_test_backend.Discovery.Graph.Observe.{Observed, same_outcome}

abbrev pub is_blocked : NodeState → Bool
is_blocked mapped = false
is_blocked blocked = true

-- The body of the loop of `finalize`.
unfoldable pub finalize_node : GraphNode → GraphNode
unfolding refresh_gate_state
finalize_node n =
    if not (is_gate n.kind) || n.gate_passed
    then n
    else refresh_gate_state (record n { gate_unresolved = true })

unfoldable pub changed_keys : List GraphNode → List String
unfolding finalize_node
changed_keys [] = []
changed_keys (n ∷ ns) =
    let rest = changed_keys ns in if same_outcome n (finalize_node n) then rest else n.key ∷ rest

unfoldable pub finalize : FlowGraph → Observed
unfolding changed_keys
finalize g = record {
  graph = record g { nodes = map finalize_node g.nodes };
  changed = changed_keys g.nodes;
}

-- The loop of `_path`, which adds the labels from the node up: `none` is a KeyError, or no more fuel.
unfoldable pub labels_up : ℕ → GraphNode → FlowGraph → List String → Option (List String)
labels_up zero n g below = elim n.parent [ none ↦ some (n.label ∷ below) | some parent_key ↦ none ]
labels_up (suc fuel) n g below = elim n.parent [
  | none ↦ some (n.label ∷ below)
  | some parent_key ↦ elim (node_at parent_key g) [
    | none ↦ none
    | some parent ↦ labels_up fuel parent g (n.label ∷ below)
  ]
]

-- `" → ".join(labels)`
abbrev pub join_arrows : List String → String
join_arrows [] = ""
join_arrows (s ∷ []) = s
join_arrows (s ∷ t ∷ ss) = append_text s (append_text " → " (join_arrows (t ∷ ss)))

-- `_path`, with the node's depth for fuel: each parent lies one layer up.
unfoldable pub path : GraphNode → FlowGraph → Option String
unfolding labels_up
path n g = Option.map join_arrows (labels_up n.depth n g [])

pub record IntentSummary : Type 0 where
  pub name : String
  pub state : NodeState
  pub path : String
  pub reason : Option String

abbrev pub summary_of : GraphNode → String → IntentSummary
summary_of n p = record { name = n.label; state = n.state; path = p; reason = n.blocked_reason }

-- The intents and handoffs that the call has reached.
unfoldable pub reached : List GraphNode → FlowGraph → Option (List IntentSummary)
unfolding path
reached [] g = some []
reached (n ∷ ns) g = do p ← path n g; rest ← reached ns g; some (summary_of n p ∷ rest)

-- `_blocking_gate`
unfoldable pub blocking_gate : FlowGraph → Option GraphNode
unfolding find
blocking_gate g = find (λ n. is_gate n.kind && is_blocked n.state) g.nodes

-- A reason in an f-string.
abbrev reason_text : Option String → String
reason_text none = "None"
reason_text (some why) = why

abbrev pub hidden_behind : GraphNode → String → String → IntentSummary
hidden_behind gate gate_path name = record {
  name = name;
  state = blocked;
  path = append_text gate_path (append_text " → " name);
  reason = some (
      append_text "Behind the "
        (append_text gate.label (append_text " step: " (reason_text gate.blocked_reason))));
}

-- The expected names that are not in `seen`, each once.
unfoldable pub unreached :
    (String → String) → GraphNode → String → List String → List String → List IntentSummary
unreached casefold gate gate_path seen [] = []
unreached casefold gate gate_path seen (name ∷ names) =
    let skipped = unreached casefold gate gate_path seen names in
    let rest = unreached casefold gate gate_path (casefold name ∷ seen) names in
    if contains (casefold name) seen then skipped else hidden_behind gate gate_path name ∷ rest

unfoldable pub intents : (String → String) → List String → FlowGraph → Option (List IntentSummary)
unfolding reached unreached blocking_gate select
intents casefold expected g = do
  out ← reached (select (λ n. is_outcome n.kind) g.nodes) g
  elim (blocking_gate g) [
    | none ↦ some out
    | some gate ↦ do
      gate_path ← path gate g
      some (out ++ unreached casefold gate gate_path (map (λ i. casefold i.name) out) expected)
  ]
