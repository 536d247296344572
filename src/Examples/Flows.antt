-- ===== src/Examples/Flows.antt =====
-- The theorems on app/engine/discovery/graph.py at a call that is greeted and then not verified.
use qa_test_backend.Prelude.{
  ◌+◌, ◌≡◌, ◌⊎◌, refl, none, some, List, [], ◌∷◌, ◌++◌, find, All, String, length, text_dec,
  update_where, any, false,
}
use qa_test_backend.Store.Payload.{blocked}
use qa_test_backend.Discovery.Observation.{TurnObservation, greeting, gate, rejected}
use qa_test_backend.Discovery.Graph.{
  FlowGraph, GraphNode, initial, create, new_node, refresh_gate_state,
}
use qa_test_backend.Discovery.Graph.Observe.{
  observe, visit, folded, returns_to_menu, link_menu, link_prev, move_to, settle_gate,
  apply_gate_result, set_result,
}
use qa_test_backend.Discovery.Graph.Places.{Place, places}
use qa_test_backend.Discovery.Graph.Layout.{HasLayout, observe-places}
use qa_test_backend.Discovery.Graph.Gates.{IsFinal}
use qa_test_backend.Discovery.Graph.Finish.{finalize, intents, IntentSummary, path, join_arrows}
use qa_test_backend.Discovery.Graph.Paths.{IsLineage, labels, path-labels}
use qa_test_backend.Discovery.Graph.Explored.{
  Explored, start, turn, IsExplained, Explored-HasLayout, Explored-finalize, Explored-intents,
}

abbrev hello : TurnObservation
hello = record {
  node_key = "greeting";
  label = "Greeting";
  kind = greeting;
  gate_result = none;
  reason = none;
}

abbrev refusal : TurnObservation
refusal = record {
  node_key = "verification";
  label = "Verification";
  kind = gate;
  gate_result = some rejected;
  reason = some "No such date of birth.";
}

abbrev greeted : FlowGraph
greeted = (observe 0 hello initial).graph

abbrev stopped : FlowGraph
stopped = (observe 1 refusal greeted).graph

stopped-Explored : Explored stopped
stopped-Explored = turn 1 refusal (turn 0 hello start)

stopped-HasLayout : HasLayout stopped
stopped-HasLayout = Explored-HasLayout stopped stopped-Explored

observe-places_example :
    (places stopped ≡ places greeted)
    ⊎ (p : Place) × (places stopped ≡ places greeted ++ p ∷ []) × (p.first_turn ≡ 1)
observe-places_example = observe-places 1 refusal greeted

Explored-HasLayout_example : HasLayout stopped
Explored-HasLayout_example = Explored-HasLayout stopped stopped-Explored

Explored-finalize_example : All IsFinal (finalize stopped).graph.nodes
Explored-finalize_example = Explored-finalize stopped stopped-Explored

abbrev same_case : String → String
same_case s = s

Explored-intents_example :
    (out : List IntentSummary) × (intents same_case ("Balance" ∷ []) (finalize stopped).graph
      ≡ some out)
    × All IsExplained out
Explored-intents_example = Explored-intents same_case ("Balance" ∷ []) stopped stopped-Explored

abbrev refused_node : GraphNode
refused_node = record {
  key = "verification";
  label = "Verification";
  kind = gate;
  depth = 1;
  row = 0;
  parent = some "greeting";
  first_turn = 1;
  incoming = "greeting" ∷ [];
  visits = 1;
  gate_passed = false;
  gate_rejection = some "No such date of birth.";
  gate_unresolved = false;
  state = blocked;
  blocked_reason = some "No such date of birth.";
}

path-labels_example :
    (ns : List GraphNode) × IsLineage stopped refused_node ns
    × (path refused_node stopped ≡ some (join_arrows (labels ns)))
    × (length ns ≡ 1 + 1)
unfolding observe visit folded returns_to_menu link_menu link_prev move_to settle_gate
    apply_gate_result set_result create new_node refresh_gate_state initial find text_dec
    update_where any
path-labels_example = path-labels stopped "verification" refused_node stopped-HasLayout refl
