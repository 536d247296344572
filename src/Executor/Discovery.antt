-- ===== src/Executor/Discovery.antt =====
-- app/engine/executor/discovery.py: the flow graph of a real call, written as it grows and at its end.
-- `casefold` is an argument; a key that is emitted is one of the graph's.
use qa_test_backend.Prelude.{
  ℕ, Option, none, some, Bool, false, List, [], ◌∷◌, ◌++◌, ◌>>=◌, map, select, not, String,
  append_text, count_where, if◌then◌else◌,
}
use qa_test_backend.Verdict.{completed, cancelled}
use qa_test_backend.Store.Payload.{Event, DoneData, NodeData, IntentData, DiscoveryResult}
use qa_test_backend.Store.{Db, EndReason, ended_in_error}
use qa_test_backend.Materialize.{materialize_run, materialize_discovery}
use qa_test_backend.Runner.{partial_done}
use qa_test_backend.Discovery.Graph.{GraphNode, FlowGraph, node_at, x, y, contains}
use qa_test_backend.Discovery.Graph.Observe.{Observed}
use qa_test_backend.Discovery.Graph.Finish.{finalize, intents, IntentSummary, is_blocked}
use qa_test_backend.Discovery.Explorer.{ExplorerCaller, unexplored}
use qa_test_backend.Executor.{
  end_reason_for, avg_latency_ms, fail_run, or_failed, emit_all, set_finished, may_finish,
  finish_run,
}
use qa_test_backend.Executor.Simulation.{CallReport, call_metrics}

abbrev pub node_data : GraphNode → NodeData
node_data n = record {
  node_id = n.key;
  label = n.label;
  x = x n;
  y = y n;
  state = n.state;
  blocked_reason = n.blocked_reason;
  from_nodes = n.incoming;
}

-- `_emit_node_frames`
unfoldable pub node_frames : FlowGraph → List String → List Event
node_frames g [] = []
node_frames g (key ∷ keys) = elim (node_at key g) [
  | none ↦ node_frames g keys
  | some n ↦ Event.node (node_data n) ∷ node_frames g keys
]

abbrev pub intent_data : IntentSummary → IntentData
intent_data i = record { name = i.name; state = i.state; path = i.path; reason = i.reason }

-- `_emit_intent_frames`
abbrev pub intent_frames : List IntentSummary → List Event
intent_frames is = map (λ i. Event.intent (intent_data i)) is

abbrev has_label : List String → IntentSummary → Bool
has_label labels i = contains i.name labels

abbrev changed_labels : List String → FlowGraph → List String
changed_labels keys g = map (λ n. n.label) (select (λ n. contains n.key keys) g.nodes)

-- `on_observation`, on the graph after the observation; `none` is an exception.
unfoldable pub on_observation : (String → String) → ℕ → Observed → Db → Option Db
unfolding emit_all node_frames intents
on_observation casefold run_id o db = elim o.changed [
  | [] ↦ some db
  | k ∷ ks ↦ intents casefold [] o.graph >>= (λ is. some (
      emit_all run_id
        (node_frames o.graph (k ∷ ks)
          ++ intent_frames (select (has_label (changed_labels (k ∷ ks) o.graph)) is))
        db))
]

abbrev blocked_names : (String → String) → List IntentSummary → List String
blocked_names casefold is = map (λ i. casefold i.name) (select (λ i. is_blocked i.state) is)

-- `_summarize`
unfoldable pub summarize :
    (String → String) → FlowGraph → List IntentSummary → ExplorerCaller → DiscoveryResult
unfolding unexplored
summarize casefold g is c = record {
  nodes_mapped = count_where (λ n. not (is_blocked n.state)) g.nodes;
  nodes_blocked = count_where (λ n. is_blocked n.state) g.nodes;
  intents_mapped = count_where (λ i. not (is_blocked i.state)) is;
  intents_blocked = count_where (λ i. is_blocked i.state) is;
  unexplored =
      select (λ t. not (contains (casefold t) (blocked_names casefold is))) (unexplored casefold c);
  turns_used = c.caller_turns;
}

abbrev pub mapped_done : DiscoveryResult → DoneData
mapped_done d = record {
  score = none;
  result_badge = none;
  discovery_result = some d;
  findings_count = none;
  exposure = none;
}

-- The error event of an exploration whose model call failed.
abbrev pub failure_events : Option String → List Event
failure_events none = []
failure_events (some why) =
    Event.error (record {
      code = "explorer_failed";
      message = append_text "exploration stopped early: " why;
      fatal = false;
    })
    ∷ []

abbrev reason_or_error : Option String → EndReason → EndReason
reason_or_error none reason = reason
reason_or_error (some why) reason = ended_in_error

-- `materialize_run` and `materialize_discovery`
unfoldable pub materialize_both : ℕ → Db → Option Db
unfolding materialize_run materialize_discovery
materialize_both run_id db =
    materialize_run run_id db >>= (λ after. some (materialize_discovery run_id after))

unfoldable pub finish_cancelled_call : ℕ → ℕ → EndReason → CallReport → Db → Option Db
unfolding finish_run materialize_both avg_latency_ms
finish_cancelled_call now run_id reason r db =
    finish_run may_finish (materialize_both run_id)
      (set_finished now cancelled reason (call_metrics partial_done r.clock (some r.turns)))
      (Event.done partial_done ∷ []) now run_id db

unfoldable pub mapped_events :
    FlowGraph → List String → List IntentSummary → Option String → DiscoveryResult → List Event
unfolding node_frames
mapped_events g keys is failure d =
    node_frames g keys
    ++ intent_frames is
    ++ failure_events failure
    ++ Event.done (mapped_done d) ∷ []

-- The last transaction of a call that was not cancelled, on the finalized graph.
unfoldable pub finish_mapped :
    (String → String)
    → ℕ
    → ℕ
    → EndReason
    → CallReport
    → ExplorerCaller
    → Observed
    → List IntentSummary
    → Db
    → Option Db
unfolding finish_run materialize_both mapped_events summarize avg_latency_ms
finish_mapped casefold now run_id reason r c o is db =
    let d = summarize casefold o.graph is c in
    finish_run may_finish (materialize_both run_id)
      (set_finished now completed (reason_or_error c.failure reason)
        (call_metrics (mapped_done d) r.clock (some r.turns)))
      (mapped_events o.graph o.changed is c.failure d) now run_id db

-- The end of `_run_discovery_body`, from the end of the call on.
unfoldable pub finish_discovery : (String → String) → ℕ → ℕ → CallReport → ExplorerCaller → Db → Db
unfolding finalize intents finish_cancelled_call finish_mapped end_reason_for fail_run
finish_discovery casefold now run_id r c db =
    let reason = end_reason_for r.end_reason r.was_cancelled in
    let o = finalize c.graph in
    if r.was_cancelled
    then or_failed now run_id "finalize_failed" "could not record the discovery result" db (
        intents casefold c.candidates o.graph
        >>= (λ is. finish_cancelled_call now run_id reason r db))
    else elim c.graph.nodes [
      | [] ↦ fail_run now run_id "no_observations" "the agent never responded to the explorer" db
      | n ∷ ns ↦ or_failed now run_id "finalize_failed" "could not record the discovery result" db (
          intents casefold c.candidates o.graph
          >>= (λ is. finish_mapped casefold now run_id reason r c o is db))
    ]
