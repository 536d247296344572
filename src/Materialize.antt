-- ===== src/Materialize.antt =====
-- app/workers/materialize.py: the read tables are written from the event log, in the order of `seq`.
-- `none` is an exception: a turn whose (run_id, idx) is taken breaks the primary key of `turns`.
pub mod Turns
use mathlib.Core.Option
use qa_test_backend.Prelude.{
  ℕ, suc, Option, none, some, Bool, true, false, List, [], ◌∷◌, ◌++◌, ◌&&◌, ◌||◌, ◌==◌, String,
  text_eq, not, any, select, sort_by, if◌then◌else◌,
}
use qa_test_backend.Store.Payload.{
  Event, TurnData, AssertionData, MetricResultData, NodeData, IntentData, turn, assertion,
  metric_result, node, intent,
}
use qa_test_backend.Store.{
  Db, EventRow, TurnRow, AssertionRow, MetricResultRow, NodeRow, EdgeRow, IntentRow, is_event_of,
}

-- `SELECT data FROM run_events WHERE run_id = :run_id … ORDER BY seq`
unfoldable pub log_of : ℕ → Db → List EventRow
unfolding select sort_by
log_of run_id db = sort_by (λ row. row.seq) (select (is_event_of run_id) db.events)

unfoldable pub turns_of : List EventRow → List TurnData
turns_of [] = []
turns_of (row ∷ rows) = let rest = turns_of rows in elim row.event [ turn d ↦ d ∷ rest | _ ↦ rest ]

unfoldable pub assertions_of : List EventRow → List AssertionData
assertions_of [] = []
assertions_of (row ∷ rows) =
    let rest = assertions_of rows in elim row.event [ assertion d ↦ d ∷ rest | _ ↦ rest ]

unfoldable pub metric_results_of : List EventRow → List MetricResultData
metric_results_of [] = []
metric_results_of (row ∷ rows) =
    let rest = metric_results_of rows in elim row.event [ metric_result d ↦ d ∷ rest | _ ↦ rest ]

-- `_INSERT_TURN_SQL` for row `idx`: the turn's own `index` is not used.
abbrev pub turn_row : ℕ → ℕ → TurnData → TurnRow
turn_row run_id idx d = record {
  run_id = run_id;
  idx = idx;
  role = d.role;
  text = d.text;
  latency_ms = d.latency_ms;
  flagged = d.flagged;
  flag_reason = d.flag_reason;
}

abbrev pub has_key : ℕ → ℕ → TurnRow → Bool
has_key run_id idx row = row.run_id == run_id && row.idx == idx

-- The loop `for idx, data in enumerate(turn_rows)`
unfoldable pub insert_turns : ℕ → ℕ → List TurnData → List TurnRow → Option (List TurnRow)
unfolding any
insert_turns run_id idx [] table = some table
insert_turns run_id idx (d ∷ ds) table =
    let next = insert_turns run_id (suc idx) ds (table ++ turn_row run_id idx d ∷ []) in
    if any (has_key run_id idx) table then none else next

-- `INSERT … ON CONFLICT … DO UPDATE`
unfoldable pub upsert {ℓ} : {A : Type ℓ} → (A → Bool) → A → List A → List A
upsert same new [] = new ∷ []
upsert same new (x ∷ xs) = if same x then new ∷ xs else x ∷ upsert same new xs

abbrev pub same_assertion : ℕ → AssertionData → AssertionRow → Bool
same_assertion run_id d row =
    row.run_id == run_id && text_eq row.assertion.assertion_id d.assertion_id

unfoldable pub upsert_assertions : ℕ → List AssertionData → List AssertionRow → List AssertionRow
unfolding upsert
upsert_assertions run_id [] table = table
upsert_assertions run_id (d ∷ ds) table =
    upsert_assertions run_id ds
      (upsert (same_assertion run_id d) (record { run_id = run_id; assertion = d }) table)

abbrev pub same_metric : ℕ → MetricResultData → MetricResultRow → Bool
same_metric run_id d row = row.run_id == run_id && row.result.metric_id == d.metric_id

unfoldable pub upsert_metric_results :
    ℕ → List MetricResultData → List MetricResultRow → List MetricResultRow
unfolding upsert
upsert_metric_results run_id [] table = table
upsert_metric_results run_id (d ∷ ds) table =
    upsert_metric_results run_id ds
      (upsert (same_metric run_id d) (record { run_id = run_id; result = d }) table)

abbrev pub with_tables : ℕ → Db → List TurnRow → Db
with_tables run_id db rows = record db {
  turns = rows;
  assertion_results =
      upsert_assertions run_id (assertions_of (log_of run_id db)) db.assertion_results;
  metric_results =
      upsert_metric_results run_id (metric_results_of (log_of run_id db)) db.metric_results;
}

unfoldable pub materialize_run : ℕ → Db → Option Db
materialize_run run_id db =
    Option.map (with_tables run_id db)
      (insert_turns run_id 0 (turns_of (log_of run_id db)) db.turns)

-- A dict keyed by `nodeId`, and one keyed by `name`: the last frame of each key, in the order in
-- which the keys first came.
unfoldable pub nodes_of : List EventRow → List NodeData → List NodeData
unfolding upsert
nodes_of [] dict = dict
nodes_of (row ∷ rows) dict =
    nodes_of rows
      (elim row.event [ node d ↦ upsert (λ n. text_eq n.node_id d.node_id) d dict | _ ↦ dict ])

unfoldable pub intents_of : List EventRow → List IntentData → List IntentData
unfolding upsert
intents_of [] dict = dict
intents_of (row ∷ rows) dict =
    intents_of rows
      (elim row.event [ intent d ↦ upsert (λ n. text_eq n.name d.name) d dict | _ ↦ dict ])

unfoldable pub upsert_nodes : ℕ → List NodeData → List NodeRow → List NodeRow
unfolding upsert
upsert_nodes run_id [] table = table
upsert_nodes run_id (d ∷ ds) table = upsert_nodes run_id ds (
    upsert (λ row. row.run_id == run_id && text_eq row.node.node_id d.node_id)
      (record { run_id = run_id; node = d }) table)

abbrev pub same_edge : EdgeRow → EdgeRow → Bool
same_edge e row =
    row.run_id == e.run_id && (text_eq row.from_node e.from_node && text_eq row.to_node e.to_node)

-- `_INSERT_EDGE_SQL … ON CONFLICT DO NOTHING`, for the sources that are nodes themselves
unfoldable pub insert_edges : ℕ → List NodeData → String → List String → List EdgeRow → List EdgeRow
unfolding any
insert_edges run_id nodes to_node [] table = table
insert_edges run_id nodes to_node (src ∷ srcs) table =
    let e : EdgeRow = record { run_id = run_id; from_node = src; to_node = to_node } in
    let known = any (λ n. text_eq n.node_id src) nodes in
    insert_edges run_id nodes to_node srcs
      (if known && not (any (same_edge e) table) then table ++ e ∷ [] else table)

unfoldable pub insert_all_edges : ℕ → List NodeData → List NodeData → List EdgeRow → List EdgeRow
unfolding insert_edges
insert_all_edges run_id nodes [] table = table
insert_all_edges run_id nodes (d ∷ ds) table =
    insert_all_edges run_id nodes ds (insert_edges run_id nodes d.node_id d.from_nodes table)

unfoldable pub upsert_intents : ℕ → List IntentData → List IntentRow → List IntentRow
unfolding upsert
upsert_intents run_id [] table = table
upsert_intents run_id (d ∷ ds) table = upsert_intents run_id ds (
    upsert (λ row. row.run_id == run_id && text_eq row.intent.name d.name)
      (record { run_id = run_id; intent = d }) table)

unfoldable pub materialize_discovery : ℕ → Db → Db
materialize_discovery run_id db =
    let nodes = nodes_of (log_of run_id db) [] in
    let intents = intents_of (log_of run_id db) [] in
    record db {
      discovery_nodes = upsert_nodes run_id nodes db.discovery_nodes;
      discovery_edges = insert_all_edges run_id nodes nodes db.discovery_edges;
      discovery_intents = upsert_intents run_id intents db.discovery_intents;
    }
