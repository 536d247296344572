-- ===== src/Store.antt =====
-- app/models/runs.py, app/schemas/events.py and the write path of app/events.py: the tables that the
-- workers share, as lists of rows. Ids are numbers, and a time is a number of seconds.
pub mod Payload
pub mod Log
pub mod Rows
pub mod Unique
use qa_test_backend.Prelude.{
  ℕ, suc, max, Option, none, some, Bool, List, [], ◌∷◌, ◌++◌, ◌==◌, if◌then◌else◌, find, is_id,
  update_where, String,
}
use qa_test_backend.Verdict.{Badge, RunStatus}
use qa_test_backend.Verdict.Rubric.{Rubric}
use qa_test_backend.Store.Payload.{
  Event, Role, AssertionData, MetricResultData, NodeData, IntentData, DiscoveryResult,
}

pub data RunType : Type 0 where
  simulation discovery redteam suite : RunType

-- `end_reason_valid`
pub data EndReason : Type 0 where
  completed_normally caller_ended agent_ended timeout cancelled_by_user ended_in_error : EndReason

-- The jsonb column `runs.metrics`, by the keys that the workers write and read.
pub record RunMetrics : Type 0 where
  pub score : Option ℕ
  pub result_badge : Option Badge
  pub avg_latency_ms : Option ℕ
  pub turns_completed : Option ℕ
  pub interruptions : Option ℕ
  pub discovery_result : Option DiscoveryResult
  pub findings_count : Option ℕ

pub record Run : Type 0 where
  pub id : ℕ
  pub type : RunType
  pub status : RunStatus
  pub project_id : ℕ
  pub agent_id : ℕ
  pub scenario_id : Option ℕ
  pub parent_run_id : Option ℕ
  pub rerun_of_run_id : Option ℕ
  pub idempotency_key : Option String
  pub created_at : ℕ
  pub claimed_by : Option ℕ
  pub heartbeat_at : Option ℕ
  pub started_at : Option ℕ
  pub ended_at : Option ℕ
  pub end_reason : Option EndReason
  pub metrics : Option RunMetrics

-- A row of `run_events`.
pub record EventRow : Type 0 where
  pub run_id : ℕ
  pub seq : ℕ
  pub event : Event

pub record Agent : Type 0 where
  pub id : ℕ
  pub project_id : ℕ
  pub max_concurrency : ℕ

-- The suite's rubric, joined to the scenario.
pub record Scenario : Type 0 where
  pub id : ℕ
  pub rubric : Option Rubric

-- The rows that are materialized from the log: `turns`, `assertion_results`, `metric_results`.
pub record TurnRow : Type 0 where
  pub run_id : ℕ
  pub idx : ℕ
  pub role : Role
  pub text : String
  pub latency_ms : Option ℕ
  pub flagged : Bool
  pub flag_reason : Option String

pub record AssertionRow : Type 0 where
  pub run_id : ℕ
  pub assertion : AssertionData

pub record MetricResultRow : Type 0 where
  pub run_id : ℕ
  pub result : MetricResultData

-- `discovery_nodes`, `discovery_edges` and `discovery_intents`. A row keeps its frame whole; the sources
-- of a node and the name of a metric are no columns, and nothing reads them from the rows.
pub record NodeRow : Type 0 where
  pub run_id : ℕ
  pub node : NodeData

pub record EdgeRow : Type 0 where
  pub run_id : ℕ
  pub from_node : String
  pub to_node : String

pub record IntentRow : Type 0 where
  pub run_id : ℕ
  pub intent : IntentData

-- `notified` are the payloads of `pg_notify('run_events', …)`.
pub record Db : Type 0 where
  pub runs : List Run
  pub events : List EventRow
  pub agents : List Agent
  pub scenarios : List Scenario
  pub notified : List ℕ
  pub turns : List TurnRow
  pub assertion_results : List AssertionRow
  pub metric_results : List MetricResultRow
  pub discovery_nodes : List NodeRow
  pub discovery_edges : List EdgeRow
  pub discovery_intents : List IntentRow

abbrev pub has_id : ℕ → Run → Bool
has_id run_id r = r.id == run_id

abbrev pub is_child_of : ℕ → Run → Bool
is_child_of parent_id r = is_id r.parent_run_id parent_id

-- `SELECT … FROM runs WHERE id = :id`
abbrev pub find_run : ℕ → Db → Option Run
find_run run_id db = find (has_id run_id) db.runs

-- `UPDATE runs SET … WHERE …`
abbrev pub update_runs : (Run → Bool) → (Run → Run) → Db → Db
update_runs test change db = record db { runs = update_where test change db.runs }

abbrev pub is_event_of : ℕ → EventRow → Bool
is_event_of run_id row = row.run_id == run_id

-- `COALESCE(MAX(seq), 0)` over the run's events
unfoldable pub max_seq : ℕ → List EventRow → ℕ
max_seq run_id [] = 0
max_seq run_id (row ∷ rows) =
    let rest = max_seq run_id rows in if is_event_of run_id row then max row.seq rest else rest

abbrev pub notify : ℕ → Db → Db
notify run_id db = record db { notified = db.notified ++ run_id ∷ [] }

-- `emit`: under the run's advisory lock the number is computed and the row inserted as one step.
unfoldable pub emit : ℕ → Event → Db → Db × ℕ
unfolding max_seq
emit run_id event db =
    let seq = suc (max_seq run_id db.events) in
    let row : EventRow = record { run_id = run_id; seq = seq; event = event } in
    (notify run_id (record db { events = db.events ++ row ∷ [] }), seq)
