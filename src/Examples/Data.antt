-- ===== src/Examples/Data.antt =====
-- The databases of the examples: a red-team batch with two ended children, and an agent with a queue.
use qa_test_backend.Prelude.{ℕ, Option, none, some, List, [], ◌∷◌, Bool, false}
use qa_test_backend.Verdict.{RunStatus, queued, running, completed, failed}
use qa_test_backend.Store.{Db, Run, RunType, Agent, simulation, redteam}

-- No row and no agent is locked.
abbrev pub nobody : ℕ → Bool
nobody i = false

abbrev pub sample_run : ℕ → RunType → RunStatus → Option ℕ → Run
sample_run i type status parent = record {
  id = i;
  type = type;
  status = status;
  project_id = 1;
  agent_id = 7;
  scenario_id = none;
  parent_run_id = parent;
  rerun_of_run_id = none;
  idempotency_key = none;
  created_at = i;
  claimed_by = none;
  heartbeat_at = some 10;
  started_at = none;
  ended_at = none;
  end_reason = none;
  metrics = none;
}

abbrev pub agent_seven : Agent
agent_seven = record { id = 7; project_id = 1; max_concurrency = 1 }

abbrev pub with_runs : List Run → Db
with_runs runs = record {
  runs = runs;
  events = [];
  agents = agent_seven ∷ [];
  scenarios = [];
  notified = [];
  turns = [];
  assertion_results = [];
  metric_results = [];
  discovery_nodes = [];
  discovery_edges = [];
  discovery_intents = [];
}

abbrev pub parent_one : Run
parent_one = sample_run 1 redteam queued none

abbrev pub failed_two : Run
failed_two = sample_run 2 redteam failed (some 1)

abbrev pub running_three : Run
running_three = sample_run 3 redteam running (some 1)

abbrev pub queued_four : Run
queued_four = sample_run 4 simulation queued none

-- A batch whose second child still runs.
abbrev pub open_batch : Db
open_batch = with_runs (parent_one ∷ failed_two ∷ running_three ∷ [])

-- A batch whose children have ended.
abbrev pub ended_batch : Db
ended_batch = with_runs (parent_one ∷ failed_two ∷ sample_run 3 redteam completed (some 1) ∷ [])

-- Two queued runs for an agent that takes one at a time.
abbrev pub queue : Db
queue = with_runs (sample_run 5 simulation queued none ∷ queued_four ∷ [])
