-- ===== src/Runner.antt =====
-- app/workers/fake_runner.py: one claimed run replays its script, a transaction for each entry. What
-- the other processes do between two transactions is an argument of each entry. The heartbeat task
-- and the delays are the environment's too.
pub mod Start
pub mod Script
use mathlib.Core.Option
use qa_test_backend.Prelude.{ℕ, Option, none, some, Bool, true, false, List, [], ◌∷◌, if◌then◌else◌}
use qa_test_backend.Verdict.{Badge, RunStatus, cancelled, completed, running}
use qa_test_backend.Store.Payload.{Event, MetricsData, DoneData, done, metrics}
use qa_test_backend.Store.{Db, Run, RunMetrics, has_id, find_run, update_runs, emit}
use qa_test_backend.Reaper.{is_executing}
use qa_test_backend.Rollup.{maybe_close_parent, is_cancelled}
use qa_test_backend.Materialize.{materialize_run}

abbrev pub set_running : ℕ → Run → Run
set_running now r = record r { status = running; started_at = some now }

-- The first transaction of `run_fake_script`.
unfoldable pub start_run : ℕ → ℕ → Db → Db
start_run now run_id db =
    (emit run_id (Event.status running) (update_runs (has_id run_id) (set_running now) db)).0

-- `update_heartbeat` of app/workers/heartbeat.py
abbrev pub set_heartbeat : ℕ → Run → Run
set_heartbeat now r = record r { heartbeat_at = some now }

unfoldable pub update_heartbeat : ℕ → ℕ → Db → Db
update_heartbeat now run_id db = update_runs (has_id run_id) (set_heartbeat now) db

-- `done_event(score=None, result_badge=None)`
abbrev pub partial_done : DoneData
partial_done = record {
  score = none;
  result_badge = none;
  discovery_result = none;
  findings_count = none;
  exposure = none;
}

abbrev done_of : Event → DoneData
done_of (done d) = d
done_of _ = partial_done

-- `{**latest_metrics_data, **done.data.model_dump()}`: the dump of a `done` event has each of its keys,
-- so its score wins, also a null one.
abbrev pub merged : Option MetricsData → DoneData → RunMetrics
merged latest d = record {
  score = d.score;
  result_badge = d.result_badge;
  avg_latency_ms = Option.bind latest (λ m. m.avg_latency_ms);
  turns_completed = Option.bind latest (λ m. m.turns_completed);
  interruptions = Option.bind latest (λ m. m.interruptions);
  discovery_result = d.discovery_result;
  findings_count = d.findings_count;
}

abbrev pub set_ended : ℕ → RunMetrics → Run → Run
set_ended now m r = record r { ended_at = some now; metrics = some m }

abbrev pub set_completed : ℕ → RunMetrics → Run → Run
set_completed now m r = record r { status = completed; ended_at = some now; metrics = some m }

-- A transaction commits and the script goes on or ends, or it raises and is rolled back.
pub data Outcome : Type 0 where
  goes_on stopped : Db → Outcome
  raised : Outcome

abbrev pub finish_cancelled : ℕ → ℕ → Option MetricsData → Db → Outcome
finish_cancelled now run_id latest db =
    elim (materialize_run run_id (emit run_id (done partial_done) db).0) [
      | none ↦ raised
      | some after ↦
          stopped (update_runs (has_id run_id) (set_ended now (merged latest partial_done)) after)
    ]

abbrev pub finish_completed : ℕ → ℕ → Option MetricsData → Event → Db → Outcome
finish_completed now run_id latest event db =
    elim (materialize_run run_id (emit run_id event db).0) [
      | none ↦ raised
      | some after ↦ stopped (
          maybe_close_parent now run_id
            (update_runs (has_id run_id) (set_completed now (merged latest (done_of event))) after))
    ]

-- One entry of the script: `event`, and whether it is the last.
unfoldable pub script_step : ℕ → ℕ → Option MetricsData → Event → Bool → Db → Outcome
script_step now run_id latest event is_last db = elim (find_run run_id db) [
  | none ↦ raised
  | some row ↦
      if is_cancelled row.status
      then finish_cancelled now run_id latest db
      else if is_executing row.status
      then if is_last
        then finish_completed now run_id latest event db
        else goes_on (emit run_id event db).0
      else stopped db
]

abbrev latest_after : Event → Option MetricsData → Option MetricsData
latest_after (metrics m) latest = some m
latest_after _ latest = latest

-- An entry, the time at which it is played and what the other processes did since the last one.
pub record Entry : Type 0 where
  pub event : Event
  pub now : ℕ
  pub meanwhile : Db → Db

abbrev is_nil : List Entry → Bool
is_nil [] = true
is_nil (e ∷ es) = false

-- The database after the script: `raised` ends it with its last transaction rolled back.
unfoldable pub run_script : ℕ → Option MetricsData → List Entry → Db → Db
unfolding script_step
run_script run_id latest [] db = db
run_script run_id latest (e ∷ es) db =
    let before = e.meanwhile db in
    let latest' = latest_after e.event latest in
    elim (script_step e.now run_id latest' e.event (is_nil es) before) [
      | goes_on after ↦ run_script run_id latest' es after
      | stopped after ↦ after
      | raised ↦ before
    ]

unfoldable pub run_fake_script : ℕ → ℕ → List Entry → Db → Db
unfolding start_run run_script
run_fake_script now run_id script db = run_script run_id none script (start_run now run_id db)
