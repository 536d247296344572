-- ===== src/Executor/Simulation.antt =====
-- app/engine/executor/simulation.py: a scenario played against a real agent. The call, the judges and what
-- the other processes do meanwhile are arguments; a judge's score is a number of hundredths.
use qa_test_backend.Prelude.{
  ℕ, Option, none, some, Bool, List, [], ◌∷◌, ◌++◌, map, select, any, find, String, text_eq, ◌==◌,
  leb, if◌then◌else◌,
}
use qa_test_backend.Verdict.{Badge, pass, warn, fail, completed, cancelled}
use qa_test_backend.Verdict.Rubric.{GatingMetricResult, evaluate_call}
use qa_test_backend.Store.Payload.{Event, DoneData}
use qa_test_backend.Store.{Db, RunMetrics, EndReason, emit}
use qa_test_backend.Reaper.{is_executing}
use qa_test_backend.Materialize.{materialize_run}
use qa_test_backend.Runner.{start_run, partial_done, Entry, run_fake_script}
use qa_test_backend.Caller.Persona.{CallEndReason}
use qa_test_backend.Caller.Clock.{LatencyClock}
use qa_test_backend.Metrics.Compiler.{MetricOutcome}
use qa_test_backend.Executor.{
  end_reason_for, avg_latency_ms, fail_run, or_failed, emit_all, set_finished, may_finish,
  finish_run,
}

pub record AssertionSpec : Type 0 where
  pub id : String
  pub name : String

-- `AssertionFlip` and `FinalAssertionNote` of app/engine/judge/models.py
pub record AssertionNote : Type 0 where
  pub assertion_id : String
  pub ok : Bool
  pub turn_refs : List ℕ
  pub note : String

-- `IncrementalVerdict` and what is written of a `FinalVerdict`
pub record IncrementalVerdict : Type 0 where
  pub flips : List AssertionNote
  pub live_score : ℕ

pub record FinalVerdict : Type 0 where
  pub assertions : List AssertionNote
  pub final_score : ℕ

-- `next((a.name for a in assertion_specs if a.id == …), …)`
unfoldable pub name_of : String → List AssertionSpec → String
name_of id specs = elim (find (λ a. text_eq a.id id) specs) [ none ↦ id | some a ↦ a.name ]

abbrev first_ref : List ℕ → Option ℕ
first_ref [] = none
first_ref (i ∷ is) = some i

unfoldable pub assertion_event : List AssertionSpec → AssertionNote → Event
unfolding name_of
assertion_event specs n = Event.assertion (record {
  assertion_id = n.assertion_id;
  name = name_of n.assertion_id specs;
  ok = n.ok;
  triggered_at_turn = first_ref n.turn_refs;
  note = some n.note;
})

-- The transaction of `run_incremental`.
unfoldable pub run_incremental : ℕ → List AssertionSpec → IncrementalVerdict → Db → Db
unfolding emit_all assertion_event emit
run_incremental run_id specs verdict db =
    (emit run_id
      (Event.metrics (record {
        score = some verdict.live_score;
        avg_latency_ms = none;
        turns_completed = none;
        interruptions = none;
      }))
      (emit_all run_id (map (assertion_event specs) verdict.flips) db)).0

-- `_badge_from_final_score`
unfoldable pub badge_from_final_score : ℕ → Badge
badge_from_final_score score = if leb 80 score then pass else if leb 50 score then warn else fail

unfoldable pub metric_event : (ℕ → String) → MetricOutcome → Event
metric_event name o = Event.metric_result (record {
  metric_id = o.metric_id;
  metric_version = o.metric_version;
  name = name o.metric_id;
  status = o.status;
  value = o.value;
  turn_refs = o.turn_refs;
  rationale = o.rationale;
})

abbrev gating_result : MetricOutcome → GatingMetricResult
gating_result o = record { metric_id = o.metric_id; status = o.status }

-- The results of the metrics that `scenario_metrics` marks as gating.
unfoldable pub gating_results : List ℕ → List MetricOutcome → List GatingMetricResult
gating_results gating_ids outcomes =
    map gating_result (select (λ o. any (λ i. i == o.metric_id) gating_ids) outcomes)

unfoldable pub result_badge : List ℕ → FinalVerdict → List MetricOutcome → Badge
unfolding gating_results badge_from_final_score
result_badge gating_ids verdict outcomes =
    evaluate_call (gating_results gating_ids outcomes) (badge_from_final_score verdict.final_score)

abbrev pub scored_done : ℕ → Badge → DoneData
scored_done score badge = record {
  score = some score;
  result_badge = some badge;
  discovery_result = none;
  findings_count = none;
  exposure = none;
}

-- `metrics`, of a `done` event and what the clock measured
abbrev pub call_metrics : DoneData → LatencyClock → Option ℕ → RunMetrics
unfolding avg_latency_ms
call_metrics d clock turns = record {
  score = d.score;
  result_badge = d.result_badge;
  avg_latency_ms = avg_latency_ms clock;
  turns_completed = turns;
  interruptions = some clock.interruption_count;
  discovery_result = d.discovery_result;
  findings_count = d.findings_count;
}

-- The transaction that ends a call which was cancelled.
unfoldable pub finish_cancelled : ℕ → ℕ → EndReason → LatencyClock → Db → Option Db
unfolding finish_run avg_latency_ms
finish_cancelled now run_id reason clock db =
    finish_run may_finish (materialize_run run_id)
      (set_finished now cancelled reason (call_metrics partial_done clock none))
      (Event.done partial_done ∷ []) now run_id db

-- What is known of a call once the judge and the metrics have scored it.
pub record Scored : Type 0 where
  pub verdict : FinalVerdict
  pub outcomes : List MetricOutcome
  pub metric_names : ℕ → String
  pub gating_ids : List ℕ

unfoldable pub scored_events : List AssertionSpec → Scored → List Event
unfolding assertion_event metric_event result_badge
scored_events specs s =
    map (assertion_event specs) s.verdict.assertions
    ++ map (metric_event s.metric_names) s.outcomes
    ++ Event.done
        (scored_done s.verdict.final_score (result_badge s.gating_ids s.verdict s.outcomes))
      ∷ []

-- The transaction that ends a call which was scored.
unfoldable pub finish_scored :
    ℕ → ℕ → List AssertionSpec → Scored → EndReason → LatencyClock → ℕ → Db → Option Db
unfolding finish_run scored_events result_badge avg_latency_ms
finish_scored now run_id specs s reason clock turns db =
    let badge = result_badge s.gating_ids s.verdict s.outcomes in
    finish_run is_executing (materialize_run run_id)
      (set_finished now completed reason
        (call_metrics (scored_done s.verdict.final_score badge) clock (some turns)))
      (scored_events specs s) now run_id db

-- What happens before the call: it ends the run, or hands it to the scripted runner, or the call begins.
pub data Prepared : Type 0 where
  missing_scenario scenario_load_failed agent_credentials_unavailable : Prepared
  without_script : List Entry → Prepared
  ready : List AssertionSpec → Prepared

-- How the judged part ends: an exception before the call, or in it, or the call's end with the database
-- as the call left it, and what scoring gives, if it does not raise.
pub record CallReport : Type 0 where
  pub end_reason : CallEndReason
  pub was_cancelled : Bool
  pub clock : LatencyClock
  pub turns : ℕ
  pub scored : Option Scored

pub data Played : Type 0 where
  judge_client_failed call_failed : Played
  ended : CallReport → Played

abbrev scored_or_none :
    ℕ → ℕ → List AssertionSpec → EndReason → CallReport → Option Scored → Db → Option Db
unfolding finish_scored
scored_or_none now run_id specs reason r none db = none
scored_or_none now run_id specs reason r (some s) db =
    finish_scored now run_id specs s reason r.clock r.turns db

-- From the end of the call on: the last transaction, and the one that follows when it raises.
unfoldable pub finish_call : ℕ → ℕ → List AssertionSpec → CallReport → Db → Db
unfolding finish_cancelled finish_scored end_reason_for fail_run
finish_call now run_id specs r db =
    let reason = end_reason_for r.end_reason r.was_cancelled in
    or_failed now run_id "scoring_failed" "final scoring failed" db (
      if r.was_cancelled
      then finish_cancelled now run_id reason r.clock db
      else scored_or_none now run_id specs reason r r.scored db)

unfoldable pub after_call : ℕ → ℕ → List AssertionSpec → Played → Db → Db
unfolding fail_run finish_call
after_call now run_id specs judge_client_failed db =
    fail_run now run_id "judge_client_failed" "could not initialize judge client" db
after_call now run_id specs call_failed db =
    fail_run now run_id "call_failed" "the simulated call failed" db
after_call now run_id specs (ended r) db = finish_call now run_id specs r db

-- `_run_simulation_body`: `during` is what is written between the start and the last transaction, by the
-- turns of the call, the incremental judge and the other processes.
unfoldable pub run_simulation : ℕ → ℕ → ℕ → Prepared → (Db → Db) → Played → Db → Db
unfolding fail_run start_run run_fake_script after_call
run_simulation now later run_id missing_scenario during played db =
    fail_run now run_id "missing_scenario" "simulation run has no scenario_id" db
run_simulation now later run_id scenario_load_failed during played db =
    fail_run now run_id "scenario_load_failed" "could not load scenario" db
run_simulation now later run_id (without_script script) during played db =
    run_fake_script now run_id script db
run_simulation now later run_id agent_credentials_unavailable during played db =
    fail_run now run_id "agent_credentials_unavailable"
      "could not load this agent's LiveKit credentials" db
run_simulation now later run_id (ready specs) during played db =
    after_call later run_id specs played (during (start_run now run_id db))
