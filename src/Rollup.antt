-- ===== src/Rollup.antt =====
-- app/workers/rollup.py: a batch parent closes once each of its children has ended.
pub mod Close
pub mod Child
pub mod RedTeam
use qa_test_backend.Prelude.{
  ℕ, ◌-◌, Option, none, some, Bool, true, false, List, [], ◌∷◌, map, ◌&&◌, not, ltb, find, select,
  any, count_where, if◌then◌else◌, is_some, ◌==◌,
}
use qa_test_backend.Verdict.{
  Badge, Verdict, RunStatus, pass, fail, idle, judged, completed, cancelled, is_terminal,
  verdict_for_run,
}
use qa_test_backend.Verdict.Rubric.{Rubric, evaluate_batch, is_fail}
use qa_test_backend.Store.Payload.{Event}
use qa_test_backend.Store.{
  Db, Run, RunMetrics, RunType, redteam, Scenario, has_id, is_child_of, find_run, update_runs, emit,
}

pub record Tally : Type 0 where
  pub total : ℕ
  pub live : ℕ
  pub cancelled : ℕ

abbrev pub is_live_child_of : ℕ → Run → Bool
is_live_child_of parent_id r = is_child_of parent_id r && not (is_terminal r.status)

abbrev pub is_cancelled : RunStatus → Bool
is_cancelled cancelled = true
is_cancelled _ = false

-- `_TALLY_SQL`
abbrev pub tally_children : ℕ → Db → Tally
tally_children parent_id db = record {
  total = count_where (is_child_of parent_id) db.runs;
  live = count_where (is_live_child_of parent_id) db.runs;
  cancelled = count_where (λ r. is_child_of parent_id r && is_cancelled r.status) db.runs;
}

abbrev scenario_of : Db → Option ℕ → Option Scenario
scenario_of db none = none
scenario_of db (some scenario_id) = find (λ s. s.id == scenario_id) db.scenarios

abbrev scenario_rubric : Option Scenario → Option Rubric
scenario_rubric none = none
scenario_rubric (some s) = s.rubric

-- `_BATCH_RUBRIC_SQL`: the rubric of one child's scenario. The query takes any such child; the first
-- in the table is taken here.
unfoldable pub batch_rubric : ℕ → Db → Option Rubric
batch_rubric parent_id db =
    elim (find (λ r. is_child_of parent_id r && is_some (scenario_of db r.scenario_id)) db.runs) [
      | none ↦ none
      | some child ↦ scenario_rubric (scenario_of db child.scenario_id)
    ]

abbrev badge_of : Option RunMetrics → Option Badge
badge_of none = none
badge_of (some m) = m.result_badge

abbrev score_of : Option RunMetrics → Option ℕ
score_of none = none
score_of (some m) = m.score

-- `verdict_for_run(row["status"], row["metrics"])`
unfoldable pub run_verdict : Run → Verdict
unfolding verdict_for_run
run_verdict r = verdict_for_run r.status (badge_of r.metrics) (score_of r.metrics)

-- `if v != "idle"`
unfoldable pub judged_only : List Verdict → List Badge
judged_only [] = []
judged_only (idle ∷ vs) = judged_only vs
judged_only (judged b ∷ vs) = b ∷ judged_only vs

unfoldable pub child_verdicts : ℕ → Db → List Badge
unfolding run_verdict judged_only select
child_verdicts parent_id db = judged_only (map run_verdict (select (is_child_of parent_id) db.runs))

abbrev is_redteam : RunType → Bool
is_redteam redteam = true
is_redteam _ = false

unfoldable pub batch_verdict : Run → Db → Badge
unfolding child_verdicts batch_rubric evaluate_batch any
batch_verdict parent db =
    let verdicts = child_verdicts parent.id db in
    if is_redteam parent.type && any is_fail verdicts
    then fail
    else evaluate_batch verdicts (batch_rubric parent.id db) pass

-- `json.dumps({"resultBadge": batch_verdict})`
abbrev pub badge_metrics : Badge → RunMetrics
badge_metrics badge = record {
  score = none;
  result_badge = some badge;
  avg_latency_ms = none;
  turns_completed = none;
  interruptions = none;
  discovery_result = none;
  findings_count = none;
}

abbrev pub final_status : Tally → RunStatus
final_status tally = if ltb 0 tally.cancelled then cancelled else completed

-- `_CLOSE_PARENT_SQL`
abbrev pub set_closed : ℕ → RunStatus → Run → Run
set_closed now status r = record r { status = status; ended_at = some now }

-- `_SET_PARENT_METRICS_SQL`
abbrev pub set_metrics : RunMetrics → Run → Run
set_metrics metrics r = record r { metrics = some metrics }

-- `_SET_PARENT_METRICS_SQL` with the verdict of the batch.
unfoldable pub record_verdict : Run → Db → Db
record_verdict parent db =
    update_runs (has_id parent.id) (set_metrics (badge_metrics (batch_verdict parent db))) db

-- The end of `_close_if_done`, from the choice of `final_status` on.
unfoldable pub close_parent : ℕ → Run → Tally → Db → Db
close_parent now parent tally db =
    let status = final_status tally in
    let closed = update_runs (has_id parent.id) (set_closed now status) db in
    let told = (emit parent.id (Event.status status) closed).0 in
    if is_cancelled status then told else record_verdict parent told

abbrev pub progress : ℕ → Tally → Db → Db
progress parent_id tally db =
    (emit parent_id
      (Event.progress
        (record { completed_count = tally.total - tally.live; total_count = tally.total }))
      db).0

unfoldable pub close_if_done : ℕ → ℕ → Db → Db
close_if_done now parent_id db = elim (find_run parent_id db) [
  | none ↦ db
  | some parent ↦
      if is_terminal parent.status
      then db
      else let tally = tally_children parent_id db in
        let told = progress parent_id tally db in
        if ltb 0 tally.live then told else close_parent now parent tally told
]

abbrev pub parent_of : Option Run → Option ℕ
parent_of none = none
parent_of (some child) = child.parent_run_id

unfoldable pub maybe_close_parent : ℕ → ℕ → Db → Db
maybe_close_parent now child_run_id db = elim (parent_of (find_run child_run_id db)) [
  | none ↦ db
  | some parent_id ↦ close_if_done now parent_id db
]

unfoldable pub close_parent_now : ℕ → ℕ → Db → Db
close_parent_now now parent_id db = close_if_done now parent_id db
