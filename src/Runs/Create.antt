-- ===== src/Runs/Create.antt =====
-- `_create_run` of app/api/runs.py as one transaction: the look-up of the agent, the count of its live runs
-- and the insertion that a taken idempotency key turns into a look-up. The new id and `now()` are arguments.
pub mod Retry
use qa_test_backend.Prelude.{
  ℕ, suc, Option, none, some, Bool, false, List, [], ◌∷◌, ◌++◌, ◌&&◌, ◌==◌, leb, find, String,
  text_eq, if◌then◌else◌,
}
use qa_test_backend.Verdict.{queued}
use qa_test_backend.Store.{Db, Run, RunType, Agent}
use qa_test_backend.Cancel.{is_cancellable}

-- The arguments of `_create_run` that the tables keep here.
pub record Request : Type 0 where
  pub project_id : ℕ
  pub run_type : RunType
  pub agent_id : ℕ
  pub scenario_id : Option ℕ
  pub idempotency_key : Option String
  pub rerun_of_run_id : Option ℕ

-- The id that is returned, or the `APIError`: 404 or 409.
pub data Answer : Type 0 where
  run_id : ℕ → Answer
  agent_not_found concurrency_limit : Answer

abbrev pub is_agent_of : Request → Agent → Bool
is_agent_of req agent = agent.id == req.agent_id && agent.project_id == req.project_id

abbrev pub is_live_of : ℕ → Run → Bool
is_live_of agent_id r = r.agent_id == agent_id && is_cancellable r.status

-- `_LIVE_RUN_COUNT_SQL`; `_LIVE_STATUSES` are the statuses that can be cancelled
unfoldable pub live_run_count : ℕ → List Run → ℕ
live_run_count agent_id [] = 0
live_run_count agent_id (r ∷ rs) =
    let rest = live_run_count agent_id rs in if is_live_of agent_id r then suc rest else rest

-- Whether two keys are equal: NULL is equal to nothing.
abbrev pub same_key : Option String → Option String → Bool
same_key (some k) (some l) = text_eq k l
same_key _ _ = false

abbrev pub is_keyed : Request → Run → Bool
is_keyed req r = r.project_id == req.project_id && same_key r.idempotency_key req.idempotency_key

abbrev pub new_run : ℕ → ℕ → Request → Run
new_run now id req = record {
  id = id;
  type = req.run_type;
  status = queued;
  project_id = req.project_id;
  agent_id = req.agent_id;
  scenario_id = req.scenario_id;
  parent_run_id = none;
  rerun_of_run_id = req.rerun_of_run_id;
  idempotency_key = req.idempotency_key;
  created_at = now;
  claimed_by = none;
  heartbeat_at = none;
  started_at = none;
  ended_at = none;
  end_reason = none;
  metrics = none;
}

abbrev pub with_run : Run → Db → Db
with_run r db = record db { runs = db.runs ++ r ∷ [] }

-- `INSERT … ON CONFLICT (project_id, idempotency_key) DO NOTHING`, and the look-up after a conflict
unfoldable pub insert_run : ℕ → ℕ → Request → Option Run → Db → Db × Answer
insert_run now id req none db = (with_run (new_run now id req) db, run_id id)
insert_run now id req (some existing) db = (db, run_id existing.id)

unfoldable pub create_for : ℕ → ℕ → Request → Option Agent → Db → Db × Answer
unfolding insert_run live_run_count find
create_for now id req none db = (db, agent_not_found)
create_for now id req (some agent) db =
    let inserted = insert_run now id req (find (is_keyed req) db.runs) db in
    if leb agent.max_concurrency (live_run_count req.agent_id db.runs)
    then (db, concurrency_limit)
    else inserted

unfoldable pub create_run : ℕ → ℕ → Request → Db → Db × Answer
unfolding create_for find
create_run now id req db = create_for now id req (find (is_agent_of req) db.agents) db
