-- ===== src/Examples/Creations.antt =====
-- The theorem on `_create_run` of app/api/runs.py at an agent with room for one run, and the theorem on
-- `rerun_run` at a batch with one failed child.
use qa_test_backend.Prelude.{◌+◌, ◌∷◌, ℕ, any, ◌≡◌, refl, some, none, [], find}
use qa_test_backend.Store.{Db, simulation}
use qa_test_backend.Runs.Create.{
  Request, new_run, with_run, create_run, live_run_count, run_id, concurrency_limit,
}
use qa_test_backend.Runs.Create.Retry.{create_run-retry}
use qa_test_backend.Runs.Rerun.{failed_only, chosen, children_of, rerun_run}
use qa_test_backend.Runs.Rerun.Batch.{IsCloneOf, rerun_run-IsCloneOf}
use qa_test_backend.Examples.Data.{with_runs, agent_seven, parent_one, failed_two}

abbrev click : Request
click = record {
  project_id = 1;
  run_type = simulation;
  agent_id = 7;
  scenario_id = some 2;
  idempotency_key = some "click";
  rerun_of_run_id = none;
}

abbrev idle : Db
idle = with_runs []

create_run-retry_example :
    (create_run 10 40 click idle ≡ (with_run (new_run 10 40 click) idle, run_id 40))
    × (create_run 11 41 click (with_run (new_run 10 40 click) idle)
        ≡ (with_run (new_run 10 40 click) idle, concurrency_limit))
unfolding find live_run_count
create_run-retry_example =
    create_run-retry 10 40 11 41 click "click" agent_seven idle refl refl refl refl

abbrev ids : ℕ → ℕ
ids k = 10 + k

abbrev failed_batch : Db
failed_batch = with_runs (parent_one ∷ failed_two ∷ [])

rerun_run-IsCloneOf_example :
    IsCloneOf
      (chosen failed_only (children_of 1 failed_batch))
      5
      failed_batch
      (rerun_run 20 ids 5 failed_only 1 1 failed_batch)
unfolding any find
rerun_run-IsCloneOf_example =
    rerun_run-IsCloneOf 20 ids 5 failed_only 1 1 parent_one failed_batch refl refl refl
