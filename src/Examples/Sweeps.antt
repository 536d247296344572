-- ===== src/Examples/Sweeps.antt =====
-- The theorems on app/workers/reaper.py and app/workers/fake_runner.py at a red-team batch.
use qa_test_backend.Prelude.{◌+◌, ◌≡◌, refl, some, true, find, any, count_where}
use qa_test_backend.Verdict.{pass, fail, judged, completed, running, is_terminal}
use qa_test_backend.Store.{Run, find_run}
use qa_test_backend.Store.Unique.{IsUnique}
use qa_test_backend.Rollup.{close_if_done, run_verdict}
use qa_test_backend.Reaper.{reap_stale_runs, reconcile_orphaned_parents}
use qa_test_backend.Reaper.Reap.{reap_stale_runs-ends, reap_stale_runs-Keeps}
use qa_test_backend.Reaper.Reconcile.{
  reconcile_orphaned_parents-completed, reconcile_orphaned_parents-hides_fail,
}
use qa_test_backend.Claim.{live_runs}
use qa_test_backend.Runner.{start_run}
use qa_test_backend.Runner.Start.{start_run-revives}
use qa_test_backend.Examples.Data.{
  nobody, open_batch, ended_batch, parent_one, failed_two, running_three,
}

reap_stale_runs-ends_example :
    (after : Run) × (find_run 3 (reap_stale_runs nobody 60 100 open_batch).0 ≡ some after)
    × (is_terminal after.status ≡ true)
unfolding find
reap_stale_runs-ends_example =
    reap_stale_runs-ends nobody 60 100 open_batch 3 running_three refl refl refl

reap_stale_runs-Keeps_example :
    find_run 2 (reap_stale_runs nobody 60 100 open_batch).0 ≡ some failed_two
unfolding find
reap_stale_runs-Keeps_example =
    reap_stale_runs-Keeps nobody 60 100 open_batch 2 failed_two refl refl

reconcile_orphaned_parents-completed_example :
    (after : Run) × (find_run 1 (reconcile_orphaned_parents nobody 100 ended_batch).0 ≡ some after)
    × (after.status ≡ completed)
unfolding find any
reconcile_orphaned_parents-completed_example =
    reconcile_orphaned_parents-completed nobody 100 ended_batch 1 parent_one refl refl refl

reconcile_orphaned_parents-hides_fail_example :
    ((after : Run) × (find_run 1 (reconcile_orphaned_parents nobody 50 ended_batch).0 ≡ some after)
      × (run_verdict after ≡ judged pass))
    × ((after : Run) × (find_run 1 (close_if_done 50 1 ended_batch) ≡ some after)
        × (run_verdict after ≡ judged fail))
unfolding find count_where any
reconcile_orphaned_parents-hides_fail_example =
    reconcile_orphaned_parents-hides_fail nobody 50 1 ended_batch parent_one refl refl refl refl
      refl refl refl

open_batch-IsUnique : IsUnique open_batch.runs
unfolding any
open_batch-IsUnique = (refl, (refl, (refl, tt)))

start_run-revives_example :
    (after : Run) × (find_run 2 (start_run 50 2 open_batch) ≡ some after)
    × (after.status ≡ running)
    × (live_runs 7 (start_run 50 2 open_batch).runs ≡ live_runs 7 open_batch.runs + 1)
unfolding find
start_run-revives_example =
    start_run-revives 50 2 open_batch failed_two open_batch-IsUnique refl refl
