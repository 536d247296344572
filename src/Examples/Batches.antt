-- ===== src/Examples/Batches.antt =====
-- The theorems on app/workers/rollup.py and on `cancel_run` of app/api/runs.py at a red-team batch.
use qa_test_backend.Prelude.{ℕ, ◌≡◌, ◌≢◌, ◌<◌, ◌⊎◌, refl, some, true, find, any, count_where}
use qa_test_backend.Verdict.{fail, judged, is_terminal}
use qa_test_backend.Store.{Run, find_run}
use qa_test_backend.Rollup.{tally_children, close_if_done, maybe_close_parent, run_verdict}
use qa_test_backend.Rollup.Close.{IsClosed, close_if_done-row}
use qa_test_backend.Rollup.Child.{IsKept, maybe_close_parent-Keeps}
use qa_test_backend.Rollup.RedTeam.{close_if_done-redteam_fail}
use qa_test_backend.Cancel.{no_content, cancel_run, set_cancelled, is_cancellable_child_of}
use qa_test_backend.Cancel.Batch.{IsAnswered, cancel_run-ends, cancel_run_refused}
use qa_test_backend.Examples.Data.{open_batch, ended_batch, parent_one}

close_if_done-row_example :
    (0 < (tally_children 1 ended_batch).live)
      × (find_run 1 (close_if_done 50 1 ended_batch) ≡ some parent_one)
    ⊎ (after : Run) × ((tally_children 1 ended_batch).live ≡ 0)
      × (find_run 1 (close_if_done 50 1 ended_batch) ≡ some after)
      × IsClosed 50 (tally_children 1 ended_batch) parent_one after
unfolding find
close_if_done-row_example = close_if_done-row 50 1 ended_batch parent_one refl refl

maybe_close_parent-Keeps_example :
    (after : Run) × (find_run 1 (maybe_close_parent 50 2 ended_batch) ≡ some after)
    × IsKept parent_one after
unfolding find
maybe_close_parent-Keeps_example = maybe_close_parent-Keeps 50 2 1 ended_batch parent_one refl

close_if_done-redteam_fail_example :
    (after : Run) × (find_run 1 (close_if_done 50 1 ended_batch) ≡ some after)
    × (run_verdict after ≡ judged fail)
unfolding find count_where any
close_if_done-redteam_fail_example =
    close_if_done-redteam_fail 50 1 ended_batch parent_one refl refl refl refl refl refl

cancel_run-ends_example :
    ((cancel_run 50 1 1 open_batch).1 ≡ no_content)
    × ((after : Run) × (find_run 1 (cancel_run 50 1 1 open_batch).0 ≡ some after)
        × (is_terminal after.status ≡ true))
    × ((c : ℕ) (child : Run)
        → c ≢ 1
        → find_run c open_batch ≡ some child
        → is_cancellable_child_of 1 child ≡ true
        → find_run c (cancel_run 50 1 1 open_batch).0 ≡ some (set_cancelled child))
unfolding find
cancel_run-ends_example = cancel_run-ends 50 1 1 open_batch parent_one refl refl refl

cancel_run_refused_example : IsAnswered 1 2 open_batch (cancel_run 50 1 2 open_batch)
cancel_run_refused_example = cancel_run_refused 50 1 2 open_batch
