-- ===== src/Runner/Start.antt =====
-- The first transaction of `run_fake_script` (app/workers/fake_runner.py), which tests no status: what
-- it does to a run that was cancelled or reaped after it was claimed.
use qa_test_backend.Prelude.{ℕ, ◌+◌, ◌≡◌, refl, true, some, arith}
use qa_test_backend.Verdict.{is_terminal, running}
use qa_test_backend.Store.{Db, Run, find_run}
use qa_test_backend.Store.Unique.{IsUnique, count-update_id}
use qa_test_backend.Store.Rows.{find_id-update_self}
use qa_test_backend.Rollup.Close.{emit-runs}
use qa_test_backend.Claim.{live_runs, is_executing_for}
use qa_test_backend.Runner.{set_running, start_run}

-- A run that has ended (cancelled by the user, or failed by the reaper) is running again after
-- `start_run`, and its agent has one more live run than before, whatever the agent's limit is.
pub start_run-revives :
    (now i : ℕ) (db : Db) (row : Run)
    → IsUnique db.runs
    → find_run i db ≡ some row
    → is_terminal row.status ≡ true
    → (after : Run) × (find_run i (start_run now i db) ≡ some after)
      × (after.status ≡ running)
      × (live_runs row.agent_id (start_run now i db).runs ≡ live_runs row.agent_id db.runs + 1)
unfolding start_run
start_run-revives now i db row u h t = (
  set_running now row,
  rw emit-runs (find_id-update_self i _ (λ r. refl) row db.runs h),
  refl,
  rw emit-runs (
      ground (
        arith,
        t,
        count-update_id i (set_running now) (is_executing_for row.agent_id) db.runs row u h,
      )),
)
