-- ===== src/Cancel.antt =====
-- `cancel_run` of app/api/runs.py, with `ensure_project_match` of app/deps.py.
pub mod Batch
use qa_test_backend.Prelude.{
  ℕ, Option, none, some, Bool, true, false, List, [], ◌∷◌, map, ◌&&◌, not, ◌==◌, select, any,
  if◌then◌else◌,
}
use qa_test_backend.Verdict.{RunStatus, queued, claimed, running, cancelled, is_terminal}
use qa_test_backend.Store.{Db, Run, has_id, is_child_of, find_run, update_runs, notify}
use qa_test_backend.Rollup.{is_live_child_of, maybe_close_parent, close_parent_now}

-- The answers: 204, 404 and 409.
pub data Reply : Type 0 where
  no_content not_found conflict : Reply

-- `_CANCELLABLE_STATUSES`
abbrev pub is_cancellable : RunStatus → Bool
is_cancellable queued = true
is_cancellable claimed = true
is_cancellable running = true
is_cancellable _ = false

abbrev pub set_cancelled : Run → Run
set_cancelled r = record r { status = cancelled }

abbrev pub is_cancellable_child_of : ℕ → Run → Bool
is_cancellable_child_of parent_id r = is_child_of parent_id r && is_cancellable r.status

unfoldable pub notify_all : List ℕ → Db → Db
notify_all [] db = db
notify_all (i ∷ ids) db = notify_all ids (notify i db)

-- The branch of a batch parent: every live child, then the parent, in the same transaction.
unfoldable pub cancel_batch : ℕ → ℕ → Db → Db
unfolding notify_all select
cancel_batch now run_id db =
    let child_ids = map (λ r. r.id) (select (is_cancellable_child_of run_id) db.runs) in
    let cancelled_db = update_runs (is_cancellable_child_of run_id) set_cancelled db in
    notify_all child_ids (close_parent_now now run_id cancelled_db)

unfoldable pub cancel_single : ℕ → ℕ → Db → Db
cancel_single now run_id db =
    maybe_close_parent now run_id (update_runs (has_id run_id) set_cancelled db)

unfoldable pub cancel_run : ℕ → ℕ → ℕ → Db → Db × Reply
unfolding cancel_batch cancel_single any
cancel_run now run_id project_id db = elim (find_run run_id db) [
  | none ↦ (db, not_found)
  | some row ↦
      if not (row.project_id == project_id)
      then (db, not_found)
      else if not (is_cancellable row.status)
      then (db, conflict)
      else (
        notify run_id (
            if any (is_child_of run_id) db.runs
            then cancel_batch now run_id db
            else cancel_single now run_id db),
        no_content,
      )
]
