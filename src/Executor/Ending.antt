-- ===== src/Executor/Ending.antt =====
-- How the executors of app/engine/executor leave the row of a run.
use qa_test_backend.Prelude.{
  ℕ, ◌≡◌, refl, ◌∙◌, ap, Option, none, some, Bool, true, false, List, [], ◌∷◌, String, arith,
  find-update_where-some,
}
use qa_test_backend.Verdict.{RunStatus, is_terminal}
use qa_test_backend.Store.Payload.{Event}
use qa_test_backend.Store.{Db, Run, has_id, find_run, update_runs, emit}
use qa_test_backend.Store.Rows.{find_id-id}
use qa_test_backend.Rollup.{maybe_close_parent}
use qa_test_backend.Rollup.Close.{emit-runs}
use qa_test_backend.Rollup.Child.{maybe_close_parent-Keeps}
use qa_test_backend.Executor.{fail_run, set_failed, emit_all, finish_run}

-- A change of a row that ends the run.
pub record EndsRun (change : Run → Run) : Type 0 where
  pub same_id : (r : Run) → (change r).id ≡ r.id
  pub ended : (r : Run) → is_terminal (change r).status ≡ true

pub emit_all-runs : (i : ℕ) (es : List Event) (db : Db) → (emit_all i es db).runs ≡ db.runs
unfolding emit_all
emit_all-runs i [] db = refl
emit_all-runs i (e ∷ es) db = emit_all-runs i es (emit i e db).0 ∙ emit-runs i e db

-- A row that is changed to an ended one stays as it is when the batch is rolled up.
closed-row :
    (change : Run → Run) (now i : ℕ) (db : Db) (row : Run)
    → EndsRun change
    → find_run i db ≡ some row
    → find_run i (maybe_close_parent now i (update_runs (has_id i) change db)) ≡ some (change row)
closed-row change now i db row ends found =
    let (after, there, kept) = maybe_close_parent-Keeps now i i marked (change row) changed in
    there ∙ ap some (kept.ended (ends.ended row))
  where
    marked : Db
    marked = update_runs (has_id i) change db

    changed : find_run i marked ≡ some (change row)
    changed =
        find-update_where-some (has_id i) (has_id i) change (λ r. ground (arith, ends.same_id r))
          row db.runs found
        ∙ ap some (let e = find_id-id i row db.runs found in ground (arith, e))

-- Whatever its status was, a run that is there is failed by `_fail`, for an error, and ends now.
pub fail_run-row :
    (now i : ℕ) (code message : String) (db : Db) (row : Run)
    → find_run i db ≡ some row
    → find_run i (fail_run now i code message db) ≡ some (set_failed now row)
unfolding fail_run
fail_run-row now i code message db row found =
    closed-row (set_failed now) now i _ row (record { same_id = λ r. refl; ended = λ r. refl })
      (rw emit-runs found)

-- What a part that writes read tables may change: neither the runs nor the log.
pub record WritesTables (materialize : Db → Option Db) : Type 0 where
  pub runs : (db after : Db) → materialize db ≡ some after → after.runs ≡ db.runs
  pub events : (db after : Db) → materialize db ≡ some after → after.events ≡ db.events

module _ (allowed : RunStatus → Bool) (materialize : Db → Option Db) (change : Run → Run)
    (events : List Event) (now i : ℕ) (db : Db) where
  pub finish_run_absent :
      find_run i db ≡ none → finish_run allowed materialize change events now i db ≡ none
  unfolding finish_run
  finish_run_absent absent = ground (arith, absent)

  pub finish_run_refused :
      (row : Run)
      → find_run i db ≡ some row
      → allowed row.status ≡ false
      → finish_run allowed materialize change events now i db ≡ some db
  unfolding finish_run
  finish_run_refused row found refused = ground (arith, found, refused)

  pub finish_run_written :
      (row : Run) (after : Db)
      → find_run i db ≡ some row
      → allowed row.status ≡ true
      → materialize (emit_all i events db) ≡ some after
      → finish_run allowed materialize change events now i db
        ≡ some (maybe_close_parent now i (update_runs (has_id i) change after))
  unfolding finish_run
  finish_run_written row after found may made = ground (arith, found, may, made)

  pub finish_run_raised :
      (row : Run)
      → find_run i db ≡ some row
      → allowed row.status ≡ true
      → materialize (emit_all i events db) ≡ none
      → finish_run allowed materialize change events now i db ≡ none
  unfolding finish_run
  finish_run_raised row found may made = ground (arith, found, may, made)

  -- The row that a transaction which writes leaves: the change is applied, and nothing is lost of it when
  -- the batch is rolled up.
  pub finish_run-row :
      (row : Run) (after : Db)
      → WritesTables materialize
      → EndsRun change
      → find_run i db ≡ some row
      → allowed row.status ≡ true
      → materialize (emit_all i events db) ≡ some after
      → find_run i (maybe_close_parent now i (update_runs (has_id i) change after))
        ≡ some (change row)
  finish_run-row row after writes ends found may made =
      closed-row change now i after row ends
        (rw (writes.runs (emit_all i events db) after made ∙ emit_all-runs i events db) found)
