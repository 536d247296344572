-- ===== src/Runs/Rerun.antt =====
-- `rerun_run` of app/api/runs.py: a plain run is created again, and a batch is cloned with its children, or
-- with those of them that failed. `fresh` gives the new ids, and the cap of a batch is an argument.
pub mod Batch
use qa_test_backend.Prelude.{
  ℕ, suc, Option, none, some, Bool, true, false, List, [], ◌∷◌, ◌++◌, ◌&&◌, ◌==◌, ltb, any, select,
  sort_by, length, if◌then◌else◌,
}
use qa_test_backend.Verdict.{Verdict, judged, fail, idle}
use qa_test_backend.Store.{Db, Run, RunType, Agent, simulation, is_child_of, find_run}
use qa_test_backend.Rollup.{run_verdict}
use qa_test_backend.Cancel.{is_cancellable}
use qa_test_backend.Runs.Create.{Request, Answer, new_run, create_run}

pub data Only : Type 0 where
  failed_only all_children : Only

-- The two responses, and the errors `not_found`, `conflict`, `validation_error` and `batch_too_large`.
pub data Reply : Type 0 where
  single : Answer → Reply
  batch : ℕ → ℕ → Reply
  not_found conflict validation_error batch_too_large : Reply

abbrev pub is_failed : Verdict → Bool
is_failed (judged fail) = true
is_failed _ = false

-- `_RERUN_CHILDREN_SQL`
unfoldable pub children_of : ℕ → Db → List Run
unfolding select sort_by
children_of run_id db = sort_by (λ r. r.created_at) (select (is_child_of run_id) db.runs)

unfoldable pub chosen : Only → List Run → List Run
unfolding select run_verdict
chosen failed_only children = select (λ c. is_failed (run_verdict c)) children
chosen all_children children = children

abbrev pub clone_of : ℕ → Run → Request
clone_of project_id row = record {
  project_id = project_id;
  run_type = row.type;
  agent_id = row.agent_id;
  scenario_id = row.scenario_id;
  idempotency_key = none;
  rerun_of_run_id = some row.id;
}

-- `_INSERT_RERUN_PARENT_SQL`: the parent has no scenario of its own.
abbrev pub rerun_parent : ℕ → ℕ → ℕ → Run → Run
rerun_parent now id project_id row = record (new_run now id (clone_of project_id row)) {
  scenario_id = none;
}

-- `_INSERT_RERUN_CHILD_SQL`: a child is a simulation, whatever the batch is of.
abbrev pub rerun_child : ℕ → ℕ → ℕ → ℕ → Run → Run → Run
rerun_child now id parent_id project_id row child =
    record (new_run now id (clone_of project_id row)) {
      type = simulation;
      scenario_id = child.scenario_id;
      parent_run_id = some parent_id;
      rerun_of_run_id = none;
    }

unfoldable pub rerun_children : ℕ → (ℕ → ℕ) → ℕ → ℕ → ℕ → Run → List Run → List Run
rerun_children now fresh k parent_id project_id row [] = []
rerun_children now fresh k parent_id project_id row (c ∷ cs) =
    rerun_child now (fresh k) parent_id project_id row c
    ∷ rerun_children now fresh (suc k) parent_id project_id row cs

abbrev pub cloned : ℕ → (ℕ → ℕ) → ℕ → Run → List Run → Db → Db
cloned now fresh project_id row children db = record db {
  runs =
      db.runs
      ++ rerun_parent now (fresh 0) project_id row
        ∷ rerun_children now fresh 1 (fresh 0) project_id row children;
}

-- From the test for an empty selection on.
unfoldable pub clone_batch : ℕ → (ℕ → ℕ) → ℕ → ℕ → Run → List Run → Db → Db × Reply
unfolding rerun_children
clone_batch now fresh cap project_id row [] db = (db, validation_error)
clone_batch now fresh cap project_id row (c ∷ cs) db =
    if ltb cap (length (c ∷ cs))
    then (db, batch_too_large)
    else (cloned now fresh project_id row (c ∷ cs) db, batch (fresh 0) (length (c ∷ cs)))

abbrev pub is_agent_visible : ℕ → ℕ → Agent → Bool
is_agent_visible agent_id project_id agent = agent.id == agent_id && agent.project_id == project_id

unfoldable pub rerun_batch : ℕ → (ℕ → ℕ) → ℕ → Only → ℕ → Run → Db → Db × Reply
unfolding clone_batch chosen children_of any
rerun_batch now fresh cap only project_id row db =
    let children = children_of row.id db in
    let clone = clone_batch now fresh cap project_id row (chosen only children) db in
    if any (is_agent_visible row.agent_id project_id) db.agents
    then (if any (λ c. is_cancellable c.status) children then (db, conflict) else clone)
    else (db, not_found)

abbrev pub answered : Db × Answer → Db × Reply
answered (db, answer) = (db, single answer)

unfoldable pub rerun_found : ℕ → (ℕ → ℕ) → ℕ → Only → ℕ → Option Run → Db → Db × Reply
unfolding rerun_batch any create_run
rerun_found now fresh cap only project_id none db = (db, not_found)
rerun_found now fresh cap only project_id (some row) db =
    let clone = rerun_batch now fresh cap only project_id row db in
    let again = answered (create_run now (fresh 0) (clone_of project_id row) db) in
    if row.project_id == project_id
    then (if any (is_child_of row.id) db.runs then clone else again)
    else (db, not_found)

unfoldable pub rerun_run : ℕ → (ℕ → ℕ) → ℕ → Only → ℕ → ℕ → Db → Db × Reply
unfolding rerun_found
rerun_run now fresh cap only run_id project_id db =
    rerun_found now fresh cap only project_id (find_run run_id db) db
