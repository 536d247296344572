-- ===== src/Reaper.antt =====
-- app/workers/reaper.py. Each function is one transaction; `locked` are the rows that other
-- transactions hold, which `FOR UPDATE SKIP LOCKED` passes over.
pub mod Reap
pub mod Reconcile
use qa_test_backend.Prelude.{
  ℕ, ◌+◌, Option, none, some, Bool, true, false, List, [], ◌∷◌, map, ◌&&◌, not, ltb, select, any,
  if◌then◌else◌, is_some, decimal, append_text,
}
use qa_test_backend.Verdict.{RunStatus, claimed, running, completed, failed, is_terminal}
use qa_test_backend.Store.Payload.{Event}
use qa_test_backend.Store.{Db, Run, has_id, is_child_of, update_runs, emit}
use qa_test_backend.Rollup.{is_live_child_of, set_closed, maybe_close_parent}

-- `status IN ('claimed', 'running')`
abbrev pub is_executing : RunStatus → Bool
is_executing claimed = true
is_executing running = true
is_executing _ = false

-- `heartbeat_at < now() - threshold`, which a null heartbeat never satisfies
abbrev is_older : Option ℕ → ℕ → ℕ → Bool
is_older none threshold now = false
is_older (some t) threshold now = ltb (t + threshold) now

abbrev pub is_stale : ℕ → ℕ → Run → Bool
is_stale threshold now r = is_executing r.status && is_older r.heartbeat_at threshold now

abbrev run_ids : List Run → List ℕ
run_ids rows = map (λ r. r.id) rows

-- `_FIND_STALE_SQL`
unfoldable pub stale_ids : (ℕ → Bool) → ℕ → ℕ → Db → List ℕ
unfolding select
stale_ids locked threshold now db =
    run_ids (select (λ r. is_stale threshold now r && not (locked r.id)) db.runs)

abbrev pub worker_lost : ℕ → Event
worker_lost threshold = Event.error (record {
  code = "worker_lost";
  message = append_text "no heartbeat in over " (append_text (decimal threshold) "s");
  fatal = true;
})

abbrev pub is_executing_run : ℕ → Run → Bool
is_executing_run run_id r = has_id run_id r && is_executing r.status

-- The body of the loop of `reap_stale_runs`.
unfoldable pub reap_run : ℕ → ℕ → ℕ → Db → Db
unfolding decimal
reap_run threshold now run_id db =
    let told = (emit run_id (worker_lost threshold) db).0 in
    let failed_db = update_runs (is_executing_run run_id) (set_closed now failed) told in
    maybe_close_parent now run_id failed_db

unfoldable pub reap_all : ℕ → ℕ → List ℕ → Db → Db
unfolding reap_run
reap_all threshold now [] db = db
reap_all threshold now (run_id ∷ ids) db =
    reap_all threshold now ids (reap_run threshold now run_id db)

unfoldable pub reap_stale_runs : (ℕ → Bool) → ℕ → ℕ → Db → Db × List ℕ
unfolding stale_ids reap_all
reap_stale_runs locked threshold now db =
    let ids = stale_ids locked threshold now db in (reap_all threshold now ids db, ids)

-- `_FIND_ORPHANED_PARENTS_SQL`
abbrev pub is_orphaned_parent : List Run → Run → Bool
is_orphaned_parent runs p =
    not (is_some p.parent_run_id)
    && not (is_terminal p.status)
    && any (is_child_of p.id) runs
    && not (any (is_live_child_of p.id) runs)

unfoldable pub orphaned_ids : (ℕ → Bool) → Db → List ℕ
unfolding select any
orphaned_ids locked db =
    run_ids (select (λ p. is_orphaned_parent db.runs p && not (locked p.id)) db.runs)

unfoldable pub reconcile_parent : ℕ → ℕ → Db → Db
reconcile_parent now parent_id db =
    (emit parent_id (Event.status completed)
      (update_runs (has_id parent_id) (set_closed now completed) db)).0

unfoldable pub reconcile_all : ℕ → List ℕ → Db → Db
unfolding reconcile_parent
reconcile_all now [] db = db
reconcile_all now (parent_id ∷ ids) db = reconcile_all now ids (reconcile_parent now parent_id db)

unfoldable pub reconcile_orphaned_parents : (ℕ → Bool) → ℕ → Db → Db × List ℕ
unfolding orphaned_ids reconcile_all
reconcile_orphaned_parents locked now db =
    let ids = orphaned_ids locked db in (reconcile_all now ids db, ids)
