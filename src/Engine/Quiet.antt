-- ===== src/Engine/Quiet.antt =====
-- The transactions of app/workers and of the cancel endpoint that may run between the statements of a
-- claim (app/workers/claim.py) without harm.
use qa_test_backend.Prelude.{
  ℕ, ◌≤◌, ◌≡◌, refl, sym, subst, ◌∙◌, Bool, true, List, [], ◌∷◌, count_where, update_where, amend,
  any-update_where, arith, Bool-cases, Option-cases, inl, inr, map, select,
}
use native.Mathlib.Nat.{le_refl, le_trans}
use qa_test_backend.Verdict.{completed, failed}
use qa_test_backend.Store.Payload.{Event}
use qa_test_backend.Store.{Db, Run, has_id, emit, update_runs, notify, find_run}
use qa_test_backend.Store.Unique.{IsUnique}
use qa_test_backend.Rollup.{
  Tally, set_closed, set_metrics, badge_metrics, batch_verdict, record_verdict, close_parent,
  close_if_done, maybe_close_parent, final_status, tally_children, parent_of, close_parent_now,
}
use qa_test_backend.Rollup.Close.{close_if_done_ind, close_parent_cases, told, informed}
use qa_test_backend.Rollup.Child.{maybe_close_parent-none, maybe_close_parent-some}
use qa_test_backend.Reaper.{
  is_executing_run, worker_lost, reap_run, reap_all, reap_stale_runs, stale_ids, reconcile_parent,
  reconcile_all, reconcile_orphaned_parents, orphaned_ids,
}
use qa_test_backend.Cancel.{
  cancel_run, cancel_batch, cancel_single, notify_all, set_cancelled, is_cancellable_child_of,
}
use qa_test_backend.Cancel.Batch.{cancel_run-either}
use qa_test_backend.Claim.{live_runs, is_executing_for}
use qa_test_backend.Claim.Concurrent.{IsQuiet}
use qa_test_backend.Runner.{update_heartbeat, set_heartbeat}

IsQuiet-refl : (db : Db) → IsQuiet db db
IsQuiet-refl db = record { unique = λ u. u; agents = refl; live = λ a. le_refl _ }

IsQuiet-trans : {db d e : Db} → IsQuiet db d → IsQuiet d e → IsQuiet db e
IsQuiet-trans q p = record {
  unique = λ u. p.unique (q.unique u);
  agents = p.agents ∙ q.agents;
  live = λ a. le_trans (p.live a) (q.live a);
}

module _ (test : Run → Bool) (f : Run → Run) (keeps : (r : Run) → (f r).id ≡ r.id)
    (harmless : (a : ℕ) (r : Run)
      → is_executing_for a (f r) ≡ true
      → is_executing_for a r ≡ true) where
  live-update :
      (a : ℕ) (rows : List Run) → live_runs a (update_where test f rows) ≤ live_runs a rows
  unfolding count_where update_where
  live-update a [] = omega arith
  live-update a (r ∷ rows) = elim (Bool-cases (test r)) [
    | inr e ↦ rw e (ground (arith, live-update a rows))
    | inl e ↦ rw e (ground (arith, live-update a rows, harmless a r))
  ]

  has_id-amended : (j : ℕ) (r : Run) → has_id j (amend test f r) ≡ has_id j r
  has_id-amended j r = ground (arith, keeps r)

  IsUnique-update : (rows : List Run) → IsUnique rows → IsUnique (update_where test f rows)
  unfolding update_where
  IsUnique-update [] u = tt
  IsUnique-update (r ∷ rows) u = elim (Bool-cases (test r)) [
    | inr e ↦ rw e (
      any-update_where (has_id r.id) test f (has_id-amended r.id) rows ∙ u.0,
      IsUnique-update rows u.1,
    )
    | inl e ↦ rw e (
      rw (keeps r) (any-update_where (has_id r.id) test f (has_id-amended r.id) rows ∙ u.0),
      IsUnique-update rows u.1,
    )
  ]

  update_runs-IsQuiet : (db : Db) → IsQuiet db (update_runs test f db)
  update_runs-IsQuiet db = record {
    unique = IsUnique-update db.runs;
    agents = refl;
    live = λ a. live-update a db.runs;
  }

emit-IsQuiet : (i : ℕ) (event : Event) (db : Db) → IsQuiet db (emit i event db).0
unfolding emit
emit-IsQuiet i event db = record { unique = λ u. u; agents = refl; live = λ a. le_refl _ }

closed_harmless :
    (now : ℕ) (tally : Tally) (a : ℕ) (r : Run)
    → is_executing_for a (set_closed now (final_status tally) r) ≡ true
    → is_executing_for a r ≡ true
closed_harmless now tally a r h = ground arith

record_verdict-IsQuiet : (parent : Run) (db : Db) → IsQuiet db (record_verdict parent db)
unfolding record_verdict
record_verdict-IsQuiet parent db =
    update_runs-IsQuiet (has_id parent.id) (set_metrics (badge_metrics (batch_verdict parent db)))
      (λ r. refl) (λ a r h. h) db

told-IsQuiet :
    (now : ℕ) (parent : Run) (tally : Tally) (db : Db) → IsQuiet db (told now parent tally db)
told-IsQuiet now parent tally db =
    IsQuiet-trans
      (update_runs-IsQuiet (has_id parent.id) (set_closed now (final_status tally)) (λ r. refl)
        (closed_harmless now tally) db)
      (emit-IsQuiet parent.id (Event.status (final_status tally)) _)

close_parent-IsQuiet :
    (now : ℕ) (parent : Run) (tally : Tally) (db : Db)
    → IsQuiet db (close_parent now parent tally db)
close_parent-IsQuiet now parent tally db = elim (close_parent_cases now parent tally db) [
  | inl (e, c) ↦ subst (IsQuiet db) (sym e) (told-IsQuiet now parent tally db)
  | inr (e, c) ↦
      subst (IsQuiet db) (sym e)
        (IsQuiet-trans (told-IsQuiet now parent tally db) (record_verdict-IsQuiet parent _))
]

close_if_done-IsQuiet : (now p : ℕ) (db : Db) → IsQuiet db (close_if_done now p db)
close_if_done-IsQuiet now p db =
    close_if_done_ind now p db (IsQuiet db) (IsQuiet-refl db) (emit-IsQuiet p _ db) (λ parent found.
      IsQuiet-trans (emit-IsQuiet p _ db)
        (close_parent-IsQuiet now parent (tally_children p db) (informed now p db)))

maybe_close_parent-IsQuiet : (now i : ℕ) (db : Db) → IsQuiet db (maybe_close_parent now i db)
maybe_close_parent-IsQuiet now i db = elim (Option-cases (parent_of (find_run i db))) [
  | inl e ↦ subst (IsQuiet db) (sym (maybe_close_parent-none now i db e)) (IsQuiet-refl db)
  | inr (p, e) ↦
      subst (IsQuiet db) (sym (maybe_close_parent-some now i db p e))
        (close_if_done-IsQuiet now p db)
]

reap_all-IsQuiet :
    (threshold now : ℕ) (ids : List ℕ) (db : Db) → IsQuiet db (reap_all threshold now ids db)
unfolding reap_all reap_run
reap_all-IsQuiet threshold now [] db = IsQuiet-refl db
reap_all-IsQuiet threshold now (i ∷ ids) db =
    IsQuiet-trans (emit-IsQuiet i (worker_lost threshold) db) (
      IsQuiet-trans
        (update_runs-IsQuiet (is_executing_run i) (set_closed now failed) (λ r. refl)
          (λ a r h. absurd (ground arith)) _)
        (IsQuiet-trans (maybe_close_parent-IsQuiet now i _) (reap_all-IsQuiet threshold now ids _)))

reconcile_all-IsQuiet : (now : ℕ) (ids : List ℕ) (db : Db) → IsQuiet db (reconcile_all now ids db)
unfolding reconcile_all reconcile_parent
reconcile_all-IsQuiet now [] db = IsQuiet-refl db
reconcile_all-IsQuiet now (i ∷ ids) db =
    IsQuiet-trans
      (update_runs-IsQuiet (has_id i) (set_closed now completed) (λ r. refl)
        (λ a r h. absurd (ground arith)) db)
      (IsQuiet-trans (emit-IsQuiet i (Event.status completed) _) (reconcile_all-IsQuiet now ids _))

notify_all-IsQuiet : (ids : List ℕ) (db : Db) → IsQuiet db (notify_all ids db)
unfolding notify_all
notify_all-IsQuiet [] db = IsQuiet-refl db
notify_all-IsQuiet (i ∷ ids) db =
    IsQuiet-trans (record { unique = λ u. u; agents = refl; live = λ a. le_refl _ })
      (notify_all-IsQuiet ids (notify i db))

cancelled-IsQuiet : (test : Run → Bool) (db : Db) → IsQuiet db (update_runs test set_cancelled db)
cancelled-IsQuiet test db =
    update_runs-IsQuiet test set_cancelled (λ r. refl) (λ a r h. absurd (ground arith)) db

cancel_batch-IsQuiet : (now i : ℕ) (db : Db) → IsQuiet db (cancel_batch now i db)
unfolding cancel_batch close_parent_now
cancel_batch-IsQuiet now i db = IsQuiet-trans (cancelled-IsQuiet (is_cancellable_child_of i) db) (
    IsQuiet-trans (close_if_done-IsQuiet now i _)
      (notify_all-IsQuiet (map (λ r. r.id) (select (is_cancellable_child_of i) db.runs)) _))

cancel_single-IsQuiet : (now i : ℕ) (db : Db) → IsQuiet db (cancel_single now i db)
unfolding cancel_single
cancel_single-IsQuiet now i db =
    IsQuiet-trans (cancelled-IsQuiet (has_id i) db) (maybe_close_parent-IsQuiet now i _)

notify-IsQuiet : {db d : Db} (i : ℕ) → IsQuiet db d → IsQuiet db (notify i d)
notify-IsQuiet i q = record { unique = q.unique; agents = q.agents; live = q.live }

cancel_run-IsQuiet : (now i project : ℕ) (db : Db) → IsQuiet db (cancel_run now i project db).0
cancel_run-IsQuiet now i project db = elim (cancel_run-either now i project db) [
  | inl same ↦ subst (IsQuiet db) (sym same) (IsQuiet-refl db)
  | inr (inl batch) ↦
      subst (IsQuiet db) (sym batch) (notify-IsQuiet i (cancel_batch-IsQuiet now i db))
  | inr (inr single) ↦
      subst (IsQuiet db) (sym single) (notify-IsQuiet i (cancel_single-IsQuiet now i db))
]

-- Heartbeats, cancels and both sweeps of the reaper are transactions that may run between the statements
-- of a claim: they give no agent one more live run, keep the ids of runs apart and the agents as they are.
pub environment-IsQuiet :
    (db : Db)
    → ((now i : ℕ) → IsQuiet db (update_heartbeat now i db))
      × ((now i project : ℕ) → IsQuiet db (cancel_run now i project db).0)
      × ((locked : ℕ → Bool) (threshold now : ℕ)
          → IsQuiet db (reap_stale_runs locked threshold now db).0)
      × ((locked : ℕ → Bool) (now : ℕ) → IsQuiet db (reconcile_orphaned_parents locked now db).0)
unfolding update_heartbeat reap_stale_runs reconcile_orphaned_parents
environment-IsQuiet db = (
  (λ now i. update_runs-IsQuiet (has_id i) (set_heartbeat now) (λ r. refl) (λ a r h. h) db),
  (λ now i project. cancel_run-IsQuiet now i project db),
  (λ locked threshold now. reap_all-IsQuiet threshold now (stale_ids locked threshold now db) db),
  (λ locked now. reconcile_all-IsQuiet now (orphaned_ids locked db) db),
)
