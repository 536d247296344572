-- ===== src/Reaper/Reconcile.antt =====
-- `reconcile_orphaned_parents` of app/workers/reaper.py, and how it differs from the rollup.
use qa_test_backend.Prelude.{
  ℕ, ◌≡◌, ◌≢◌, refl, subst, count_where, ◌∙◌, none, some, arith, Bool, true, false, List, [], ◌∷◌,
  any, ◌&&◌, not, ◌==◌, any-select_found,
}
use native.Mathlib.Decide.{ℕ_discrete}
use qa_test_backend.Verdict.{completed, pass, fail, judged}
use qa_test_backend.Store.{Db, Run, has_id, find_run, redteam}
use qa_test_backend.Store.Log.{IsGapless, emit-IsGapless}
use qa_test_backend.Store.Rows.{find_id-id, find_id-update_self, find_id-update_other}
use qa_test_backend.Store.Payload.{Event}
use qa_test_backend.Rollup.{
  set_closed, close_if_done, run_verdict, tally_children, is_live_child_of,
}
use qa_test_backend.Rollup.Close.{emit-runs}
use qa_test_backend.Rollup.RedTeam.{is_failed_child_of, close_if_done-redteam_fail}
use qa_test_backend.Reaper.{
  is_orphaned_parent, orphaned_ids, reconcile_parent, reconcile_all, reconcile_orphaned_parents,
}

module _ (now i : ℕ) (db : Db) where
  reconcile_parent_self :
      (row : Run)
      → find_run i db ≡ some row
      → find_run i (reconcile_parent now i db) ≡ some (set_closed now completed row)
  unfolding reconcile_parent
  reconcile_parent_self row h = rw emit-runs (find_id-update_self i _ (λ r. refl) row db.runs h)

  reconcile_parent-other : (j : ℕ) → i ≢ j → find_run j (reconcile_parent now i db) ≡ find_run j db
  unfolding reconcile_parent
  reconcile_parent-other j ne = rw emit-runs (find_id-update_other i _ (λ r. refl) j db.runs ne)

  reconcile_parent-IsGapless : IsGapless db → IsGapless (reconcile_parent now i db)
  unfolding reconcile_parent
  reconcile_parent-IsGapless h = (emit-IsGapless i (Event.status completed) _ h).0

pub reconcile_all-IsGapless :
    (now : ℕ) (ids : List ℕ) (db : Db) → IsGapless db → IsGapless (reconcile_all now ids db)
unfolding reconcile_all
reconcile_all-IsGapless now [] db h = h
reconcile_all-IsGapless now (i ∷ ids) db h =
    reconcile_all-IsGapless now ids (reconcile_parent now i db)
      (reconcile_parent-IsGapless now i db h)

-- A run that a sweep has completed, with the metrics that it had.
IsSwept : ℕ → Run → Db → Type 0
IsSwept j row db =
    (after : Run) × (find_run j db ≡ some after)
    × (after.status ≡ completed)
    × (after.metrics ≡ row.metrics)

reconcile_all-completed :
    (now j : ℕ) (ids : List ℕ) (db : Db) (row : Run)
    → find_run j db ≡ some row
    → row.status ≡ completed
    → IsSwept j row (reconcile_all now ids db)
unfolding reconcile_all IsSwept
reconcile_all-completed now j [] db row h c = (row, h, c, refl)
reconcile_all-completed now j (i ∷ ids) db row h c = elim (ℕ_discrete i j) [
  | yes e ↦
      reconcile_all-completed now j ids _ (set_closed now completed row)
        (rw e (reconcile_parent_self now j db row h)) refl
  | no ne ↦ reconcile_all-completed now j ids _ row (reconcile_parent-other now i db j ne ∙ h) c
]

reconcile_all-lists :
    (now j : ℕ) (ids : List ℕ) (db : Db) (row : Run)
    → any (λ i. i == j) ids ≡ true
    → find_run j db ≡ some row
    → IsSwept j row (reconcile_all now ids db)
unfolding reconcile_all IsSwept
reconcile_all-lists now j [] db row m h = unfold any in cc
reconcile_all-lists now j (i ∷ ids) db row m h = elim (ℕ_discrete i j) [
  | yes e ↦
      reconcile_all-completed now j ids _ (set_closed now completed row)
        (rw e (reconcile_parent_self now j db row h)) refl
  | no ne ↦
      reconcile_all-lists now j ids _ row (unfold any in ground (arith, m, ne))
        (reconcile_parent-other now i db j ne ∙ h)
]

reconcile_orphaned_parents-IsSwept :
    (locked : ℕ → Bool) (now : ℕ) (db : Db) (j : ℕ) (row : Run)
    → find_run j db ≡ some row
    → is_orphaned_parent db.runs row ≡ true
    → locked j ≡ false
    → IsSwept j row (reconcile_orphaned_parents locked now db).0
unfolding reconcile_orphaned_parents orphaned_ids
reconcile_orphaned_parents-IsSwept locked now db j row h orphan free =
    reconcile_all-lists now j _ db row
      (any-select_found (has_id j) (λ p. is_orphaned_parent db.runs p && not (locked p.id))
        (λ p. p.id) (λ i. i == j) row db.runs h
        (ground (arith, orphan, free, find_id-id j row db.runs h))
        (ground (arith, find_id-id j row db.runs h)))
      h

-- After the sweep every parent that was left open with all of its children ended, and whose row no
-- other transaction held, is completed.
pub reconcile_orphaned_parents-completed :
    (locked : ℕ → Bool) (now : ℕ) (db : Db) (j : ℕ) (row : Run)
    → find_run j db ≡ some row
    → is_orphaned_parent db.runs row ≡ true
    → locked j ≡ false
    → let after_db = (reconcile_orphaned_parents locked now db).0 in
      (after : Run) × (find_run j after_db ≡ some after) × (after.status ≡ completed)
unfolding IsSwept
reconcile_orphaned_parents-completed locked now db j row h orphan free =
    let (after, found, done, same) =
      reconcile_orphaned_parents-IsSwept locked now db j row h orphan free in
    (after, found, done)

unscored-verdict :
    (row : Run) → row.status ≡ completed → row.metrics ≡ none → run_verdict row ≡ judged pass
unfolding run_verdict
unscored-verdict row c m = ground arith

none_live :
    (p : ℕ) (rows : List Run)
    → any (is_live_child_of p) rows ≡ false
    → count_where (is_live_child_of p) rows ≡ 0
unfolding any count_where
none_live p [] h = refl
none_live p (r ∷ rows) h = ground (arith, none_live p rows)

-- For a red-team batch that the sweep of the reaper takes up (a parent that is open, has children and none
-- of them live, and whose row nobody holds), with no metrics of its own, no cancelled child and a failed
-- one: the rollup would record the verdict `fail`, while after the whole sweep the verdict of the parent
-- is `pass`.
pub reconcile_orphaned_parents-hides_fail :
    (locked : ℕ → Bool) (now p : ℕ) (db : Db) (parent : Run)
    → find_run p db ≡ some parent
    → is_orphaned_parent db.runs parent ≡ true
    → locked p ≡ false
    → parent.type ≡ redteam
    → parent.metrics ≡ none
    → (tally_children p db).cancelled ≡ 0
    → any (is_failed_child_of p) db.runs ≡ true
    → ((after : Run) × (find_run p (reconcile_orphaned_parents locked now db).0 ≡ some after)
        × (run_verdict after ≡ judged pass))
      × ((after : Run) × (find_run p (close_if_done now p db) ≡ some after)
          × (run_verdict after ≡ judged fail))
unfolding IsSwept
reconcile_orphaned_parents-hides_fail locked now p db parent h orphan free t m cancelled f =
    let (after, found, done, same) =
      reconcile_orphaned_parents-IsSwept locked now db p parent h orphan free in
    let id : parent.id ≡ p = find_id-id p parent db.runs h in
    let quiet : any (is_live_child_of p) db.runs ≡ false =
      subst (λ i. any (is_live_child_of i) db.runs ≡ false) id (ground (arith, orphan)) in
    (
      (after, found, unscored-verdict after done (same ∙ m)),
      close_if_done-redteam_fail now p db parent h (ground (arith, orphan)) t
          (none_live p db.runs quiet) cancelled f,
    )
