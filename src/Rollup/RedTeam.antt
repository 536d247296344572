-- ===== src/Rollup/RedTeam.antt =====
-- The verdict that `_close_if_done` of app/workers/rollup.py records on a red-team batch.
use qa_test_backend.Prelude.{
  ℕ, ◌≡◌, ◌∙◌, sym, subst, some, arith, Bool, Bool-cases, inl, inr, ◌⊎◌, true, false, List, [], ◌∷◌,
  any, map, select, ◌&&◌, not, any-update_where,
}
use qa_test_backend.Verdict.{fail, completed, failed, RunStatus, judged, idle, Verdict, is_terminal}
use qa_test_backend.Verdict.Rubric.{is_fail}
use qa_test_backend.Store.{Db, Run, has_id, find_run, is_child_of, redteam}
use qa_test_backend.Store.Rows.{find_id-id}
use qa_test_backend.Rollup.{
  Tally, tally_children, child_verdicts, batch_verdict, close_parent, set_metrics, badge_metrics,
  close_if_done, set_closed, run_verdict, judged_only, final_status,
}
use qa_test_backend.Rollup.Close.{
  told, informed, close_parent-verdict, close_if_done_ended, emit-runs,
}

abbrev is_failed : RunStatus → Bool
is_failed failed = true
is_failed _ = false

-- A failed run whose parent is `p` (and which is not itself `p`).
abbrev pub is_failed_child_of : ℕ → Run → Bool
is_failed_child_of p r = is_child_of p r && (is_failed r.status && not (has_id p r))

judged_cons :
    (v : Verdict) (vs : List Verdict)
    → any is_fail (judged_only vs) ≡ true
    → any is_fail (judged_only (v ∷ vs)) ≡ true
unfolding any judged_only
judged_cons idle vs h = h
judged_cons (judged b) vs h = ground arith

failed-run_verdict : (r : Run) → is_failed r.status ≡ true → run_verdict r ≡ judged fail
unfolding run_verdict
failed-run_verdict r h = ground arith

failed_cons :
    (v : Verdict) (vs : List Verdict) → v ≡ judged fail → any is_fail (judged_only (v ∷ vs)) ≡ true
unfolding any judged_only
failed_cons v vs h = rw h

failed-verdict :
    (p : ℕ) (rows : List Run)
    → any (is_failed_child_of p) rows ≡ true
    → any is_fail (judged_only (map run_verdict (select (is_child_of p) rows))) ≡ true
unfolding select
failed-verdict p [] h = unfold any in cc
failed-verdict p (r ∷ rows) h = elim (Bool-cases (is_child_of p r)) [
  | inl child ↦ rw child (elim (any_cons r rows h) [
    | inl now_failed ↦ failed_cons (run_verdict r) _ (failed-run_verdict r now_failed)
    | inr later ↦ judged_cons (run_verdict r) _ (failed-verdict p rows later)
  ])
  | inr other ↦ rw other (failed-verdict p rows (any_other r rows other h))
]
  where
    any_cons :
        (x : Run) (xs : List Run)
        → any (is_failed_child_of p) (x ∷ xs) ≡ true
        → (is_failed x.status ≡ true) ⊎ (any (is_failed_child_of p) xs ≡ true)
    any_cons x xs k = unfold any in ground arith

    any_other :
        (x : Run) (xs : List Run)
        → is_child_of p x ≡ false
        → any (is_failed_child_of p) (x ∷ xs) ≡ true
        → any (is_failed_child_of p) xs ≡ true
    any_other x xs e k = unfold any in ground arith

batch_verdict-redteam :
    (parent : Run) (db : Db)
    → parent.type ≡ redteam
    → any (is_failed_child_of parent.id) db.runs ≡ true
    → batch_verdict parent db ≡ fail
unfolding batch_verdict child_verdicts
batch_verdict-redteam parent db t f = ground (arith, failed-verdict parent.id db.runs f)

told-failed_child :
    (now : ℕ) (parent : Run) (tally : Tally) (db : Db)
    → any (is_failed_child_of parent.id) db.runs ≡ true
    → any (is_failed_child_of parent.id) (told now parent tally db).runs ≡ true
told-failed_child now parent tally db f = rw emit-runs (
    any-update_where (is_failed_child_of parent.id) (has_id parent.id)
      (set_closed now (final_status tally)) (λ r. ground arith) db.runs
    ∙ f)

-- When the last child of a red-team batch has ended, none was cancelled and one failed, the batch's
-- verdict is `fail`, whatever its rubric says.
pub close_if_done-redteam_fail :
    (now p : ℕ) (db : Db) (parent : Run)
    → find_run p db ≡ some parent
    → is_terminal parent.status ≡ false
    → parent.type ≡ redteam
    → (tally_children p db).live ≡ 0
    → (tally_children p db).cancelled ≡ 0
    → any (is_failed_child_of p) db.runs ≡ true
    → (after : Run) × (find_run p (close_if_done now p db) ≡ some after)
      × (run_verdict after ≡ judged fail)
unfolding run_verdict
close_if_done-redteam_fail now p db parent found unfinished t z c f = (
  closed,
  rw (close_if_done_ended now p db parent found unfinished z) at_parent,
  ground (
    arith,
    batch_verdict-redteam parent (told now parent tally told_db) t
        (told-failed_child now parent tally told_db failed_child),
  ),
)
  where
    tally : Tally
    tally = tally_children p db

    told_db : Db
    told_db = informed now p db

    id : parent.id ≡ p
    id = find_id-id p parent db.runs found

    here : find_run parent.id told_db ≡ some parent
    here = subst (λ i. find_run i told_db ≡ some parent) (sym id) (rw emit-runs found)

    failed_child : any (is_failed_child_of parent.id) told_db.runs ≡ true
    failed_child =
        subst (λ i. any (is_failed_child_of i) told_db.runs ≡ true) (sym id) (rw emit-runs f)

    closed : Run
    closed =
        set_metrics (badge_metrics (batch_verdict parent (told now parent tally told_db)))
          (set_closed now completed parent)

    at_parent : find_run p (close_parent now parent tally told_db) ≡ some closed
    at_parent =
        subst (λ i. find_run i (close_parent now parent tally told_db) ≡ some closed) id
          (close_parent-verdict now parent tally told_db parent here c)
