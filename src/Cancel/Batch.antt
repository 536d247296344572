-- ===== src/Cancel/Batch.antt =====
-- `cancel_run` of app/api/runs.py: what an accepted and a refused cancel leave behind.
use qa_test_backend.Prelude.{
  ℕ, ◌≡◌, ◌≢◌, refl, sym, subst, ◌∙◌, true, false, none, some, not, Option-cases, List, [], ◌∷◌,
  arith, any, count_where, update_where, amend, Bool-cases, inl, inr, ◌⊎◌, find-update_where-some,
  any-false_found,
}
use native.Mathlib.Decide.{ℕ_discrete}
use qa_test_backend.Verdict.{is_terminal, cancelled, RunStatus}
use qa_test_backend.Store.{Db, Run, has_id, find_run, is_child_of, update_runs, notify}
use qa_test_backend.Store.Log.{IsGapless}
use qa_test_backend.Store.Rows.{find_id-update_self}
use qa_test_backend.Rollup.{is_live_child_of, close_if_done, close_parent_now}
use qa_test_backend.Rollup.Close.{
  close_if_done-row, close_if_done-other, close_if_done-IsGapless, close_if_done_terminal,
}
use qa_test_backend.Rollup.Child.{
  IsClosed-terminal, maybe_close_parent-Keeps, maybe_close_parent-IsGapless,
}
use qa_test_backend.Cancel.{
  Reply, not_found, conflict, no_content, is_cancellable, is_cancellable_child_of, set_cancelled,
  notify_all, cancel_batch, cancel_single, cancel_run,
}

notify_all-runs : (ids : List ℕ) (db : Db) → (notify_all ids db).runs ≡ db.runs
unfolding notify_all
notify_all-runs [] db = refl
notify_all-runs (i ∷ ids) db = notify_all-runs ids (notify i db)

notify_all-events : (ids : List ℕ) (db : Db) → (notify_all ids db).events ≡ db.events
unfolding notify_all
notify_all-events [] db = refl
notify_all-events (i ∷ ids) db = notify_all-events ids (notify i db)

none_live :
    (p : ℕ) (rows : List Run)
    → count_where (is_live_child_of p) (update_where (is_cancellable_child_of p) set_cancelled rows)
      ≡ 0
unfolding count_where update_where
none_live p [] = refl
none_live p (r ∷ rows) = ground (arith, none_live p rows)

module _ (now p : ℕ) (db : Db) where
  abbrev swept : Db
  swept = update_runs (is_cancellable_child_of p) set_cancelled db

  swept-row :
      (j : ℕ) (row : Run)
      → find_run j db ≡ some row
      → find_run j swept ≡ some (amend (is_cancellable_child_of p) set_cancelled row)
  swept-row j row h =
      find-update_where-some (has_id j) (is_cancellable_child_of p) set_cancelled
        (λ r. ground arith) row db.runs h

  swept-closed :
      (row : Run)
      → find_run p swept ≡ some row
      → (after : Run) × (find_run p (close_if_done now p swept) ≡ some after)
        × (is_terminal after.status ≡ true)
  swept-closed row h = elim (Bool-cases (is_terminal row.status)) [
    | inl t ↦ (row, rw (close_if_done_terminal now p swept row h t) h, t)
    | inr t ↦ elim (close_if_done-row now p swept row h t) [
      | inl (live, same) ↦ absurd (omega (arith, live, none_live p db.runs))
      | inr (after, z, e, c) ↦ (after, e, IsClosed-terminal c)
    ]
  ]

  cancel_batch-runs : (cancel_batch now p db).runs ≡ (close_if_done now p swept).runs
  unfolding cancel_batch close_parent_now
  cancel_batch-runs = rw notify_all-runs

  -- The parent of a cancelled batch has ended.
  pub cancel_batch-ends :
      (row : Run)
      → find_run p db ≡ some row
      → (after : Run) × (find_run p (cancel_batch now p db) ≡ some after)
        × (is_terminal after.status ≡ true)
  cancel_batch-ends row h = rw cancel_batch-runs (swept-closed _ (swept-row p row h))

  -- Every child that could be cancelled is.
  pub cancel_batch-child :
      (c : ℕ) (row : Run)
      → c ≢ p
      → find_run c db ≡ some row
      → is_cancellable_child_of p row ≡ true
      → find_run c (cancel_batch now p db) ≡ some (set_cancelled row)
  cancel_batch-child c row ne h t =
      rw cancel_batch-runs
        (close_if_done-other now p swept c (λ e. ne (sym e)) ∙ ground (arith, swept-row c row h, t))

  cancel_single-ends :
      (row : Run)
      → find_run p db ≡ some row
      → (after : Run) × (find_run p (cancel_single now p db) ≡ some after)
        × (after.status ≡ cancelled)
  unfolding cancel_single
  cancel_single-ends row h =
      let (after, found, kept) =
        maybe_close_parent-Keeps now p p (update_runs (has_id p) set_cancelled db)
          (set_cancelled row) (find_id-update_self p set_cancelled (λ r. refl) row db.runs h) in
      (after, found, ground (arith, kept.ended refl))

-- Why a cancel is answered the way it is, and what a refusal leaves.
pub IsAnswered : ℕ → ℕ → Db → Db × Reply → Type 0
IsAnswered i project db (after, not_found) =
    (after ≡ db)
    × ((find_run i db ≡ none)
        ⊎ (row : Run) × (find_run i db ≡ some row) × (row.project_id ≢ project))
IsAnswered i project db (after, conflict) =
    (after ≡ db)
    × (row : Run) × (find_run i db ≡ some row)
    × (row.project_id ≡ project)
    × (is_terminal row.status ≡ true)
IsAnswered i project db (after, no_content) =
    (row : Run) × (find_run i db ≡ some row)
    × (row.project_id ≡ project)
    × (is_terminal row.status ≡ false)

is_cancellable_open : (s : RunStatus) → is_cancellable s ≡ not (is_terminal s)
is_cancellable_open s = ground arith

-- A cancel is answered with `not_found` only for a run that is unknown or belongs to another project, with
-- `conflict` only for a run of the caller's project that has ended, and accepted only for a run of the
-- caller's project that has not ended. The two refusals leave the tables as they are.
pub cancel_run_refused :
    (now i project : ℕ) (db : Db) → IsAnswered i project db (cancel_run now i project db)
unfolding cancel_run IsAnswered
cancel_run_refused now i project db = elim (Option-cases (find_run i db)) [
  | inl e ↦
      let reply : cancel_run now i project db ≡ (db, not_found) = ground (arith, e) in
      subst (IsAnswered i project db) (sym reply) (refl, inl e)
  | inr (row, e) ↦ elim (ℕ_discrete row.project_id project) [
    | no other ↦
        let reply : cancel_run now i project db ≡ (db, not_found) = ground (arith, e, other) in
        subst (IsAnswered i project db) (sym reply) (refl, inr (row, e, other))
    | yes own ↦
        let as_open = is_cancellable_open row.status in
        elim (Bool-cases (is_terminal row.status)) [
          | inl over ↦
              let reply : cancel_run now i project db ≡ (db, conflict) =
                ground (arith, e, own, over, as_open) in
              subst (IsAnswered i project db) (sym reply) (refl, row, e, own, over)
          | inr open_run ↦
              let reply : cancel_run now i project db
                  ≡ ((cancel_run now i project db).0, no_content) =
                ground (arith, e, own, open_run, as_open) in
              subst (IsAnswered i project db) (sym reply) (row, e, own, open_run)
        ]
  ]
]

module _ (now i project : ℕ) (db : Db) (row : Run) (found : find_run i db ≡ some row)
    (own : row.project_id ≡ project) (open_run : is_cancellable row.status ≡ true) where
  accepted_batch :
      any (is_child_of i) db.runs ≡ true
      → cancel_run now i project db ≡ (notify i (cancel_batch now i db), no_content)
  unfolding cancel_run
  accepted_batch c = ground arith

  accepted_single :
      any (is_child_of i) db.runs ≡ false
      → cancel_run now i project db ≡ (notify i (cancel_single now i db), no_content)
  unfolding cancel_run
  accepted_single c = ground arith

  -- A run of the caller's project that has not ended has ended after its cancel, which is accepted.
  -- If the run has children, each of them but the run itself that had not ended is cancelled by the same
  -- call.
  pub cancel_run-ends :
      ((cancel_run now i project db).1 ≡ no_content)
      × ((after : Run) × (find_run i (cancel_run now i project db).0 ≡ some after)
          × (is_terminal after.status ≡ true))
      × ((c : ℕ) (child : Run)
          → c ≢ i
          → find_run c db ≡ some child
          → is_cancellable_child_of i child ≡ true
          → find_run c (cancel_run now i project db).0 ≡ some (set_cancelled child))
  cancel_run-ends = elim (Bool-cases (any (is_child_of i) db.runs)) [
    | inl parent ↦ rw (accepted_batch parent) (
      refl,
      cancel_batch-ends now i db row found,
      λ c child ne h t. cancel_batch-child now i db c child ne h t,
    )
    | inr single ↦ rw (accepted_single single) (
      refl,
      (let (after, e, s) = cancel_single-ends now i db row found in (after, e, rw s)),
      λ c child ne h t. absurd (no_child c child h t single),
    )
  ]
    where
      no_child :
          (c : ℕ) (child : Run)
          → find_run c db ≡ some child
          → is_cancellable_child_of i child ≡ true
          → any (is_child_of i) db.runs ≡ false
          → ⊥
      no_child c child h t e =
          any-false_found (is_child_of i) (has_id c) child db.runs h (ground (arith, t)) e

pub cancel_batch-IsGapless :
    (now p : ℕ) (db : Db) → IsGapless db → IsGapless (cancel_batch now p db)
unfolding cancel_batch close_parent_now
cancel_batch-IsGapless now p db h =
    rw notify_all-events (close_if_done-IsGapless now p (swept now p db) h)

pub cancel_single-IsGapless :
    (now p : ℕ) (db : Db) → IsGapless db → IsGapless (cancel_single now p db)
unfolding cancel_single
cancel_single-IsGapless now p db h =
    maybe_close_parent-IsGapless now p (update_runs (has_id p) set_cancelled db) h

pub cancel_run-either :
    (now i project : ℕ) (db : Db)
    → ((cancel_run now i project db).0 ≡ db)
      ⊎ ((cancel_run now i project db).0 ≡ notify i (cancel_batch now i db))
      ⊎ ((cancel_run now i project db).0 ≡ notify i (cancel_single now i db))
unfolding cancel_run
cancel_run-either now i project db = ground arith

pub cancel_run-IsGapless :
    (now i project : ℕ) (db : Db) → IsGapless db → IsGapless (cancel_run now i project db).0
cancel_run-IsGapless now i project db h = elim (cancel_run-either now i project db) [
  | inl same ↦ rw same h
  | inr (inl batch) ↦ rw batch (cancel_batch-IsGapless now i db h)
  | inr (inr single) ↦ rw single (cancel_single-IsGapless now i db h)
]
