-- ===== src/Runner/Script.antt =====
-- The transactions of `run_fake_script` (app/workers/fake_runner.py) and the event log.
use qa_test_backend.Prelude.{
  ℕ, ◌≡◌, refl, sym, ◌∙◌, ap, subst, Option, none, some, Bool, List, arith, Option-cases,
  Bool-cases, inl, inr, ◌⊎◌,
}
use mathlib.Core.Option.{some-injective}
use qa_test_backend.Store.Payload.{Event, MetricsData, done}
use qa_test_backend.Store.{Db, TurnRow, find_run, emit, update_runs, has_id}
use qa_test_backend.Verdict.{running}
use qa_test_backend.Store.Log.{IsGapless, IsGaplessFor, emit-IsGapless}
use qa_test_backend.Rollup.{is_cancelled, maybe_close_parent}
use qa_test_backend.Rollup.Child.{maybe_close_parent-IsGapless}
use qa_test_backend.Reaper.{is_executing}
use qa_test_backend.Materialize.{materialize_run, insert_turns, turns_of, log_of, with_tables}
use qa_test_backend.Runner.{
  start_run, set_running, Outcome, goes_on, stopped, raised, finish_cancelled, finish_completed,
  script_step, partial_done, set_completed, set_ended, merged, done_of,
}

-- What holds of the database that a transaction commits.
abbrev pub Commits : (Db → Type 0) → Outcome → Type 0
Commits P (goes_on db) = P db
Commits P (stopped db) = P db
Commits P raised = Unit

materialize_run-events :
    (i : ℕ) (db after : Db) → materialize_run i db ≡ some after → after.events ≡ db.events
materialize_run-events i db after e =
    elim (Option-cases (insert_turns i 0 (turns_of (log_of i db)) db.turns)) [
      | inl failed ↦ absurd (no_result failed)
      | inr (rows, made) ↦
          ap (λ d. d.events)
            (some-injective after (with_tables i db rows) (sym e ∙ result rows made))
    ]
  where
    result :
        (rows : List TurnRow)
        → insert_turns i 0 (turns_of (log_of i db)) db.turns ≡ some rows
        → materialize_run i db ≡ some (with_tables i db rows)
    result rows made = unfold materialize_run in rw made refl

    no_result : insert_turns i 0 (turns_of (log_of i db)) db.turns ≡ none → ⊥
    no_result failed =
        let empty : materialize_run i db ≡ none = unfold materialize_run in rw failed refl in
        ground (arith, empty, e)

materialize_run-IsGapless :
    (i : ℕ) (db after : Db) → materialize_run i db ≡ some after → IsGapless db → IsGapless after
materialize_run-IsGapless i db after e h =
    subst (λ rows. (r : ℕ) → IsGaplessFor r rows) (sym (materialize_run-events i db after e)) h

-- A transaction that ends as some outcome commits what that outcome commits.
by_outcome : {o p : Outcome} → o ≡ p → Commits IsGapless p → Commits IsGapless o
by_outcome e h = subst (Commits IsGapless) (sym e) h

module _ (now i : ℕ) (latest : Option MetricsData) (db : Db) (h : IsGapless db) where
  finish_cancelled-IsGapless : Commits IsGapless (finish_cancelled now i latest db)
  finish_cancelled-IsGapless =
      elim (Option-cases (materialize_run i (emit i (done partial_done) db).0)) [
        | inl e ↦ by_outcome (none_made e) tt
        | inr (after, e) ↦
            by_outcome (made after e)
              (materialize_run-IsGapless i _ after e (emit-IsGapless i (done partial_done) db h).0)
      ]
    where
      none_made :
          materialize_run i (emit i (done partial_done) db).0 ≡ none
          → finish_cancelled now i latest db ≡ raised
      none_made e = rw (e, finish_cancelled) refl

      made :
          (after : Db)
          → materialize_run i (emit i (done partial_done) db).0 ≡ some after
          → finish_cancelled now i latest db
            ≡ stopped (update_runs (has_id i) (set_ended now (merged latest partial_done)) after)
      made after e = rw (e, finish_cancelled) refl

  finish_completed-IsGapless :
      (event : Event) → Commits IsGapless (finish_completed now i latest event db)
  finish_completed-IsGapless event = elim (Option-cases (materialize_run i (emit i event db).0)) [
    | inl e ↦ by_outcome (none_made e) tt
    | inr (after, e) ↦ by_outcome (made after e) (
        maybe_close_parent-IsGapless now i
          (update_runs (has_id i) (set_completed now (merged latest (done_of event))) after)
          (materialize_run-IsGapless i _ after e (emit-IsGapless i event db h).0))
  ]
    where
      none_made :
          materialize_run i (emit i event db).0 ≡ none
          → finish_completed now i latest event db ≡ raised
      none_made e = rw (e, finish_completed) refl

      made :
          (after : Db)
          → materialize_run i (emit i event db).0 ≡ some after
          → finish_completed now i latest event db
            ≡ stopped (
                maybe_close_parent now i (
                  update_runs (has_id i) (set_completed now (merged latest (done_of event))) after))
      made after e = rw (e, finish_completed) refl

  step_cases :
      (event : Event) (is_last : Bool)
      → (script_step now i latest event is_last db ≡ raised)
        ⊎ (script_step now i latest event is_last db ≡ finish_cancelled now i latest db)
        ⊎ (script_step now i latest event is_last db ≡ finish_completed now i latest event db)
        ⊎ (script_step now i latest event is_last db ≡ goes_on (emit i event db).0)
        ⊎ (script_step now i latest event is_last db ≡ stopped db)
  step_cases event is_last = elim (Option-cases (find_run i db)) [
    | inl e ↦ inl (unfold script_step in ground (arith, e))
    | inr (row, e) ↦ elim (Bool-cases (is_cancelled row.status)) [
      | inl c ↦ inr (inl (unfold script_step in ground (arith, e, c)))
      | inr c ↦ elim (Bool-cases (is_executing row.status)) [
        | inr x ↦ inr (inr (inr (inr (unfold script_step in ground (arith, e, c, x)))))
        | inl x ↦ elim (Bool-cases is_last) [
          | inl l ↦ inr (inr (inl (unfold script_step in ground (arith, e, c, x, l))))
          | inr l ↦ inr (inr (inr (inl (unfold script_step in ground (arith, e, c, x, l)))))
        ]
      ]
    ]
  ]

  pub script_step-IsGapless :
      (event : Event) (is_last : Bool)
      → Commits IsGapless (script_step now i latest event is_last db)
  script_step-IsGapless event is_last = elim (step_cases event is_last) [
    | inl e ↦ by_outcome e tt
    | inr (inl e) ↦ by_outcome e finish_cancelled-IsGapless
    | inr (inr (inl e)) ↦ by_outcome e (finish_completed-IsGapless event)
    | inr (inr (inr (inl e))) ↦ by_outcome e (emit-IsGapless i event db h).0
    | inr (inr (inr (inr e))) ↦ by_outcome e h
  ]

pub start_run-IsGapless : (now i : ℕ) (db : Db) → IsGapless db → IsGapless (start_run now i db)
unfolding start_run
start_run-IsGapless now i db h =
    (emit-IsGapless i (Event.status running) (update_runs (has_id i) (set_running now) db) h).0
