-- ===== src/Executor/Log.antt =====
-- The event log under the executors of app/engine/executor: it stays gapless, and no run is left without
-- an event that ends its stream.
use qa_test_backend.Prelude.{
  ℕ, ◌≡◌, refl, sym, ◌∙◌, subst, Option, none, some, Bool, true, List, [], ◌∷◌, ◌++◌, String, arith,
  any, Option-cases, Bool-cases, inl, inr, ◌||◌, ==_refl,
}
use qa_test_backend.Verdict.{RunStatus, is_terminal}
use qa_test_backend.Store.Payload.{Event}
use qa_test_backend.Store.{Db, Run, EventRow, has_id, find_run, update_runs, emit}
use qa_test_backend.Store.Log.{IsGapless, IsGaplessFor, emit-IsGapless}
use qa_test_backend.Rollup.{maybe_close_parent, close_parent, record_verdict, Tally, parent_of}
use qa_test_backend.Rollup.Close.{close_if_done_ind, close_parent_cases}
use qa_test_backend.Rollup.Child.{
  maybe_close_parent-none, maybe_close_parent-some, maybe_close_parent-IsGapless,
}
use qa_test_backend.Stream.{ends_stream, is_last_of, has_ended}
use qa_test_backend.Executor.{fail_run, set_failed, emit_all, finish_run, or_failed}
use qa_test_backend.Executor.Ending.{
  WritesTables, EndsRun, finish_run_refused, finish_run_absent, finish_run_written,
  finish_run_raised, finish_run-row, fail_run-row,
}

has_ended-snoc :
    (i : ℕ) (rows : List EventRow) (row : EventRow)
    → has_ended i (rows ++ row ∷ []) ≡ (has_ended i rows || is_last_of i row)
unfolding has_ended any
has_ended-snoc i [] row = ground arith
has_ended-snoc i (r ∷ rows) row = ground (arith, has_ended-snoc i rows row)

-- An event that is emitted takes no ending away, and one that ends the stream makes one.
pub emit-has_ended :
    (i j : ℕ) (e : Event) (db : Db)
    → has_ended i db.events ≡ true
    → has_ended i (emit j e db).0.events ≡ true
unfolding emit
emit-has_ended i j e db h =
    has_ended-snoc i db.events (record { run_id = j; seq = _; event = e }) ∙ ground (arith, h)

pub emit_ends :
    (i : ℕ) (e : Event) (db : Db) → ends_stream e ≡ true → has_ended i (emit i e db).0.events ≡ true
unfolding emit
emit_ends i e db h =
    has_ended-snoc i db.events (record { run_id = i; seq = _; event = e })
    ∙ ground (arith, ==_refl i)

pub emit_all-has_ended :
    (i : ℕ) (es : List Event) (db : Db)
    → has_ended i db.events ≡ true
    → has_ended i (emit_all i es db).events ≡ true
unfolding emit_all
emit_all-has_ended i [] db h = h
emit_all-has_ended i (e ∷ es) db h =
    emit_all-has_ended i es (emit i e db).0 (emit-has_ended i i e db h)

pub emit_all_ends :
    (i : ℕ) (es : List Event) (db : Db)
    → any ends_stream es ≡ true
    → has_ended i (emit_all i es db).events ≡ true
unfolding emit_all any
emit_all_ends i [] db h = cc
emit_all_ends i (e ∷ es) db h = elim (Bool-cases (ends_stream e)) [
  | inl last ↦ emit_all-has_ended i es (emit i e db).0 (emit_ends i e db last)
  | inr more ↦ emit_all_ends i es (emit i e db).0 (rw more at h)
]

close_parent-has_ended :
    (i now : ℕ) (parent : Run) (tally : Tally) (db : Db)
    → has_ended i db.events ≡ true
    → has_ended i (close_parent now parent tally db).events ≡ true
unfolding record_verdict
close_parent-has_ended i now parent tally db h = elim (close_parent_cases now parent tally db) [
  | inl (e, c) ↦ subst (λ d. has_ended i d.events ≡ true) (sym e) (emit-has_ended i parent.id _ _ h)
  | inr (e, c) ↦ subst (λ d. has_ended i d.events ≡ true) (sym e) (emit-has_ended i parent.id _ _ h)
]

pub maybe_close_parent-has_ended :
    (i now child : ℕ) (db : Db)
    → has_ended i db.events ≡ true
    → has_ended i (maybe_close_parent now child db).events ≡ true
maybe_close_parent-has_ended i now child db h =
    elim (Option-cases (parent_of (find_run child db))) [
      | inl e ↦ rw (maybe_close_parent-none now child db e) h
      | inr (p, e) ↦ rw (maybe_close_parent-some now child db p e) (
          close_if_done_ind now p db (λ d. has_ended i d.events ≡ true) h
            (emit-has_ended i p _ db h)
            (λ parent found. close_parent-has_ended i now parent _ _ (emit-has_ended i p _ db h)))
    ]

-- A run that has ended, and whose stream has.
pub record IsOver (i : ℕ) (db : Db) : Type 0 where
  pub row : Run
  pub there : find_run i db ≡ some row
  pub ended : is_terminal row.status ≡ true
  pub closed : has_ended i db.events ≡ true

pub fail_run-IsOver :
    (now i : ℕ) (code message : String) (db : Db) (row : Run)
    → find_run i db ≡ some row
    → IsOver i (fail_run now i code message db)
fail_run-IsOver now i code message db row found = record {
  row = set_failed now row;
  there = fail_run-row now i code message db row found;
  ended = refl;
  closed = unfold fail_run in maybe_close_parent-has_ended i now i _ (emit_ends i _ db refl);
}

pub or_failed_ind {ℓ} :
    (P : Db → Type ℓ) (now i : ℕ) (code message : String) (db : Db) (o : Option Db)
    → P (fail_run now i code message db)
    → ((after : Db) → o ≡ some after → P after)
    → P (or_failed now i code message db o)
or_failed_ind P now i code message db none failed made = failed
or_failed_ind P now i code message db (some after) failed made = made after refl

module _ (allowed : RunStatus → Bool) (materialize : Db → Option Db) (change : Run → Run)
    (events : List Event) (now i : ℕ) (db : Db) where
  -- The ways in which the transaction may end.
  pub finish_run_ind {ℓ} :
      (P : Option Db → Type ℓ)
      → P none
      → P (some db)
      → ((row : Run) (after : Db)
          → find_run i db ≡ some row
          → allowed row.status ≡ true
          → materialize (emit_all i events db) ≡ some after
          → P (some (maybe_close_parent now i (update_runs (has_id i) change after))))
      → P (finish_run allowed materialize change events now i db)
  finish_run_ind P raised refused written = elim (Option-cases (find_run i db)) [
    | inl absent ↦
        subst P (sym (finish_run_absent allowed materialize change events now i db absent)) raised
    | inr (row, found) ↦ elim (Bool-cases (allowed row.status)) [
      | inr no_end ↦
          subst P
            (sym (finish_run_refused allowed materialize change events now i db row found no_end))
            refused
      | inl may ↦ elim (Option-cases (materialize (emit_all i events db))) [
        | inl e ↦
            subst P
              (sym (finish_run_raised allowed materialize change events now i db row found may e))
              raised
        | inr (after, e) ↦
            subst P
              (sym (
                finish_run_written allowed materialize change events now i db row after found may
                  e))
              (written row after found may e)
      ]
    ]
  ]

  -- Whether the last transaction commits or raises, a run that may be ended is over after it.
  pub finish_run-IsOver :
      (code message : String) (row : Run)
      → WritesTables materialize
      → EndsRun change
      → any ends_stream events ≡ true
      → find_run i db ≡ some row
      → allowed row.status ≡ true
      → IsOver i
          (or_failed now i code message db (finish_run allowed materialize change events now i db))
  finish_run-IsOver code message row writes ends last found may =
      elim (Option-cases (materialize (emit_all i events db))) [
        | inl e ↦
            subst (λ o. IsOver i (or_failed now i code message db o))
              (sym (finish_run_raised allowed materialize change events now i db row found may e))
              (fail_run-IsOver now i code message db row found)
        | inr (after, e) ↦
            subst (λ o. IsOver i (or_failed now i code message db o))
              (sym (
                finish_run_written allowed materialize change events now i db row after found may
                  e))
              (record {
                row = change row;
                there =
                    finish_run-row allowed materialize change events now i db row after writes ends
                      found may e;
                ended = ends.ended row;
                closed = maybe_close_parent-has_ended i now i _ (
                    rw (writes.events (emit_all i events db) after e)
                      (emit_all_ends i events db last));
              })
      ]

emit_all-IsGapless :
    (i : ℕ) (es : List Event) (db : Db) → IsGapless db → IsGapless (emit_all i es db)
unfolding emit_all
emit_all-IsGapless i [] db h = h
emit_all-IsGapless i (e ∷ es) db h =
    emit_all-IsGapless i es (emit i e db).0 (emit-IsGapless i e db h).0

pub fail_run-IsGapless :
    (now i : ℕ) (code message : String) (db : Db)
    → IsGapless db
    → IsGapless (fail_run now i code message db)
unfolding fail_run
fail_run-IsGapless now i code message db h =
    maybe_close_parent-IsGapless now i _ (emit-IsGapless i _ db h).0

abbrev Commits : Option Db → Type 0
Commits none = Unit
Commits (some db) = IsGapless db

pub finish_run-IsGapless :
    (allowed : RunStatus → Bool) (materialize : Db → Option Db) (change : Run → Run)
    (events : List Event) (now i : ℕ) (code message : String) (db : Db)
    → WritesTables materialize
    → IsGapless db
    → IsGapless
        (or_failed now i code message db (finish_run allowed materialize change events now i db))
finish_run-IsGapless allowed materialize change events now i code message db writes h =
    or_failed_ind IsGapless now i code message db _ (fail_run-IsGapless now i code message db h)
      (λ after e. subst Commits e (
        finish_run_ind allowed materialize change events now i db Commits tt h
          (λ row mid found may made. maybe_close_parent-IsGapless now i _ (
            subst (λ rows. (r : ℕ) → IsGaplessFor r rows)
              (sym (writes.events (emit_all i events db) mid made))
              (emit_all-IsGapless i events db h)))))
