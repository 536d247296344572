-- ===== src/Executor/Tables.antt =====
-- What the writing of the read tables leaves alone (app/workers/materialize.py, as the executors call it).
use mathlib.Core.Option.{some-injective}
use qa_test_backend.Prelude.{Option, ℕ, ◌≡◌, sym, ◌∙◌, ap, List, none, some, Option-cases, inl, inr}
use qa_test_backend.Store.{Db, TurnRow}
use qa_test_backend.Materialize.{
  materialize_run, materialize_discovery, insert_turns, turns_of, log_of, with_tables,
}
use qa_test_backend.Executor.Ending.{WritesTables}
use qa_test_backend.Executor.Redteam.{Finding, write_graded}
use qa_test_backend.Executor.Discovery.{materialize_both}

materialize_run-result :
    (i : ℕ) (db after : Db)
    → materialize_run i db ≡ some after
    → (rows : List TurnRow) × (after ≡ with_tables i db rows)
unfolding materialize_run
materialize_run-result i db after e =
    elim (Option-cases (insert_turns i 0 (turns_of (log_of i db)) db.turns)) [
      | inl failed ↦ absurd (no_result (rw failed at e))
      | inr (rows, made) ↦ (rows, sym (some-injective _ after (rw made at e)))
    ]
  where
    no_result : none ≡ some after → ⊥
    no_result h = cc

pub materialize_run-WritesTables : (i : ℕ) → WritesTables (materialize_run i)
materialize_run-WritesTables i = record {
  runs = λ db after e. ap (λ d. d.runs) (materialize_run-result i db after e).1;
  events = λ db after e. ap (λ d. d.events) (materialize_run-result i db after e).1;
}

pub write_graded-WritesTables :
    (i : ℕ) (finding : Option Finding) → WritesTables (write_graded i finding)
write_graded-WritesTables i none = record {
  runs = λ db after e. absurd (no_result after e);
  events = λ db after e. absurd (no_result after e);
}
  where
    no_result : (after : Db) → none ≡ some after → ⊥
    no_result after h = cc
write_graded-WritesTables i (some f) = materialize_run-WritesTables i

materialize_both-result :
    (i : ℕ) (db after : Db)
    → materialize_both i db ≡ some after
    → (mid : Db) × (materialize_run i db ≡ some mid) × (after ≡ materialize_discovery i mid)
unfolding materialize_both
materialize_both-result i db after e = elim (Option-cases (materialize_run i db)) [
  | inl failed ↦ absurd (no_result (rw failed at e))
  | inr (mid, made) ↦ (mid, made, sym (some-injective _ after (rw made at e)))
]
  where
    no_result : none ≡ some after → ⊥
    no_result h = cc

pub materialize_both-WritesTables : (i : ℕ) → WritesTables (materialize_both i)
unfolding materialize_discovery
materialize_both-WritesTables i = record {
  runs = λ db after e.
      let (mid, made, same) = materialize_both-result i db after e in
      ap (λ d. d.runs) same ∙ (materialize_run-WritesTables i).runs db mid made;
  events = λ db after e.
      let (mid, made, same) = materialize_both-result i db after e in
      ap (λ d. d.events) same ∙ (materialize_run-WritesTables i).events db mid made;
}
