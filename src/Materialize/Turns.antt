-- ===== src/Materialize/Turns.antt =====
-- `materialize_run` of app/workers/materialize.py: the rows of `turns` are the run's turn events.
use qa_test_backend.Prelude.{
  ℕ, suc, ◌≡◌, refl, some, Bool, true, false, List, [], ◌∷◌, ◌++◌, ◌&&◌, ◌==◌, any, arith,
  if◌then◌else◌, ltb,
}
use mathlib.Core.List.{append_assoc, append-nil}
use qa_test_backend.Store.Payload.{TurnData}
use qa_test_backend.Store.{Db, TurnRow}
use qa_test_backend.Materialize.{
  turns_of, log_of, turn_row, has_key, insert_turns, with_tables, materialize_run,
}

-- The rows for turns numbered from `idx`.
unfoldable pub numbered : ℕ → ℕ → List TurnData → List TurnRow
numbered run_id idx [] = []
numbered run_id idx (d ∷ ds) = turn_row run_id idx d ∷ numbered run_id (suc idx) ds

-- No row of the run is numbered `idx` or higher.
abbrev is_from : ℕ → ℕ → TurnRow → Bool
is_from run_id idx row = row.run_id == run_id && (if ltb row.idx idx then false else true)

free_now :
    (run_id idx : ℕ) (table : List TurnRow)
    → any (is_from run_id idx) table ≡ false
    → any (has_key run_id idx) table ≡ false
unfolding any
free_now run_id idx [] h = refl
free_now run_id idx (row ∷ table) h = ground (arith, free_now run_id idx table)

free_next :
    (run_id idx : ℕ) (d : TurnData) (table : List TurnRow)
    → any (is_from run_id idx) table ≡ false
    → any (is_from run_id (suc idx)) (table ++ turn_row run_id idx d ∷ []) ≡ false
unfolding any
free_next run_id idx d [] h = ground arith
free_next run_id idx d (row ∷ table) h = ground (arith, free_next run_id idx d table)

insert_turns_lem :
    (run_id idx : ℕ) (ds : List TurnData) (table : List TurnRow)
    → any (is_from run_id idx) table ≡ false
    → insert_turns run_id idx ds table ≡ some (table ++ numbered run_id idx ds)
unfolding insert_turns numbered
insert_turns_lem run_id idx [] table h = rw append-nil
insert_turns_lem run_id idx (d ∷ ds) table h =
    rw (free_now run_id idx table h) (
      rw (insert_turns_lem run_id (suc idx) ds _ (free_next run_id idx d table h))
        (rw append_assoc))

-- A run without rows has none numbered `idx` or higher.
is_from-none :
    (i : ℕ) (table : List TurnRow)
    → any (λ row. row.run_id == i) table ≡ false
    → any (is_from i 0) table ≡ false
unfolding any
is_from-none i [] e = refl
is_from-none i (row ∷ table) e = ground (arith, is_from-none i table)

pub materialize_run-fresh :
    (run_id : ℕ) (db : Db)
    → any (λ row. row.run_id == run_id) db.turns ≡ false
    → materialize_run run_id db
      ≡ some (with_tables run_id db (db.turns ++ numbered run_id 0 (turns_of (log_of run_id db))))
unfolding materialize_run
materialize_run-fresh run_id db h = rw (
    insert_turns_lem run_id 0 (turns_of (log_of run_id db)) db.turns
      (is_from-none run_id db.turns h))

-- A run that has no rows in `turns` yet is materialized without an exception: the rows appended are
-- its turn events in the order of `seq`, numbered 0, 1, 2, … whatever index the events carry.
pub materialize_run-turns :
    (run_id : ℕ) (db : Db)
    → any (λ row. row.run_id == run_id) db.turns ≡ false
    → (after : Db) × (materialize_run run_id db ≡ some after)
      × (after.turns ≡ db.turns ++ numbered run_id 0 (turns_of (log_of run_id db)))
      × (after.runs ≡ db.runs)
      × (after.events ≡ db.events)
materialize_run-turns run_id db h = (_, materialize_run-fresh run_id db h, refl, refl, refl)
