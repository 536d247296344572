-- ===== src/Examples/Logs.antt =====
-- The theorem on app/workers/materialize.py at an empty log.
use qa_test_backend.Prelude.{◌≡◌, refl, some, ◌++◌, any}
use qa_test_backend.Store.{Db}
use qa_test_backend.Materialize.{materialize_run, turns_of, log_of}
use qa_test_backend.Materialize.Turns.{numbered, materialize_run-turns}
use qa_test_backend.Examples.Data.{open_batch}

materialize_run-turns_example :
    (after : Db) × (materialize_run 3 open_batch ≡ some after)
    × (after.turns ≡ open_batch.turns ++ numbered 3 0 (turns_of (log_of 3 open_batch)))
    × (after.runs ≡ open_batch.runs)
    × (after.events ≡ open_batch.events)
unfolding any
materialize_run-turns_example = materialize_run-turns 3 open_batch refl
