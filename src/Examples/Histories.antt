-- ===== src/Examples/Histories.antt =====
-- The theorem on the sequences of transactions: a run is claimed, starts, is cancelled and swept.
use qa_test_backend.Prelude.{ℕ, Bool, refl}
use qa_test_backend.Store.{Db}
use qa_test_backend.Store.Log.{IsGapless, seqs_of}
use qa_test_backend.Claim.{Attempt, claim_run}
use qa_test_backend.Cancel.{cancel_run}
use qa_test_backend.Reaper.{reap_stale_runs}
use qa_test_backend.Runner.{start_run}
use qa_test_backend.Engine.{
  History, nothing_yet, then, claims, starts, cancels, reaps, History-IsGapless,
}
use qa_test_backend.Engine.Quiet.{environment-IsQuiet}
use qa_test_backend.Claim.Concurrent.{IsQuiet}
use qa_test_backend.Reaper.{reconcile_orphaned_parents}
use qa_test_backend.Runner.{update_heartbeat}
use qa_test_backend.Examples.Data.{nobody, queue}

abbrev at_100 : Attempt
at_100 = record { worker_id = 9; now = 100; agent_locked = nobody; row_locked = nobody }

abbrev swept : Db
swept =
    (reap_stale_runs nobody 60 300
      (cancel_run 102 4 1 (start_run 101 4 (claim_run at_100 queue).0)).0).0

queue-swept : History queue swept
queue-swept =
    then (then (then (then nothing_yet (claims at_100)) (starts 101 4)) (cancels 102 4 1))
      (reaps nobody 60 300)

queue-IsGapless : IsGapless queue
unfolding seqs_of
queue-IsGapless i = refl

History-IsGapless_example : IsGapless swept
History-IsGapless_example = History-IsGapless queue swept queue-IsGapless queue-swept

environment-IsQuiet_example :
    ((now i : ℕ) → IsQuiet queue (update_heartbeat now i queue))
    × ((now i project : ℕ) → IsQuiet queue (cancel_run now i project queue).0)
    × ((locked : ℕ → Bool) (threshold now : ℕ)
        → IsQuiet queue (reap_stale_runs locked threshold now queue).0)
    × ((locked : ℕ → Bool) (now : ℕ)
        → IsQuiet queue (reconcile_orphaned_parents locked now queue).0)
environment-IsQuiet_example = environment-IsQuiet queue
