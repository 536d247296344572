-- ===== src/Engine.antt =====
-- The backend's processes together: any sequence of the transactions of app/workers, of app/engine/executor and
-- of the endpoints that create and cancel a run, in whatever order they commit.
pub mod Quiet
use qa_test_backend.Runs.Create.{Request, create_run}
use qa_test_backend.Runs.Create.Retry.{create_run-events}
use qa_test_backend.Prelude.{ℕ, ◌≡◌, sym, subst, ap, Option, Bool, List, String}
use qa_test_backend.Store.Payload.{Event, MetricsData}
use qa_test_backend.Store.{Db, emit}
use qa_test_backend.Store.Log.{IsGapless, IsGaplessFor, emit-IsGapless}
use qa_test_backend.Claim.{Attempt, ClaimResult, got, nothing, raised, claim_run}
use qa_test_backend.Claim.Sound.{ScanResult, claim_run-ScanResult}
use qa_test_backend.Reaper.{reap_stale_runs, stale_ids, reconcile_orphaned_parents, orphaned_ids}
use qa_test_backend.Reaper.Reap.{reap_all-IsGapless}
use qa_test_backend.Reaper.Reconcile.{reconcile_all-IsGapless}
use qa_test_backend.Cancel.{cancel_run}
use qa_test_backend.Cancel.Batch.{cancel_run-IsGapless}
use qa_test_backend.Materialize.{materialize_discovery}
use qa_test_backend.Runner.{start_run, update_heartbeat, goes_on, stopped, script_step}
use qa_test_backend.Runner.Script.{Commits, script_step-IsGapless, start_run-IsGapless}
use qa_test_backend.Discovery.Explorer.{ExplorerCaller}
use qa_test_backend.Executor.{fail_run}
use qa_test_backend.Executor.Log.{fail_run-IsGapless}
use qa_test_backend.Executor.Simulation.{AssertionSpec, CallReport, finish_call}
use qa_test_backend.Executor.Redteam.{AttackReport, finish_attack}
use qa_test_backend.Executor.Discovery.{finish_discovery}
use qa_test_backend.Executor.Gapless.{
  finish_call-IsGapless, finish_attack-IsGapless, finish_discovery-IsGapless,
}

-- One committed transaction, or at a call's end the failed one and the one that follows.
pub data Transaction (db : Db) : Db → Type 0 where
  claims : (at : Attempt) → Transaction db (claim_run at db).0
  starts : (now i : ℕ) → Transaction db (start_run now i db)
  beats : (now i : ℕ) → Transaction db (update_heartbeat now i db)
  emits : (i : ℕ) (event : Event) → Transaction db (emit i event db).0
  plays :
      (now i : ℕ) (latest : Option MetricsData) (event : Event) (is_last : Bool) (after : Db)
      → script_step now i latest event is_last db ≡ goes_on after
      → Transaction db after
  ends :
      (now i : ℕ) (latest : Option MetricsData) (event : Event) (is_last : Bool) (after : Db)
      → script_step now i latest event is_last db ≡ stopped after
      → Transaction db after
  fails : (now i : ℕ) (code message : String) → Transaction db (fail_run now i code message db)
  simulates :
      (now i : ℕ) (specs : List AssertionSpec) (r : CallReport)
      → Transaction db (finish_call now i specs r db)
  attacks :
      (strip : String → String) (now i : ℕ) (a : AttackReport)
      → Transaction db (finish_attack strip now i a db)
  explores :
      (casefold : String → String) (now i : ℕ) (r : CallReport) (c : ExplorerCaller)
      → Transaction db (finish_discovery casefold now i r c db)
  maps : (i : ℕ) → Transaction db (materialize_discovery i db)
  cancels : (now i project : ℕ) → Transaction db (cancel_run now i project db).0
  creates : (now i : ℕ) (req : Request) → Transaction db (create_run now i req db).0
  reaps :
      (locked : ℕ → Bool) (threshold now : ℕ)
      → Transaction db (reap_stale_runs locked threshold now db).0
  reconciles :
      (locked : ℕ → Bool) (now : ℕ) → Transaction db (reconcile_orphaned_parents locked now db).0

-- Transactions one after the other.
pub data History (db : Db) : Db → Type 0 where
  nothing_yet : History db db
  then : {d e : Db} → History db d → Transaction d e → History db e

same_log : (db after : Db) → after.events ≡ db.events → IsGapless db → IsGapless after
same_log db after e h = subst (λ rows. (i : ℕ) → IsGaplessFor i rows) (sym e) h

claimed_log :
    (at : Attempt) (db after : Db) (result : ClaimResult)
    → ScanResult at db (after, result)
    → after.events ≡ db.events
claimed_log at db after (got c) (r, shown, w, e) = ap (λ d. d.events) e
claimed_log at db after nothing e = ap (λ d. d.events) e
claimed_log at db after raised e = ap (λ d. d.events) e

Transaction-IsGapless : {db after : Db} → Transaction db after → IsGapless db → IsGapless after
unfolding update_heartbeat materialize_discovery reap_stale_runs reconcile_orphaned_parents
Transaction-IsGapless {db} (claims at) h =
    let (after, result) = claim_run at db in
    same_log db after (claimed_log at db after result (claim_run-ScanResult at db)) h
Transaction-IsGapless {db} (starts now i) h = start_run-IsGapless now i db h
Transaction-IsGapless (beats now i) h = h
Transaction-IsGapless {db} (emits i event) h = (emit-IsGapless i event db h).0
Transaction-IsGapless {db} (plays now i latest event is_last after e) h =
    subst (Commits IsGapless) e (script_step-IsGapless now i latest db h event is_last)
Transaction-IsGapless {db} (ends now i latest event is_last after e) h =
    subst (Commits IsGapless) e (script_step-IsGapless now i latest db h event is_last)
Transaction-IsGapless {db} (fails now i code message) h = fail_run-IsGapless now i code message db h
Transaction-IsGapless {db} (simulates now i specs r) h = finish_call-IsGapless now i db h specs r
Transaction-IsGapless {db} (attacks strip now i a) h = finish_attack-IsGapless now i db h strip a
Transaction-IsGapless {db} (explores casefold now i r c) h =
    finish_discovery-IsGapless now i db h casefold r c
Transaction-IsGapless (maps i) h = h
Transaction-IsGapless {db} (cancels now i project) h = cancel_run-IsGapless now i project db h
Transaction-IsGapless {db} (creates now i req) h =
    same_log db (create_run now i req db).0 (create_run-events now i req db) h
Transaction-IsGapless {db} (reaps locked threshold now) h =
    reap_all-IsGapless threshold now (stale_ids locked threshold now db) db h
Transaction-IsGapless {db} (reconciles locked now) h =
    reconcile_all-IsGapless now (orphaned_ids locked db) db h

-- In whatever order requests, claims, executors, heartbeats, cancels and sweeps commit, every run's
-- events stay numbered 1, 2, 3, … with no gap, if they are so at the start.
pub History-IsGapless : (db after : Db) → IsGapless db → History db after → IsGapless after
History-IsGapless db _ h nothing_yet = h
History-IsGapless db _ h (then {d} past t) = Transaction-IsGapless t (History-IsGapless db d h past)
