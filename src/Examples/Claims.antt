-- ===== src/Examples/Claims.antt =====
-- The theorems on app/workers/claim.py at the queue of two runs.
use qa_test_backend.Prelude.{refl, none, [], arith, inl, find, select, any, count_where, sort_by}
use qa_test_backend.Store.Unique.{IsUnique}
use qa_test_backend.Claim.{
  Attempt, candidate_agents, candidate_limit, claim_run, distinct_on_agent, oldest_claimable,
  mark_claimed,
}
use qa_test_backend.Claim.Sound.{ScanResult, claim_run-ScanResult}
use qa_test_backend.Claim.Capacity.{IsWithinLimits}
use qa_test_backend.Claim.Concurrent.{
  System, Reach, idle, scanning, holding, checked, moved, ended, locked_by, begin, lock_won, room,
  take, here, next, Reach-IsWithinLimits,
}
use qa_test_backend.Examples.Data.{nobody, agent_seven, queued_four, queue}

abbrev attempt : Attempt
attempt = record { worker_id = 9; now = 100; agent_locked = nobody; row_locked = nobody }

queue-IsUnique : IsUnique queue.runs
unfolding any
queue-IsUnique = (refl, (refl, tt))

queue-IsWithinLimits : IsWithinLimits queue
unfolding count_where find
queue-IsWithinLimits i agent e = ground arith

claim_run-ScanResult_example : ScanResult attempt queue (claim_run attempt queue)
claim_run-ScanResult_example = claim_run-ScanResult attempt queue

-- Worker 9 claims the older run: it scans, locks agent 7, finds room and takes run 4.
abbrev start : System
start = record { db = queue; phase = λ w. idle; lock = λ a. none }

abbrev scanned : System
scanned = moved 9 (scanning (candidate_agents candidate_limit queue)) start

abbrev locked : System
locked = locked_by 9 7 (moved 9 (holding 7 []) scanned)

abbrev roomy : System
roomy = moved 9 (checked 7 []) locked

abbrev taken : System
taken = ended 9 (record roomy { db = mark_claimed 9 100 queued_four queue })

start-taken : Reach start taken
unfolding candidate_agents oldest_claimable distinct_on_agent select any sort_by count_where find
start-taken =
    next
      (next (next (next here (begin 9 refl)) (lock_won 9 7 [] refl (inl refl)))
        (room 9 7 [] agent_seven refl refl refl))
      (take 9 7 100 [] nobody queued_four refl refl)

Reach-IsWithinLimits_example : IsWithinLimits taken.db
Reach-IsWithinLimits_example =
    Reach-IsWithinLimits start taken queue-IsUnique queue-IsWithinLimits (λ w. refl) start-taken
