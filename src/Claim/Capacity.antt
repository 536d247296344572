-- ===== src/Claim/Capacity.antt =====
-- `claim_run` of app/workers/claim.py keeps every agent within its `max_concurrency`.
use qa_test_backend.Prelude.{
  ℕ, ◌+◌, ◌≤◌, ◌<◌, ◌≡◌, refl, sym, subst, some, arith, ◌==◌, if◌then◌else◌, find, ◌∙◌,
}
use mathlib.Core.Option.{some-injective}
use native.Mathlib.Decide.{ℕ_discrete}
use qa_test_backend.Store.{Db, Run, Agent, has_id}
use qa_test_backend.Store.Unique.{IsUnique, update-IsUnique, count-update_id, find-Among}
use qa_test_backend.Verdict.{queued}
use qa_test_backend.Claim.{
  Attempt, ClaimResult, got, nothing, raised, claim_run, find_agent, mark_claimed, set_claimed,
  live_runs, is_executing_for,
}
use qa_test_backend.Claim.Sound.{ScanResult, claim_run-ScanResult}

-- No agent has more live runs than its limit.
abbrev pub IsWithinLimits : Db → Type 0
IsWithinLimits db =
    (agent_id : ℕ) (agent : Agent)
    → find_agent agent_id db ≡ some agent
    → live_runs agent_id db.runs ≤ agent.max_concurrency

-- Marking one queued run adds one live run to its agent, and none to any other.
pub live_runs-mark_claimed :
    (worker now agent_id : ℕ) (r : Run) (db : Db)
    → IsUnique db.runs
    → find (has_id r.id) db.runs ≡ some r
    → r.status ≡ queued
    → live_runs agent_id (mark_claimed worker now r db).runs
      ≡ live_runs agent_id db.runs + (if r.agent_id == agent_id then 1 else 0)
live_runs-mark_claimed worker now agent_id r db u h q = ground (
  arith,
  q,
  count-update_id r.id (set_claimed worker now) (is_executing_for agent_id) db.runs r u h,
)

pub mark_claimed-IsWithinLimits :
    (worker now : ℕ) (r : Run) (agent : Agent) (db : Db)
    → IsUnique db.runs
    → find (has_id r.id) db.runs ≡ some r
    → r.status ≡ queued
    → r.agent_id ≡ agent.id
    → find_agent agent.id db ≡ some agent
    → live_runs agent.id db.runs < agent.max_concurrency
    → IsWithinLimits db
    → IsWithinLimits (mark_claimed worker now r db)
mark_claimed-IsWithinLimits worker now r agent db u h q for_agent known room limits i a e =
    elim (ℕ_discrete agent.id i) [
      | yes same ↦
          let is_agent : agent ≡ a = some-injective agent a (sym (rw (← same) known) ∙ e) in
          ground
            (arith, live_runs-mark_claimed worker now i r db u h q, room, for_agent, is_agent, same)
      | no other ↦
          ground
            (arith, live_runs-mark_claimed worker now i r db u h q, limits i a e, for_agent, other)
    ]

result-IsWithinLimits :
    (at : Attempt) (db after : Db) (result : ClaimResult)
    → ScanResult at db (after, result)
    → IsUnique db.runs
    → IsWithinLimits db
    → IsWithinLimits after × IsUnique after.runs
result-IsWithinLimits at db after (got c) (r, shown, w, e) u limits =
    let limits' =
      mark_claimed-IsWithinLimits at.worker_id at.now r w.agent db u
        (find-Among r db.runs u w.in_table) w.was_queued w.for_agent w.known w.room limits in
    (
      subst IsWithinLimits (sym e) limits',
      subst (λ d. IsUnique d.runs) (sym e) (update-IsUnique r.id _ (λ x. refl) db.runs u),
    )
result-IsWithinLimits at db after nothing e u limits =
    (subst IsWithinLimits (sym e) limits, subst (λ d. IsUnique d.runs) (sym e) u)
result-IsWithinLimits at db after raised e u limits =
    (subst IsWithinLimits (sym e) limits, subst (λ d. IsUnique d.runs) (sym e) u)

-- If no two runs have one id and no agent has more live runs than its limit, both hold after a claim,
-- whoever asks and whatever is locked.
pub claim_run-IsWithinLimits :
    (at : Attempt) (db : Db)
    → IsUnique db.runs
    → IsWithinLimits db
    → IsWithinLimits (claim_run at db).0 × IsUnique (claim_run at db).0.runs
claim_run-IsWithinLimits at db u limits =
    let (after, result) = claim_run at db in
    result-IsWithinLimits at db after result (claim_run-ScanResult at db) u limits
