-- ===== src/Claim.antt =====
-- app/workers/claim.py: `claim_run` as one transaction. Advisory locks and row locks that other
-- transactions hold are arguments; Claim/Concurrent has the workers' interleavings.
pub mod Sound
pub mod Capacity
pub mod Concurrent
use qa_test_backend.Prelude.{
  ℕ, Option, none, some, Bool, true, false, List, [], ◌∷◌, map, ◌&&◌, not, ◌==◌, leb, find, select,
  any, count_where, sort_by, head?, take, if◌then◌else◌,
}
use qa_test_backend.Verdict.{RunStatus, queued, claimed, running}
use qa_test_backend.Store.{Db, Run, RunType, Agent, has_id, is_child_of, update_runs}
use qa_test_backend.Reaper.{is_executing}

-- What the executors are given (without `config`, which they read for their own settings).
pub record ClaimedRun : Type 0 where
  pub id : ℕ
  pub type : RunType
  pub agent_id : ℕ
  pub scenario_id : Option ℕ
  pub parent_run_id : Option ℕ

-- `raised` is the exception of `.one()` for an agent that is not in the table.
pub data ClaimResult : Type 0 where
  got : ClaimedRun → ClaimResult
  nothing raised : ClaimResult

abbrev pub candidate_limit : ℕ
candidate_limit = 200

abbrev pub is_queued : RunStatus → Bool
is_queued queued = true
is_queued _ = false

-- `r.status = 'queued' AND NOT EXISTS (… c.parent_run_id = r.id)`
abbrev pub is_claimable : List Run → Run → Bool
is_claimable runs r = is_queued r.status && not (any (is_child_of r.id) runs)

-- `DISTINCT ON (agent_id)`: the first row of each agent.
unfoldable pub distinct_on_agent : List ℕ → List Run → List Run
distinct_on_agent seen [] = []
distinct_on_agent seen (r ∷ rs) =
    let again = distinct_on_agent seen rs in
    let fresh = r ∷ distinct_on_agent (r.agent_id ∷ seen) rs in
    if any (λ a. a == r.agent_id) seen then again else fresh

-- `_CANDIDATE_AGENTS_SQL`: each agent's oldest claimable row, ordered by its age, at most `limit`.
unfoldable pub candidate_agents : ℕ → Db → List ℕ
unfolding select any sort_by distinct_on_agent
candidate_agents limit db =
    let by_age = sort_by (λ r. r.created_at) (select (is_claimable db.runs) db.runs) in
    let oldest_per_agent = distinct_on_agent [] (sort_by (λ r. r.agent_id) by_age) in
    take limit (map (λ r. r.agent_id) (sort_by (λ r. r.created_at) oldest_per_agent))

abbrev pub is_executing_for : ℕ → Run → Bool
is_executing_for agent_id r = r.agent_id == agent_id && is_executing r.status

-- The subquery `live` of `_AGENT_CAPACITY_SQL`
abbrev pub live_runs : ℕ → List Run → ℕ
live_runs agent_id runs = count_where (is_executing_for agent_id) runs

abbrev pub find_agent : ℕ → Db → Option Agent
find_agent agent_id db = find (λ a. a.id == agent_id) db.agents

-- `capacity["live"] >= capacity["max_concurrency"]`
abbrev pub at_capacity : Agent → Db → Bool
at_capacity agent db = leb agent.max_concurrency (live_runs agent.id db.runs)

-- The subquery of `_CLAIM_OLDEST_FOR_AGENT_SQL`
unfoldable pub oldest_claimable : (ℕ → Bool) → ℕ → Db → Option Run
unfolding select any sort_by
oldest_claimable row_locked agent_id db = head? (
    sort_by (λ r. r.created_at)
      (select (λ r. r.agent_id == agent_id && is_claimable db.runs r && not (row_locked r.id))
        db.runs))

abbrev pub set_claimed : ℕ → ℕ → Run → Run
set_claimed worker_id now r = record r {
  status = claimed;
  claimed_by = some worker_id;
  heartbeat_at = some now;
}

abbrev pub mark_claimed : ℕ → ℕ → Run → Db → Db
mark_claimed worker_id now r db = update_runs (has_id r.id) (set_claimed worker_id now) db

abbrev pub returned : Run → ClaimedRun
returned r = record {
  id = r.id;
  type = r.type;
  agent_id = r.agent_id;
  scenario_id = r.scenario_id;
  parent_run_id = r.parent_run_id;
}

-- What other transactions hold, and who asks when.
pub record Attempt : Type 0 where
  pub worker_id : ℕ
  pub now : ℕ
  pub agent_locked : ℕ → Bool
  pub row_locked : ℕ → Bool

-- The loop over the candidates; each `continue` is the call on the rest.
unfoldable pub claim_scan : Attempt → List ℕ → Db → Db × ClaimResult
claim_scan at [] db = (db, nothing)
claim_scan at (agent_id ∷ rest) db =
    let next = claim_scan at rest db in
    if at.agent_locked agent_id then next else elim (find_agent agent_id db) [
      | none ↦ (db, raised)
      | some agent ↦
          if at_capacity agent db then next else elim (oldest_claimable at.row_locked agent_id db) [
            | none ↦ next
            | some r ↦ (mark_claimed at.worker_id at.now r db, got (returned r))
          ]
    ]

unfoldable pub claim_run : Attempt → Db → Db × ClaimResult
unfolding candidate_agents claim_scan
claim_run at db = claim_scan at (candidate_agents candidate_limit db) db
