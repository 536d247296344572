-- ===== src/Claim/Sound.antt =====
-- `claim_run` of app/workers/claim.py, as one transaction: what a successful claim took.
use qa_test_backend.Prelude.{
  ℕ, ◌≤◌, ◌<◌, ◌≡◌, refl, Bool, true, false, none, some, List, [], ◌∷◌, any, arith, ◌==◌, select,
  ◌&&◌, not, Bool-cases, Option-cases, inl, inr, head?-eq-some, Among, Among-select, All,
  sort_by-head, find-eq-some, sym, subst,
}
use qa_test_backend.Verdict.{queued}
use qa_test_backend.Store.{Db, Run, Agent, is_child_of}
use qa_test_backend.Claim.{
  Attempt, ClaimResult, got, nothing, raised, claim_scan, claim_run, candidate_agents,
  candidate_limit, find_agent, at_capacity, oldest_claimable, is_claimable, mark_claimed, returned,
  live_runs,
}

abbrev pub is_candidate : Attempt → ℕ → Db → Run → Bool
is_candidate at agent_id db r =
    r.agent_id == agent_id && is_claimable db.runs r && not (at.row_locked r.id)

-- What a claim rests on: the row that was taken and its agent.
pub record IsClaim (at : Attempt) (db : Db) (run : Run) : Type 0 where
  pub agent : Agent
  pub for_agent : run.agent_id ≡ agent.id
  pub in_table : Among run db.runs
  pub was_queued : run.status ≡ queued
  pub childless : any (is_child_of run.id) db.runs ≡ false
  pub unlocked : at.agent_locked agent.id ≡ false
  pub known : find_agent agent.id db ≡ some agent
  pub room : live_runs agent.id db.runs < agent.max_concurrency
  pub oldest :
      All (λ r. run.created_at ≤ r.created_at) (select (is_candidate at agent.id db) db.runs)

-- A scan that claims has taken a row that IsClaim describes, and has marked that row.
abbrev pub ScanResult : Attempt → Db → Db × ClaimResult → Type 0
ScanResult at db (after, got c) =
    (r : Run) × (c ≡ returned r) × IsClaim at db r × (after ≡ mark_claimed at.worker_id at.now r db)
ScanResult at db (after, nothing) = after ≡ db
ScanResult at db (after, raised) = after ≡ db

pub oldest-lem :
    (at : Attempt) (agent_id : ℕ) (db : Db) (r : Run)
    → oldest_claimable at.row_locked agent_id db ≡ some r
    → (Among r db.runs)
      × (is_candidate at agent_id db r ≡ true)
      × All (λ x. r.created_at ≤ x.created_at) (select (is_candidate at agent_id db) db.runs)
unfolding oldest_claimable
oldest-lem at agent_id db r h =
    let (ys, e) = head?-eq-some r _ h in
    let (m, least) =
      sort_by-head (λ x. x.created_at) (select (is_candidate at agent_id db) db.runs) r ys e in
    let (m', t) = Among-select (is_candidate at agent_id db) r db.runs m in (m', t, least)

module _ (at : Attempt) (agent_id : ℕ) (rest : List ℕ) (db : Db) where
  scan_locked :
      at.agent_locked agent_id ≡ true → claim_scan at (agent_id ∷ rest) db ≡ claim_scan at rest db
  unfolding claim_scan
  scan_locked l = ground arith

  scan_unknown :
      at.agent_locked agent_id ≡ false
      → find_agent agent_id db ≡ none
      → claim_scan at (agent_id ∷ rest) db ≡ (db, raised)
  unfolding claim_scan
  scan_unknown l u = ground arith

  module _ (agent : Agent) (free : at.agent_locked agent_id ≡ false)
      (known : find_agent agent_id db ≡ some agent) where
    scan_full :
        at_capacity agent db ≡ true → claim_scan at (agent_id ∷ rest) db ≡ claim_scan at rest db
    unfolding claim_scan
    scan_full c = ground arith

    scan_empty :
        at_capacity agent db ≡ false
        → oldest_claimable at.row_locked agent_id db ≡ none
        → claim_scan at (agent_id ∷ rest) db ≡ claim_scan at rest db
    unfolding claim_scan
    scan_empty c o = ground arith

    scan_takes :
        (r : Run)
        → at_capacity agent db ≡ false
        → oldest_claimable at.row_locked agent_id db ≡ some r
        → claim_scan at (agent_id ∷ rest) db
          ≡ (mark_claimed at.worker_id at.now r db, got (returned r))
    unfolding claim_scan
    scan_takes r c o = ground arith

agent-id :
    (agent_id : ℕ) (agent : Agent) (db : Db)
    → find_agent agent_id db ≡ some agent
    → agent.id ≡ agent_id
agent-id agent_id agent db h =
    ground (arith, find-eq-some (λ a. a.id == agent_id) agent db.agents h)

taken :
    (at : Attempt) (agent_id : ℕ) (db : Db) (agent : Agent) (r : Run)
    → at.agent_locked agent_id ≡ false
    → find_agent agent_id db ≡ some agent
    → at_capacity agent db ≡ false
    → oldest_claimable at.row_locked agent_id db ≡ some r
    → IsClaim at db r
taken at agent_id db agent r free known room o =
    let id : agent_id ≡ agent.id = sym (agent-id agent_id agent db known) in
    let (m, t, least) = oldest-lem at agent_id db r o in
    record {
      agent = agent;
      for_agent = ground (arith, t, id);
      in_table = m;
      was_queued = ground (arith, t);
      childless = ground (arith, t);
      unlocked = subst (λ i. at.agent_locked i ≡ false) id free;
      known = subst (λ i. find_agent i db ≡ some agent) id known;
      room = ground (arith, room);
      oldest =
          subst
            (λ i. All (λ x. r.created_at ≤ x.created_at) (select (is_candidate at i db) db.runs)) id
            least;
    }

claim_scan-ScanResult :
    (at : Attempt) (agents : List ℕ) (db : Db) → ScanResult at db (claim_scan at agents db)
claim_scan-ScanResult at [] db = unfold claim_scan in refl
claim_scan-ScanResult at (agent_id ∷ rest) db =
    let next : ScanResult at db (claim_scan at rest db) = claim_scan-ScanResult at rest db in
    elim (Bool-cases (at.agent_locked agent_id)) [
      | inl l ↦ rw (scan_locked at agent_id rest db l) next
      | inr free ↦ elim (Option-cases (find_agent agent_id db)) [
        | inl u ↦ rw (scan_unknown at agent_id rest db free u) refl
        | inr (agent, known) ↦ elim (Bool-cases (at_capacity agent db)) [
          | inl full ↦ rw (scan_full at agent_id rest db agent free known full) next
          | inr room ↦ elim (Option-cases (oldest_claimable at.row_locked agent_id db)) [
            | inl o ↦ rw (scan_empty at agent_id rest db agent free known room o) next
            | inr (r, o) ↦
                rw (scan_takes at agent_id rest db agent free known r room o)
                  (r, refl, taken at agent_id db agent r free known room o, refl)
          ]
        ]
      ]
    ]

-- A claim that succeeds has taken a queued run with no children whose agent's lock was free and which
-- had fewer live runs than its limit; among that agent's claimable rows that no one held, none was
-- created earlier. The row is marked as claimed by this worker, and nothing else is changed. A claim
-- that does not succeed changes nothing.
pub claim_run-ScanResult : (at : Attempt) (db : Db) → ScanResult at db (claim_run at db)
unfolding claim_run
claim_run-ScanResult at db = claim_scan-ScanResult at (candidate_agents candidate_limit db) db
