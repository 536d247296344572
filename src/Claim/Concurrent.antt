-- ===== src/Claim/Concurrent.antt =====
-- Workers that run `claim_run` (app/workers/claim.py) at the same time, one statement a step. An
-- advisory lock is held to the end of the transaction. The update of the claim takes effect with the
-- commit that follows it at once. Every other transaction is a step of the environment.
use qa_test_backend.Prelude.{
  ℕ, ◌≤◌, ◌<◌, ◌≡◌, ◌≢◌, refl, sym, subst, Bool, true, false, Option, none, some, List, [], ◌∷◌,
  arith, ◌==◌, if◌then◌else◌, is_id, find, ◌⊎◌, ◌∙◌, ap, find-eq-some,
}
use mathlib.Core.Option.{some-injective}
use native.Mathlib.Decide.{ℕ_discrete}
use native.Mathlib.Nat.{le_refl, le_trans}
use Prim.Native.Nat.{suc-le-suc}
use qa_test_backend.Store.{Db, Run, Agent, has_id}
use qa_test_backend.Store.Unique.{IsUnique, update-IsUnique, find-Among}
use qa_test_backend.Verdict.{queued}
use qa_test_backend.Claim.{
  candidate_agents, candidate_limit, find_agent, at_capacity, oldest_claimable, mark_claimed,
  live_runs,
}
use qa_test_backend.Claim.Sound.{oldest-lem}
use qa_test_backend.Claim.Capacity.{IsWithinLimits, live_runs-mark_claimed}

-- Where a worker stands in `claim_run`: `scanning` before the lock of the first agent left is tried,
-- `holding` before the capacity is read, `checked` before the update.
pub data Phase : Type 0 where
  idle : Phase
  scanning : List ℕ → Phase
  holding checked : ℕ → List ℕ → Phase

pub record System : Type 0 where
  pub db : Db
  pub phase : ℕ → Phase
  pub lock : ℕ → Option ℕ

abbrev pub moved : ℕ → Phase → System → System
moved w p s = record s { phase = λ v. if v == w then p else s.phase v }

-- The end of the transaction of worker `w` gives back its locks.
abbrev pub ended : ℕ → System → System
ended w s = record s {
  phase = λ v. if v == w then idle else s.phase v;
  lock = λ a. if is_id (s.lock a) w then none else s.lock a;
}

abbrev pub locked_by : ℕ → ℕ → System → System
locked_by w a s = record s { lock = λ b. if b == a then some w else s.lock b }

-- What any other transaction may do: it keeps the ids apart and the agents' limits, and gives no agent
-- one more live run.
pub record IsQuiet (db db' : Db) : Type 0 where
  pub unique : IsUnique db.runs → IsUnique db'.runs
  pub agents : db'.agents ≡ db.agents
  pub live : (agent_id : ℕ) → live_runs agent_id db'.runs ≤ live_runs agent_id db.runs

pub data Step (s : System) : System → Type 0 where
  begin :
      (w : ℕ)
      → s.phase w ≡ idle
      → Step s (moved w (scanning (candidate_agents candidate_limit s.db)) s)
  lock_lost :
      (w v a : ℕ) (rest : List ℕ)
      → s.phase w ≡ scanning (a ∷ rest)
      → s.lock a ≡ some v
      → v ≢ w
      → Step s (moved w (scanning rest) s)
  lock_won :
      (w a : ℕ) (rest : List ℕ)
      → s.phase w ≡ scanning (a ∷ rest)
      → (s.lock a ≡ none) ⊎ (s.lock a ≡ some w)
      → Step s (locked_by w a (moved w (holding a rest) s))
  full :
      (w a : ℕ) (rest : List ℕ) (agent : Agent)
      → s.phase w ≡ holding a rest
      → find_agent a s.db ≡ some agent
      → at_capacity agent s.db ≡ true
      → Step s (moved w (scanning rest) s)
  room :
      (w a : ℕ) (rest : List ℕ) (agent : Agent)
      → s.phase w ≡ holding a rest
      → find_agent a s.db ≡ some agent
      → at_capacity agent s.db ≡ false
      → Step s (moved w (checked a rest) s)
  unknown :
      (w a : ℕ) (rest : List ℕ)
      → s.phase w ≡ holding a rest
      → find_agent a s.db ≡ none
      → Step s (ended w s)
  emptied :
      (w a : ℕ) (rest : List ℕ) (row_locked : ℕ → Bool)
      → s.phase w ≡ checked a rest
      → oldest_claimable row_locked a s.db ≡ none
      → Step s (moved w (scanning rest) s)
  take :
      (w a now : ℕ) (rest : List ℕ) (row_locked : ℕ → Bool) (r : Run)
      → s.phase w ≡ checked a rest
      → oldest_claimable row_locked a s.db ≡ some r
      → Step s (ended w (record s { db = mark_claimed w now r s.db }))
  give_up : (w : ℕ) → s.phase w ≡ scanning [] → Step s (ended w s)
  other : (db' : Db) → IsQuiet s.db db' → Step s (record s { db = db' })

pub data Reach (s : System) : System → Type 0 where
  here : Reach s s
  next : {t u : System} → Reach s t → Step t u → Reach s u

abbrev Holds : System → ℕ → Phase → Type 0
Holds s w idle = Unit
Holds s w (scanning rest) = Unit
Holds s w (holding a rest) = s.lock a ≡ some w
Holds s w (checked a rest) =
    (s.lock a ≡ some w)
    × ((agent : Agent)
        → find_agent a s.db ≡ some agent
        → live_runs a s.db.runs < agent.max_concurrency)

pub record IsSafe (s : System) : Type 0 where
  pub unique : IsUnique s.db.runs
  pub limits : IsWithinLimits s.db
  pub holds : (w : ℕ) → Holds s w (s.phase w)

Holds-map :
    (s t : System) (v : ℕ)
    → ((a : ℕ) → s.lock a ≡ some v → t.lock a ≡ some v)
    → ((a : ℕ)
        → s.lock a ≡ some v
        → (find_agent a t.db ≡ find_agent a s.db) × (live_runs a t.db.runs ≤ live_runs a s.db.runs))
    → (q : Phase) → Holds s v q
    → Holds t v q
Holds-map s t v locks counts idle h = tt
Holds-map s t v locks counts (scanning rest) h = tt
Holds-map s t v locks counts (holding a rest) h = locks a h
Holds-map s t v locks counts (checked a rest) h =
    let (same, fewer) = counts a h.0 in
    (locks a h.0, λ agent e. le_trans (suc-le-suc fewer) (h.1 agent (sym same ∙ e)))

switch_self : (v w : ℕ) (p q : Phase) → v ≡ w → (if v == w then p else q) ≡ p
switch_self v w p q e = ground arith

switch_other : (v w : ℕ) (p q : Phase) → v ≢ w → (if v == w then p else q) ≡ q
switch_other v w p q ne = ground arith

-- Every worker's facts hold after a step of worker `w` into phase `p`, if `w`'s own do and the others'
-- are kept.
Holds-switch :
    (s t : System) (w : ℕ) (p : Phase)
    → ((v : ℕ) → t.phase v ≡ (if v == w then p else s.phase v))
    → Holds t w p
    → ((v : ℕ) → v ≢ w → Holds t v (s.phase v))
    → (v : ℕ) → Holds t v (t.phase v)
Holds-switch s t w p shape own others v = elim (ℕ_discrete v w) [
  | yes e ↦
      subst (Holds t v) (sym (shape v ∙ switch_self v w p (s.phase v) e))
        (subst (λ u. Holds t u p) (sym e) own)
  | no ne ↦ subst (Holds t v) (sym (shape v ∙ switch_other v w p (s.phase v) ne)) (others v ne)
]

moved-IsSafe :
    (s : System) (w : ℕ) (p : Phase) → IsSafe s → Holds (moved w p s) w p → IsSafe (moved w p s)
moved-IsSafe s w p h own = record {
  unique = h.unique;
  limits = h.limits;
  holds =
      Holds-switch s (moved w p s) w p (λ v. refl) own
        λ v ne.
          Holds-map s (moved w p s) v (λ a l. l) (λ a l. (refl, le_refl _)) (s.phase v) (h.holds v);
}

locked-IsSafe :
    (s : System) (w a : ℕ) (rest : List ℕ)
    → (s.lock a ≡ none) ⊎ (s.lock a ≡ some w)
    → IsSafe s
    → IsSafe (locked_by w a (moved w (holding a rest) s))
locked-IsSafe s w a rest free h = record {
  unique = h.unique;
  limits = h.limits;
  holds =
      Holds-switch s (locked_by w a (moved w (holding a rest) s)) w (holding a rest) (λ v. refl)
        (ground arith)
        λ v ne.
          Holds-map s (locked_by w a (moved w (holding a rest) s)) v
            (λ b l. ground (arith, free, l, ne)) (λ b l. (refl, le_refl _)) (s.phase v) (h.holds v);
}

-- The end of a transaction that leaves `db'` behind.
ended-IsSafe :
    (s : System) (w : ℕ) (db' : Db)
    → IsUnique db'.runs
    → IsWithinLimits db'
    → ((v a : ℕ)
        → v ≢ w
        → s.lock a ≡ some v
        → (find_agent a db' ≡ find_agent a s.db) × (live_runs a db'.runs ≤ live_runs a s.db.runs))
    → IsSafe s
    → IsSafe (ended w (record s { db = db' }))
ended-IsSafe s w db' u limits counts h = record {
  unique = u;
  limits = limits;
  holds =
      Holds-switch s (ended w (record s { db = db' })) w idle (λ v. refl) tt
        λ v ne.
          Holds-map s (ended w (record s { db = db' })) v (λ b l. ground (arith, l, ne))
            (λ b l. counts v b ne l) (s.phase v) (h.holds v);
}

checked-facts :
    (s : System) (w a : ℕ) (rest : List ℕ)
    → IsSafe s
    → s.phase w ≡ checked a rest
    → Holds s w (checked a rest)
checked-facts s w a rest h e = subst (Holds s w) e (h.holds w)

holding-facts :
    (s : System) (w a : ℕ) (rest : List ℕ)
    → IsSafe s
    → s.phase w ≡ holding a rest
    → s.lock a ≡ some w
holding-facts s w a rest h e = subst (Holds s w) e (h.holds w)

-- The capacity that the worker read is that of the agent it claims for.
room-lt :
    (s : System) (a : ℕ) (agent found : Agent)
    → find_agent a s.db ≡ some agent
    → find_agent a s.db ≡ some found
    → at_capacity agent s.db ≡ false
    → live_runs a s.db.runs < found.max_concurrency
room-lt s a agent found k k' c =
    let same : agent ≡ found = some-injective agent found (sym k ∙ k') in
    let id : agent.id ≡ a = ground (arith, find-eq-some (λ x. x.id == a) agent s.db.agents k) in
    ground (arith, c, same, id)

marked-limits :
    (w now a : ℕ) (r : Run) (db : Db)
    → IsUnique db.runs
    → find (has_id r.id) db.runs ≡ some r
    → r.status ≡ queued
    → r.agent_id ≡ a
    → ((agent : Agent) → find_agent a db ≡ some agent → live_runs a db.runs < agent.max_concurrency)
    → IsWithinLimits db
    → IsWithinLimits (mark_claimed w now r db)
marked-limits w now a r db u h q for_agent spare_of limits i agent e = elim (ℕ_discrete a i) [
  | yes same ↦
      let spare : live_runs i db.runs < agent.max_concurrency =
        subst (λ j. live_runs j db.runs < agent.max_concurrency) same
          (spare_of agent (subst (λ j. find_agent j db ≡ some agent) (sym same) e)) in
      ground (arith, live_runs-mark_claimed w now i r db u h q, spare)
  | no differ ↦
      ground (arith, live_runs-mark_claimed w now i r db u h q, limits i agent e, for_agent, differ)
]

take-IsSafe :
    (s : System) (w a now : ℕ) (rest : List ℕ) (row_locked : ℕ → Bool) (r : Run)
    → s.phase w ≡ checked a rest
    → oldest_claimable row_locked a s.db ≡ some r
    → IsSafe s
    → IsSafe (ended w (record s { db = mark_claimed w now r s.db }))
take-IsSafe s w a now rest row_locked r e o h =
    let (own, spare) = checked-facts s w a rest h e in
    let (m, t, least) =
      oldest-lem
        (record { worker_id = w; now = now; agent_locked = λ b. false; row_locked = row_locked }) a
        s.db r o in
    let found : find (has_id r.id) s.db.runs ≡ some r = find-Among r s.db.runs h.unique m in
    let was_queued : r.status ≡ queued = ground (arith, t) in
    let for_agent : r.agent_id ≡ a = ground (arith, t) in
    ended-IsSafe s w (mark_claimed w now r s.db)
      (update-IsUnique r.id _ (λ x. refl) s.db.runs h.unique)
      (marked-limits w now a r s.db h.unique found was_queued for_agent spare h.limits)
      (λ v b ne l. (
        refl,
        ground (
          arith,
          live_runs-mark_claimed w now b r s.db h.unique found was_queued,
          for_agent,
          own,
          l,
          ne,
        ),
      ))
      h

quiet-IsSafe :
    (s : System) (db' : Db) → IsQuiet s.db db' → IsSafe s → IsSafe (record s { db = db' })
quiet-IsSafe s db' q h = record {
  unique = q.unique h.unique;
  limits = λ i agent e. le_trans (q.live i) (h.limits i agent (sym (find-quiet i) ∙ e));
  holds = λ v.
      Holds-map s (record s { db = db' }) v (λ b l. l) (λ b l. (find-quiet b, q.live b)) (s.phase v)
        (h.holds v);
}
  where
    find-quiet : (i : ℕ) → find_agent i db' ≡ find_agent i s.db
    find-quiet i = ap (find (λ x. x.id == i)) q.agents

-- Every step of every worker, and of the environment, keeps the facts.
Step-IsSafe : {s t : System} → Step s t → IsSafe s → IsSafe t
Step-IsSafe {s} (begin w e) h = moved-IsSafe s w _ h tt
Step-IsSafe {s} (lock_lost w v a rest e l ne) h = moved-IsSafe s w (scanning rest) h tt
Step-IsSafe {s} (lock_won w a rest e free) h = locked-IsSafe s w a rest free h
Step-IsSafe {s} (full w a rest agent e k c) h = moved-IsSafe s w (scanning rest) h tt
Step-IsSafe {s} (room w a rest agent e k c) h =
    moved-IsSafe s w (checked a rest) h
      (holding-facts s w a rest h e, λ other e'. room-lt s a agent other k e' c)
Step-IsSafe {s} (unknown w a rest e k) h =
    ended-IsSafe s w s.db h.unique h.limits (λ v b ne l. (refl, le_refl _)) h
Step-IsSafe {s} (emptied w a rest row_locked e o) h = moved-IsSafe s w (scanning rest) h tt
Step-IsSafe {s} (take w a now rest row_locked r e o) h =
    take-IsSafe s w a now rest row_locked r e o h
Step-IsSafe {s} (give_up w e) h =
    ended-IsSafe s w s.db h.unique h.limits (λ v b ne l. (refl, le_refl _)) h
Step-IsSafe {s} (other db' q) h = quiet-IsSafe s db' q h

Reach-IsSafe : {s t : System} → IsSafe s → Reach s t → IsSafe t
Reach-IsSafe h here = h
Reach-IsSafe h (next r st) = Step-IsSafe st (Reach-IsSafe h r)

-- However many workers claim at once, and whatever other transactions run between their statements
-- that give no agent one more live run, keep the ids of runs apart and the agents as they are, no agent
-- ever has more live runs than its limit, if that holds at the start, when the ids are apart and all workers are idle.
pub Reach-IsWithinLimits :
    (s t : System)
    → IsUnique s.db.runs
    → IsWithinLimits s.db
    → ((w : ℕ) → s.phase w ≡ idle)
    → Reach s t
    → IsWithinLimits t.db
Reach-IsWithinLimits s t u limits still r =
    (Reach-IsSafe
      (record { unique = u; limits = limits; holds = λ w. subst (Holds s w) (sym (still w)) tt })
      r).limits
