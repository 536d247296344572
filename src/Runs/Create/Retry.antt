-- ===== src/Runs/Create/Retry.antt =====
-- `_create_run` of app/api/runs.py, called again with the idempotency key of a run that it has created.
use qa_test_backend.Prelude.{
  Option, ℕ, suc, ◌≡◌, refl, none, some, Bool, true, false, List, [], ◌∷◌, ◌++◌, leb, find, arith,
  String, if◌then◌else◌,
}
use qa_test_backend.Store.{Db, Run, Agent}
use qa_test_backend.Runs.Create.{
  Request, is_agent_of, is_keyed, new_run, with_run, live_run_count, insert_run, create_for,
  create_run, Answer, run_id, concurrency_limit,
}

live_run_count-new :
    (now i : ℕ) (req : Request) (rows : List Run)
    → live_run_count req.agent_id (rows ++ new_run now i req ∷ [])
      ≡ suc (live_run_count req.agent_id rows)
unfolding live_run_count
live_run_count-new now i req [] = ground arith
live_run_count-new now i req (r ∷ rows) = ground (arith, live_run_count-new now i req rows)

is_keyed-new :
    (now i : ℕ) (req : Request) (k : String)
    → req.idempotency_key ≡ some k
    → is_keyed req (new_run now i req) ≡ true
is_keyed-new now i req k e = rw e (ground arith)

find-new :
    (now i : ℕ) (req : Request) (k : String) (rows : List Run)
    → req.idempotency_key ≡ some k
    → find (is_keyed req) rows ≡ none
    → find (is_keyed req) (rows ++ new_run now i req ∷ []) ≡ some (new_run now i req)
unfolding find
find-new now i req k [] e h = rw (is_keyed-new now i req k e) refl
find-new now i req k (r ∷ rows) e h = ground (arith, find-new now i req k rows e)

pair-if :
    (c : Bool) (db : Db) (x y : Answer)
    → ◌≡◌ {A = Db × Answer} (if c then (db, x) else (db, y)) (db, if c then x else y)
pair-if true db x y = refl
pair-if false db x y = refl

-- A request whose key is not taken yet, for an agent of its project with room for a run, creates a run.
-- The same request again (another fresh id, whatever the time) changes nothing; it is answered with the
-- id of that run if the agent still has room for one more run, and with `concurrency_limit` if the run
-- just created has filled the agent.
pub create_run-retry :
    (now i later j : ℕ) (req : Request) (k : String) (agent : Agent) (db : Db)
    → req.idempotency_key ≡ some k
    → find (is_agent_of req) db.agents ≡ some agent
    → find (is_keyed req) db.runs ≡ none
    → leb agent.max_concurrency (live_run_count req.agent_id db.runs) ≡ false
    → (create_run now i req db ≡ (with_run (new_run now i req) db, run_id i))
      × (create_run later j req (with_run (new_run now i req) db) ≡ (
        with_run (new_run now i req) db,
        (if leb agent.max_concurrency (suc (live_run_count req.agent_id db.runs))
            then concurrency_limit
            else run_id i),
      ))
unfolding create_run create_for insert_run
create_run-retry now i later j req k agent db keyed found new room = (
  rw found (rw room (rw new refl)),
  rw found (
      rw (live_run_count-new now i req db.runs)
        (rw (find-new now i req k db.runs keyed new) (pair-if _ _ _ _))),
)

insert_run-events :
    (now i : ℕ) (req : Request) (existing : Option Run) (db : Db)
    → (insert_run now i req existing db).0.events ≡ db.events
unfolding insert_run
insert_run-events now i req none db = refl
insert_run-events now i req (some r) db = refl

create_for-events :
    (now i : ℕ) (req : Request) (found : Option Agent) (db : Db)
    → (create_for now i req found db).0.events ≡ db.events
unfolding create_for
create_for-events now i req none db = refl
create_for-events now i req (some agent) db =
    ground (arith, insert_run-events now i req (find (is_keyed req) db.runs) db)

pub create_run-events :
    (now i : ℕ) (req : Request) (db : Db) → (create_run now i req db).0.events ≡ db.events
unfolding create_run
create_run-events now i req db = create_for-events now i req (find (is_agent_of req) db.agents) db
