-- ===== src/Lib.antt =====
-- The backend's engine: how test runs are claimed by workers, executed, cancelled, reaped and rolled up
-- into batches, and the event log that everything else is read from and streamed to clients.
--
-- A run is a row of `runs`. A worker claims a queued one (app/workers/claim.py), an executor plays it
-- (app/workers/fake_runner.py is the scripted one, those of app/engine/executor make real calls) and appends
-- events to `run_events` through `emit` (app/events.py); at its end the read tables are written from the
-- log (app/workers/materialize.py) and its batch may close (app/workers/rollup.py). Meanwhile a user may
-- cancel it (app/api/runs.py) and the reaper may fail it when its worker is lost (app/workers/reaper.py).
--
-- Files:
--   Prelude      Boolean tests, lists and table queries shared by all, texts and decimals
--   Verdict      app/verdict.py; Verdict/Rubric: app/engine/rubric.py
--   Store        app/models/runs.py and app/models/discovery.py as rows of the record Db, and `emit`;
--                Store/Payload: app/schemas/events.py
--   Rollup       app/workers/rollup.py: close_if_done, maybe_close_parent, close_parent_now
--   Reaper       app/workers/reaper.py: reap_stale_runs, reconcile_orphaned_parents
--   Claim        app/workers/claim.py: claim_run; Claim/Concurrent: its statements, interleaved
--   Cancel       app/api/runs.py: cancel_run
--   Materialize  app/workers/materialize.py: materialize_run, materialize_discovery
--   Runner       app/workers/fake_runner.py and update_heartbeat of app/workers/heartbeat.py
--   Engine       the transactions of all of these, in any order
--   Discovery    app/engine/discovery/models.py; Discovery/Graph: graph.py, with `observe` in
--                Graph/Observe, `finalize`, `intents` and `_path` in Graph/Finish, and the proofs in
--                Places, Layout, Gates, Paths and Explored; Discovery/Explorer: explorer.py
--   Caller       app/engine/caller: Clock is latency_clock.py, Persona is PersonaRunner of
--                persona_call.py, Transcript is Turn of persona.py; Answers and Latencies are about the
--                clock
--   Redteam      app/engine/redteam: Attacker is attacker.py, Judge is judge.py
--   Crypto       app/crypto.py
--   Metrics      app/engine/metrics: Resolver is resolver.py, Compiler is compiler.py
--   Stream       app/api/runs.py: event_stream
--   Runs         app/api/runs.py: _reduce_events; Runs/Create: _create_run; Runs/Rerun: rerun_run
--   Executor     app/engine/executor: simulation.py, discovery.py and redteam.py, with what they share in
--                Executor itself; the proofs are in Ending, Log, Tables, Over and Gapless
--   Examples     the theorems at small databases
--
-- Each operation takes the tables and gives them back: one call is one transaction. `now()` is an
-- argument, and so are the rows and the locks that other transactions hold. Ids are numbers, times are
-- whole seconds, scores are hundredths and a pass rate is a fraction. `notified` stands for pg_notify.
-- The loops of the source run over lists, with two exceptions. `_path` of the flow graph climbs from
-- parent to parent, with the node's depth as fuel, which is enough since a parent lies one layer up. A
-- number is printed with itself as fuel, which is more than it has digits.
--
-- The language models, the sandbox, the hash that samples metrics, cryptography and JSON are arguments of
-- the definitions that use them; what the code relies on of cryptography and JSON is the record
-- Crypto.RoundTrip.IsSound.
--
-- Not modelled: HTTP, SQL text and its errors, the columns and tables that no operation here reads, the
-- prompts, language models, audio transports and credentials; the judges of a simulation, the
-- dashboard and the other endpoints, which are SQL and HTTP for the most part.
pub mod Prelude
pub mod Verdict
pub mod Store
pub mod Rollup
pub mod Reaper
pub mod Claim
pub mod Cancel
pub mod Materialize
pub mod Runner
pub mod Engine
pub mod Discovery
pub mod Caller
pub mod Redteam
pub mod Crypto
pub mod Metrics
pub mod Stream
pub mod Runs
pub mod Executor
pub mod Examples
