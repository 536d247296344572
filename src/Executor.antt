-- ===== src/Executor.antt =====
-- What the executors of real calls share (app/engine/executor): how a run is failed, how the transaction
-- that ends it is built, and how a turn of the call is logged. The columns `cost` and `recording_url` and
-- the keys of `metrics` that no worker reads back are left out.
pub mod Ending
pub mod Log
pub mod Tables
pub mod Over
pub mod Gapless
pub mod Simulation
pub mod Discovery
pub mod Redteam
use qa_test_backend.Prelude.{
  ℕ, suc, ◌+◌, ◌/◌, ◌*◌, Option, none, some, Bool, true, false, List, [], ◌∷◌, ◌>>=◌, String,
  length, get_elem?, if◌then◌else◌,
}
use qa_test_backend.Verdict.{RunStatus, claimed, running, completed, cancelled, failed}
use qa_test_backend.Store.Payload.{Event, TurnData, Role, DoneData}
use qa_test_backend.Store.{
  Db, Run, RunMetrics, EndReason, completed_normally, timeout, cancelled_by_user, ended_in_error,
  has_id, find_run, update_runs, emit,
}
use qa_test_backend.Caller.Persona.{CallEndReason}
use qa_test_backend.Caller.Clock.{LatencyClock, TurnLatency}
use qa_test_backend.Rollup.{maybe_close_parent}

-- `_end_reason_for`
unfoldable pub end_reason_for : CallEndReason → Bool → EndReason
end_reason_for why true = cancelled_by_user
end_reason_for CallEndReason.timeout false = timeout
end_reason_for _ false = completed_normally

abbrev pub sum_latencies : List TurnLatency → ℕ
sum_latencies [] = 0
sum_latencies (t ∷ ts) = t.latency_ns + sum_latencies ts

-- `_avg_latency_ms`, in whole milliseconds
unfoldable pub avg_latency_ms : LatencyClock → Option ℕ
avg_latency_ms clock = elim clock.turn_latencies [
  | [] ↦ none
  | t ∷ ts ↦ some (sum_latencies (t ∷ ts) / (1000000 * suc (length ts)))
]

abbrev pub set_failed : ℕ → Run → Run
set_failed now r = record r {
  status = failed;
  ended_at = some now;
  end_reason = some ended_in_error;
}

-- `_fail`: whatever the status of the run is.
unfoldable pub fail_run : ℕ → ℕ → String → String → Db → Db
unfolding emit
fail_run now run_id code message db = maybe_close_parent now run_id (
    update_runs (has_id run_id) (set_failed now)
      (emit run_id (Event.error (record { code = code; message = message; fatal = true })) db).0)

unfoldable pub emit_all : ℕ → List Event → Db → Db
unfolding emit
emit_all run_id [] db = db
emit_all run_id (e ∷ es) db = emit_all run_id es (emit run_id e db).0

abbrev pub set_finished : ℕ → RunStatus → EndReason → RunMetrics → Run → Run
set_finished now status reason metrics r = record r {
  status = status;
  ended_at = some now;
  metrics = some metrics;
  end_reason = some reason;
}

-- `current_status not in ("claimed", "running", "cancelled")`, negated
abbrev pub may_finish : RunStatus → Bool
may_finish claimed = true
may_finish running = true
may_finish cancelled = true
may_finish _ = false

-- The transaction that ends a run, the same in each executor: the row is locked, a status that is not
-- allowed ends it at once, and else events are emitted, the read tables written and the row set. It
-- raises, and is rolled back, when the row is missing or a read table refuses a row.
unfoldable pub finish_run :
    (RunStatus → Bool) → (Db → Option Db) → (Run → Run) → List Event → ℕ → ℕ → Db → Option Db
unfolding emit_all maybe_close_parent
finish_run allowed materialize change events now run_id db = elim (find_run run_id db) [
  | none ↦ none
  | some row ↦
      if allowed row.status
      then materialize (emit_all run_id events db) >>= (λ after.
        some (maybe_close_parent now run_id (update_runs (has_id run_id) change after)))
      else some db
]

-- The last transaction, or the one that fails the run when it raises.
abbrev pub or_failed : ℕ → ℕ → String → String → Db → Option Db → Db
or_failed now run_id code message db none = fail_run now run_id code message db
or_failed now run_id code message db (some after) = after

-- What `on_turn` counts.
pub record TurnCount : Type 0 where
  pub turn_index : ℕ
  pub agent_turns_seen : ℕ

abbrev is_agent : Role → Bool
is_agent Role.agent = true
is_agent Role.caller = false

-- The latency of a turn of the agent, the nth of which is taken to be the nth that was measured;
-- `round` to whole milliseconds is an argument.
abbrev pub turn_latency_ms : (ℕ → ℕ) → Role → TurnCount → LatencyClock → Option ℕ
turn_latency_ms round role count clock =
    if is_agent role
    then elim (get_elem? clock.turn_latencies count.agent_turns_seen) [
      | none ↦ none
      | some t ↦ some (round t.latency_ns)
    ]
    else none

abbrev pub turn_data : (ℕ → ℕ) → Role → String → TurnCount → LatencyClock → TurnData
turn_data round role text count clock = record {
  index = count.turn_index;
  role = role;
  text = text;
  latency_ms = turn_latency_ms round role count clock;
  flagged = false;
  flag_reason = none;
}

-- `on_turn`: the turn is emitted in a transaction of its own.
unfoldable pub on_turn :
    (ℕ → ℕ) → ℕ → Role → String → LatencyClock → TurnCount → Db → TurnCount × Db
unfolding emit
on_turn round run_id role text clock count db = (
  record {
    turn_index = suc count.turn_index;
    agent_turns_seen = if is_agent role then suc count.agent_turns_seen else count.agent_turns_seen;
  },
  (emit run_id (Event.turn (turn_data round role text count clock)) db).0,
)
