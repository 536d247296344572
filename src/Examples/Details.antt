-- ===== src/Examples/Details.antt =====
-- The theorem on `_reduce_events` of app/api/runs.py at a log with a turn and an assertion that flips.
use qa_test_backend.Prelude.{ℕ, ◌≡◌, refl, some, none, false, true, [], ◌∷◌, String, map, any, Bool}
use qa_test_backend.Store.Payload.{Event, AssertionData, turn, assertion, agent}
use qa_test_backend.Store.{Db, EventRow}
use qa_test_backend.Materialize.{materialize_run, log_of}
use qa_test_backend.Runs.{no_events, shown_turn, reduce_events}
use qa_test_backend.Runs.Agrees.{
  latencies, saved_turns, saved_assertions, entry, reduce_events-agrees,
}
use qa_test_backend.Examples.Data.{open_batch}

abbrev show_ms : ℕ → String
show_ms n = "900ms"

abbrev show_turn : ℕ → String
show_turn n = "Triggered at turn 1"

abbrev row_of : ℕ → Event → EventRow
row_of seq event = record { run_id = 3; seq = seq; event = event }

abbrev polite : Bool → AssertionData
polite ok = record {
  assertion_id = "polite";
  name = "Is polite";
  ok = ok;
  triggered_at_turn = some 1;
  note = none;
}

abbrev reply : Event
reply = turn (record {
  index = 4;
  role = agent;
  text = "Hello";
  latency_ms = some 900;
  flagged = false;
  flag_reason = none;
})

abbrev logged : Db
logged = record open_batch {
  events =
      row_of 1 (assertion (polite false))
      ∷ row_of 2 reply
      ∷ row_of 3 (assertion (polite true))
      ∷ [];
}

reduce_events-agrees_example :
    (after : Db) × (materialize_run 3 logged ≡ some after)
    × ((reduce_events show_ms show_turn (log_of 3 logged) no_events).transcript
        ≡ map (shown_turn show_ms show_turn) (saved_turns 3 after))
    × ((reduce_events show_ms show_turn (log_of 3 logged) no_events).latency_series
        ≡ latencies (saved_turns 3 after))
    × ((reduce_events show_ms show_turn (log_of 3 logged) no_events).assertions_by_id
        ≡ map (entry show_ms show_turn) (saved_assertions 3 after.assertion_results))
unfolding any
reduce_events-agrees_example = reduce_events-agrees show_ms show_turn 3 logged refl refl
