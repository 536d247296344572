-- ===== src/Examples/Streams.antt =====
-- The theorem on `event_stream` of app/api/runs.py at a client that has missed the end of a run.
use qa_test_backend.Prelude.{◌≡◌, refl, List, [], ◌∷◌, select}
use qa_test_backend.Verdict.{running}
use qa_test_backend.Store.Payload.{Event, done}
use qa_test_backend.Store.{EventRow}
use qa_test_backend.Store.Log.{seqs_of}
use qa_test_backend.Runner.{partial_done}
use qa_test_backend.Stream.{event_stream, connect}
use qa_test_backend.Stream.Replay.{rows_of}
use qa_test_backend.Stream.Delivered.{Grows, news, upto_end, ends_in, event_stream-delivers}

abbrev first_row : EventRow
first_row = record { run_id = 5; seq = 1; event = Event.status running }

abbrev last_row : EventRow
last_row = record { run_id = 5; seq = 2; event = done partial_done }

abbrev log : List EventRow
log = first_row ∷ last_row ∷ []

log_Grows : Grows 5 (first_row ∷ []) (log ∷ [])
unfolding seqs_of rows_of select
log_Grows = (refl, (last_row ∷ [], refl, tt))

event_stream-delivers_example :
    ((event_stream 5 (log ∷ []) (connect 1)).sent
      ≡ upto_end (news 5 (first_row ∷ []) (log ∷ []) log_Grows))
    × ((event_stream 5 (log ∷ []) (connect 1)).is_over
        ≡ ends_in (news 5 (first_row ∷ []) (log ∷ []) log_Grows))
event_stream-delivers_example = event_stream-delivers 5 (first_row ∷ []) (log ∷ []) log_Grows
