-- ===== src/Stream.antt =====
-- app/api/runs.py: `event_stream`, which replays a run's events to a client and follows it live. One round
-- of its loop reads the log as it is at that time; the heartbeats and what wakes the loop are left out.
pub mod Replay
pub mod Delivered
use qa_test_backend.Prelude.{
  ℕ, Bool, true, false, List, [], ◌∷◌, ◌++◌, ◌&&◌, ltb, select, sort_by, any, if◌then◌else◌,
}
use qa_test_backend.Store.Payload.{Event, done, error}
use qa_test_backend.Store.{EventRow, is_event_of}

-- `_is_terminal`
abbrev pub ends_stream : Event → Bool
ends_stream (done d) = true
ends_stream (error d) = d.fatal
ends_stream _ = false

abbrev pub is_last_of : ℕ → EventRow → Bool
is_last_of run_id row = is_event_of run_id row && ends_stream row.event

-- Whether the log has an event that ends the stream of a run.
unfoldable pub has_ended : ℕ → List EventRow → Bool
unfolding any
has_ended run_id rows = any (is_last_of run_id) rows

-- `_fetch_events_after`
unfoldable pub fetch_events_after : ℕ → ℕ → List EventRow → List EventRow
unfolding sort_by select
fetch_events_after run_id after_seq rows =
    sort_by (λ row. row.seq) (select (λ row. is_event_of run_id row && ltb after_seq row.seq) rows)

-- A client: the frames that it was sent, the number of the last of them, and whether the stream has ended.
pub record Client : Type 0 where
  pub sent : List EventRow
  pub last_seq : ℕ
  pub is_over : Bool

abbrev pub send : EventRow → Client → Client
send row c = record {
  sent = c.sent ++ row ∷ [];
  last_seq = row.seq;
  is_over = ends_stream row.event;
}

-- The `for` loop, which returns from the generator at the first event that ends the stream.
unfoldable pub send_rows : List EventRow → Client → Client
send_rows [] c = c
send_rows (row ∷ rows) c =
    let rest = send_rows rows (send row c) in if ends_stream row.event then send row c else rest

-- One round of the `while` loop, on the log as it is then.
unfoldable pub round : ℕ → List EventRow → Client → Client
unfolding send_rows fetch_events_after
round run_id rows c =
    let sent = send_rows (fetch_events_after run_id c.last_seq rows) c in
    if c.is_over then c else sent

unfoldable pub event_stream : ℕ → List (List EventRow) → Client → Client
unfolding round
event_stream run_id [] c = c
event_stream run_id (rows ∷ logs) c = event_stream run_id logs (round run_id rows c)

abbrev pub connect : ℕ → Client
connect after_seq = record { sent = []; last_seq = after_seq; is_over = false }
