-- ===== src/Runs/Agrees.antt =====
-- app/api/runs.py reads a run from its log where app/workers/materialize.py writes it to tables: the two
-- read paths agree.
use qa_test_backend.Prelude.{
  ℕ, suc, ◌≡◌, refl, sym, some, Bool, false, List, [], ◌∷◌, ◌++◌, ◌==◌, any, select, map, arith,
  append_assoc, append_nil, String,
}
use qa_test_backend.Store.Payload.{Event, AssertionData, TurnData, turn, assertion}
use qa_test_backend.Store.{Db, TurnRow, AssertionRow, EventRow}
use qa_test_backend.Materialize.{
  turns_of, assertions_of, log_of, upsert, same_assertion, upsert_assertions, materialize_run,
}
use qa_test_backend.Materialize.Turns.{numbered, materialize_run-fresh}
use qa_test_backend.Runs.{
  ResultAssertion, Detail, no_events, has_entry, listed, shown_turn, shown_assertion, reduce_event,
  reduce_events,
}

-- The latencies of the turns that have one.
abbrev pub latencies : List TurnData → List ℕ
latencies [] = []
latencies (d ∷ ds) = listed d.latency_ms ++ latencies ds

abbrev turn_data : TurnRow → TurnData
turn_data row = record {
  index = row.idx;
  role = row.role;
  text = row.text;
  latency_ms = row.latency_ms;
  flagged = row.flagged;
  flag_reason = row.flag_reason;
}

-- The rows of a run in `turns` and in `assertion_results`.
unfoldable pub saved_turns : ℕ → Db → List TurnData
unfolding select
saved_turns run_id db = map turn_data (select (λ row. row.run_id == run_id) db.turns)

unfoldable pub saved_assertions : ℕ → List AssertionRow → List AssertionData
unfolding select
saved_assertions run_id rows =
    map (λ row. row.assertion) (select (λ row. row.run_id == run_id) rows)

select-none {ℓ} : {A : Type ℓ} (p : A → Bool) (xs : List A) → any p xs ≡ false → select p xs ≡ []
unfolding any select
select-none p [] e = refl
select-none p (x ∷ xs) e = ground (arith, select-none p xs)

saved_assertions-none :
    (i : ℕ) (rows : List AssertionRow)
    → any (λ row. row.run_id == i) rows ≡ false
    → saved_assertions i rows ≡ []
unfolding saved_assertions
saved_assertions-none i rows e = rw (select-none (λ row. row.run_id == i) rows e)

saved_turns-numbered :
    (i n : ℕ) (ds : List TurnData)
    → map turn_data (select (λ row. row.run_id == i) (numbered i n ds))
      ≡ map turn_data (numbered i n ds)
unfolding select numbered
saved_turns-numbered i n [] = refl
saved_turns-numbered i n (d ∷ ds) = ground (arith, saved_turns-numbered i (suc n) ds)

saved_turns-fresh :
    (i : ℕ) (ds : List TurnData) (rows : List TurnRow)
    → any (λ row. row.run_id == i) rows ≡ false
    → map turn_data (select (λ row. row.run_id == i) (rows ++ numbered i 0 ds))
      ≡ map turn_data (numbered i 0 ds)
unfolding any select
saved_turns-fresh i ds [] e = saved_turns-numbered i 0 ds
saved_turns-fresh i ds (row ∷ rows) e = ground (arith, saved_turns-fresh i ds rows)

latencies-numbered :
    (i n : ℕ) (ds : List TurnData) → latencies (map turn_data (numbered i n ds)) ≡ latencies ds
unfolding numbered
latencies-numbered i n [] = refl
latencies-numbered i n (d ∷ ds) = rw (latencies-numbered i (suc n) ds)

module _ (show_ms : ℕ → String) (show_turn : ℕ → String) where
  abbrev pub entry : AssertionData → String × ResultAssertion
  entry d = (d.assertion_id, shown_assertion show_ms show_turn d)

  reduce_events-transcript :
      (rows : List EventRow) (v : Detail)
      → (reduce_events show_ms show_turn rows v).transcript
        ≡ v.transcript ++ map (shown_turn show_ms show_turn) (turns_of rows)
  unfolding reduce_events reduce_event turns_of
  reduce_events-transcript [] v = sym (append_nil v.transcript)
  reduce_events-transcript (row ∷ rows) v = by_event row.event (reduce_events-transcript rows)
    where
      by_event :
          (e : Event)
          → ((v : Detail)
              → (reduce_events show_ms show_turn rows v).transcript
                ≡ v.transcript ++ map (shown_turn show_ms show_turn) (turns_of rows))
          → let log = record { run_id = row.run_id; seq = row.seq; event = e } ∷ rows in
            (reduce_events show_ms show_turn log v).transcript
            ≡ v.transcript ++ map (shown_turn show_ms show_turn) (turns_of log)
      by_event (turn d) h = rw (h _) (rw append_assoc)
      by_event _ h = h _

  reduce_events-latency_series :
      (rows : List EventRow) (v : Detail)
      → (reduce_events show_ms show_turn rows v).latency_series
        ≡ v.latency_series ++ latencies (turns_of rows)
  unfolding reduce_events reduce_event turns_of
  reduce_events-latency_series [] v = sym (append_nil v.latency_series)
  reduce_events-latency_series (row ∷ rows) v =
      by_event row.event (reduce_events-latency_series rows)
    where
      by_event :
          (e : Event)
          → ((v : Detail)
              → (reduce_events show_ms show_turn rows v).latency_series
                ≡ v.latency_series ++ latencies (turns_of rows))
          → let log = record { run_id = row.run_id; seq = row.seq; event = e } ∷ rows in
            (reduce_events show_ms show_turn log v).latency_series
            ≡ v.latency_series ++ latencies (turns_of log)
      by_event (turn d) h = rw (h _) (rw append_assoc)
      by_event _ h = h _

  -- The dict after the assertions of a log.
  unfoldable with_assertions :
      List AssertionData → List (String × ResultAssertion) → List (String × ResultAssertion)
  unfolding upsert
  with_assertions [] dict = dict
  with_assertions (d ∷ ds) dict =
      with_assertions ds (upsert (has_entry d.assertion_id) (entry d) dict)

  reduce_events-assertions :
      (rows : List EventRow) (v : Detail)
      → (reduce_events show_ms show_turn rows v).assertions_by_id
        ≡ with_assertions (assertions_of rows) v.assertions_by_id
  unfolding reduce_events reduce_event assertions_of with_assertions
  reduce_events-assertions [] v = refl
  reduce_events-assertions (row ∷ rows) v = by_event row.event (reduce_events-assertions rows)
    where
      by_event :
          (e : Event)
          → ((v : Detail)
              → (reduce_events show_ms show_turn rows v).assertions_by_id
                ≡ with_assertions (assertions_of rows) v.assertions_by_id)
          → let log = record { run_id = row.run_id; seq = row.seq; event = e } ∷ rows in
            (reduce_events show_ms show_turn log v).assertions_by_id
            ≡ with_assertions (assertions_of log) v.assertions_by_id
      by_event (assertion d) h = h _
      by_event _ h = h _

  saved_assertions-upsert :
      (i : ℕ) (d : AssertionData) (rows : List AssertionRow)
      → map entry (
          saved_assertions i
            (upsert (same_assertion i d) (record { run_id = i; assertion = d }) rows))
        ≡ upsert (has_entry d.assertion_id) (entry d) (map entry (saved_assertions i rows))
  unfolding saved_assertions upsert select
  saved_assertions-upsert i d [] = ground arith
  saved_assertions-upsert i d (row ∷ rows) = ground (arith, saved_assertions-upsert i d rows)

  saved_assertions-all :
      (i : ℕ) (ds : List AssertionData) (rows : List AssertionRow)
      → map entry (saved_assertions i (upsert_assertions i ds rows))
        ≡ with_assertions ds (map entry (saved_assertions i rows))
  unfolding upsert_assertions with_assertions
  saved_assertions-all i [] rows = refl
  saved_assertions-all i (d ∷ ds) rows =
      rw (saved_assertions-all i ds _) (rw (saved_assertions-upsert i d rows) refl)

  shown-numbered :
      (i n : ℕ) (ds : List TurnData)
      → map (shown_turn show_ms show_turn) (map turn_data (numbered i n ds))
        ≡ map (shown_turn show_ms show_turn) ds
  unfolding numbered
  shown-numbered i n [] = refl
  shown-numbered i n (d ∷ ds) = rw (shown-numbered i (suc n) ds)

  -- The log and the tables give one view of a run once it has been materialized: if the run had no row
  -- in `turns` and none in `assertion_results` before, then materialize_run succeeds, and the transcript,
  -- the latency series and the list of assertions that `_reduce_events` builds from the events of the run
  -- are those which the rows of the run give, in the order of the tables.
  pub reduce_events-agrees :
      (run_id : ℕ) (db : Db)
      → any (λ row. row.run_id == run_id) db.turns ≡ false
      → any (λ row. row.run_id == run_id) db.assertion_results ≡ false
      → (after : Db) × (materialize_run run_id db ≡ some after)
        × ((reduce_events show_ms show_turn (log_of run_id db) no_events).transcript
            ≡ map (shown_turn show_ms show_turn) (saved_turns run_id after))
        × ((reduce_events show_ms show_turn (log_of run_id db) no_events).latency_series
            ≡ latencies (saved_turns run_id after))
        × ((reduce_events show_ms show_turn (log_of run_id db) no_events).assertions_by_id
            ≡ map entry (saved_assertions run_id after.assertion_results))
  unfolding saved_turns saved_assertions
  reduce_events-agrees run_id db fresh new = (
    _,
    materialize_run-fresh run_id db fresh,
    rw (reduce_events-transcript (log_of run_id db) no_events) (
        rw (saved_turns-fresh run_id (turns_of (log_of run_id db)) db.turns fresh)
          (rw (shown-numbered run_id 0 (turns_of (log_of run_id db))))),
    rw (reduce_events-latency_series (log_of run_id db) no_events) (
        rw (saved_turns-fresh run_id (turns_of (log_of run_id db)) db.turns fresh)
          (rw (latencies-numbered run_id 0 (turns_of (log_of run_id db))))),
    rw (reduce_events-assertions (log_of run_id db) no_events) (
        rw (saved_assertions-all run_id (assertions_of (log_of run_id db)) db.assertion_results)
          (rw (saved_assertions-none run_id db.assertion_results new))),
  )
