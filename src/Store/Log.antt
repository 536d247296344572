-- ===== src/Store/Log.antt =====
-- The event log under `emit` (app/events.py): each run's numbers are 1, 2, 3, … with no gap.
use qa_test_backend.Prelude.{
  ℕ, zero, suc, ◌+◌, ◌≡◌, refl, List, [], ◌∷◌, ◌++◌, max, arith, length, length-append, true, false,
  Bool-cases, inl, inr, if◌then◌else◌, ==_iff, ◌==◌, ap,
}
use qa_test_backend.Store.Payload.{Event}
use qa_test_backend.Store.{Db, EventRow, emit, max_seq, is_event_of}

-- The numbers of one run's rows, in the order in which they were written.
unfoldable pub seqs_of : ℕ → List EventRow → List ℕ
seqs_of run_id [] = []
seqs_of run_id (row ∷ rows) =
    let rest = seqs_of run_id rows in if is_event_of run_id row then row.seq ∷ rest else rest

-- n + 1, n + 2, …, n + k
abbrev pub up_from : ℕ → ℕ → List ℕ
up_from n zero = []
up_from n (suc k) = suc n ∷ up_from (suc n) k

abbrev pub IsGaplessFor : ℕ → List EventRow → Type 0
IsGaplessFor run_id rows = seqs_of run_id rows ≡ up_from 0 (length (seqs_of run_id rows))

-- Every run's events are numbered 1, 2, 3, … in the order of writing.
abbrev pub IsGapless : Db → Type 0
IsGapless db = (run_id : ℕ) → IsGaplessFor run_id db.events

seqs_of-append :
    (run_id : ℕ) (rows rows' : List EventRow)
    → seqs_of run_id (rows ++ rows') ≡ seqs_of run_id rows ++ seqs_of run_id rows'
unfolding seqs_of
seqs_of-append run_id [] rows' = refl
seqs_of-append run_id (row ∷ rows) rows' = ground (arith, seqs_of-append run_id rows rows')

-- `MAX(seq)` as a fold over the run's numbers.
abbrev highest : List ℕ → ℕ
highest [] = 0
highest (n ∷ ns) = max n (highest ns)

max_seq-eq-highest :
    (run_id : ℕ) (rows : List EventRow) → max_seq run_id rows ≡ highest (seqs_of run_id rows)
unfolding max_seq seqs_of
max_seq-eq-highest run_id [] = refl
max_seq-eq-highest run_id (row ∷ rows) = ground (arith, max_seq-eq-highest run_id rows)

highest-up_from : (n k : ℕ) → highest (up_from n (suc k)) ≡ n + suc k
highest-up_from n zero = omega arith
highest-up_from n (suc k) = omega (arith, highest-up_from (suc n) k)

highest-up_from_zero : (k : ℕ) → highest (up_from 0 k) ≡ k
highest-up_from_zero zero = refl
highest-up_from_zero (suc k) = omega (arith, highest-up_from 0 k)

up_from-append : (n k : ℕ) → up_from n k ++ suc (n + k) ∷ [] ≡ up_from n (suc k)
up_from-append n zero = ground arith
up_from-append n (suc k) = ground (arith, up_from-append (suc n) k)

-- In a gapless log `MAX(seq)` is the number of the run's events.
pub max_seq-eq-length :
    (run_id : ℕ) (rows : List EventRow)
    → IsGaplessFor run_id rows
    → max_seq run_id rows ≡ length (seqs_of run_id rows)
max_seq-eq-length run_id rows h = ground (
  arith,
  max_seq-eq-highest run_id rows,
  ap highest h,
  highest-up_from_zero (length (seqs_of run_id rows)),
)

seqs_of-emit_other :
    (run_id : ℕ) (rows : List EventRow) (row : EventRow)
    → is_event_of run_id row ≡ false
    → seqs_of run_id (rows ++ row ∷ []) ≡ seqs_of run_id rows
unfolding seqs_of
seqs_of-emit_other run_id [] row h = ground arith
seqs_of-emit_other run_id (r ∷ rows) row h = ground (arith, seqs_of-emit_other run_id rows row h)

seqs_of-emit_self :
    (run_id : ℕ) (rows : List EventRow) (row : EventRow)
    → is_event_of run_id row ≡ true
    → seqs_of run_id (rows ++ row ∷ []) ≡ seqs_of run_id rows ++ row.seq ∷ []
unfolding seqs_of
seqs_of-emit_self run_id [] row h = ground arith
seqs_of-emit_self run_id (r ∷ rows) row h = ground (arith, seqs_of-emit_self run_id rows row h)

IsGapless-snoc :
    (ns : List ℕ) (n : ℕ)
    → ns ≡ up_from 0 (length ns)
    → n ≡ suc (length ns)
    → ns ++ n ∷ [] ≡ up_from 0 (length (ns ++ n ∷ []))
IsGapless-snoc ns n h e =
    ground (arith, ap (λ l. l ++ n ∷ []) h, up_from-append 0 (length ns), length-append ns (n ∷ []))

-- Whatever is emitted for whichever run, a gapless log stays gapless for every run, and the number
-- that `emit` returns is one more than the number of events that the run had.
pub emit-IsGapless :
    (run_id : ℕ) (event : Event) (db : Db)
    → IsGapless db
    → IsGapless (emit run_id event db).0
      × ((emit run_id event db).1 ≡ length (seqs_of run_id db.events) + 1)
unfolding emit
emit-IsGapless run_id event db h =
    (keeps, omega (arith, max_seq-eq-length run_id db.events (h run_id)))
  where
    row : EventRow
    row = record { run_id = run_id; seq = suc (max_seq run_id db.events); event = event }

    keeps : (r : ℕ) → IsGaplessFor r (db.events ++ row ∷ [])
    keeps r = elim (Bool-cases (run_id == r)) [
      | inl same ↦ rw (seqs_of-emit_self r db.events row same) (
          IsGapless-snoc (seqs_of r db.events) row.seq (h r) (
            let e = (==_iff run_id r).0 same in
            rw e (ap suc (max_seq-eq-length r db.events (h r)))))
      | inr other ↦ rw (seqs_of-emit_other r db.events row other) (h r)
    ]
