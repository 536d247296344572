-- ===== src/Stream/Replay.antt =====
-- What `_fetch_events_after` of app/api/runs.py reads from a gapless log: the events that follow.
use qa_test_backend.Prelude.{
  ℕ, zero, suc, ◌+◌, ◌≤◌, ◌≡◌, refl, ◌∙◌, ap, List, [], ◌∷◌, ◌++◌, arith, subst, length, map,
  select, sort_by, insert_by, ltb, ◌&&◌,
}
use qa_test_backend.Store.{EventRow, is_event_of}
use qa_test_backend.Store.Log.{IsGaplessFor, seqs_of, up_from}
use qa_test_backend.Stream.{fetch_events_after}

-- A run's events in the order of writing.
unfoldable pub rows_of : ℕ → List EventRow → List EventRow
unfolding select
rows_of run_id rows = select (is_event_of run_id) rows

abbrev seqs : List EventRow → List ℕ
seqs rows = map (λ r. r.seq) rows

-- The rows are numbered upwards from one after `m`.
abbrev pub NumberedFrom : ℕ → List EventRow → Type 0
NumberedFrom m [] = Unit
NumberedFrom m (r ∷ rs) = (r.seq ≡ suc m) × NumberedFrom (suc m) rs

select-rows_of :
    (i n : ℕ) (log : List EventRow)
    → select (λ r. is_event_of i r && ltb n r.seq) log ≡ select (λ r. ltb n r.seq) (rows_of i log)
unfolding select rows_of
select-rows_of i n [] = refl
select-rows_of i n (r ∷ log) = ground (arith, select-rows_of i n log)

seqs-rows_of : (i : ℕ) (log : List EventRow) → seqs (rows_of i log) ≡ seqs_of i log
unfolding select rows_of seqs_of
seqs-rows_of i [] = refl
seqs-rows_of i (r ∷ log) = ground (arith, seqs-rows_of i log)

NumberedFrom-seqs : (m k : ℕ) (rows : List EventRow) → seqs rows ≡ up_from m k → NumberedFrom m rows
NumberedFrom-seqs m k [] e = tt
NumberedFrom-seqs m zero (r ∷ rs) e = ground arith
NumberedFrom-seqs m (suc k) (r ∷ rs) e = ground (arith, NumberedFrom-seqs (suc m) k rs)

gapless_NumberedFrom :
    (i : ℕ) (log : List EventRow) → IsGaplessFor i log → NumberedFrom 0 (rows_of i log)
gapless_NumberedFrom i log h =
    NumberedFrom-seqs 0 (length (seqs_of i log)) (rows_of i log) (seqs-rows_of i log ∙ h)

-- Of rows that are numbered from some number on, all are taken when the client has seen no more.
select-new :
    (m n : ℕ) (rows : List EventRow)
    → NumberedFrom m rows
    → n ≤ m
    → select (λ r. ltb n r.seq) rows ≡ rows
unfolding select
select-new m n [] h le = refl
select-new m n (r ∷ rs) h le = ground (arith, h.0, select-new (suc m) n rs h.1)

NumberedFrom-append :
    (m : ℕ) (xs ys : List EventRow) → NumberedFrom m (xs ++ ys) → NumberedFrom (m + length xs) ys
NumberedFrom-append m [] ys h = ground (arith, h)
NumberedFrom-append m (x ∷ xs) ys h =
    subst (λ k. NumberedFrom k ys) (omega arith) (NumberedFrom-append (suc m) xs ys h.1)

select-seen :
    (m n : ℕ) (xs ys : List EventRow)
    → NumberedFrom m (xs ++ ys)
    → n ≡ m + length xs
    → select (λ r. ltb n r.seq) (xs ++ ys) ≡ ys
unfolding select
select-seen m n [] ys h e = select-new m n ys h (omega (arith, e))
select-seen m n (x ∷ xs) ys h e = ground (arith, h.0, select-seen (suc m) n xs ys h.1)

sort_by-numbered :
    (m : ℕ) (rows : List EventRow) → NumberedFrom m rows → sort_by (λ r. r.seq) rows ≡ rows
unfolding sort_by insert_by
sort_by-numbered m [] h = refl
sort_by-numbered m (r ∷ []) h = refl
sort_by-numbered m (r ∷ s ∷ rs) h =
    ap (insert_by (λ q. q.seq) r) (sort_by-numbered (suc m) (s ∷ rs) h.1) ∙ first m r s rs h
  where
    first :
        (k : ℕ) (p q : EventRow) (ps : List EventRow)
        → NumberedFrom k (p ∷ q ∷ ps)
        → insert_by (λ x. x.seq) p (q ∷ ps) ≡ p ∷ q ∷ ps
    first k p q ps g = unfold insert_by in ground (arith, g.0, g.1.0)

-- A client that has seen the first events of a run reads the others, in order.
pub fetch_events_after-new :
    (i : ℕ) (seen news log : List EventRow)
    → IsGaplessFor i log
    → rows_of i log ≡ seen ++ news
    → fetch_events_after i (length seen) log ≡ news
unfolding fetch_events_after
fetch_events_after-new i seen news log h e =
    ap (sort_by (λ r. r.seq)) (
      select-rows_of i (length seen) log
      ∙ ap (select (λ r. ltb (length seen) r.seq)) e
      ∙ select-seen 0 (length seen) seen news numbered (omega arith))
    ∙ sort_by-numbered (0 + length seen) news (NumberedFrom-append 0 seen news numbered)
  where
    numbered : NumberedFrom 0 (seen ++ news)
    numbered = subst (NumberedFrom 0) e (gapless_NumberedFrom i log h)

pub news_numbered :
    (i : ℕ) (seen news log : List EventRow)
    → IsGaplessFor i log
    → rows_of i log ≡ seen ++ news
    → NumberedFrom (length seen) news
news_numbered i seen news log h e =
    subst (λ k. NumberedFrom k news) (omega arith)
      (NumberedFrom-append 0 seen news (subst (NumberedFrom 0) e (gapless_NumberedFrom i log h)))
