-- ===== src/Stream/Delivered.antt =====
-- What a client of `event_stream` (app/api/runs.py) is sent: every event that it has not seen, once and in
-- order, up to the one that ends the stream.
use qa_test_backend.Prelude.{
  append_assoc, append_nil, ℕ, suc, ◌+◌, ◌≡◌, refl, sym, ◌∙◌, ap, subst, Bool, true, false, List,
  [], ◌∷◌, ◌++◌, arith, Bool-cases, inl, inr, length, length-append, if◌then◌else◌, ◌||◌,
}
use qa_test_backend.Store.{EventRow}
use qa_test_backend.Store.Log.{IsGaplessFor}
use qa_test_backend.Stream.{
  Client, ends_stream, send, send_rows, round, event_stream, connect, fetch_events_after,
}
use qa_test_backend.Stream.Replay.{rows_of, NumberedFrom, fetch_events_after-new, news_numbered}

-- The events up to the first that ends the stream.
unfoldable pub upto_end : List EventRow → List EventRow
upto_end [] = []
upto_end (r ∷ rs) = let rest = upto_end rs in if ends_stream r.event then r ∷ [] else r ∷ rest

unfoldable pub ends_in : List EventRow → Bool
ends_in [] = false
ends_in (r ∷ rs) = ends_stream r.event || ends_in rs

-- The logs that the rounds read: each has the run's events of the one before, and may have more.
abbrev pub Grows : ℕ → List EventRow → List (List EventRow) → Type 0
Grows i seen [] = Unit
Grows i seen (log ∷ logs) =
    IsGaplessFor i log
    × ((more : List EventRow) × (rows_of i log ≡ seen ++ more) × Grows i (seen ++ more) logs)

-- The run's events that the logs have and the client has not seen.
abbrev pub news :
    (i : ℕ) (seen : List EventRow) (logs : List (List EventRow)) → Grows i seen logs → List EventRow
news i seen [] g = []
news i seen (log ∷ logs) g = g.1.0 ++ news i (seen ++ g.1.0) logs g.1.2

upto_end-ended : (xs ys : List EventRow) → ends_in xs ≡ true → upto_end (xs ++ ys) ≡ upto_end xs
unfolding upto_end ends_in
upto_end-ended [] ys h = cc
upto_end-ended (x ∷ xs) ys h = ground (arith, upto_end-ended xs ys)

upto_end-open :
    (xs ys : List EventRow) → ends_in xs ≡ false → upto_end (xs ++ ys) ≡ xs ++ upto_end ys
unfolding upto_end ends_in
upto_end-open [] ys h = refl
upto_end-open (x ∷ xs) ys h = ground (arith, upto_end-open xs ys)

-- What the loop over the rows of a round sends.
record Sends (n : ℕ) (rows : List EventRow) (c d : Client) : Type 0 where
  sent : d.sent ≡ c.sent ++ upto_end rows
  over : d.is_over ≡ ends_in rows
  last : ends_in rows ≡ false → d.last_seq ≡ n + length rows

send_rows-last :
    (r : EventRow) (rs : List EventRow) (c : Client)
    → ends_stream r.event ≡ true
    → send_rows (r ∷ rs) c ≡ send r c
unfolding send_rows
send_rows-last r rs c l = ground (arith, l)

send_rows-more :
    (r : EventRow) (rs : List EventRow) (c : Client)
    → ends_stream r.event ≡ false
    → send_rows (r ∷ rs) c ≡ send_rows rs (send r c)
unfolding send_rows
send_rows-more r rs c l = ground (arith, l)

upto_end-cons :
    (r : EventRow) (rs : List EventRow)
    → upto_end (r ∷ rs) ≡ (if ends_stream r.event then r ∷ [] else r ∷ upto_end rs)
unfolding upto_end
upto_end-cons r rs = refl

ends_in-cons :
    (r : EventRow) (rs : List EventRow) → ends_in (r ∷ rs) ≡ (ends_stream r.event || ends_in rs)
unfolding ends_in
ends_in-cons r rs = refl

send_rows-Sends :
    (n : ℕ) (rows : List EventRow) (c : Client)
    → NumberedFrom n rows
    → c.last_seq ≡ n
    → c.is_over ≡ false
    → Sends n rows c (send_rows rows c)
send_rows-Sends n [] c h e o =
    unfold send_rows in
    unfold upto_end in
    unfold ends_in in
    record { sent = sym (append_nil c.sent); over = o; last = λ k. omega (arith, e) }
send_rows-Sends n (r ∷ rs) c h e o = elim (Bool-cases (ends_stream r.event)) [
  | inl l ↦ subst (Sends n (r ∷ rs) c) (sym (send_rows-last r rs c l)) (record {
    sent = ap (λ t. c.sent ++ t) (sym (upto_end-cons r rs ∙ rw l refl));
    over = ground (arith, ends_in-cons r rs, l);
    last = λ k. ground (arith, ends_in-cons r rs, l, k);
  })
  | inr l ↦
      let s = send_rows-Sends (suc n) rs (send r c) h.1 h.0 l in
      subst (Sends n (r ∷ rs) c) (sym (send_rows-more r rs c l)) (record {
        sent =
            s.sent
            ∙ append_assoc c.sent (r ∷ []) (upto_end rs)
            ∙ ap (λ t. c.sent ++ t) (sym (upto_end-cons r rs ∙ rw l refl));
        over = ground (arith, ends_in-cons r rs, l, s.over);
        last = λ k. let q = s.last (ground (arith, ends_in-cons r rs, l, k)) in omega (arith, q);
      })
]

-- A client after it was sent what it had not seen of `rows`, from number `n` on.
record HasHad (n : ℕ) (fresh : List EventRow) (c : Client) : Type 0 where
  had : c.sent ≡ upto_end fresh
  over : c.is_over ≡ ends_in fresh
  last : ends_in fresh ≡ false → c.last_seq ≡ n + length fresh

ends_in-append : (xs ys : List EventRow) → ends_in (xs ++ ys) ≡ (ends_in xs || ends_in ys)
unfolding ends_in
ends_in-append [] ys = refl
ends_in-append (x ∷ xs) ys = ground (arith, ends_in-append xs ys)

upto_end-all : (xs : List EventRow) → ends_in xs ≡ false → upto_end xs ≡ xs
upto_end-all xs h =
    ap upto_end (sym (append_nil xs)) ∙ upto_end-open xs [] h ∙ (unfold upto_end in append_nil xs)

round_over : (i : ℕ) (log : List EventRow) (c : Client) → c.is_over ≡ true → round i log c ≡ c
unfolding round
round_over i log c h = ground (arith, h)

round_open :
    (i : ℕ) (log : List EventRow) (c : Client)
    → c.is_over ≡ false
    → round i log c ≡ send_rows (fetch_events_after i c.last_seq log) c
unfolding round
round_open i log c h = ground (arith, h)

round-HasHad :
    (i : ℕ) (seen fresh more log : List EventRow) (c : Client)
    → IsGaplessFor i log
    → rows_of i log ≡ (seen ++ fresh) ++ more
    → HasHad (length seen) fresh c
    → HasHad (length seen) (fresh ++ more) (round i log c)
round-HasHad i seen fresh more log c g e h = elim (Bool-cases (ends_in fresh)) [
  | inl k ↦
      subst (HasHad (length seen) (fresh ++ more)) (sym (round_over i log c (h.over ∙ k))) (record {
        had = h.had ∙ sym (upto_end-ended fresh more k);
        over = ground (arith, h.over, k, ends_in-append fresh more);
        last = λ q. ground (arith, k, q, ends_in-append fresh more);
      })
  | inr k ↦
      let at : c.last_seq ≡ length (seen ++ fresh) =
        omega (arith, h.last k, length-append seen fresh) in
      let numbered = news_numbered i (seen ++ fresh) more log g e in
      let s = send_rows-Sends (length (seen ++ fresh)) more c numbered at (h.over ∙ k) in
      subst (HasHad (length seen) (fresh ++ more))
        (sym (
          round_open i log c (h.over ∙ k)
          ∙ ap (λ n. send_rows (fetch_events_after i n log) c) at
          ∙ ap (λ l. send_rows l c) (fetch_events_after-new i (seen ++ fresh) more log g e)))
        (record {
          had =
              s.sent
              ∙ ap (λ l. l ++ upto_end more) (h.had ∙ upto_end-all fresh k)
              ∙ sym (upto_end-open fresh more k);
          over = ground (arith, s.over, k, ends_in-append fresh more);
          last = λ q.
              let p = s.last (ground (arith, k, q, ends_in-append fresh more)) in
              omega (arith, p, length-append seen fresh, length-append fresh more);
        })
]

event_stream-HasHad :
    (i : ℕ) (seen fresh now_logged : List EventRow) (logs : List (List EventRow)) (c : Client)
    → now_logged ≡ seen ++ fresh
    → (g : Grows i now_logged logs) → HasHad (length seen) fresh c
    → HasHad (length seen) (fresh ++ news i now_logged logs g) (event_stream i logs c)
unfolding event_stream
event_stream-HasHad i seen fresh now_logged [] c same g h =
    subst (λ l. HasHad (length seen) l c) (sym (append_nil fresh)) h
event_stream-HasHad i seen fresh now_logged (log ∷ logs) c same (gapless, (more, e, later)) h =
    subst (λ l. HasHad (length seen) l (event_stream i logs (round i log c)))
      (append_assoc fresh more (news i (now_logged ++ more) logs later))
      (event_stream-HasHad i seen (fresh ++ more) (now_logged ++ more) logs (round i log c)
        (ap (λ l. l ++ more) same ∙ append_assoc seen fresh more) later
        (round-HasHad i seen fresh more log c gapless (e ∙ ap (λ l. l ++ more) same) h))

-- While a run's log grows without a gap, a client that connects after its first events is sent the events
-- that follow, each once and in order, up to the first that ends the stream, where its stream is over;
-- it is over only then.
pub event_stream-delivers :
    (i : ℕ) (seen : List EventRow) (logs : List (List EventRow))
    → (g : Grows i seen logs)
    → ((event_stream i logs (connect (length seen))).sent ≡ upto_end (news i seen logs g))
      × ((event_stream i logs (connect (length seen))).is_over ≡ ends_in (news i seen logs g))
event_stream-delivers i seen logs g =
    let h =
      event_stream-HasHad i seen [] seen logs (connect (length seen)) (sym (append_nil seen)) g
        nothing_yet in
    (h.had, h.over)
  where
    nothing_yet : HasHad (length seen) [] (connect (length seen))
    nothing_yet =
        unfold upto_end in
        unfold ends_in in record { had = refl; over = refl; last = λ q. omega arith }
