-- ===== src/Rollup/Close.antt =====
-- What `_close_if_done` of app/workers/rollup.py does to the parent, to the other runs and to the log.
use qa_test_backend.Prelude.{
  ℕ, zero, suc, ◌<◌, ◌≡◌, ◌≢◌, ◌⊎◌, inl, inr, refl, sym, subst, ◌∙◌, true, false, none, some, arith,
  count_where, Bool-cases, Option-cases,
}
use qa_test_backend.Verdict.{completed, cancelled, is_terminal}
use qa_test_backend.Store.{Db, Run, has_id, find_run, update_runs, emit}
use qa_test_backend.Store.Log.{IsGapless, emit-IsGapless}
use qa_test_backend.Store.Rows.{find_id-update_self, find_id-update_other, find_id-id}
use qa_test_backend.Store.Payload.{Event}
use qa_test_backend.Rollup.{
  Tally, tally_children, is_live_child_of, is_cancelled, final_status, set_closed, set_metrics,
  badge_metrics, batch_verdict, record_verdict, close_parent, close_if_done, progress,
}

pub emit-runs : (i : ℕ) (e : Event) (db : Db) → (emit i e db).0.runs ≡ db.runs
unfolding emit
emit-runs i e db = refl

pub zero-or-pos : (n : ℕ) → (n ≡ 0) ⊎ (0 < n)
zero-or-pos zero = inl refl
zero-or-pos (suc n) = inr (omega arith)

-- The row of a closed parent.
pub record IsClosed (now : ℕ) (tally : Tally) (before after : Run) : Type 0 where
  pub as_cancelled : 0 < tally.cancelled → after.status ≡ cancelled
  pub as_completed : tally.cancelled ≡ 0 → after.status ≡ completed
  pub ended : after.ended_at ≡ some now
  pub id : after.id ≡ before.id
  pub parent : after.parent_run_id ≡ before.parent_run_id

record_verdict_self :
    (parent : Run) (db : Db) (row : Run)
    → find_run parent.id db ≡ some row
    → find_run parent.id (record_verdict parent db)
      ≡ some (set_metrics (badge_metrics (batch_verdict parent db)) row)
unfolding record_verdict
record_verdict_self parent db row h = find_id-update_self parent.id _ (λ r. refl) row db.runs h

record_verdict-other :
    (parent : Run) (db : Db) (j : ℕ)
    → parent.id ≢ j
    → find_run j (record_verdict parent db) ≡ find_run j db
unfolding record_verdict
record_verdict-other parent db j ne = find_id-update_other parent.id _ (λ r. refl) j db.runs ne

record_verdict-events : (parent : Run) (db : Db) → (record_verdict parent db).events ≡ db.events
unfolding record_verdict
record_verdict-events parent db = refl

module _ (now : ℕ) (parent : Run) (tally : Tally) (db : Db) where
  abbrev pub told : Db
  told =
      (emit parent.id (Event.status (final_status tally))
        (update_runs (has_id parent.id) (set_closed now (final_status tally)) db)).0

  told_self :
      (row : Run)
      → find_run parent.id db ≡ some row
      → find_run parent.id told ≡ some (set_closed now (final_status tally) row)
  told_self row h = rw emit-runs (find_id-update_self parent.id _ (λ r. refl) row db.runs h)

  told-other : (j : ℕ) → parent.id ≢ j → find_run j told ≡ find_run j db
  told-other j ne = rw emit-runs (find_id-update_other parent.id _ (λ r. refl) j db.runs ne)

  pub close_parent_cases :
      (close_parent now parent tally db ≡ told) × (is_cancelled (final_status tally) ≡ true)
      ⊎ (close_parent now parent tally db ≡ record_verdict parent told)
        × (is_cancelled (final_status tally) ≡ false)
  unfolding close_parent
  close_parent_cases = ground arith

  pub close_parent-row :
      (row : Run)
      → find_run parent.id db ≡ some row
      → (after : Run) × (find_run parent.id (close_parent now parent tally db) ≡ some after)
        × IsClosed now tally row after
  close_parent-row row h = elim close_parent_cases [
    | inl (e, c) ↦ (set_closed now (final_status tally) row, rw e (told_self row h), ground arith)
    | inr (e, c) ↦ (
      set_metrics (badge_metrics (batch_verdict parent told))
          (set_closed now (final_status tally) row),
      rw e (record_verdict_self parent told _ (told_self row h)),
      ground arith,
    )
  ]

  -- The row and the verdict of a parent none of whose children was cancelled.
  pub close_parent-verdict :
      (row : Run)
      → find_run parent.id db ≡ some row
      → tally.cancelled ≡ 0
      → find_run parent.id (close_parent now parent tally db)
        ≡ some
            (set_metrics (badge_metrics (batch_verdict parent told)) (set_closed now completed row))
  close_parent-verdict row h z = elim close_parent_cases [
    | inl (e, c) ↦ ground arith
    | inr (e, c) ↦ rw e (ground (arith, record_verdict_self parent told _ (told_self row h)))
  ]

  pub close_parent-other :
      (j : ℕ) → parent.id ≢ j → find_run j (close_parent now parent tally db) ≡ find_run j db
  close_parent-other j ne = elim close_parent_cases [
    | inl (e, c) ↦ rw e (told-other j ne)
    | inr (e, c) ↦ rw e (record_verdict-other parent told j ne ∙ told-other j ne)
  ]

  told-IsGapless : IsGapless db → IsGapless told
  told-IsGapless h = (emit-IsGapless parent.id (Event.status (final_status tally)) _ h).0

  pub close_parent-IsGapless : IsGapless db → IsGapless (close_parent now parent tally db)
  close_parent-IsGapless h = elim close_parent_cases [
    | inl (e, c) ↦ rw e (told-IsGapless h)
    | inr (e, c) ↦ rw (e, record_verdict-events) (told-IsGapless h)
  ]

module _ (now parent_id : ℕ) (db : Db) where
  abbrev pub live_children : ℕ
  live_children = count_where (is_live_child_of parent_id) db.runs

  abbrev pub informed : Db
  informed = progress parent_id (tally_children parent_id db) db

  close_if_done_absent : find_run parent_id db ≡ none → close_if_done now parent_id db ≡ db
  unfolding close_if_done
  close_if_done_absent h = ground arith

  -- A parent that has ended is left alone.
  pub close_if_done_terminal :
      (parent : Run)
      → find_run parent_id db ≡ some parent
      → is_terminal parent.status ≡ true
      → close_if_done now parent_id db ≡ db
  unfolding close_if_done
  close_if_done_terminal parent h t = ground arith

  pub close_if_done_live :
      (parent : Run)
      → find_run parent_id db ≡ some parent
      → is_terminal parent.status ≡ false
      → 0 < live_children
      → close_if_done now parent_id db ≡ informed
  unfolding close_if_done
  close_if_done_live parent h t l = ground arith

  pub close_if_done_ended :
      (parent : Run)
      → find_run parent_id db ≡ some parent
      → is_terminal parent.status ≡ false
      → live_children ≡ 0
      → close_if_done now parent_id db
        ≡ close_parent now parent (tally_children parent_id db) informed
  unfolding close_if_done
  close_if_done_ended parent h t l = ground arith

  -- What a proof about every branch has to look at.
  pub close_if_done_ind {ℓ} :
      (P : Db → Type ℓ)
      → P db
      → P informed
      → ((parent : Run)
          → find_run parent_id db ≡ some parent
          → P (close_parent now parent (tally_children parent_id db) informed))
      → P (close_if_done now parent_id db)
  close_if_done_ind P same told closed = elim (Option-cases (find_run parent_id db)) [
    | inl absent ↦ rw (close_if_done_absent absent) same
    | inr (parent, found) ↦ elim (Bool-cases (is_terminal parent.status)) [
      | inl t ↦ rw (close_if_done_terminal parent found t) same
      | inr t ↦ elim (zero-or-pos live_children) [
        | inl z ↦ rw (close_if_done_ended parent found t z) (closed parent found)
        | inr p ↦ rw (close_if_done_live parent found t p) told
      ]
    ]
  ]

  -- Whatever the branch, no run but the parent is changed.
  pub close_if_done-other :
      (j : ℕ) → parent_id ≢ j → find_run j (close_if_done now parent_id db) ≡ find_run j db
  close_if_done-other j ne =
      close_if_done_ind (λ d. find_run j d ≡ find_run j db) refl (rw emit-runs)
        (λ parent found.
          let id = find_id-id parent_id parent db.runs found in
          close_parent-other now parent _ informed j (rw id ne) ∙ rw emit-runs)

  -- Whatever the branch, the log stays gapless.
  pub close_if_done-IsGapless : IsGapless db → IsGapless (close_if_done now parent_id db)
  close_if_done-IsGapless h =
      close_if_done_ind IsGapless h (emit-IsGapless parent_id _ db h).0 (λ parent found.
        close_parent-IsGapless now parent _ informed (emit-IsGapless parent_id _ db h).0)

-- Of a parent that has not ended: while a child is live its row is untouched; with none live it is
-- closed, as cancelled if a child was cancelled and as completed if none was, and it ends now.
pub close_if_done-row :
    (now parent_id : ℕ) (db : Db) (parent : Run)
    → find_run parent_id db ≡ some parent
    → is_terminal parent.status ≡ false
    → let tally = tally_children parent_id db in
      (0 < tally.live) × (find_run parent_id (close_if_done now parent_id db) ≡ some parent)
      ⊎ (after : Run) × (tally.live ≡ 0)
        × (find_run parent_id (close_if_done now parent_id db) ≡ some after)
        × IsClosed now tally parent after
close_if_done-row now parent_id db parent found unfinished =
    elim (zero-or-pos (live_children now parent_id db)) [
      | inl z ↦
          let tally = tally_children parent_id db in
          let told_db = informed now parent_id db in
          let id = find_id-id parent_id parent db.runs found in
          let here : find_run parent.id told_db ≡ some parent =
            subst (λ i. find_run i told_db ≡ some parent) (sym id) (rw emit-runs found) in
          let (after, row, closed) = close_parent-row now parent tally told_db parent here in
          let at_parent : find_run parent_id (close_parent now parent tally told_db) ≡ some after =
            subst (λ i. find_run i (close_parent now parent tally told_db) ≡ some after) id row in
          inr (
            after,
            z,
            rw (close_if_done_ended now parent_id db parent found unfinished z) at_parent,
            closed,
          )
      | inr p ↦ inl (
        p,
        rw (close_if_done_live now parent_id db parent found unfinished p) (rw emit-runs found),
      )
    ]
