-- ===== src/Reaper/Reap.antt =====
-- `reap_stale_runs` of app/workers/reaper.py: no run that has lost its worker stays live.
use qa_test_backend.Prelude.{
  ℕ, ◌≡◌, refl, ◌∙◌, ap, some, arith, Bool, true, false, List, [], ◌∷◌, any, ◌&&◌, ◌||◌, not, ◌==◌,
  amend, find-update_where-some, any-select_found, Bool-cases, inl, inr,
}
use native.Mathlib.Decide.{ℕ_discrete}
use mathlib.Core.Logic.{◌≢◌}
use qa_test_backend.Verdict.{failed, is_terminal}
use qa_test_backend.Store.{Db, Run, has_id, find_run, update_runs, emit}
use qa_test_backend.Store.Log.{IsGapless, emit-IsGapless}
use qa_test_backend.Store.Rows.{find_id-id}
use qa_test_backend.Rollup.{set_closed}
use qa_test_backend.Rollup.Close.{emit-runs}
use qa_test_backend.Rollup.Child.{IsKept, maybe_close_parent-Keeps, maybe_close_parent-IsGapless}
use qa_test_backend.Reaper.{
  is_executing, is_stale, stale_ids, worker_lost, is_executing_run, reap_run, reap_all,
  reap_stale_runs,
}

IsKept-trans : {a b c : Run} → IsKept a b → IsKept b c → IsKept a c
IsKept-trans h k = record {
  ended = λ t. ground (arith, h.ended t, k.ended);
  changed = ground (arith, h.changed, k.changed, k.ended);
}

IsKept-terminal :
    (a b : Run) → IsKept a b → is_terminal a.status ≡ true → is_terminal b.status ≡ true
IsKept-terminal a b h t = rw (h.ended t) t

module _ (threshold now i : ℕ) (db : Db) where
  abbrev marked : Db
  marked =
      update_runs (is_executing_run i) (set_closed now failed) (emit i (worker_lost threshold) db).0

  marked-row :
      (j : ℕ) (row : Run)
      → find_run j db ≡ some row
      → find_run j marked ≡ some (amend (is_executing_run i) (set_closed now failed) row)
  marked-row j row h =
      find-update_where-some (has_id j) (is_executing_run i) (set_closed now failed)
        (λ r. ground arith) row _ (rw emit-runs h)

  marked-Keeps : (row : Run) → IsKept row (amend (is_executing_run i) (set_closed now failed) row)
  marked-Keeps row = record { ended = λ t. ground arith; changed = ground arith }

  reaped :
      (row : Run)
      → row.id ≡ i
      → is_executing row.status ≡ true
      → is_terminal (amend (is_executing_run i) (set_closed now failed) row).status ≡ true
  reaped row id e = ground arith

  pub reap_run-Keeps :
      (j : ℕ) (row : Run)
      → find_run j db ≡ some row
      → (after : Run) × (find_run j (reap_run threshold now i db) ≡ some after) × IsKept row after
  unfolding reap_run
  reap_run-Keeps j row h =
      let (after, found, kept) = maybe_close_parent-Keeps now i j marked _ (marked-row j row h) in
      (after, found, IsKept-trans (marked-Keeps row) kept)

  pub reap_run_self :
      (row : Run)
      → find_run i db ≡ some row
      → is_executing row.status ≡ true
      → (after : Run) × (find_run i (reap_run threshold now i db) ≡ some after)
        × (is_terminal after.status ≡ true)
  unfolding reap_run
  reap_run_self row h e =
      let (after, found, kept) = maybe_close_parent-Keeps now i i marked _ (marked-row i row h) in
      (after, found, IsKept-terminal _ after kept (reaped row (find_id-id i row db.runs h) e))

  pub reap_run-IsGapless : IsGapless db → IsGapless (reap_run threshold now i db)
  unfolding reap_run
  reap_run-IsGapless h =
      maybe_close_parent-IsGapless now i marked (emit-IsGapless i (worker_lost threshold) db h).0

pub reap_all-IsGapless :
    (threshold now : ℕ) (ids : List ℕ) (db : Db)
    → IsGapless db
    → IsGapless (reap_all threshold now ids db)
unfolding reap_all
reap_all-IsGapless threshold now [] db h = h
reap_all-IsGapless threshold now (i ∷ ids) db h =
    reap_all-IsGapless threshold now ids (reap_run threshold now i db)
      (reap_run-IsGapless threshold now i db h)

reap_all-Keeps :
    (threshold now j : ℕ) (ids : List ℕ) (db : Db) (row : Run)
    → find_run j db ≡ some row
    → (after : Run) × (find_run j (reap_all threshold now ids db) ≡ some after) × IsKept row after
unfolding reap_all
reap_all-Keeps threshold now j [] db row h =
    (row, h, record { ended = λ t. refl; changed = inl refl })
reap_all-Keeps threshold now j (i ∷ ids) db row h =
    let (mid, found, kept) = reap_run-Keeps threshold now i db j row h in
    let (after, found', kept') =
      reap_all-Keeps threshold now j ids (reap_run threshold now i db) mid found in
    (after, found', IsKept-trans kept kept')

-- A run that a worker has taken up and that has not ended, or that has.
abbrev is_started : Run → Bool
is_started r = is_executing r.status || is_terminal r.status

reap_run-ends :
    (threshold now i : ℕ) (db : Db) (row : Run)
    → find_run i db ≡ some row
    → is_started row ≡ true
    → (after : Run) × (find_run i (reap_run threshold now i db) ≡ some after)
      × (is_terminal after.status ≡ true)
reap_run-ends threshold now i db row h s = elim (Bool-cases (is_executing row.status)) [
  | inl e ↦ reap_run_self threshold now i db row h e
  | inr idle ↦
      let (after, found, kept) = reap_run-Keeps threshold now i db i row h in
      (after, found, IsKept-terminal row after kept (ground (arith, s, idle)))
]

reap_all-ends :
    (threshold now j : ℕ) (ids : List ℕ) (db : Db) (row : Run)
    → any (λ i. i == j) ids ≡ true
    → find_run j db ≡ some row
    → is_started row ≡ true
    → (after : Run) × (find_run j (reap_all threshold now ids db) ≡ some after)
      × (is_terminal after.status ≡ true)
unfolding reap_all
reap_all-ends threshold now j [] db row m h s = unfold any in cc
reap_all-ends threshold now j (i ∷ ids) db row m h s = elim (ℕ_discrete i j) [
  | yes e ↦
      let (mid, found, t) = reap_run-ends threshold now j db row h s in
      let (after, found', kept) =
        reap_all-Keeps threshold now j ids (reap_run threshold now j db) mid found in
      (after, rw e found', IsKept-terminal mid after kept t)
  | no ne ↦
      let (mid, found, kept) = reap_run-Keeps threshold now i db j row h in
      reap_all-ends threshold now j ids (reap_run threshold now i db) mid (any_later i j ids ne m)
        found (ground (arith, kept.ended, kept.changed, s))
]
  where
    any_later :
        (a b : ℕ) (rest : List ℕ)
        → a ≢ b
        → any (λ k. k == b) (a ∷ rest) ≡ true
        → any (λ k. k == b) rest ≡ true
    any_later a b rest ne k = unfold any in ground arith

-- After a reaper's tick, every run that was claimed or running with a stale heartbeat, and whose row
-- no other transaction held, has ended.
pub reap_stale_runs-ends :
    (locked : ℕ → Bool) (threshold now : ℕ) (db : Db) (j : ℕ) (row : Run)
    → find_run j db ≡ some row
    → is_stale threshold now row ≡ true
    → locked j ≡ false
    → let after_db = (reap_stale_runs locked threshold now db).0 in
      (after : Run) × (find_run j after_db ≡ some after) × (is_terminal after.status ≡ true)
unfolding reap_stale_runs stale_ids
reap_stale_runs-ends locked threshold now db j row h stale free =
    reap_all-ends threshold now j _ db row
      (any-select_found (has_id j) (λ r. is_stale threshold now r && not (locked r.id)) (λ r. r.id)
        (λ i. i == j) row db.runs h (ground (arith, stale, free, find_id-id j row db.runs h))
        (ground (arith, find_id-id j row db.runs h)))
      h (ground (arith, stale))

-- A tick of the reaper changes no run that has ended.
pub reap_stale_runs-Keeps :
    (locked : ℕ → Bool) (threshold now : ℕ) (db : Db) (j : ℕ) (row : Run)
    → find_run j db ≡ some row
    → is_terminal row.status ≡ true
    → find_run j (reap_stale_runs locked threshold now db).0 ≡ some row
unfolding reap_stale_runs
reap_stale_runs-Keeps locked threshold now db j row h t =
    let (after, found, kept) =
      reap_all-Keeps threshold now j (stale_ids locked threshold now db) db row h in
    found ∙ ap some (kept.ended t)
