-- ===== src/Rollup/Child.antt =====
-- `maybe_close_parent` and `close_parent_now` of app/workers/rollup.py: how the close is entered from
-- a child and from the parent.
use qa_test_backend.Prelude.{
  ℕ, ◌≡◌, ◌≢◌, refl, none, some, arith, inl, inr, ◌⊎◌, Option-cases, Bool-cases, true,
}
use native.Mathlib.Decide.{ℕ_discrete}
use qa_test_backend.Verdict.{is_terminal}
use qa_test_backend.Store.{Db, Run, find_run}
use qa_test_backend.Store.Log.{IsGapless}
use qa_test_backend.Rollup.{Tally, parent_of, close_if_done, maybe_close_parent, close_parent_now}
use qa_test_backend.Rollup.Close.{
  close_if_done-other, close_if_done-IsGapless, close_if_done-row, close_if_done_terminal,
  zero-or-pos, IsClosed,
}

module _ (now child : ℕ) (db : Db) where
  pub maybe_close_parent-none :
      parent_of (find_run child db) ≡ none → maybe_close_parent now child db ≡ db
  unfolding maybe_close_parent
  maybe_close_parent-none h = ground arith

  pub maybe_close_parent-some :
      (parent : ℕ)
      → parent_of (find_run child db) ≡ some parent
      → maybe_close_parent now child db ≡ close_if_done now parent db
  unfolding maybe_close_parent
  maybe_close_parent-some parent h = ground arith

  pub maybe_close_parent-IsGapless : IsGapless db → IsGapless (maybe_close_parent now child db)
  maybe_close_parent-IsGapless h = elim (Option-cases (parent_of (find_run child db))) [
    | inl e ↦ rw (maybe_close_parent-none e) h
    | inr (p, e) ↦ rw (maybe_close_parent-some p e) (close_if_done-IsGapless now p db h)
  ]

  -- Only the row of the child's own parent may change.
  pub maybe_close_parent-other :
      (j : ℕ)
      → parent_of (find_run child db) ≢ some j
      → find_run j (maybe_close_parent now child db) ≡ find_run j db
  maybe_close_parent-other j ne = elim (Option-cases (parent_of (find_run child db))) [
    | inl e ↦ rw (maybe_close_parent-none e)
    | inr (p, e) ↦
        rw (maybe_close_parent-some p e) (close_if_done-other now p db j (λ same. ne (cc)))
  ]

pub close_parent_now-IsGapless :
    (now parent : ℕ) (db : Db) → IsGapless db → IsGapless (close_parent_now now parent db)
unfolding close_parent_now
close_parent_now-IsGapless now parent db h = close_if_done-IsGapless now parent db h

-- A run that has ended keeps its row, and the status of any other is kept or has become terminal.
pub record IsKept (row after : Run) : Type 0 where
  pub ended : is_terminal row.status ≡ true → after ≡ row
  pub changed : (after.status ≡ row.status) ⊎ (is_terminal after.status ≡ true)

IsKept-self : (row : Run) → IsKept row row
IsKept-self row = record { ended = λ t. refl; changed = inl refl }

pub IsClosed-terminal :
    {now : ℕ} {tally : Tally} {before after : Run}
    → IsClosed now tally before after
    → is_terminal after.status ≡ true
IsClosed-terminal {tally} c = elim (zero-or-pos tally.cancelled) [
  | inl z ↦ ground (arith, c.as_completed z)
  | inr p ↦ ground (arith, c.as_cancelled p)
]

closed-Keeps :
    (now parent : ℕ) (db : Db) (row : Run)
    → find_run parent db ≡ some row
    → (after : Run) × (find_run parent (close_if_done now parent db) ≡ some after)
      × IsKept row after
closed-Keeps now parent db row found = elim (Bool-cases (is_terminal row.status)) [
  | inl t ↦ (row, rw (close_if_done_terminal now parent db row found t) found, IsKept-self row)
  | inr t ↦ elim (close_if_done-row now parent db row found t) [
    | inl (p, same) ↦ (row, same, IsKept-self row)
    | inr (after, z, e, c) ↦
        (after, e, record { ended = λ u. cc; changed = inr (IsClosed-terminal c) })
  ]
]

pub close_if_done-Keeps :
    (now parent j : ℕ) (db : Db) (row : Run)
    → find_run j db ≡ some row
    → (after : Run) × (find_run j (close_if_done now parent db) ≡ some after) × IsKept row after
close_if_done-Keeps now parent j db row found = elim (ℕ_discrete parent j) [
  | yes e ↦ rw (← e) (closed-Keeps now parent db row (rw e found))
  | no ne ↦ (row, rw (close_if_done-other now parent db j ne) found, IsKept-self row)
]

-- Whichever child's end starts the rollup, no run that has ended is changed, and no other run
-- changes its status but to a terminal one.
pub maybe_close_parent-Keeps :
    (now child j : ℕ) (db : Db) (row : Run)
    → find_run j db ≡ some row
    → (after : Run) × (find_run j (maybe_close_parent now child db) ≡ some after) × IsKept row after
maybe_close_parent-Keeps now child j db row found =
    elim (Option-cases (parent_of (find_run child db))) [
      | inl e ↦ (row, rw (maybe_close_parent-none now child db e) found, IsKept-self row)
      | inr (p, e) ↦
          rw (maybe_close_parent-some now child db p e) (close_if_done-Keeps now p j db row found)
    ]
