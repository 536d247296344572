-- ===== src/Runs/Rerun/Batch.antt =====
-- What the rerun of a batch in app/api/runs.py leaves in the table of runs.
use qa_test_backend.Prelude.{
  ℕ, suc, ◌≡◌, ◌≤◌, refl, some, true, false, List, [], ◌∷◌, ◌++◌, any, select, length, map, arith,
  ltb, ◌==◌, Bool-cases, inl, inr,
}
use qa_test_backend.Store.{Db, Run, is_child_of, find_run}
use qa_test_backend.Cancel.{is_cancellable}
use qa_test_backend.Runs.Rerun.{
  Only, Reply, batch, children_of, chosen, rerun_children, clone_batch, rerun_batch, rerun_parent,
  is_agent_visible, rerun_found, rerun_run,
}

-- The relation of the chosen children, the cap and the tables before to the tables after and the reply.
pub IsCloneOf : List Run → ℕ → Db → Db × Reply → Type 0
IsCloneOf children cap db (after, batch parent count) =
    (map (λ r. r.scenario_id) (select (is_child_of parent) after.runs)
      ≡ map (λ r. r.scenario_id) children)
    × (count ≡ length children)
    × (1 ≤ count)
    × (count ≤ cap)
IsCloneOf children cap db (after, _) = after ≡ db

rerun_children-scenarios :
    (now : ℕ) (fresh : ℕ → ℕ) (k parent project : ℕ) (row : Run) (cs : List Run)
    → map
        (λ r. r.scenario_id)
        (select (is_child_of parent) (rerun_children now fresh k parent project row cs))
      ≡ map (λ r. r.scenario_id) cs
unfolding rerun_children select
rerun_children-scenarios now fresh k parent project row [] = refl
rerun_children-scenarios now fresh k parent project row (c ∷ cs) =
    ground (arith, rerun_children-scenarios now fresh (suc k) parent project row cs)

cloned-scenarios :
    (now : ℕ) (fresh : ℕ → ℕ) (project : ℕ) (row : Run) (cs rows : List Run)
    → any (is_child_of (fresh 0)) rows ≡ false
    → map
        (λ r. r.scenario_id)
        (select (is_child_of (fresh 0)) (
          rows
          ++ rerun_parent now (fresh 0) project row
            ∷ rerun_children now fresh 1 (fresh 0) project row cs))
      ≡ map (λ r. r.scenario_id) cs
unfolding select any
cloned-scenarios now fresh project row cs [] e =
    rerun_children-scenarios now fresh 1 (fresh 0) project row cs
cloned-scenarios now fresh project row cs (r ∷ rows) e =
    ground (arith, cloned-scenarios now fresh project row cs rows)

clone_batch-IsCloneOf :
    (now : ℕ) (fresh : ℕ → ℕ) (cap project : ℕ) (row : Run) (cs : List Run) (db : Db)
    → any (is_child_of (fresh 0)) db.runs ≡ false
    → IsCloneOf cs cap db (clone_batch now fresh cap project row cs db)
unfolding clone_batch IsCloneOf
clone_batch-IsCloneOf now fresh cap project row [] db e = refl
clone_batch-IsCloneOf now fresh cap project row (c ∷ cs) db e =
    elim (Bool-cases (ltb cap (length (c ∷ cs)))) [
      | inl big ↦ rw big refl
      | inr fits ↦ rw fits (
        cloned-scenarios now fresh project row (c ∷ cs) db.runs e,
        refl,
        omega arith,
        ground arith,
      )
    ]

rerun_batch-IsCloneOf :
    (now : ℕ) (fresh : ℕ → ℕ) (cap : ℕ) (only : Only) (project : ℕ) (row : Run) (db : Db)
    → any (is_child_of (fresh 0)) db.runs ≡ false
    → IsCloneOf
        (chosen only (children_of row.id db))
        cap
        db
        (rerun_batch now fresh cap only project row db)
unfolding rerun_batch IsCloneOf
rerun_batch-IsCloneOf now fresh cap only project row db e =
    elim (Bool-cases (any (is_agent_visible row.agent_id project) db.agents)) [
      | inl seen ↦
          rw seen (elim (Bool-cases (any (λ c. is_cancellable c.status) (children_of row.id db))) [
            | inl live ↦ rw live refl
            | inr over ↦ rw over (
                clone_batch-IsCloneOf now fresh cap project row
                  (chosen only (children_of row.id db)) db e)
          ])
      | inr hidden ↦ rw hidden refl
    ]

-- The rerun of a run that has children, where the id for the new parent is no run's parent yet: an error
-- (the run is of another project, its agent is, a child is live, no child is chosen, or more than `cap`
-- are) leaves the tables as they are. An answer that names a new parent with `count` calls leaves that
-- parent with one child for each chosen child (all of them, or those whose verdict is "fail"), in the
-- order of creation and of the same scenarios; there are `count` of them, at least one and at most `cap`.
pub rerun_run-IsCloneOf :
    (now : ℕ) (fresh : ℕ → ℕ) (cap : ℕ) (only : Only) (i project : ℕ) (row : Run) (db : Db)
    → find_run i db ≡ some row
    → any (is_child_of row.id) db.runs ≡ true
    → any (is_child_of (fresh 0)) db.runs ≡ false
    → IsCloneOf
        (chosen only (children_of row.id db))
        cap
        db
        (rerun_run now fresh cap only i project db)
unfolding rerun_run rerun_found IsCloneOf
rerun_run-IsCloneOf now fresh cap only i project row db found parent new =
    rw found (elim (Bool-cases (row.project_id == project)) [
      | inl mine ↦ rw mine (rw parent (rerun_batch-IsCloneOf now fresh cap only project row db new))
      | inr other ↦ rw other refl
    ])
