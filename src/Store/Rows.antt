-- ===== src/Store/Rows.antt =====
-- Rows of `runs` found by id, after an `UPDATE` of the row with some id.
use qa_test_backend.Prelude.{
  ℕ, ◌≡◌, ◌≢◌, ◌∙◌, sym, true, some, List, arith, inl, inr, find, update_where, amend,
  find-update_where-none, find-update_where-some, find-eq-some, Option-cases,
}
use qa_test_backend.Store.{Run, has_id}

module _ (i : ℕ) (f : Run → Run) (keeps : (r : Run) → (f r).id ≡ r.id) where
  has_id-amend : (j : ℕ) (r : Run) → has_id j (amend (has_id i) f r) ≡ has_id j r
  has_id-amend j r = ground (arith, keeps r)

  pub find_id-update_self :
      (row : Run) (rows : List Run)
      → find (has_id i) rows ≡ some row
      → find (has_id i) (update_where (has_id i) f rows) ≡ some (f row)
  find_id-update_self row rows h = ground (
    arith,
    find-update_where-some (has_id i) (has_id i) f (has_id-amend i) row rows h,
    find-eq-some (has_id i) row rows h,
  )

  amend-other : (j : ℕ) (r : Run) → i ≢ j → has_id j r ≡ true → amend (has_id i) f r ≡ r
  amend-other j r ne h = ground arith

  pub find_id-update_other :
      (j : ℕ) (rows : List Run)
      → i ≢ j
      → find (has_id j) (update_where (has_id i) f rows) ≡ find (has_id j) rows
  find_id-update_other j rows ne = elim (Option-cases (find (has_id j) rows)) [
    | inl absent ↦
        find-update_where-none (has_id j) (has_id i) f (has_id-amend j) rows absent ∙ sym absent
    | inr (row, found) ↦ ground (
      arith,
      find-update_where-some (has_id j) (has_id i) f (has_id-amend j) row rows found,
      amend-other j row ne (find-eq-some (has_id j) row rows found),
    )
  ]

-- The row that is found has the id that was asked for.
pub find_id-id :
    (i : ℕ) (row : Run) (rows : List Run) → find (has_id i) rows ≡ some row → row.id ≡ i
find_id-id i row rows h = ground (arith, find-eq-some (has_id i) row rows h)
