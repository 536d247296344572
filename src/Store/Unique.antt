-- ===== src/Store/Unique.antt =====
-- The primary key of `runs` (app/models/runs.py), and counts of rows after an update of one row.
use qa_test_backend.Prelude.{
  ℕ, ◌+◌, ◌≡◌, refl, Bool, false, some, List, [], ◌∷◌, any, find, arith, if◌then◌else◌, count_where,
  update_where, Bool-cases, inl, inr, Among, ◌≢◌,
}
use qa_test_backend.Store.{Run, has_id}

-- No two rows have one id.
abbrev pub IsUnique : List Run → Type 0
IsUnique [] = Unit
IsUnique (r ∷ rows) = (any (has_id r.id) rows ≡ false) × IsUnique rows

module _ (i : ℕ) (f : Run → Run) where
  update-absent :
      (rows : List Run) → any (has_id i) rows ≡ false → update_where (has_id i) f rows ≡ rows
  unfolding any update_where
  update-absent [] h = refl
  update-absent (r ∷ rows) h = ground (arith, update-absent rows)

  any-absent :
      (j : ℕ) (rows : List Run)
      → ((r : Run) → (f r).id ≡ r.id)
      → any (has_id j) (update_where (has_id i) f rows) ≡ any (has_id j) rows
  unfolding any update_where
  any-absent j [] keeps = refl
  any-absent j (r ∷ rows) keeps = ground (arith, keeps r, any-absent j rows keeps)

  -- An update of one row keeps the ids apart.
  pub update-IsUnique :
      ((r : Run) → (f r).id ≡ r.id)
      → (rows : List Run) → IsUnique rows
      → IsUnique (update_where (has_id i) f rows)
  unfolding update_where
  update-IsUnique keeps [] u = tt
  update-IsUnique keeps (r ∷ rows) u =
      ground (arith, keeps r, any-absent r.id rows keeps, update-IsUnique keeps rows u.1)

  -- The count of a test changes by what the row with the id contributes before and after.
  pub count-update_id :
      (q : Run → Bool) (rows : List Run) (row : Run)
      → IsUnique rows
      → find (has_id i) rows ≡ some row
      → count_where q (update_where (has_id i) f rows) + (if q row then 1 else 0)
        ≡ count_where q rows + (if q (f row) then 1 else 0)
  unfolding count_where update_where find
  count-update_id q [] row u h = ground arith
  count-update_id q (r ∷ rows) row u h = elim (Bool-cases (has_id i r)) [
    | inl here ↦ ground (arith, u.0, update-absent rows, here)
    | inr later ↦ ground (arith, later, count-update_id q rows row u.1)
  ]

absent-Among :
    (i : ℕ) (r : Run) (rows : List Run) → Among r rows → any (has_id i) rows ≡ false → r.id ≢ i
unfolding any
absent-Among i r [] m a = absurd m
absent-Among i r (x ∷ rows) (inl same) a = rw (← same) (ground (arith, a))
absent-Among i r (x ∷ rows) (inr later) a = absent-Among i r rows later (ground (arith, a))

-- With unique ids a row is found by its id.
pub find-Among :
    (r : Run) (rows : List Run) → IsUnique rows → Among r rows → find (has_id r.id) rows ≡ some r
unfolding find
find-Among r [] u m = absurd m
find-Among r (x ∷ rows) u (inl same) = rw (← same) (ground arith)
find-Among r (x ∷ rows) u (inr later) =
    ground (arith, find-Among r rows u.1 later, absent-Among x.id r rows later u.0)
