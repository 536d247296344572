-- ===== src/Prelude/Queries.antt =====
-- Queries over the rows of a table: `SELECT`, `count(*)`, `EXISTS`, `UPDATE` and `ORDER BY`, and
-- Python's `any` and `next`.
use Prim.Native.Nat.{ℕ, ◌+◌}
use mathlib.Core.Path.{◌≡◌, refl}
use mathlib.Core.Logic.{◌⊎◌, inl, inr}
use mathlib.Core.Bool.{Bool, true, false, ◌||◌}
use mathlib.Core.List.{List, [], ◌∷◌, map}
use mathlib.Core.Option.{Option, none, some, some-injective}
use native.Mathlib.Omega.{arith}
use qa_test_backend.Prelude.Tests.{if◌then◌else◌, leb, Bool-cases}

module _ {ℓ} {A : Type ℓ} where
  unfoldable pub select : (A → Bool) → List A → List A
  select p [] = []
  select p (x ∷ xs) = let rest = select p xs in if p x then x ∷ rest else rest

  unfoldable pub count_where : (A → Bool) → List A → ℕ
  count_where p [] = 0
  count_where p (x ∷ xs) = (if p x then 1 else 0) + count_where p xs

  unfoldable pub any : (A → Bool) → List A → Bool
  any p [] = false
  any p (x ∷ xs) = p x || any p xs

  unfoldable pub find : (A → Bool) → List A → Option A
  find p [] = none
  find p (x ∷ xs) = let rest = find p xs in if p x then some x else rest

  -- What `UPDATE` makes of one row.
  abbrev pub amend : (A → Bool) → (A → A) → A → A
  amend p f x = if p x then f x else x

  unfoldable pub update_where : (A → Bool) → (A → A) → List A → List A
  update_where p f [] = []
  update_where p f (x ∷ xs) = amend p f x ∷ update_where p f xs

  -- `ORDER BY key`: an insertion sort, stable, since rows with equal keys come in no promised order.
  unfoldable pub insert_by : (A → ℕ) → A → List A → List A
  insert_by key a [] = a ∷ []
  insert_by key a (x ∷ xs) =
      let rest = insert_by key a xs in if leb (key a) (key x) then a ∷ x ∷ xs else x ∷ rest

  unfoldable pub sort_by : (A → ℕ) → List A → List A
  unfolding insert_by
  sort_by key [] = []
  sort_by key (x ∷ xs) = insert_by key x (sort_by key xs)

-- Queries after an update that does not touch what they test.
module _ {ℓ} {A : Type ℓ} (q p : A → Bool) (f : A → A)
    (same : (x : A) → q (amend p f x) ≡ q x) where
  pub count_where-update_where :
      (xs : List A) → count_where q (update_where p f xs) ≡ count_where q xs
  unfolding count_where update_where
  count_where-update_where [] = refl
  count_where-update_where (x ∷ xs) = ground (arith, same x, count_where-update_where xs)

  pub any-update_where : (xs : List A) → any q (update_where p f xs) ≡ any q xs
  unfolding any update_where
  any-update_where [] = refl
  any-update_where (x ∷ xs) = ground (arith, same x, any-update_where xs)

  pub find-update_where-none :
      (xs : List A) → find q xs ≡ none → find q (update_where p f xs) ≡ none
  unfolding find update_where
  find-update_where-none [] h = refl
  find-update_where-none (x ∷ xs) h = ground (arith, same x, find-update_where-none xs)

  pub find-update_where-some :
      (a : A) (xs : List A) → find q xs ≡ some a → find q (update_where p f xs) ≡ some (amend p f a)
  unfolding find update_where
  find-update_where-some a [] h = ground arith
  find-update_where-some a (x ∷ xs) h = ground (arith, same x, find-update_where-some a xs)

-- A row that is found passes the test.
pub find-eq-some {ℓ} :
    {A : Type ℓ} (q : A → Bool) (a : A) (xs : List A) → find q xs ≡ some a → q a ≡ true
unfolding find
find-eq-some q a [] h = ground arith
find-eq-some q a (x ∷ xs) h = ground (arith, find-eq-some q a xs)

selected_cons {ℓ κ} :
    {A : Type ℓ} {B : Type κ} (p : A → Bool) (key : A → B) (same : B → Bool) (x : A) (xs : List A)
    → any same (map key (select p xs)) ≡ true
    → any same (map key (select p (x ∷ xs))) ≡ true
unfolding any select
selected_cons p key same x xs h = elim (Bool-cases (p x)) [
  | inl chosen ↦ rw chosen (ground (arith, h))
  | inr skipped ↦ rw skipped h
]

found_cons {ℓ} :
    {A : Type ℓ} (q : A → Bool) (a x : A) (xs : List A)
    → find q (x ∷ xs) ≡ some a
    → (x ≡ a) ⊎ (find q xs ≡ some a)
unfolding find
found_cons q a x xs h = elim (Bool-cases (q x)) [
  | inl here ↦ inl (some-injective x a (rw here at h))
  | inr later ↦ inr (rw later at h)
]

-- The row that is found stands among the selected ones, if it passes the test.
pub any-select_found {ℓ κ} :
    {A : Type ℓ} {B : Type κ} (q p : A → Bool) (key : A → B) (same : B → Bool) (a : A) (xs : List A)
    → find q xs ≡ some a
    → p a ≡ true
    → same (key a) ≡ true
    → any same (map key (select p xs)) ≡ true
unfolding any select
any-select_found q p key same a [] h k s = unfold find in cc
any-select_found q p key same a (x ∷ xs) h k s = elim (found_cons q a x xs h) [
  | inl e ↦ rw (e, k, s)
  | inr later ↦ selected_cons p key same x xs (any-select_found q p key same a xs later k s)
]

-- A row that is found and passes a test refutes that no row passes it.
pub any-false_found {ℓ} :
    {A : Type ℓ} (q p : A → Bool) (a : A) (xs : List A)
    → find p xs ≡ some a
    → q a ≡ true
    → any q xs ≡ false
    → ⊥
unfolding any
any-false_found q p a [] h t e = unfold find in cc
any-false_found q p a (x ∷ xs) h t e = elim (found_cons p a x xs h) [
  | inl same ↦ passes (q x) (any q xs) (rw same t) e
  | inr later ↦ any-false_found q p a xs later t (rest (q x) (any q xs) e)
]
  where
    passes : (b c : Bool) → b ≡ true → (b || c) ≡ false → ⊥
    passes b c k l = ground arith

    rest : (b c : Bool) → (b || c) ≡ false → c ≡ false
    rest b c l = ground arith
