-- ===== src/Prelude/Sort.antt =====
-- `ORDER BY … LIMIT 1`: the first row of an ordered query stands in the table and is a least one.
use Prim.Native.Nat.{ℕ, ◌≤◌}
use mathlib.Core.Path.{◌≡◌, refl, subst}
use mathlib.Core.Logic.{◌⊎◌, inl, inr}
use mathlib.Core.Bool.{Bool, true}
use mathlib.Core.List.{List, [], ◌∷◌}
use mathlib.Core.Option.{Option, none, some}
use native.Mathlib.Omega.{arith}
use qa_test_backend.Prelude.Tests.{Bool-cases}
use qa_test_backend.Prelude.Lists.{All}
use qa_test_backend.Prelude.Queries.{select, sort_by, insert_by}

module _ {A : Type 0} where
  abbrev pub head? : List A → Option A
  head? [] = none
  head? (r ∷ rs) = some r

  -- Membership by recursion.
  abbrev pub Among : A → List A → Type 0
  Among r [] = ⊥
  Among r (x ∷ xs) = (x ≡ r) ⊎ Among r xs

  pub List-cases : (xs : List A) → (xs ≡ []) ⊎ ((y : A) × (ys : List A) × (xs ≡ y ∷ ys))
  List-cases [] = inl refl
  List-cases (y ∷ ys) = inr (y, ys, refl)

  pub head?-eq-some : (r : A) (xs : List A) → head? xs ≡ some r → (ys : List A) × (xs ≡ r ∷ ys)
  head?-eq-some r [] h = cc
  head?-eq-some r (x ∷ xs) h = (xs, cc)

  pub Among-select :
      (p : A → Bool) (r : A) (xs : List A) → Among r (select p xs) → Among r xs × (p r ≡ true)
  unfolding select
  Among-select p r [] h = absurd h
  Among-select p r (x ∷ xs) h = elim (Bool-cases (p x)) [
    | inl e ↦ elim (rw e at h) [
      | inl same ↦ (inl same, cc)
      | inr later ↦ let (m, t) = Among-select p r xs later in (inr m, t)
    ]
    | inr e ↦ let (m, t) = Among-select p r xs (rw e at h) in (inr m, t)
  ]

module _ {A : Type 0} (key : A → ℕ) where
  insert_by-ne-nil : (x : A) (xs : List A) → insert_by key x xs ≡ [] → ⊥
  unfolding insert_by
  insert_by-ne-nil x [] h = cc
  insert_by-ne-nil x (y ∷ ys) h = ground arith

  sort_by-eq-nil : (xs : List A) → sort_by key xs ≡ [] → xs ≡ []
  unfolding sort_by
  sort_by-eq-nil [] h = refl
  sort_by-eq-nil (x ∷ xs) h = absurd (insert_by-ne-nil x (sort_by key xs) h)

  insert_by-head :
      (x z : A) (zs : List A) (y : A) (ys : List A)
      → insert_by key x (z ∷ zs) ≡ y ∷ ys
      → (x ≡ y) × (key x ≤ key z) ⊎ (z ≡ y) × (key z ≤ key x)
  unfolding insert_by
  insert_by-head x z zs y ys h = ground arith

  All-le_trans : (n m : ℕ) (xs : List A) → n ≤ m → All (λ x. m ≤ key x) xs → All (λ x. n ≤ key x) xs
  All-le_trans n m [] le h = tt
  All-le_trans n m (x ∷ xs) le h = (omega arith, All-le_trans n m xs le h.1)

  abbrev LeastOf : A → List A → A → Type 0
  LeastOf x xs b = (key b ≤ key x) × All (λ c. key b ≤ key c) xs

  pub sort_by-head :
      (xs : List A) (y : A) (ys : List A)
      → sort_by key xs ≡ y ∷ ys
      → Among y xs × All (λ x. key y ≤ key x) xs
  unfolding sort_by
  sort_by-head [] y ys h = cc
  sort_by-head (x ∷ xs) y ys h = elim (List-cases (sort_by key xs)) [
    | inl e ↦ only x xs y ys (sort_by-eq-nil xs e) (rw e at h)
    | inr (z, zs, e) ↦
        let (m, least) = sort_by-head xs z zs e in
        elim (insert_by-head x z zs y ys (rw e at h)) [
          | inl (same, le) ↦ (
            inl same,
            subst (LeastOf x xs) same (omega arith, All-le_trans (key x) (key z) xs le least),
          )
          | inr (same, le) ↦ (inr (rw same at m), subst (LeastOf x xs) same (le, least))
        ]
  ]
    where
      only :
          (a : A) (as_ : List A) (b : A) (bs : List A)
          → as_ ≡ []
          → insert_by key a [] ≡ b ∷ bs
          → Among b (a ∷ as_) × All (λ c. key b ≤ key c) (a ∷ as_)
      only a as_ b bs e k = unfold insert_by in rw e (ground arith)
