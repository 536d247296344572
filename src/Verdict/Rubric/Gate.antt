-- ===== src/Verdict/Rubric/Gate.antt =====
-- What app/engine/rubric.py promises: which metrics can fail a call, and what fails a batch.
use qa_test_backend.Prelude.{
  ◌≤◌, ◌<◌, ◌*◌, ◌≡◌, ◌≢◌, ◌⊎◌, ◌&&◌, inl, inr, refl, Bool-cases, Among, All, Bool, true, false,
  List, [], ◌∷◌, ◌||◌, any, select, count_where, length, arith, Option, some, none,
}
use qa_test_backend.Verdict.{Badge, fail}
use qa_test_backend.Verdict.Rubric.{
  GatingMetricResult, fails_gate, warns_gate, evaluate_call, Rate, Rubric, is_fail, is_pass,
  below_rate, evaluate_batch,
}

-- A result that can change a call's verdict.
abbrev pub gates : GatingMetricResult → Bool
gates r = fails_gate r || warns_gate r

any_fails-select :
    (rs : List GatingMetricResult) → any fails_gate (select gates rs) ≡ any fails_gate rs
unfolding any select
any_fails-select [] = refl
any_fails-select (r ∷ rs) = ground (arith, any_fails-select rs)

any_warns-select :
    (rs : List GatingMetricResult) → any warns_gate (select gates rs) ≡ any warns_gate rs
unfolding any select
any_warns-select [] = refl
any_warns-select (r ∷ rs) = ground (arith, any_warns-select rs)

-- Metrics that passed, were not sampled or could not be computed have no say in a call's verdict: it
-- is the same when they are left out.
pub evaluate_call-select :
    (rs : List GatingMetricResult) (default : Badge)
    → evaluate_call (select gates rs) default ≡ evaluate_call rs default
unfolding evaluate_call
evaluate_call-select rs default = ground (arith, any_fails-select rs, any_warns-select rs)

-- A rubric is broken: it minds a failed call and there is one, or fewer calls passed than its rate asks
-- for.
abbrev pub IsBroken : List Badge → Rubric → Type 0
IsBroken vs rubric =
    (rubric.fail_on_any_critical ≡ true) × Among fail vs
    ⊎ (rate : Rate) × (rubric.min_pass_rate ≡ some rate)
      × (count_where is_pass vs * rate.den < rate.num * length vs)

-- A rubric is kept: if it minds a failed call there is none, and enough calls passed.
abbrev pub IsKept : List Badge → Rubric → Type 0
IsKept vs rubric =
    ((rubric.fail_on_any_critical ≡ false) ⊎ All (λ v. v ≢ fail) vs)
    × ((rubric.min_pass_rate ≡ none)
        ⊎ (rate : Rate) × (rubric.min_pass_rate ≡ some rate)
          × (rate.num * length vs ≤ count_where is_pass vs * rate.den))

Badge-is_fail : (v : Badge) → is_fail v ≡ true → v ≡ fail
Badge-is_fail v h = ground arith

Badge-not_fail : (v : Badge) → is_fail v ≡ false → v ≢ fail
Badge-not_fail v h e = ground arith

any_fail-Among : (vs : List Badge) → any is_fail vs ≡ true → Among fail vs
unfolding any
any_fail-Among [] h = absurd (ground arith)
any_fail-Among (v ∷ vs) h = elim (Bool-cases (is_fail v)) [
  | inl e ↦ inl (Badge-is_fail v e)
  | inr e ↦ inr (any_fail-Among vs (ground (arith, e, h)))
]

any_fail-All : (vs : List Badge) → any is_fail vs ≡ false → All (λ v. v ≢ fail) vs
unfolding any
any_fail-All [] h = tt
any_fail-All (v ∷ vs) h =
    (Badge-not_fail v (ground (arith, h)), any_fail-All vs (ground (arith, h)))

-- What the rate says of a list that is judged by it.
below_rate_cases :
    (vs : List Badge) (rate : Option Rate)
    → (below_rate vs rate ≡ true)
        × ((r : Rate) × (rate ≡ some r) × (count_where is_pass vs * r.den < r.num * length vs))
      ⊎ (below_rate vs rate ≡ false)
        × ((rate ≡ none)
            ⊎ (r : Rate) × (rate ≡ some r) × (r.num * length vs ≤ count_where is_pass vs * r.den))
below_rate_cases vs none = inr (refl, inl refl)
below_rate_cases vs (some r) = elim (Bool-cases (below_rate vs (some r))) [
  | inl e ↦ inl (e, (r, refl, ground (arith, e)))
  | inr e ↦ inr (e, inr (r, refl, ground (arith, e)))
]

-- A batch of calls under a rubric fails when the rubric is broken, and has the default verdict when it is
-- kept; and it is always one of the two.
pub evaluate_batch-IsJudged :
    (v : Badge) (vs : List Badge) (rubric : Rubric) (default : Badge)
    → (evaluate_batch (v ∷ vs) (some rubric) default ≡ fail) × IsBroken (v ∷ vs) rubric
      ⊎ (evaluate_batch (v ∷ vs) (some rubric) default ≡ default) × IsKept (v ∷ vs) rubric
unfolding evaluate_batch
evaluate_batch-IsJudged v vs rubric default =
    elim (Bool-cases (rubric.fail_on_any_critical && any is_fail (v ∷ vs))) [
      | inl e ↦
          inl (rw e refl, inl (ground (arith, e), any_fail-Among (v ∷ vs) (ground (arith, e))))
      | inr e ↦ elim (below_rate_cases (v ∷ vs) rubric.min_pass_rate) [
        | inl (b, rate) ↦ inl (rw (e, b) refl, inr rate)
        | inr (b, rate) ↦ inr (rw (e, b) refl, (minds e, rate))
      ]
    ]
  where
    minds :
        (rubric.fail_on_any_critical && any is_fail (v ∷ vs)) ≡ false
        → (rubric.fail_on_any_critical ≡ false) ⊎ All (λ w. w ≢ fail) (v ∷ vs)
    minds e = elim (Bool-cases rubric.fail_on_any_critical) [
      | inr off ↦ inl off
      | inl on ↦ inr (any_fail-All (v ∷ vs) (ground (arith, e, on)))
    ]
