-- ===== src/Examples/Rubrics.antt =====
-- The theorems on app/engine/rubric.py at a batch of two calls.
use qa_test_backend.Prelude.{◌⊎◌, ◌≡◌, some, [], ◌∷◌, true}
use qa_test_backend.Verdict.{pass, warn, fail}
use qa_test_backend.Verdict.Rubric.{Rubric, evaluate_batch}
use qa_test_backend.Verdict.Rubric.Gate.{IsBroken, IsKept, evaluate_batch-IsJudged}

abbrev strict : Rubric
strict = record { fail_on_any_critical = true; min_pass_rate = some (record { num = 3; den = 4 }) }

evaluate_batch-IsJudged_example :
    (evaluate_batch (pass ∷ warn ∷ []) (some strict) pass ≡ fail)
      × IsBroken (pass ∷ warn ∷ []) strict
    ⊎ (evaluate_batch (pass ∷ warn ∷ []) (some strict) pass ≡ pass)
      × IsKept (pass ∷ warn ∷ []) strict
evaluate_batch-IsJudged_example = evaluate_batch-IsJudged pass (warn ∷ []) strict pass
