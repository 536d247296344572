-- ===== src/Verdict/Rubric.antt =====
-- app/engine/rubric.py: which metrics gate a call's verdict, and when a batch fails.
-- `minPassRate` is a float in the source; it is the fraction `num / den` here, and the comparison of
-- the pass rate with it is made without rounding.
pub mod Gate
use qa_test_backend.Verdict.{Badge, Badge-discrete, pass, warn, fail}
use qa_test_backend.Prelude.{
  ℕ, ◌*◌, Option, none, some, Bool, true, false, List, [], ◌∷◌, ◌&&◌, ◌||◌, ltb, length, any,
  count_where, if◌then◌else◌,
}

-- The status "warn" is `warned`, since `warn` is a badge.
pub data MetricStatus : Type 0 where
  passed failed warned error not_sampled not_computable : MetricStatus

pub record GatingMetricResult : Type 0 where
  pub metric_id : ℕ
  pub status : MetricStatus

-- `r.status in ("failed", "error")`
abbrev pub fails_gate : GatingMetricResult → Bool
fails_gate r = elim r.status [ failed ↦ true | error ↦ true | _ ↦ false ]

abbrev pub warns_gate : GatingMetricResult → Bool
warns_gate r = elim r.status [ warned ↦ true | _ ↦ false ]

unfoldable pub evaluate_call : List GatingMetricResult → Badge → Badge
unfolding any
evaluate_call results default_badge =
    if any fails_gate results then fail else if any warns_gate results then warn else default_badge

pub record Rate : Type 0 where
  pub num : ℕ
  pub den : ℕ

pub record Rubric : Type 0 where
  pub fail_on_any_critical : Bool
  pub min_pass_rate : Option Rate

abbrev pub is_fail : Badge → Bool
is_fail fail = true
is_fail _ = false

abbrev pub is_pass : Badge → Bool
is_pass pass = true
is_pass _ = false

-- `pass_count / len(child_verdicts) < min_pass_rate`
abbrev pub below_rate : List Badge → Option Rate → Bool
below_rate verdicts none = false
below_rate verdicts (some rate) =
    ltb (count_where is_pass verdicts * rate.den) (rate.num * length verdicts)

abbrev under_rubric : List Badge → Rubric → Badge → Badge
under_rubric verdicts rubric default_verdict =
    if rubric.fail_on_any_critical && any is_fail verdicts
    then fail
    else if below_rate verdicts rubric.min_pass_rate
    then fail
    else default_verdict

-- An absent rubric and an empty batch fall back to the default. (A rubric `{}`, which the source
-- takes as absent too, has neither knob.)
unfoldable pub evaluate_batch : List Badge → Option Rubric → Badge → Badge
unfolding any count_where
evaluate_batch [] rubric default_verdict = default_verdict
evaluate_batch (v ∷ vs) none default_verdict = default_verdict
evaluate_batch (v ∷ vs) (some rubric) default_verdict = under_rubric (v ∷ vs) rubric default_verdict
