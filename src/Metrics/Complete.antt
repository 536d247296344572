-- ===== src/Metrics/Complete.antt =====
-- No metric of a run is dropped between app/engine/metrics/compiler.py and the run's results.
use qa_test_backend.Prelude.{
  ℕ, ◌+◌, ◌≤◌, ◌≡◌, refl, Bool, List, [], ◌∷◌, ◌++◌, String, arith, Bool-cases, inl, inr, ◌==◌,
  if◌then◌else◌, select, map, not, max, ltb, ◌∙◌, ap, any, ==_iff, ◌⊎◌,
}
use qa_test_backend.Metrics.Resolver.{
  MetricRow, MetricKind, OutputType, llm_judge, builtin_code, python,
}
use qa_test_backend.Store.Payload.{MetricValue}
use qa_test_backend.Metrics.Compiler.{
  MetricOutcome, MetricVerdict, CompiledMetrics, compile_metrics, metric_outcomes, sampled_in,
  sampled_of, is_among, put_row, rows_by_id, judged_outcome, outcomes_from_judge_verdicts,
  not_sampled_outcomes, not_sampled_outcome, TranscriptTurn, SandboxResult, evaluate_builtin_metric,
  evaluate_python_metric, response_latency, talk_ratio,
}

-- How often a metric is among the rows, and how often an outcome is its.
unfoldable pub rows_with : ℕ → List MetricRow → ℕ
rows_with i [] = 0
rows_with i (r ∷ rs) = (if r.id == i then 1 else 0) + rows_with i rs

unfoldable pub outcomes_with : ℕ → List MetricOutcome → ℕ
outcomes_with i [] = 0
outcomes_with i (o ∷ os) = (if o.metric_id == i then 1 else 0) + outcomes_with i os

rows_with-append :
    (i : ℕ) (xs ys : List MetricRow) → rows_with i (xs ++ ys) ≡ rows_with i xs + rows_with i ys
unfolding rows_with
rows_with-append i [] ys = omega arith
rows_with-append i (x ∷ xs) ys = omega (arith, rows_with-append i xs ys)

outcomes_with-append :
    (i : ℕ) (xs ys : List MetricOutcome)
    → outcomes_with i (xs ++ ys) ≡ outcomes_with i xs + outcomes_with i ys
unfolding outcomes_with
outcomes_with-append i [] ys = omega arith
outcomes_with-append i (x ∷ xs) ys = omega (arith, outcomes_with-append i xs ys)

outcomes_with-map :
    (f : MetricRow → MetricOutcome) (own : (r : MetricRow) → (f r).metric_id ≡ r.id) (i : ℕ)
    (rs : List MetricRow)
    → outcomes_with i (map f rs) ≡ rows_with i rs
unfolding outcomes_with rows_with
outcomes_with-map f own i [] = refl
outcomes_with-map f own i (r ∷ rs) = ground (arith, own r, outcomes_with-map f own i rs)

rows_with_nil : (i : ℕ) → rows_with i [] ≡ 0
unfolding rows_with
rows_with_nil i = refl

put_row-with :
    (i : ℕ) (row : MetricRow) (dict : List MetricRow)
    → rows_with i (put_row row dict)
      ≡ (if row.id == i then max 1 (rows_with i dict) else rows_with i dict)
unfolding put_row rows_with
put_row-with i row [] = ground arith
put_row-with i row (r ∷ rs) = ground (arith, put_row-with i row rs)

rows_by_id-with :
    (i : ℕ) (rows dict : List MetricRow)
    → rows_with i (rows_by_id rows dict)
      ≡ (if ltb 0 (rows_with i rows) then max 1 (rows_with i dict) else rows_with i dict)
unfolding rows_by_id rows_with
rows_by_id-with i [] dict = refl
rows_by_id-with i (row ∷ rows) dict =
    ground (arith, put_row-with i row dict, rows_by_id-with i rows (put_row row dict))

MetricKind-cases : (k : MetricKind) → (k ≡ llm_judge) ⊎ ((k ≡ builtin_code) ⊎ (k ≡ python))
MetricKind-cases llm_judge = inl refl
MetricKind-cases builtin_code = inr (inl refl)
MetricKind-cases python = inr (inr refl)

rows_with-split :
    (bucket : ℕ → ℕ) (i : ℕ) (rows : List MetricRow)
    → rows_with i (sampled_of bucket llm_judge rows)
        + rows_with i (sampled_of bucket builtin_code rows)
        + rows_with i (sampled_of bucket python rows)
      ≡ rows_with i (select (sampled_in bucket) rows)
unfolding rows_with select sampled_in
rows_with-split bucket i [] = omega arith
rows_with-split bucket i (r ∷ rows) = elim (MetricKind-cases r.kind) [
  | inl e ↦ ground (arith, e, rows_with-split bucket i rows)
  | inr (inl e) ↦ ground (arith, e, rows_with-split bucket i rows)
  | inr (inr e) ↦ ground (arith, e, rows_with-split bucket i rows)
]

rows_with-select_le :
    (p : MetricRow → Bool) (i : ℕ) (rows : List MetricRow)
    → rows_with i (select p rows) ≤ rows_with i rows
unfolding rows_with select
rows_with-select_le p i [] = omega arith
rows_with-select_le p i (r ∷ rows) = ground (arith, rows_with-select_le p i rows)

is_among-with :
    (rows : List MetricRow) (row : MetricRow) → is_among rows row ≡ ltb 0 (rows_with row.id rows)
unfolding rows_with any
is_among-with [] row = refl
is_among-with (r ∷ rows) row = ground (arith, is_among-with rows row)

rows_with-rest :
    (taken : List MetricRow) (i : ℕ) (rows : List MetricRow)
    → rows_with i (select (λ row. not (is_among taken row)) rows)
      ≡ (if ltb 0 (rows_with i taken) then 0 else rows_with i rows)
unfolding rows_with select
rows_with-rest taken i [] = ground arith
rows_with-rest taken i (r ∷ rows) = elim (Bool-cases (r.id == i)) [
  | inl e ↦ ground (
    arith,
    e,
    is_among-with taken r,
    ap (λ k. rows_with k taken) ((==_iff r.id i).0 e),
    rows_with-rest taken i rows,
  )
  | inr e ↦ ground (arith, e, rows_with-rest taken i rows)
]

judged_outcome-id :
    (coerce : String → OutputType → MetricValue) (verdicts : List MetricVerdict) (r : MetricRow)
    → (judged_outcome coerce verdicts r).metric_id ≡ r.id
unfolding judged_outcome
judged_outcome-id coerce verdicts r = ground arith

evaluate_builtin_metric-id :
    (words : String → ℕ) (turns : List TranscriptTurn) (latencies : List ℕ) (r : MetricRow)
    → (evaluate_builtin_metric words r turns latencies).metric_id ≡ r.id
unfolding evaluate_builtin_metric response_latency talk_ratio
evaluate_builtin_metric-id words turns latencies r = ground arith

evaluate_python_metric-id :
    (strip : String → String) (sandbox : String → SandboxResult) (r : MetricRow)
    → (evaluate_python_metric strip sandbox r).metric_id ≡ r.id
unfolding evaluate_python_metric
evaluate_python_metric-id strip sandbox r = ground arith

dispatched :
    (judged built coded resolved : List MetricRow) (i : ℕ)
    → rows_with i judged + rows_with i built + rows_with i coded ≤ rows_with i resolved
    → rows_with i resolved ≤ 1
    → rows_with i (rows_by_id judged [])
        + rows_with i built
        + rows_with i coded
        + rows_with i (select (λ row. not (is_among (judged ++ built ++ coded) row)) resolved)
      ≡ rows_with i resolved
dispatched judged built coded resolved i le distinct = ground (
  arith,
  rows_with_nil i,
  rows_with-append i (judged ++ built) coded,
  rows_with-append i judged built,
  rows_with-rest (judged ++ built ++ coded) i resolved,
  rows_by_id-with i judged [],
)

-- The outcomes of one metric, by the way it was scored.
outcomes_by_kind :
    (by_code by_sandbox : MetricRow → MetricOutcome) (coerce : String → OutputType → MetricValue)
    (verdicts : List MetricVerdict) (c : CompiledMetrics)
    → ((r : MetricRow) → (by_code r).metric_id ≡ r.id)
    → ((r : MetricRow) → (by_sandbox r).metric_id ≡ r.id)
    → (i : ℕ)
    → outcomes_with i (metric_outcomes by_code by_sandbox coerce verdicts c)
      ≡ rows_with i (rows_by_id c.llm_judge_rows [])
        + rows_with i c.builtin_rows
        + rows_with i c.python_rows
        + rows_with i c.not_sampled_rows
unfolding metric_outcomes outcomes_from_judge_verdicts not_sampled_outcomes
outcomes_by_kind by_code by_sandbox coerce verdicts c own own' i = omega (
  arith,
  outcomes_with-append i (judged ++ built ++ coded) rest,
  outcomes_with-append i (judged ++ built) coded,
  outcomes_with-append i judged built,
  outcomes_with-map (judged_outcome coerce verdicts) (judged_outcome-id coerce verdicts) i
      (rows_by_id c.llm_judge_rows []),
  outcomes_with-map by_code own i c.builtin_rows,
  outcomes_with-map by_sandbox own' i c.python_rows,
  outcomes_with-map not_sampled_outcome (λ r. refl) i c.not_sampled_rows,
)
  where
    judged : List MetricOutcome
    judged = map (judged_outcome coerce verdicts) (rows_by_id c.llm_judge_rows [])

    built : List MetricOutcome
    built = map by_code c.builtin_rows

    coded : List MetricOutcome
    coded = map by_sandbox c.python_rows

    rest : List MetricOutcome
    rest = map not_sampled_outcome c.not_sampled_rows

-- Of any metric that is resolved for a run there is exactly one outcome, and there is none of any other,
-- whatever the judge and the sandbox answer and whichever metrics are sampled, if no two resolved metrics
-- have one id.
pub metric_outcomes_complete :
    (words : String → ℕ) (turns : List TranscriptTurn) (latencies : List ℕ)
    (strip : String → String) (sandbox : String → SandboxResult)
    (coerce : String → OutputType → MetricValue) (verdicts : List MetricVerdict) (bucket : ℕ → ℕ)
    (resolved : List MetricRow)
    → ((i : ℕ) → rows_with i resolved ≤ 1)
    → (i : ℕ)
    → outcomes_with i (
        metric_outcomes
          (λ row. evaluate_builtin_metric words row turns latencies)
          (evaluate_python_metric strip sandbox)
          coerce
          verdicts
          (compile_metrics bucket resolved))
      ≡ rows_with i resolved
unfolding compile_metrics
metric_outcomes_complete words turns latencies strip sandbox coerce verdicts bucket resolved
      distinct i =
    outcomes_by_kind (λ row. evaluate_builtin_metric words row turns latencies)
      (evaluate_python_metric strip sandbox) coerce verdicts (compile_metrics bucket resolved)
      (evaluate_builtin_metric-id words turns latencies) (evaluate_python_metric-id strip sandbox) i
    ∙ dispatched (sampled_of bucket llm_judge resolved) (sampled_of bucket builtin_code resolved)
        (sampled_of bucket python resolved) resolved i
        (omega (
          arith,
          rows_with-split bucket i resolved,
          rows_with-select_le (sampled_in bucket) i resolved,
        ))
        (distinct i)
