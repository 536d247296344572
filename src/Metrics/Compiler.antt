-- ===== src/Metrics/Compiler.antt =====
-- app/engine/metrics/compiler.py: the metrics of a run by the way they are scored, and their outcomes.
-- The bucket of the hash (`int(sha256, 16) % 100`), `float`, `str.strip().lower()`, the counting of words
-- and the sandbox are arguments. Latencies are in milliseconds, ratios in thousandths.
use qa_test_backend.Prelude.{
  ℕ, zero, suc, ◌+◌, ◌*◌, ◌/◌, ◌%◌, Option, none, some, Bool, true, false, List, [], ◌∷◌, ◌++◌,
  ◌||◌, not, String, text_eq, append_text, select, any, map, ltb, leb, ◌==◌, length, if◌then◌else◌,
}
use qa_test_backend.Verdict.Rubric.{
  MetricStatus, passed, failed, error, not_sampled, not_computable,
}
use qa_test_backend.Store.Payload.{Role, caller, agent, MetricValue, label, number, truth}
use qa_test_backend.Metrics.Resolver.{
  MetricRow, MetricKind, llm_judge, builtin_code, python, OutputType, numeric, boolean,
}

pub record MetricOutcome : Type 0 where
  pub metric_id : ℕ
  pub metric_version : ℕ
  pub status : MetricStatus
  pub value : Option MetricValue
  pub turn_refs : List ℕ
  pub rationale : Option String

-- `MetricVerdict` of app/engine/judge/models.py
pub record MetricVerdict : Type 0 where
  pub metric_id : ℕ
  pub status : MetricStatus
  pub value : String
  pub turn_refs : List ℕ
  pub rationale : String

-- `TranscriptTurn` of app/schemas/runs.py
pub record TranscriptTurn : Type 0 where
  pub role : Role
  pub text : String

-- What `run_python_metric` of app/engine/metrics/sandbox.py returns: `ok`, or not.
pub data SandboxResult : Type 0 where
  scored : MetricStatus → Option MetricValue → Option String → SandboxResult
  broken : String → SandboxResult

pub record CompiledMetrics : Type 0 where
  pub llm_judge_rows : List MetricRow
  pub builtin_rows : List MetricRow
  pub python_rows : List MetricRow
  pub not_sampled_rows : List MetricRow

abbrev pub same_kind : MetricKind → MetricKind → Bool
same_kind llm_judge llm_judge = true
same_kind builtin_code builtin_code = true
same_kind python python = true
same_kind _ _ = false

abbrev pub is_kind : MetricKind → MetricRow → Bool
is_kind kind row = same_kind kind row.kind

-- `sampled_in`, of a run whose hash with each metric falls into a bucket below 100
unfoldable pub sampled_in : (ℕ → ℕ) → MetricRow → Bool
sampled_in bucket row =
    if leb 100 row.sampling_pct
    then true
    else if leb row.sampling_pct 0
    then false
    else ltb (bucket row.id) row.sampling_pct

abbrev pub is_among : List MetricRow → MetricRow → Bool
is_among rows row = any (λ r. r.id == row.id) rows

abbrev pub sampled_of : (ℕ → ℕ) → MetricKind → List MetricRow → List MetricRow
unfolding sampled_in
sampled_of bucket kind rows = select (sampled_in bucket) (select (is_kind kind) rows)

unfoldable pub compile_metrics : (ℕ → ℕ) → List MetricRow → CompiledMetrics
unfolding sampled_in
compile_metrics bucket resolved =
    let judged = sampled_of bucket llm_judge resolved in
    let built = sampled_of bucket builtin_code resolved in
    let coded = sampled_of bucket python resolved in
    record {
      llm_judge_rows = judged;
      builtin_rows = built;
      python_rows = coded;
      not_sampled_rows = select (λ row. not (is_among (judged ++ built ++ coded) row)) resolved;
    }

abbrev pub outcome : MetricRow → MetricStatus → Option MetricValue → Option String → MetricOutcome
outcome row status value rationale = record {
  metric_id = row.id;
  metric_version = row.version;
  status = status;
  value = value;
  turn_refs = [];
  rationale = rationale;
}

-- `not_sampled_outcomes`
abbrev pub not_sampled_outcome : MetricRow → MetricOutcome
not_sampled_outcome row = outcome row not_sampled none none

unfoldable pub not_sampled_outcomes : List MetricRow → List MetricOutcome
not_sampled_outcomes rows = map not_sampled_outcome rows

abbrev is_yes : String → Bool
is_yes s = text_eq s "true" || text_eq s "yes" || text_eq s "1"

-- `_coerce_value`
unfoldable pub coerce_value :
    (String → Option ℕ) → (String → String) → String → OutputType → MetricValue
coerce_value float lowered raw numeric = elim (float raw) [ some n ↦ number n | none ↦ label raw ]
coerce_value float lowered raw boolean = truth (is_yes (lowered raw))
coerce_value float lowered raw _ = label raw

-- `verdicts_by_id.get(metric_id)`: the last verdict of a metric wins.
unfoldable pub verdict_for : ℕ → List MetricVerdict → Option MetricVerdict
verdict_for metric_id [] = none
verdict_for metric_id (v ∷ vs) = elim (verdict_for metric_id vs) [
  | some later ↦ some later
  | none ↦ if v.metric_id == metric_id then some v else none
]

abbrev pub no_verdict : String
no_verdict = "judge response did not include a verdict for this metric"

unfoldable pub judged_outcome :
    (String → OutputType → MetricValue) → List MetricVerdict → MetricRow → MetricOutcome
unfolding verdict_for
judged_outcome coerce verdicts row = elim (verdict_for row.id verdicts) [
  | none ↦ outcome row error none (some no_verdict)
  | some v ↦ record {
    metric_id = row.id;
    metric_version = row.version;
    status = v.status;
    value = some (coerce v.value row.output_type);
    turn_refs = v.turn_refs;
    rationale = some v.rationale;
  }
]

-- `rows_by_id`: a later row with an id that came before replaces it in its place.
unfoldable pub put_row : MetricRow → List MetricRow → List MetricRow
put_row row [] = row ∷ []
put_row row (r ∷ rs) = let rest = put_row row rs in if r.id == row.id then row ∷ rs else r ∷ rest

unfoldable pub rows_by_id : List MetricRow → List MetricRow → List MetricRow
unfolding put_row
rows_by_id [] dict = dict
rows_by_id (row ∷ rows) dict = rows_by_id rows (put_row row dict)

unfoldable pub outcomes_from_judge_verdicts :
    (String → OutputType → MetricValue) → List MetricVerdict → List MetricRow → List MetricOutcome
unfolding judged_outcome rows_by_id
outcomes_from_judge_verdicts coerce verdicts rows =
    map (judged_outcome coerce verdicts) (rows_by_id rows [])

abbrev sum : List ℕ → ℕ
sum [] = 0
sum (n ∷ ns) = n + sum ns

-- `threshold is None or num / den <= threshold`, without rounding
abbrev pub within : Option ℕ → ℕ → ℕ → MetricStatus
within none num den = passed
within (some t) num den = if leb (num * 1000) (t * den) then passed else failed

abbrev words_of : (String → ℕ) → (Role → Bool) → List TranscriptTurn → ℕ
words_of words who [] = 0
words_of words who (t ∷ ts) = (if who t.role then words t.text else 0) + words_of words who ts

abbrev pub is_agent : Role → Bool
is_agent agent = true
is_agent caller = false

abbrev is_caller : Role → Bool
is_caller role = not (is_agent role)

-- `round` of a quotient: to the nearest whole number, and from halfway to the even one. (The source divides
-- floats first.)
unfoldable pub rounded : ℕ → ℕ → ℕ
rounded num den =
    let q = num / den in
    if ltb (2 * (num % den)) den then q else if ltb den (2 * (num % den)) then suc q else q + q % 2

-- To one decimal and to three, in thousandths.
unfoldable pub response_latency : MetricRow → List ℕ → MetricOutcome
unfolding rounded
response_latency row [] = outcome row not_computable none (some "no agent turns with latency data")
response_latency row (l ∷ ls) =
    let total = sum (l ∷ ls) in
    let count = suc (length ls) in
    outcome row (within row.threshold total count)
      (some (number (100 * rounded (total * 10) count))) none

unfoldable pub ratio_outcome : MetricRow → ℕ → ℕ → MetricOutcome
unfolding rounded
ratio_outcome row agent_words zero = outcome row not_computable none (some "no words in transcript")
ratio_outcome row agent_words (suc n) =
    outcome row (within row.threshold agent_words (suc n))
      (some (number (rounded (agent_words * 1000) (suc n)))) none

unfoldable pub talk_ratio : (String → ℕ) → MetricRow → List TranscriptTurn → MetricOutcome
unfolding ratio_outcome
talk_ratio words row turns =
    ratio_outcome row (words_of words is_agent turns)
      (words_of words is_agent turns + words_of words is_caller turns)

unfoldable pub evaluate_builtin_metric :
    (String → ℕ) → MetricRow → List TranscriptTurn → List ℕ → MetricOutcome
unfolding response_latency talk_ratio
evaluate_builtin_metric words row turns latencies =
    if text_eq row.name "response_latency"
    then response_latency row latencies
    else if text_eq row.name "talk_ratio"
    then talk_ratio words row turns
    else if text_eq row.name "transcription_accuracy_wer"
    then outcome row not_computable none
        (some "no reference transcript recorded (see app.engine.metrics.builtins)")
    else outcome row error none
        (some (append_text "unrecognized builtin metric key '" (append_text row.name "'")))

abbrev of_sandbox : MetricRow → SandboxResult → MetricOutcome
of_sandbox row (broken why) = outcome row error none (some why)
of_sandbox row (scored status value why) = outcome row status value why

-- A blank text is one that `strip` leaves empty.
unfoldable pub evaluate_python_metric :
    (String → String) → (String → SandboxResult) → MetricRow → MetricOutcome
evaluate_python_metric strip sandbox row = elim row.code [
  | none ↦ outcome row error none (some "metric has no spec.code")
  | some code ↦
      if text_eq (strip code) ""
      then outcome row error none (some "metric has no spec.code")
      else of_sandbox row (sandbox code)
]

-- The outcomes that `_run_simulation_traced` of app/engine/executor/simulation.py puts together.
unfoldable pub metric_outcomes :
    (MetricRow → MetricOutcome)
    → (MetricRow → MetricOutcome)
    → (String → OutputType → MetricValue)
    → List MetricVerdict
    → CompiledMetrics
    → List MetricOutcome
unfolding outcomes_from_judge_verdicts not_sampled_outcomes
metric_outcomes by_code by_sandbox coerce verdicts compiled =
    outcomes_from_judge_verdicts coerce verdicts compiled.llm_judge_rows
    ++ map by_code compiled.builtin_rows
    ++ map by_sandbox compiled.python_rows
    ++ not_sampled_outcomes compiled.not_sampled_rows
