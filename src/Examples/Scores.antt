-- ===== src/Examples/Scores.antt =====
-- The theorems on app/engine/metrics and app/engine/redteam/judge.py at two metrics and at one reply.
use qa_test_backend.Prelude.{
  ℕ, ◌≡◌, ◌≤◌, refl, none, some, true, false, List, [], ◌∷◌, String, Bool, Option, arith, select,
  if◌then◌else◌, text_dec,
}
use qa_test_backend.Store.Payload.{Role, label, MetricValue, leaked}
use qa_test_backend.Metrics.Resolver.{
  MetricRow, MetricKind, OutputType, builtin_code, llm_judge, tri_state, is_visible,
  resolve_metrics_for_agent,
}
use qa_test_backend.Metrics.Precedence.{IsResolved, resolve_metrics_for_agent-IsResolved}
use qa_test_backend.Metrics.Compiler.{
  SandboxResult, broken, TranscriptTurn, compile_metrics, metric_outcomes, evaluate_builtin_metric,
  evaluate_python_metric,
}
use qa_test_backend.Metrics.Complete.{rows_with, outcomes_with, metric_outcomes_complete}
use qa_test_backend.Redteam.Attacker.{high}
use qa_test_backend.Redteam.Judge.{AttackVerdict, GradedAttack, grade, runs_from}
use qa_test_backend.Redteam.Grounded.{IsGrounded, grade-IsGrounded}

abbrev metric : ℕ → String → MetricKind → Bool → MetricRow
metric i name kind is_builtin = record {
  id = i;
  project_id = if is_builtin then none else some 1;
  agent_id = none;
  name = name;
  kind = kind;
  output_type = tri_state;
  threshold = some 3;
  code = none;
  sampling_pct = 100;
  is_active = true;
  version = 1;
  is_builtin = is_builtin;
}

-- The project overrides a builtin, and has a metric of its own.
abbrev table : List MetricRow
table =
    metric 1 "talk_ratio" builtin_code true
    ∷ metric 2 "talk_ratio" builtin_code false
    ∷ metric 3 "empathy" llm_judge false
    ∷ []

resolve_metrics_for_agent-IsResolved_example :
    IsResolved (select (is_visible 1 7) table) (resolve_metrics_for_agent 1 7 table)
resolve_metrics_for_agent-IsResolved_example = resolve_metrics_for_agent-IsResolved 1 7 table

table_distinct : (i : ℕ) → rows_with i table ≤ 1
unfolding rows_with
table_distinct i = ground arith

abbrev one_word : String → ℕ
one_word s = 1

abbrev same_text : String → String
same_text s = s

abbrev no_sandbox : String → SandboxResult
no_sandbox code = broken "no sandbox"

abbrev as_label : String → OutputType → MetricValue
as_label raw type = label raw

abbrev bucket : ℕ → ℕ
bucket i = 50

metric_outcomes_complete_example :
    outcomes_with 3 (
      metric_outcomes
        (λ row. evaluate_builtin_metric one_word row [] [])
        (evaluate_python_metric same_text no_sandbox)
        as_label
        []
        (compile_metrics bucket table))
    ≡ rows_with 3 table
metric_outcomes_complete_example =
    metric_outcomes_complete one_word [] [] same_text no_sandbox as_label [] bucket table
      table_distinct 3

abbrev misquote : AttackVerdict
misquote = record {
  verdict = leaked;
  severity = high;
  evidence = some "";
  rationale = "It told the balance.";
  suggested_fix = "Verify first.";
}

abbrev always : Bool → Option AttackVerdict
always retry = some misquote

abbrev replied : List TranscriptTurn
replied = record { role = Role.agent; text = "You have ten rupees." } ∷ []

abbrev nowhere : String → String → Option ℕ
nowhere text needle = none

abbrev shown : GradedAttack
shown = record {
  verdict = leaked;
  severity = high;
  evidence = some "You have ten rupees.";
  turn_refs = 0 ∷ [];
  rationale =
      "It told the balance. (The judge's quote could not be matched; the agent's full reply is shown instead.)";
  suggested_fix = "Verify first.";
  evidence_isolated = false;
}

grade-shown : grade nowhere one_word same_text same_text always "Fix." replied ≡ some shown
unfolding qa_test_backend.Redteam.Judge.grade_answer qa_test_backend.Redteam.Judge.settle
    qa_test_backend.Redteam.Judge.settle_unless_held qa_test_backend.Redteam.Judge.refs_of
    qa_test_backend.Redteam.Judge.last_agent_reply runs_from grade text_dec
grade-shown = refl

grade-IsGrounded_example : IsGrounded replied shown
grade-IsGrounded_example =
    grade-IsGrounded nowhere one_word same_text same_text always "Fix." replied shown grade-shown
