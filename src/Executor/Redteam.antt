-- ===== src/Executor/Redteam.antt =====
-- app/engine/executor/redteam.py: an attack pack worked against a real agent, and the finding that
-- app/engine/redteam/findings.py writes of it. `strip` and the encryption of a text are arguments, and the
-- table `findings` is not among the tables of Db: the row that is inserted is a value.
use qa_test_backend.Prelude.{
  ℕ, zero, suc, Option, none, some, Bool, List, [], ◌∷◌, String, append_text, not, length, ◌>>=◌,
  if◌then◌else◌,
}
use qa_test_backend.Verdict.{pass, fail, completed}
use qa_test_backend.Store.Payload.{Event, DoneData, AttackData, AttackOutcome}
use qa_test_backend.Store.{Db, EndReason}
use qa_test_backend.Materialize.{materialize_run}
use qa_test_backend.Caller.Clock.{LatencyClock}
use qa_test_backend.Caller.Transcript.{CallTurn, is_agent}
use qa_test_backend.Redteam.Attacker.{
  AttackerCaller, Severity, critical, high, medium, low, is_held,
}
use qa_test_backend.Redteam.Judge.{GradedAttack}
use qa_test_backend.Executor.{
  end_reason_for, avg_latency_ms, fail_run, or_failed, set_finished, may_finish, finish_run,
}
use qa_test_backend.Executor.Simulation.{CallReport, call_metrics, finish_cancelled}

abbrev severity_name : Severity → String
severity_name critical = "critical"
severity_name high = "high"
severity_name medium = "medium"
severity_name low = "low"

abbrev drop : ℕ → List CallTurn → List CallTurn
drop zero ts = ts
drop (suc n) [] = []
drop (suc n) (t ∷ ts) = drop n ts

abbrev or_zero : Option ℕ → ℕ
or_zero none = 0
or_zero (some n) = n

abbrev texts_of : (String → String) → (CallTurn → Bool) → List CallTurn → List String
texts_of strip who [] = []
texts_of strip who (t ∷ ts) =
    let rest = texts_of strip who ts in if who t then strip t.text ∷ rest else rest

abbrev join_with : String → List String → String
join_with sep [] = ""
join_with sep (s ∷ []) = s
join_with sep (s ∷ t ∷ ss) = append_text s (append_text sep (join_with sep (t ∷ ss)))

-- `_attack_text`
unfoldable pub attack_text : (String → String) → AttackerCaller → List CallTurn → String × String
attack_text strip c transcript =
    let said = drop (or_zero c.attack_start) transcript in
    (
      join_with "\n" (texts_of strip (λ t. not (is_agent t.speaker)) said),
      join_with " " (texts_of strip (λ t. is_agent t.speaker) said),
    )

pub record Finding : Type 0 where
  pub run_id : ℕ
  pub category : String
  pub severity : Severity
  pub verdict : AttackOutcome
  pub attack_prompt : String
  pub agent_response : String
  pub evidence : Option String
  pub suggested_fix : String
  pub turn_refs : List ℕ

abbrev encrypted : (String → Option String) → Option String → Option (Option String)
encrypted encrypt none = some none
encrypted encrypt (some e) = encrypt e >>= (λ t. some (some t))

-- The row of `insert_finding`, which raises when `encrypt_text` does.
unfoldable pub insert_finding :
    (String → Option String) → ℕ → String → GradedAttack → String × String → Option Finding
insert_finding encrypt run_id category g said = encrypt said.1 >>= (λ response.
    encrypted encrypt g.evidence >>= (λ evidence. some (record {
      run_id = run_id;
      category = category;
      severity = g.severity;
      verdict = g.verdict;
      attack_prompt = said.0;
      agent_response = response;
      evidence = evidence;
      suggested_fix = g.suggested_fix;
      turn_refs = g.turn_refs;
    })))

abbrev or_text : Option String → String → String
or_text none s = s
or_text (some e) s = e

abbrev counts_of : String → GradedAttack → List (String × ℕ)
counts_of category g = (category, if is_held g.verdict then 0 else 1) ∷ []

unfoldable pub graded_done : String → GradedAttack → DoneData
graded_done category g = record {
  score = some (if is_held g.verdict then 100 else 0);
  result_badge = some (if is_held g.verdict then pass else fail);
  discovery_result = none;
  findings_count = some (if is_held g.verdict then 0 else 1);
  exposure = some (counts_of category g);
}

unfoldable pub attack_data : String → GradedAttack → String × String → AttackData
attack_data category g said = record {
  category = category;
  attack_prompt = said.0;
  agent_response = or_text g.evidence said.1;
  verdict = some g.verdict;
  severity = some (severity_name g.severity);
}

-- The authoritative verdict, after the interim ones, and the end.
unfoldable pub graded_events : String → GradedAttack → String × String → List Event
unfolding attack_data graded_done
graded_events category g said =
    Event.attack (attack_data category g said)
    ∷ Event.exposure (counts_of category g)
    ∷ Event.done (graded_done category g)
    ∷ []

-- The finding and the read tables: what can raise in the last transaction, which is rolled back then.
abbrev pub write_graded : ℕ → Option Finding → Db → Option Db
write_graded run_id finding db = finding >>= (λ f. materialize_run run_id db)

-- `_finish`
unfoldable pub finish_graded :
    (String → Option String)
    → ℕ
    → ℕ
    → String
    → GradedAttack
    → String × String
    → EndReason
    → LatencyClock
    → ℕ
    → Db
    → Option Db
unfolding finish_run graded_done graded_events avg_latency_ms insert_finding
finish_graded encrypt now run_id category g said reason clock turns db =
    finish_run may_finish (write_graded run_id (insert_finding encrypt run_id category g said))
      (set_finished now completed reason (call_metrics (graded_done category g) clock (some turns)))
      (graded_events category g said) now run_id db

-- How the call ended, the grade, if grading does not raise, and `encrypt_text` under the settings.
pub record AttackReport : Type 0 where
  pub report : CallReport
  pub category : String
  pub attacker : AttackerCaller
  pub transcript : List CallTurn
  pub graded : Option GradedAttack
  pub encrypt : String → Option String

abbrev never_reached : Option String → String
never_reached none = "the agent never reached the point of being attacked"
never_reached (some why) = why

-- From the end of the call on.
unfoldable pub finish_attack : (String → String) → ℕ → ℕ → AttackReport → Db → Db
unfolding finish_cancelled finish_graded end_reason_for fail_run attack_text
finish_attack strip now run_id a db =
    let r = a.report in
    let reason = end_reason_for r.end_reason r.was_cancelled in
    if r.was_cancelled
    then or_failed now run_id "finalize_failed" "could not grade or record this attack" db
        (finish_cancelled now run_id reason r.clock db)
    else elim a.attacker.attack_lines [
      | [] ↦ fail_run now run_id "attack_not_delivered" (never_reached a.attacker.failure) db
      | l ∷ ls ↦ elim a.graded [
        | none ↦
            or_failed now run_id "finalize_failed" "could not grade or record this attack" db none
        | some g ↦
            or_failed now run_id "finalize_failed" "could not grade or record this attack" db (
              finish_graded a.encrypt now run_id a.category g
                (attack_text strip a.attacker a.transcript) reason r.clock (length a.transcript) db)
      ]
    ]
