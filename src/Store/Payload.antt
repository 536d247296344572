-- ===== src/Store/Payload.antt =====
-- app/schemas/events.py and the type `Event` of app/events.py: the payload of each kind of event.
-- A score is a number of hundredths and a latency a whole number of milliseconds; coordinates are
-- whole numbers too (the layout makes multiples of 240 and 110). The attack verdict "blocked" is `held`,
-- since `blocked` is a node's state.
use qa_test_backend.Prelude.{ℕ, Option, Bool, List, String}
use qa_test_backend.Verdict.{Badge, RunStatus}
use qa_test_backend.Verdict.Rubric.{MetricStatus}

pub data Role : Type 0 where
  caller agent : Role

pub data NodeState : Type 0 where
  mapped blocked : NodeState

pub data AttackOutcome : Type 0 where
  held leaked bypassed : AttackOutcome

pub record TurnData : Type 0 where
  pub index : ℕ
  pub role : Role
  pub text : String
  pub latency_ms : Option ℕ
  pub flagged : Bool
  pub flag_reason : Option String

pub record MetricsData : Type 0 where
  pub score : Option ℕ
  pub avg_latency_ms : Option ℕ
  pub turns_completed : Option ℕ
  pub interruptions : Option ℕ

-- `ok` is `status == "passed"`
pub record AssertionData : Type 0 where
  pub assertion_id : String
  pub name : String
  pub ok : Bool
  pub triggered_at_turn : Option ℕ
  pub note : Option String

-- `str | float | bool`; a number is a number of thousandths.
pub data MetricValue : Type 0 where
  label : String → MetricValue
  number : ℕ → MetricValue
  truth : Bool → MetricValue

pub record MetricResultData : Type 0 where
  pub metric_id : ℕ
  pub metric_version : ℕ
  pub name : String
  pub status : MetricStatus
  pub value : Option MetricValue
  pub turn_refs : List ℕ
  pub rationale : Option String

pub record NodeData : Type 0 where
  pub node_id : String
  pub label : String
  pub x : ℕ
  pub y : ℕ
  pub state : NodeState
  pub blocked_reason : Option String
  pub from_nodes : List String

pub record IntentData : Type 0 where
  pub name : String
  pub state : NodeState
  pub path : String
  pub reason : Option String

pub record AttackData : Type 0 where
  pub category : String
  pub attack_prompt : String
  pub agent_response : String
  pub verdict : Option AttackOutcome
  pub severity : Option String

pub record DiscoveryResult : Type 0 where
  pub nodes_mapped : ℕ
  pub nodes_blocked : ℕ
  pub intents_mapped : ℕ
  pub intents_blocked : ℕ
  pub unexplored : List String
  pub turns_used : ℕ

pub record DoneData : Type 0 where
  pub score : Option ℕ
  pub result_badge : Option Badge
  pub discovery_result : Option DiscoveryResult
  pub findings_count : Option ℕ
  pub exposure : Option (List (String × ℕ))

pub record ErrorData : Type 0 where
  pub code : String
  pub message : String
  pub fatal : Bool

pub record ProgressData : Type 0 where
  pub completed_count : ℕ
  pub total_count : ℕ

pub data Event : Type 0 where
  status : RunStatus → Event
  turn : TurnData → Event
  metrics : MetricsData → Event
  assertion : AssertionData → Event
  metric_result : MetricResultData → Event
  node : NodeData → Event
  intent : IntentData → Event
  attack : AttackData → Event
  exposure : List (String × ℕ) → Event
  done : DoneData → Event
  error : ErrorData → Event
  progress : ProgressData → Event
