-- ===== src/Discovery/Observation.antt =====
-- app/engine/discovery/models.py.
use qa_test_backend.Prelude.{Option, String}

pub data NodeKind : Type 0 where
  greeting gate menu intent handoff other : NodeKind

pub data GateResult : Type 0 where
  pending passed rejected : GateResult

pub record TurnObservation : Type 0 where
  pub node_key : String
  pub label : String
  pub kind : NodeKind
  pub gate_result : Option GateResult
  pub reason : Option String
