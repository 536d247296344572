-- ===== src/Examples/Explorers.antt =====
-- The theorems on app/engine/discovery/explorer.py at a call of two topics.
use qa_test_backend.Prelude.{
  ◌≡◌, refl, none, true, false, List, [], ◌∷◌, String, Bool, text_eq, text_dec, arith,
}
use qa_test_backend.Caller.Transcript.{CallTurn, agent}
use qa_test_backend.Discovery.Observation.{other}
use qa_test_backend.Discovery.Graph.{initial}
use qa_test_backend.Discovery.Explorer.{ExplorerCaller, Plan, PlanOutput, planned, next_turn}
use qa_test_backend.Discovery.Explorer.Bounds.{ends_call, ends_call-within}
use qa_test_backend.Discovery.Explorer.Frontier.{IsFrontier, next_turn-IsFrontier}

abbrev same_text : String → String
same_text s = s

abbrev is_human : String → Bool
unfolding text_dec
is_human s = text_eq s "Talk to a human agent"

abbrev topics : List String
topics = "Talk to a human agent" ∷ "Check account balance" ∷ "Talk to a human agent" ∷ []

abbrev deflection : PlanOutput
deflection = record {
  observation = record {
    node_key = "sorry";
    label = "Sorry";
    kind = other;
    gate_result = none;
    reason = none;
  };
  utterance = "What is my balance?";
  call_complete = false;
  reached_candidate = none;
}

abbrev always : ExplorerCaller → List CallTurn → Plan
always c ts = planned deflection

abbrev replied : List CallTurn
replied = record { speaker = agent; text = "Sorry?" } ∷ []

-- A budget of three turns.
abbrev explorer : ExplorerCaller
explorer = record {
  candidates = "Check account balance" ∷ "Talk to a human agent" ∷ [];
  graph = initial;
  turn_budget = 3;
  reached = [];
  abandoned = [];
  stalls = λ t. 0;
  target = none;
  rejections = 0;
  caller_turns = 0;
  handed_off = false;
  failure = none;
}

ends_call-within_example :
    ends_call same_text is_human same_text always (replied ∷ replied ∷ []) explorer ≡ true
ends_call-within_example =
    ends_call-within same_text is_human same_text always replied (replied ∷ []) explorer
      (refl, (refl, tt)) (omega arith)

next_turn-IsFrontier_example :
    IsFrontier (next_turn same_text is_human same_text always replied explorer).0
next_turn-IsFrontier_example =
    next_turn-IsFrontier same_text is_human same_text always replied explorer
      (record { reached = tt; abandoned = tt; target = tt })
