-- ===== src/Redteam/Script/Call.antt =====
-- The turns of a call of app/engine/redteam/attacker.py, from its beginning.
use qa_test_backend.Prelude.{List, [], ◌∷◌, String}
use qa_test_backend.Caller.Transcript.{CallTurn}
use qa_test_backend.Redteam.Attacker.{AttackerCaller, Plan, next_turn}

-- The turns of a call after the first, each with the transcript of that time, which is not empty.
unfoldable pub later_turns :
    (String → String)
    → (AttackerCaller → List CallTurn → Plan)
    → List (CallTurn × List CallTurn)
    → AttackerCaller
    → AttackerCaller
unfolding next_turn
later_turns strip plan [] c = c
later_turns strip plan (t ∷ ts) c = later_turns strip plan ts (next_turn strip plan (t.0 ∷ t.1) c).0
