-- ===== src/Caller/Transcript.antt =====
-- `Turn` of app/engine/caller/persona.py: a line of the call's transcript, with the speaker.
use qa_test_backend.Prelude.{Bool, true, false, List, [], ◌∷◌, String}

pub data Speaker : Type 0 where
  caller agent : Speaker

pub record CallTurn : Type 0 where
  pub speaker : Speaker
  pub text : String

abbrev pub is_agent : Speaker → Bool
is_agent agent = true
is_agent caller = false

-- `transcript[-1].speaker == "agent"`, of a transcript that is not empty
abbrev pub ends_with_agent : List CallTurn → Bool
ends_with_agent [] = false
ends_with_agent (t ∷ []) = is_agent t.speaker
ends_with_agent (t ∷ u ∷ ts) = ends_with_agent (u ∷ ts)
