-- ===== src/Examples/Conversations.antt =====
-- The theorems on app/engine/caller/persona_call.py at a call that the agent leaves unanswered.
use qa_test_backend.Prelude.{suc, none, ◌≤◌, ◌≡◌, refl, true, false, List, [], ◌∷◌, is_some, arith}
use qa_test_backend.Caller.Persona.{
  PersonaRunner, Event, PlannedTurn, connected, heard, due, answered, advance, silence, sleeping,
  idle, new_runner, step, run_events, recorded, line_pushed, turn_heard, connect, hear,
  after_hearing, say, after_record, after_push, speak_next, check_silence, default_max_turns,
  default_max_silent_nudges,
}
use qa_test_backend.Caller.Persona.Bounds.{caller_turns, run_events-within}
use qa_test_backend.Caller.Persona.Silence.{quiet_rounds, quiet_rounds-ends}

abbrev hello : PlannedTurn
hello = record { utterance = "Hello? Are you still there?"; call_complete = false }

-- While a turn of the agent is recorded, the caller's first line is planned and said: afterwards both
-- tasks sleep, and both ask for the last turn.
abbrev events : List Event
events =
    connected
    ∷ due advance
    ∷ heard "Welcome."
    ∷ answered advance hello
    ∷ recorded advance
    ∷ line_pushed advance
    ∷ turn_heard
    ∷ due advance
    ∷ due silence
    ∷ answered advance hello
    ∷ recorded advance
    ∷ answered silence hello
    ∷ []

-- Three turns, where two are allowed.
events-overrun : caller_turns (run_events events (new_runner 2 true 2)).transcript ≡ 3
unfolding caller_turns run_events step connect hear after_hearing say after_record after_push
    speak_next check_silence new_runner
events-overrun = refl

run_events-within_example :
    let r = run_events events (new_runner 2 true 2) in
    (caller_turns r.transcript ≤ suc 2)
    × (r.turns_taken ≡ caller_turns r.transcript)
    × (is_some r.end_reason ≡ r.done)
run_events-within_example = run_events-within 2 2 true events

-- The caller has spoken once and waits.
abbrev waiting : PersonaRunner
waiting = record {
  max_turns = default_max_turns;
  checks_silence = true;
  max_silent_nudges = default_max_silent_nudges;
  silent_nudges = 0;
  pending_silence_check = sleeping;
  cancel_requested = false;
  transcript = [];
  turns_taken = 0;
  started = true;
  done = false;
  pending_advance = idle;
  end_reason = none;
  is_hearing = false;
  pushed = [];
}

quiet_rounds-ends_example : (quiet_rounds (hello ∷ hello ∷ hello ∷ []) waiting).done ≡ true
quiet_rounds-ends_example =
    quiet_rounds-ends (hello ∷ hello ∷ hello ∷ []) 2 waiting
      (record { checks = refl; waits = refl; limit = refl }) (omega arith) (omega arith)
