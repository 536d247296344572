-- ===== src/Caller/Persona/Silence.antt =====
-- An agent that says nothing more: the silence checks of app/engine/caller/persona_call.py end the call.
use qa_test_backend.Prelude.{
  ℕ, suc, ◌+◌, ◌<◌, ◌≡◌, true, List, [], ◌∷◌, arith, length, ◌⊎◌, inl, inr,
}
use qa_test_backend.Caller.Persona.{
  PersonaRunner, PlannedTurn, sleeping, silence, due, answered, recorded, line_pushed, step, say,
  after_record, after_push, speak_next, check_silence,
}

-- The silence check fires and, if it asked for a line, the planner answers, the turn is recorded and the
-- line is pushed.
abbrev pub round : PlannedTurn → PersonaRunner → PersonaRunner
unfolding step
round result r =
    step (line_pushed silence)
      (step (recorded silence) (step (answered silence result) (step (due silence) r)))

-- One round for each answer.
unfoldable pub quiet_rounds : List PlannedTurn → PersonaRunner → PersonaRunner
unfolding step
quiet_rounds [] r = r
quiet_rounds (result ∷ results) r = quiet_rounds results (round result r)

round_keeps :
    (result : PlannedTurn) (r : PersonaRunner) → r.done ≡ true → (round result r).done ≡ true
unfolding step say after_record after_push check_silence speak_next
round_keeps result r d = ground arith

quiet_rounds_keep :
    (results : List PlannedTurn) (r : PersonaRunner)
    → r.done ≡ true
    → (quiet_rounds results r).done ≡ true
unfolding quiet_rounds
quiet_rounds_keep [] r d = d
quiet_rounds_keep (result ∷ results) r d =
    quiet_rounds_keep results (round result r) (round_keeps result r d)

-- A call that waits for the agent to speak.
pub record IsWaiting (nudges : ℕ) (r : PersonaRunner) : Type 0 where
  pub checks : r.checks_silence ≡ true
  pub waits : r.pending_silence_check ≡ sleeping
  pub limit : r.max_silent_nudges ≡ nudges

-- After a round the call is over, or one more nudge is counted and it waits again.
round-waits :
    (result : PlannedTurn) (nudges : ℕ) (r : PersonaRunner)
    → IsWaiting nudges r
    → ((round result r).done ≡ true)
      ⊎ (IsWaiting nudges (round result r)
          × ((round result r).silent_nudges ≡ suc r.silent_nudges)
          × (suc r.silent_nudges < suc nudges))
unfolding step say after_record after_push check_silence speak_next
round-waits result nudges r h = ground arith

-- While the agent says nothing, the call ends when the silence check has fired as often as nudges are
-- left and once more, whatever lines the planner gives for them.
pub quiet_rounds-ends :
    (results : List PlannedTurn) (nudges : ℕ) (r : PersonaRunner)
    → IsWaiting nudges r
    → nudges < r.silent_nudges + length results
    → r.silent_nudges < suc nudges
    → (quiet_rounds results r).done ≡ true
unfolding quiet_rounds
quiet_rounds-ends [] nudges r h lt le = ground arith
quiet_rounds-ends (result ∷ results) nudges r h lt le = elim (round-waits result nudges r h) [
  | inl over ↦ quiet_rounds_keep results (round result r) over
  | inr (waits, counted, room) ↦
      quiet_rounds-ends results nudges (round result r) waits (omega (arith, counted, lt))
        (omega (arith, counted, room))
]
