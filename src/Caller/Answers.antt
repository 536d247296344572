-- ===== src/Caller/Answers.antt =====
-- What there is to measure in the frames of a call, read off the frames without the clock of
-- app/engine/caller/latency_clock.py.
use qa_test_backend.Prelude.{
  ℕ, ◌+◌, ◌*◌, ◌-◌, ◌≤◌, ◌<◌, ◌≡◌, Bool, true, false, List, [], ◌∷◌, ◌++◌, is_some, map,
  if◌then◌else◌, ◌⊎◌,
}
use qa_test_backend.Caller.Clock.{
  Frame, bot_started, bot_stopped, vad_started, vad_stopped, audio, TurnLatency, LatencyClock,
}

-- A latency is flagged, and has a reason, just when it is more than the threshold.
abbrev pub IsMeasured : ℕ → TurnLatency → Type 0
IsMeasured threshold t =
    ((t.flagged ≡ true) × (threshold * 1000000 < t.latency_ns)
      ⊎ (t.flagged ≡ false) × (t.latency_ns ≤ threshold * 1000000))
    × (is_some t.flag_reason ≡ t.flagged)

module _ {Audio : Type 0} (has_signal : Audio → Bool) where
  -- What the agent answers to a stop of the caller at `stopped`: the time from it to the first audio with
  -- a signal, if the caller does not stop again before.
  unfoldable pub answer_to : ℕ → List (ℕ × Frame Audio) → List ℕ
  answer_to stopped [] = []
  answer_to stopped ((now, audio a) ∷ fs) =
      let later = answer_to stopped fs in if has_signal a then (now - stopped) ∷ [] else later
  answer_to stopped ((now, bot_stopped) ∷ fs) = []
  answer_to stopped ((now, _) ∷ fs) = answer_to stopped fs

  -- The answers to all stops.
  unfoldable pub answers : List (ℕ × Frame Audio) → List ℕ
  unfolding answer_to
  answers [] = []
  answers ((now, bot_stopped) ∷ fs) = answer_to now fs ++ answers fs
  answers ((now, _) ∷ fs) = answers fs

module _ {Audio : Type 0} where
  -- Whether the caller, and whether the agent, speaks after some frames, which are given latest first.
  unfoldable pub caller_speaks : List (ℕ × Frame Audio) → Bool
  caller_speaks [] = false
  caller_speaks ((now, bot_started) ∷ past) = true
  caller_speaks ((now, bot_stopped) ∷ past) = false
  caller_speaks ((now, _) ∷ past) = caller_speaks past

  unfoldable pub agent_speaks : List (ℕ × Frame Audio) → Bool
  agent_speaks [] = false
  agent_speaks ((now, vad_started) ∷ past) = true
  agent_speaks ((now, vad_stopped) ∷ past) = false
  agent_speaks ((now, _) ∷ past) = agent_speaks past

  -- Starts of the one while the other speaks.
  unfoldable pub interruptions : List (ℕ × Frame Audio) → List (ℕ × Frame Audio) → ℕ
  unfolding caller_speaks agent_speaks
  interruptions past [] = 0
  interruptions past ((now, bot_started) ∷ fs) =
      (if agent_speaks past then 1 else 0) + interruptions ((now, bot_started) ∷ past) fs
  interruptions past ((now, vad_started) ∷ fs) =
      (if caller_speaks past then 1 else 0) + interruptions ((now, vad_started) ∷ past) fs
  interruptions past ((now, f) ∷ fs) = interruptions ((now, f) ∷ past) fs

abbrev pub latencies : LatencyClock → List ℕ
latencies c = map (λ t. t.latency_ns) c.turn_latencies
