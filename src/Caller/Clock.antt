-- ===== src/Caller/Clock.antt =====
-- app/engine/caller/latency_clock.py: the observer of a call's frames. The type of the audio, the test
-- whether it has a signal and the text of a latency as `:.0f` prints it are arguments. A latency is in
-- nanoseconds; the timestamps are those of one clock, which does not go back.
use qa_test_backend.Prelude.{
  ℕ, suc, ◌-◌, ◌*◌, Option, none, some, Bool, true, false, List, [], ◌∷◌, ◌++◌, String, append_text,
  decimal, ltb, if◌then◌else◌,
}

-- The frames that the observer tells apart; `other` is any other frame.
pub data Frame (Audio : Type 0) : Type 0 where
  bot_started bot_stopped vad_started vad_stopped other : Frame Audio
  audio : Audio → Frame Audio

pub record TurnLatency : Type 0 where
  pub latency_ns : ℕ
  pub flagged : Bool
  pub flag_reason : Option String

pub record LatencyClock : Type 0 where
  pub threshold_ms : ℕ
  pub turn_latencies : List TurnLatency
  pub interruption_count : ℕ
  pub caller_stopped_at_ns : Option ℕ
  pub awaiting_agent_audio : Bool
  pub caller_speaking : Bool
  pub agent_speaking : Bool

-- `__init__`
unfoldable pub new_clock : ℕ → LatencyClock
new_clock threshold = record {
  threshold_ms = threshold;
  turn_latencies = [];
  interruption_count = 0;
  caller_stopped_at_ns = none;
  awaiting_agent_audio = false;
  caller_speaking = false;
  agent_speaking = false;
}

-- `latency_ms > self.threshold_ms`
abbrev pub exceeds : ℕ → ℕ → Bool
exceeds threshold latency = ltb (threshold * 1000000) latency

abbrev interrupted : Bool → LatencyClock → LatencyClock
interrupted speaking c = record c {
  interruption_count = if speaking then suc c.interruption_count else c.interruption_count;
}

module _ {Audio : Type 0} (has_signal : Audio → Bool) (rounded_ms : ℕ → String) where
  abbrev pub reason : ℕ → ℕ → String
  reason threshold latency = append_text "latency " (
      append_text (rounded_ms latency)
        (append_text "ms exceeded " (append_text (decimal threshold) "ms threshold")))

  abbrev pub turn_latency : ℕ → ℕ → TurnLatency
  turn_latency threshold latency = record {
    latency_ns = latency;
    flagged = exceeds threshold latency;
    flag_reason = if exceeds threshold latency then some (reason threshold latency) else none;
  }

  -- The agent's first audio with a signal after the caller stopped.
  abbrev pub heard : ℕ → LatencyClock → LatencyClock
  heard now c = elim c.caller_stopped_at_ns [
    | none ↦ c
    | some stopped ↦ record c {
      awaiting_agent_audio = false;
      turn_latencies = c.turn_latencies ++ turn_latency c.threshold_ms (now - stopped) ∷ [];
    }
  ]

  unfoldable pub on_push_frame : ℕ → Frame Audio → LatencyClock → LatencyClock
  on_push_frame now bot_stopped c = record c {
    caller_speaking = false;
    caller_stopped_at_ns = some now;
    awaiting_agent_audio = true;
  }
  on_push_frame now bot_started c =
      interrupted c.agent_speaking (record c { caller_speaking = true })
  on_push_frame now vad_started c =
      interrupted c.caller_speaking (record c { agent_speaking = true })
  on_push_frame now vad_stopped c = record c { agent_speaking = false }
  on_push_frame now other c = c
  on_push_frame now (audio a) c =
      if c.awaiting_agent_audio then if has_signal a then heard now c else c else c

  -- The frames of a call, each with its timestamp.
  unfoldable pub run_clock : List (ℕ × Frame Audio) → LatencyClock → LatencyClock
  unfolding on_push_frame
  run_clock [] c = c
  run_clock (f ∷ fs) c = run_clock fs (on_push_frame f.0 f.1 c)
