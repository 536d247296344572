-- ===== src/Caller/Persona.antt =====
-- app/engine/caller/persona_call.py: `PersonaRunner`, which speaks for the caller. Its two timers are tasks
-- of the event loop; an event is what a task or a frame does between two waits, so that a plan that is
-- asked for comes back as an event of its own, with other events between, and so does the end of each wait
-- for `on_turn` and for the push of a line. An EndFrame is the last thing that its task pushes, and frames
-- that are only passed on are left out. Frames are processed one after the other.
pub mod Bounds
pub mod Silence
use qa_test_backend.Prelude.{
  ℕ, suc, ◌+◌, Option, none, some, Bool, true, false, List, [], ◌∷◌, ◌++◌, not, String, ltb, leb,
  if◌then◌else◌,
}
use qa_test_backend.Caller.Transcript.{Speaker, caller, agent, CallTurn}

pub data CallEndReason : Type 0 where
  caller_ended timeout cancelled : CallEndReason

-- `PlannedTurn`
pub record PlannedTurn : Type 0 where
  pub utterance : String
  pub call_complete : Bool

-- `_advance_after` and `_check_silence`
pub data Timer : Type 0 where
  advance silence : Timer

-- A task is over or was never made, sleeps, or awaits the planner, `on_turn` or the push of its line; the
-- last two with the answer of the planner.
pub data Phase : Type 0 where
  idle sleeping planning : Phase
  recording speaking : PlannedTurn → Phase

pub data Spoken : Type 0 where
  tts_speak : String → Spoken
  end_frame : Spoken

-- `is_hearing` holds while `process_frame` awaits `on_turn` for a turn of the agent.
pub record PersonaRunner : Type 0 where
  pub max_turns : ℕ
  pub checks_silence : Bool
  pub max_silent_nudges : ℕ
  pub silent_nudges : ℕ
  pub pending_silence_check : Phase
  pub cancel_requested : Bool
  pub transcript : List CallTurn
  pub turns_taken : ℕ
  pub started : Bool
  pub done : Bool
  pub pending_advance : Phase
  pub end_reason : Option CallEndReason
  pub is_hearing : Bool
  pub pushed : List Spoken

abbrev pub default_max_turns : ℕ
default_max_turns = 10

abbrev pub default_max_silent_nudges : ℕ
default_max_silent_nudges = 2

-- `__init__`; `checks_silence` is `silence_timeout_secs is not None`
unfoldable pub new_runner : ℕ → Bool → ℕ → PersonaRunner
new_runner turns checks nudges = record {
  max_turns = turns;
  checks_silence = checks;
  max_silent_nudges = nudges;
  silent_nudges = 0;
  pending_silence_check = idle;
  cancel_requested = false;
  transcript = [];
  turns_taken = 0;
  started = false;
  done = false;
  pending_advance = idle;
  end_reason = none;
  is_hearing = false;
  pushed = [];
}

abbrev pub set_phase : Timer → Phase → PersonaRunner → PersonaRunner
set_phase advance p r = record r { pending_advance = p }
set_phase silence p r = record r { pending_silence_check = p }

abbrev pub phase_of : Timer → PersonaRunner → Phase
phase_of advance r = r.pending_advance
phase_of silence r = r.pending_silence_check

abbrev pub add_turn : Speaker → String → PersonaRunner → PersonaRunner
add_turn s text r = record r {
  transcript = r.transcript ++ record { speaker = s; text = text } ∷ [];
}

abbrev pub push : Spoken → PersonaRunner → PersonaRunner
push f r = record r { pushed = r.pushed ++ f ∷ [] }

-- `self._done = True; self.end_reason = …; await self.push_frame(EndFrame())`
abbrev pub end_call : CallEndReason → PersonaRunner → PersonaRunner
end_call why r = push end_frame (record r { done = true; end_reason = some why })

-- `_schedule_advance`: a task that was pending is cancelled, whether it sleeps or awaits the planner.
abbrev pub schedule_advance : PersonaRunner → PersonaRunner
schedule_advance r = if r.done then r else set_phase advance sleeping r

abbrev pub cancel_silence_check : PersonaRunner → PersonaRunner
cancel_silence_check r = set_phase silence idle r

abbrev pub schedule_silence_check : PersonaRunner → PersonaRunner
schedule_silence_check r =
    if not r.checks_silence then r else if r.done then r else set_phase silence sleeping r

-- `_maybe_end_for_cancellation` and what its caller does when it returns false
abbrev pub unless_cancelled : (PersonaRunner → PersonaRunner) → PersonaRunner → PersonaRunner
unless_cancelled next r =
    if r.done then next r else if r.cancel_requested then end_call cancelled r else next r

-- `_speak_next` up to the await of the planner
unfoldable pub speak_next : Timer → PersonaRunner → PersonaRunner
speak_next task r =
    unless_cancelled
      (λ q.
        if q.done
        then q
        else if leb q.max_turns q.turns_taken
        then end_call timeout q
        else set_phase task planning q)
      r

-- `_speak_next` from the planner's answer to the await of `on_turn`
unfoldable pub say : Timer → PlannedTurn → PersonaRunner → PersonaRunner
say task result r =
    set_phase task (recording result)
      (add_turn caller result.utterance (record r { turns_taken = suc r.turns_taken }))

-- From there to the push of the line
unfoldable pub after_record : Timer → PlannedTurn → PersonaRunner → PersonaRunner
after_record task result r =
    unless_cancelled (λ q. set_phase task (speaking result) (push (tts_speak result.utterance) q)) r

-- The end of `_speak_next`
unfoldable pub after_push : PlannedTurn → PersonaRunner → PersonaRunner
after_push result r =
    if result.call_complete then end_call caller_ended r else schedule_silence_check r

-- `_check_silence` after its sleep
unfoldable pub check_silence : PersonaRunner → PersonaRunner
unfolding speak_next
check_silence r =
    let nudged = record r { silent_nudges = suc r.silent_nudges } in
    if r.done
    then r
    else if ltb r.max_silent_nudges (suc r.silent_nudges)
    then end_call timeout nudged
    else speak_next silence nudged

-- A frame of the agent's speech in `process_frame`, up to the await of `on_turn`
unfoldable pub hear : String → PersonaRunner → PersonaRunner
hear text r =
    add_turn agent text (record (cancel_silence_check r) { silent_nudges = 0; is_hearing = true })

-- What follows in `process_frame`
unfoldable pub after_hearing : PersonaRunner → PersonaRunner
after_hearing r = unless_cancelled schedule_advance (record r { is_hearing = false })

-- `ClientConnectedFrame` in `process_frame`
unfoldable pub connect : PersonaRunner → PersonaRunner
connect r = if r.started then r else schedule_advance (record r { started = true })

pub data Event : Type 0 where
  connected : Event
  heard : String → Event
  due : Timer → Event
  answered : Timer → PlannedTurn → Event
  recorded line_pushed : Timer → Event
  turn_heard : Event
  cancel_set : Event

-- What a timer does when its sleep is over
abbrev pub wake : Timer → PersonaRunner → PersonaRunner
unfolding speak_next check_silence
wake advance r = speak_next advance (set_phase advance idle r)
wake silence r = check_silence (set_phase silence idle r)

-- An event for which no task and no frame waits does nothing.
unfoldable pub step : Event → PersonaRunner → PersonaRunner
unfolding connect hear after_hearing say after_record after_push speak_next check_silence
step connected r = connect r
step (heard text) r = if r.is_hearing then r else hear text r
step turn_heard r = if r.is_hearing then after_hearing r else r
step (due task) r = elim (phase_of task r) [ sleeping ↦ wake task r | _ ↦ r ]
step (answered task result) r = elim (phase_of task r) [
  | planning ↦ say task result (set_phase task idle r)
  | _ ↦ r
]
step (recorded task) r = elim (phase_of task r) [
  | recording result ↦ after_record task result (set_phase task idle r)
  | _ ↦ r
]
step (line_pushed task) r = elim (phase_of task r) [
  | speaking result ↦ after_push result (set_phase task idle r)
  | _ ↦ r
]
step cancel_set r = record r { cancel_requested = true }

-- The events of a call, in the order in which they happen.
unfoldable pub run_events : List Event → PersonaRunner → PersonaRunner
unfolding step
run_events [] r = r
run_events (e ∷ es) r = run_events es (step e r)
