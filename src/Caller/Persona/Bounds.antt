-- ===== src/Caller/Persona/Bounds.antt =====
-- How many turns the caller of app/engine/caller/persona_call.py takes.
use qa_test_backend.Prelude.{
  ℕ, suc, ◌+◌, ◌≤◌, ◌≡◌, refl, String, if◌then◌else◌, ◌∙◌, sym, Bool, List, [], ◌∷◌, arith, is_some,
  ◌++◌,
}
use qa_test_backend.Caller.Transcript.{CallTurn, is_agent, agent, caller}
use qa_test_backend.Caller.Persona.{
  PersonaRunner, Phase, Timer, Event, PlannedTurn, planning, advance, silence, connected, heard,
  turn_heard, due, answered, recorded, line_pushed, cancel_set, step, run_events, connect, hear,
  after_hearing, say, after_record, after_push, speak_next, check_silence, new_runner,
}

-- A task that awaits the planner will take a turn.
abbrev plans : Phase → ℕ
plans planning = 1
plans _ = 0

unfoldable pub caller_turns : List CallTurn → ℕ
caller_turns [] = 0
caller_turns (t ∷ ts) = (if is_agent t.speaker then 0 else 1) + caller_turns ts

pub record IsBounded (r : PersonaRunner) : Type 0 where
  pub room :
      r.turns_taken + plans r.pending_advance + plans r.pending_silence_check ≤ suc r.max_turns
  pub counted : caller_turns r.transcript ≡ r.turns_taken
  pub ended : is_some r.end_reason ≡ r.done

caller_turns-agent :
    (text : String) (ts : List CallTurn)
    → caller_turns (ts ++ record { speaker = agent; text = text } ∷ []) ≡ caller_turns ts
unfolding caller_turns
caller_turns-agent text [] = refl
caller_turns-agent text (t ∷ ts) = omega (arith, caller_turns-agent text ts)

caller_turns-caller :
    (text : String) (ts : List CallTurn)
    → caller_turns (ts ++ record { speaker = caller; text = text } ∷ []) ≡ suc (caller_turns ts)
unfolding caller_turns
caller_turns-caller text [] = refl
caller_turns-caller text (t ∷ ts) = omega (arith, caller_turns-caller text ts)

heard-IsBounded :
    (text : String) (r : PersonaRunner) → IsBounded r → IsBounded (step (heard text) r)
unfolding step hear
heard-IsBounded text r h = ground (arith, caller_turns-agent text r.transcript)

due-IsBounded : (task : Timer) (r : PersonaRunner) → IsBounded r → IsBounded (step (due task) r)
unfolding step speak_next check_silence
due-IsBounded advance r h = ground arith
due-IsBounded silence r h = ground arith

answered-IsBounded :
    (task : Timer) (result : PlannedTurn) (r : PersonaRunner)
    → IsBounded r
    → IsBounded (step (answered task result) r)
unfolding step say
answered-IsBounded advance result r h =
    ground (arith, caller_turns-caller result.utterance r.transcript)
answered-IsBounded silence result r h =
    ground (arith, caller_turns-caller result.utterance r.transcript)

resumed-IsBounded :
    (task : Timer) (r : PersonaRunner)
    → IsBounded r
    → IsBounded (step (recorded task) r) × IsBounded (step (line_pushed task) r)
unfolding step after_record after_push
resumed-IsBounded advance r h = (ground arith, ground arith)
resumed-IsBounded silence r h = (ground arith, ground arith)

step-IsBounded : (e : Event) (r : PersonaRunner) → IsBounded r → IsBounded (step e r)
step-IsBounded connected r h = unfold step in unfold connect in ground arith
step-IsBounded (heard text) r h = heard-IsBounded text r h
step-IsBounded turn_heard r h = unfold step in unfold after_hearing in ground arith
step-IsBounded (due task) r h = due-IsBounded task r h
step-IsBounded (answered task result) r h = answered-IsBounded task result r h
step-IsBounded (recorded task) r h = (resumed-IsBounded task r h).0
step-IsBounded (line_pushed task) r h = (resumed-IsBounded task r h).1
step-IsBounded cancel_set r h = unfold step in ground arith

run_events-IsBounded :
    (es : List Event) (r : PersonaRunner) → IsBounded r → IsBounded (run_events es r)
unfolding run_events
run_events-IsBounded [] r h = h
run_events-IsBounded (e ∷ es) r h = run_events-IsBounded es (step e r) (step-IsBounded e r h)

step-max_turns : (e : Event) (r : PersonaRunner) → (step e r).max_turns ≡ r.max_turns
unfolding step connect hear after_hearing say after_record after_push speak_next check_silence
step-max_turns connected r = ground arith
step-max_turns (heard text) r = ground arith
step-max_turns turn_heard r = ground arith
step-max_turns (due advance) r = ground arith
step-max_turns (due silence) r = ground arith
step-max_turns (answered advance result) r = ground arith
step-max_turns (answered silence result) r = ground arith
step-max_turns (recorded advance) r = ground arith
step-max_turns (recorded silence) r = ground arith
step-max_turns (line_pushed advance) r = ground arith
step-max_turns (line_pushed silence) r = ground arith
step-max_turns cancel_set r = refl

run_events-max_turns :
    (es : List Event) (r : PersonaRunner) → (run_events es r).max_turns ≡ r.max_turns
unfolding run_events
run_events-max_turns [] r = refl
run_events-max_turns (e ∷ es) r = run_events-max_turns es (step e r) ∙ step-max_turns e r

-- In no order of the client's arrival, the agent's speech, the timers, the planner's answers, the ends of
-- `on_turn` and of a push, and a request to cancel does the caller take more than `turns + 1` turns, where
-- `turns` is the cap: both tasks may ask the planner for the last one. Each of its lines was counted, and
-- the call has a reason to have ended exactly when it has ended.
pub run_events-within :
    (turns nudges : ℕ) (checks : Bool) (es : List Event)
    → let r = run_events es (new_runner turns checks nudges) in
      (caller_turns r.transcript ≤ suc turns)
      × (r.turns_taken ≡ caller_turns r.transcript)
      × (is_some r.end_reason ≡ r.done)
run_events-within turns nudges checks es =
    (omega (arith, h.room, h.counted, le), sym h.counted, h.ended)
  where
    begun : PersonaRunner
    begun = new_runner turns checks nudges

    fresh : IsBounded begun
    fresh = unfold new_runner in unfold caller_turns in ground arith

    h : IsBounded (run_events es begun)
    h = run_events-IsBounded es begun fresh

    le : (run_events es begun).max_turns ≡ turns
    le = run_events-max_turns es begun ∙ (unfold new_runner in refl)
