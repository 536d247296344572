-- ===== src/Examples/Calls.antt =====
-- The theorem on app/engine/caller/latency_clock.py at a call with one slow answer.
use qa_test_backend.Prelude.{ℕ, List, [], ◌∷◌, decimal, ltb, Bool, ◌≡◌, All}
use qa_test_backend.Caller.Clock.{Frame, bot_started, bot_stopped, audio, new_clock, run_clock}
use qa_test_backend.Caller.Latencies.{run_clock-answers}
use qa_test_backend.Caller.Answers.{latencies, answers, interruptions, IsMeasured}

-- Audio by its loudness.
abbrev is_loud : ℕ → Bool
is_loud rms = ltb 300 rms

abbrev call : List (ℕ × Frame ℕ)
call = (0, bot_started) ∷ (1000, bot_stopped) ∷ (2000, audio 10) ∷ (3000000000, audio 900) ∷ []

run_clock-answers_example :
    let c = run_clock is_loud decimal call (new_clock 1000) in
    (latencies c ≡ answers is_loud call)
    × (c.interruption_count ≡ interruptions [] call)
    × All (IsMeasured 1000) c.turn_latencies
run_clock-answers_example = run_clock-answers is_loud decimal 1000 call
