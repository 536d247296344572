-- ===== src/Caller/Latencies.antt =====
-- What the clock of app/engine/caller/latency_clock.py has measured at the end of a call, read off the
-- frames of the call.
use qa_test_backend.Prelude.{
  ℕ, ◌+◌, ◌-◌, ◌≡◌, refl, Option, none, some, Bool, true, false, List, [], ◌∷◌, ◌++◌, String, map,
  All, All-append, arith, Bool-cases, Option-cases, inl, inr, sym, ◌∙◌, append_assoc, append_nil,
  ap,
}
use qa_test_backend.Caller.Clock.{
  Frame, bot_started, bot_stopped, vad_started, vad_stopped, other, audio, TurnLatency,
  LatencyClock, new_clock, turn_latency, on_push_frame, run_clock,
}
use qa_test_backend.Caller.Answers.{
  IsMeasured, answer_to, answers, caller_speaks, agent_speaks, interruptions, latencies,
}

module _ {Audio : Type 0} (has_signal : Audio → Bool) (rounded_ms : ℕ → String) where
  -- What a clock that awaits audio, or does not, will measure.
  unfoldable awaited : Bool → Option ℕ → List (ℕ × Frame Audio) → List ℕ
  awaited true (some stopped) fs = answer_to has_signal stopped fs
  awaited _ _ fs = []

  abbrev expected : LatencyClock → List (ℕ × Frame Audio) → List ℕ
  expected c fs = awaited c.awaiting_agent_audio c.caller_stopped_at_ns fs

  skip :
      (b : Bool) (o : Option ℕ) (fs gs : List (ℕ × Frame Audio))
      → ((stopped : ℕ) → answer_to has_signal stopped fs ≡ answer_to has_signal stopped gs)
      → awaited b o fs ≡ awaited b o gs
  unfolding awaited
  skip true (some stopped) fs gs h = h stopped
  skip true none fs gs h = refl
  skip false o fs gs h = refl

  no_frames : (b : Bool) (o : Option ℕ) → awaited b o [] ≡ []
  unfolding awaited answer_to
  no_frames true (some stopped) = refl
  no_frames true none = refl
  no_frames false o = refl

  stopped_again :
      (b : Bool) (o : Option ℕ) (now : ℕ) (fs : List (ℕ × Frame Audio))
      → awaited b o ((now, bot_stopped) ∷ fs) ≡ []
  unfolding awaited answer_to
  stopped_again true (some stopped) now fs = refl
  stopped_again true none now fs = refl
  stopped_again false o now fs = refl

  latencies-snoc :
      (ls : List TurnLatency) (t : TurnLatency)
      → map (λ l. l.latency_ns) (ls ++ t ∷ []) ++ []
        ≡ map (λ l. l.latency_ns) ls ++ t.latency_ns ∷ []
  latencies-snoc [] t = refl
  latencies-snoc (l ∷ ls) t = ap (λ ns. l.latency_ns ∷ ns) (latencies-snoc ls t)

  audio_step :
      (now : ℕ) (a : Audio) (fs : List (ℕ × Frame Audio)) (c : LatencyClock)
      → (let d = on_push_frame has_signal rounded_ms now (audio a) c in
          latencies d ++ expected d fs)
        ≡ latencies c ++ expected c ((now, audio a) ∷ fs)
  unfolding on_push_frame awaited answer_to
  audio_step now a fs c = elim (Bool-cases c.awaiting_agent_audio) [
    | inr quiet ↦ rw quiet refl
    | inl waits ↦ elim (Option-cases c.caller_stopped_at_ns) [
      | inl e ↦ elim (Bool-cases (has_signal a)) [
        | inr silent ↦ rw (waits, silent, e) refl
        | inl sounds ↦ rw (waits, sounds, e) refl
      ]
      | inr (stopped, e) ↦ elim (Bool-cases (has_signal a)) [
        | inr silent ↦ rw (waits, e) (rw silent refl)
        | inl sounds ↦ rw (waits, e) (rw sounds (latencies-snoc c.turn_latencies _))
      ]
    ]
  ]

  run_clock-latencies :
      (fs : List (ℕ × Frame Audio)) (c : LatencyClock)
      → latencies (run_clock has_signal rounded_ms fs c)
        ≡ (latencies c ++ expected c fs) ++ answers has_signal fs
  unfolding run_clock on_push_frame answers answer_to awaited
  run_clock-latencies [] c =
      rw (no_frames c.awaiting_agent_audio c.caller_stopped_at_ns)
        (rw (append_nil (latencies c)) (sym (append_nil (latencies c))))
  run_clock-latencies ((now, bot_started) ∷ fs) c =
      rw
        (skip c.awaiting_agent_audio c.caller_stopped_at_ns ((now, bot_started) ∷ fs) fs
          (λ s. refl))
        (run_clock-latencies fs (on_push_frame has_signal rounded_ms now bot_started c))
  run_clock-latencies ((now, bot_stopped) ∷ fs) c =
      rw (stopped_again c.awaiting_agent_audio c.caller_stopped_at_ns now fs) (
        run_clock-latencies fs (on_push_frame has_signal rounded_ms now bot_stopped c)
        ∙ rw (append_nil (latencies c))
            (append_assoc (latencies c) (answer_to has_signal now fs) (answers has_signal fs)))
  run_clock-latencies ((now, vad_started) ∷ fs) c =
      rw
        (skip c.awaiting_agent_audio c.caller_stopped_at_ns ((now, vad_started) ∷ fs) fs
          (λ s. refl))
        (run_clock-latencies fs (on_push_frame has_signal rounded_ms now vad_started c))
  run_clock-latencies ((now, vad_stopped) ∷ fs) c =
      rw
        (skip c.awaiting_agent_audio c.caller_stopped_at_ns ((now, vad_stopped) ∷ fs) fs
          (λ s. refl))
        (run_clock-latencies fs (on_push_frame has_signal rounded_ms now vad_stopped c))
  run_clock-latencies ((now, other) ∷ fs) c =
      rw (skip c.awaiting_agent_audio c.caller_stopped_at_ns ((now, other) ∷ fs) fs (λ s. refl))
        (run_clock-latencies fs c)
  run_clock-latencies ((now, audio a) ∷ fs) c =
      run_clock-latencies fs (on_push_frame has_signal rounded_ms now (audio a) c)
      ∙ ap (λ ls. ls ++ answers has_signal fs) (audio_step now a fs c)

  -- Audio does not change who speaks.
  audio_keeps :
      (now : ℕ) (a : Audio) (c : LatencyClock)
      → (let d = on_push_frame has_signal rounded_ms now (audio a) c in
          (d.interruption_count ≡ c.interruption_count)
          × (d.caller_speaking ≡ c.caller_speaking)
          × (d.agent_speaking ≡ c.agent_speaking))
  unfolding on_push_frame
  audio_keeps now a c = ground arith

  run_clock-interruptions :
      (past fs : List (ℕ × Frame Audio)) (c : LatencyClock)
      → c.caller_speaking ≡ caller_speaks past
      → c.agent_speaking ≡ agent_speaks past
      → (run_clock has_signal rounded_ms fs c).interruption_count
        ≡ c.interruption_count + interruptions past fs
  unfolding run_clock on_push_frame interruptions caller_speaks agent_speaks
  run_clock-interruptions past [] c k g = omega arith
  run_clock-interruptions past ((now, bot_started) ∷ fs) c k g = ground (
    arith,
    g,
    run_clock-interruptions ((now, bot_started) ∷ past) fs
        (on_push_frame has_signal rounded_ms now bot_started c) refl g,
  )
  run_clock-interruptions past ((now, bot_stopped) ∷ fs) c k g =
      run_clock-interruptions ((now, bot_stopped) ∷ past) fs
        (on_push_frame has_signal rounded_ms now bot_stopped c) refl g
  run_clock-interruptions past ((now, vad_started) ∷ fs) c k g = ground (
    arith,
    k,
    run_clock-interruptions ((now, vad_started) ∷ past) fs
        (on_push_frame has_signal rounded_ms now vad_started c) k refl,
  )
  run_clock-interruptions past ((now, vad_stopped) ∷ fs) c k g =
      run_clock-interruptions ((now, vad_stopped) ∷ past) fs
        (on_push_frame has_signal rounded_ms now vad_stopped c) k refl
  run_clock-interruptions past ((now, other) ∷ fs) c k g =
      run_clock-interruptions ((now, other) ∷ past) fs c k g
  run_clock-interruptions past ((now, audio a) ∷ fs) c k g =
      let (count, same_caller, same_agent) = audio_keeps now a c in
      run_clock-interruptions ((now, audio a) ∷ past) fs
        (on_push_frame has_signal rounded_ms now (audio a) c) (same_caller ∙ k) (same_agent ∙ g)
      ∙ rw count refl

  turn_latency-IsMeasured :
      (threshold latency : ℕ)
      → IsMeasured threshold (turn_latency has_signal rounded_ms threshold latency)
  turn_latency-IsMeasured threshold latency = ground arith

  audio-IsMeasured :
      (now : ℕ) (a : Audio) (threshold : ℕ) (c : LatencyClock)
      → c.threshold_ms ≡ threshold
      → All (IsMeasured threshold) c.turn_latencies
      → (let d = on_push_frame has_signal rounded_ms now (audio a) c in
          (d.threshold_ms ≡ threshold) × All (IsMeasured threshold) d.turn_latencies)
  unfolding on_push_frame
  audio-IsMeasured now a threshold c t h = elim (Bool-cases c.awaiting_agent_audio) [
    | inr quiet ↦ rw quiet (t, h)
    | inl waits ↦ elim (Bool-cases (has_signal a)) [
      | inr silent ↦ rw (waits, silent) (t, h)
      | inl sounds ↦ elim (Option-cases c.caller_stopped_at_ns) [
        | inl e ↦ rw (waits, sounds, e) (t, h)
        | inr (stopped, e) ↦
            rw (waits, sounds, e)
              (
                t,
                All-append (IsMeasured threshold) c.turn_latencies _ h
                    (rw t (turn_latency-IsMeasured threshold (now - stopped)), tt),
              )
      ]
    ]
  ]

  run_clock-IsMeasured :
      (fs : List (ℕ × Frame Audio)) (threshold : ℕ) (c : LatencyClock)
      → c.threshold_ms ≡ threshold
      → All (IsMeasured threshold) c.turn_latencies
      → All (IsMeasured threshold) (run_clock has_signal rounded_ms fs c).turn_latencies
  unfolding run_clock on_push_frame
  run_clock-IsMeasured [] threshold c t h = h
  run_clock-IsMeasured ((now, audio a) ∷ fs) threshold c t h =
      let (u, k) = audio-IsMeasured now a threshold c t h in
      run_clock-IsMeasured fs threshold (on_push_frame has_signal rounded_ms now (audio a) c) u k
  run_clock-IsMeasured ((now, bot_started) ∷ fs) threshold c t h =
      run_clock-IsMeasured fs threshold (on_push_frame has_signal rounded_ms now bot_started c) t h
  run_clock-IsMeasured ((now, bot_stopped) ∷ fs) threshold c t h =
      run_clock-IsMeasured fs threshold (on_push_frame has_signal rounded_ms now bot_stopped c) t h
  run_clock-IsMeasured ((now, vad_started) ∷ fs) threshold c t h =
      run_clock-IsMeasured fs threshold (on_push_frame has_signal rounded_ms now vad_started c) t h
  run_clock-IsMeasured ((now, vad_stopped) ∷ fs) threshold c t h =
      run_clock-IsMeasured fs threshold (on_push_frame has_signal rounded_ms now vad_stopped c) t h
  run_clock-IsMeasured ((now, other) ∷ fs) threshold c t h = run_clock-IsMeasured fs threshold c t h

  -- After any frames of a call, the latencies are exactly the answers to the stops of the caller: for each
  -- stop, the time from it to the first audio with a signal, if there is one before the next stop. The
  -- interruptions are the times that one side started to speak while, by the frames before, the other
  -- spoke. Each latency is flagged, with a reason, just when it is more than the threshold.
  pub run_clock-answers :
      (threshold : ℕ) (fs : List (ℕ × Frame Audio))
      → let c = run_clock has_signal rounded_ms fs (new_clock threshold) in
        (latencies c ≡ answers has_signal fs)
        × (c.interruption_count ≡ interruptions [] fs)
        × All (IsMeasured threshold) c.turn_latencies
  unfolding new_clock awaited caller_speaks agent_speaks
  run_clock-answers threshold fs = (
    run_clock-latencies fs (new_clock threshold),
    (let h = run_clock-interruptions [] fs (new_clock threshold) refl refl in omega (arith, h)),
    run_clock-IsMeasured fs threshold (new_clock threshold) refl tt,
  )
