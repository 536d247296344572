-- ===== src/Discovery/Explorer/Bounds.antt =====
-- The exploration of app/engine/discovery/explorer.py ends within its budget of turns.
use qa_test_backend.Prelude.{
  ℕ, suc, ◌+◌, ◌≤◌, ◌≡◌, refl, Bool, true, false, List, [], ◌∷◌, ◌||◌, String, arith, All, inl, inr,
  ◌⊎◌, length, leb,
}
use qa_test_backend.Caller.Transcript.{CallTurn, ends_with_agent}
use qa_test_backend.Discovery.Observation.{TurnObservation}
use qa_test_backend.Discovery.Explorer.{
  ExplorerCaller, ExplorerTurn, Plan, planned, raised, PlanOutput, next_turn, aim, follow, absorb,
  should_stop, count_stall, canonical, note,
}

pub Plan-cases :
    (p : Plan) → ((why : String) × (p ≡ raised why)) ⊎ ((out : PlanOutput) × (p ≡ planned out))
Plan-cases (raised why) = inl (why, refl)
Plan-cases (planned out) = inr (out, refl)

module _ (casefold : String → String) (names_handoff : String → Bool)
    (slug_of : String → String) where
  pub follow-note :
      (index : ℕ) (out : PlanOutput) (c : ExplorerCaller)
      → (follow casefold names_handoff slug_of index out c).0
        ≡ note casefold names_handoff slug_of index out c
  unfolding follow
  follow-note index out c = ground arith

module _ (casefold : String → String) (names_handoff : String → Bool) (slug_of : String → String)
    (plan : ExplorerCaller → List CallTurn → Plan) where
  abbrev turned : List CallTurn → ExplorerCaller → ExplorerCaller × ExplorerTurn
  unfolding next_turn
  turned = next_turn casefold names_handoff slug_of plan

  -- Whether one of the turns, asked for in this order with these transcripts, ends the call.
  unfoldable pub ends_call : List (List CallTurn) → ExplorerCaller → Bool
  unfolding next_turn
  ends_call [] c = false
  ends_call (ts ∷ tss) c = (turned ts c).1.call_complete || ends_call tss (turned ts c).0

  -- The number of turns and their budget.
  abbrev HasUsed : ℕ → ℕ → ExplorerCaller → Type 0
  HasUsed n budget c = (c.caller_turns ≡ n) × (c.turn_budget ≡ budget)

  absorb-used :
      (obs : TurnObservation) (c : ExplorerCaller)
      → HasUsed c.caller_turns c.turn_budget (absorb casefold obs c)
  unfolding absorb count_stall
  absorb-used obs c = ground arith

  note-used :
      (index : ℕ) (out : PlanOutput) (c : ExplorerCaller)
      → HasUsed c.caller_turns c.turn_budget (note casefold names_handoff slug_of index out c)
  unfolding note
  note-used index out c = absorb-used (canonical casefold names_handoff slug_of out c) _

  should_stop_spent :
      (obs : TurnObservation) (c : ExplorerCaller)
      → leb c.turn_budget (suc c.caller_turns) ≡ true
      → should_stop casefold obs c ≡ true
  unfolding should_stop
  should_stop_spent obs c le = ground arith

  follow-ends :
      (index : ℕ) (out : PlanOutput) (c : ExplorerCaller)
      → c.turn_budget ≤ suc c.caller_turns
      → (follow casefold names_handoff slug_of index out c).1.call_complete ≡ true
  unfolding follow
  follow-ends index out c le = ground (
    arith,
    note-used index out c,
    should_stop_spent (canonical casefold names_handoff slug_of out c)
        (note casefold names_handoff slug_of index out c),
  )

  -- A turn that the agent's reply asks for counts, and is the last if the budget allows no more.
  next_turn-used :
      (ts : List CallTurn) (c : ExplorerCaller)
      → ends_with_agent ts ≡ true
      → HasUsed (suc c.caller_turns) c.turn_budget (turned ts c).0
  unfolding next_turn aim
  next_turn-used [] c h = ground arith
  next_turn-used (t ∷ ts) c h = elim (Plan-cases (plan (aim casefold c) (t ∷ ts))) [
    | inl (why, e) ↦ rw (h, e) (refl, refl)
    | inr (out, e) ↦ ground (
      arith,
      h,
      e,
      follow-note casefold names_handoff slug_of (length ts) out (aim casefold c),
      note-used (length ts) out (aim casefold c),
    )
  ]

  next_turn-ends :
      (ts : List CallTurn) (c : ExplorerCaller)
      → ends_with_agent ts ≡ true
      → c.turn_budget ≤ c.caller_turns + 2
      → (turned ts c).1.call_complete ≡ true
  unfolding next_turn aim
  next_turn-ends [] c h le = ground arith
  next_turn-ends (t ∷ ts) c h le = elim (Plan-cases (plan (aim casefold c) (t ∷ ts))) [
    | inl (why, e) ↦ rw (h, e) refl
    | inr (out, e) ↦ ground (arith, h, e, follow-ends (length ts) out (aim casefold c))
  ]

  -- Whatever the model answers, one of the turns ends the call, if the agent replied before each of them
  -- and they are, with the turns taken before, one fewer than the budget, and at least one.
  pub ends_call-within :
      (ts : List CallTurn) (tss : List (List CallTurn)) (c : ExplorerCaller)
      → All (λ us. ends_with_agent us ≡ true) (ts ∷ tss)
      → c.turn_budget ≤ c.caller_turns + length tss + 2
      → ends_call (ts ∷ tss) c ≡ true
  unfolding ends_call
  ends_call-within ts [] c h le = ground (arith, next_turn-ends ts c h.0)
  ends_call-within ts (us ∷ tss) c h le =
      ground (arith, next_turn-used ts c h.0, ends_call-within us tss (turned ts c).0 h.1)
