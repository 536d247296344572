-- ===== src/Discovery/Explorer/Frontier.antt =====
-- The topics that app/engine/discovery/explorer.py has reached and given up.
use qa_test_backend.Prelude.{
  ℕ, suc, ◌≡◌, refl, sym, subst, Bool, true, false, List, [], ◌∷◌, ◌++◌, ◌||◌, String, arith,
  Bool-cases, inl, inr, length, some, none, Option-cases, Option, text_eq, find, select, not, any,
  leb,
}
use qa_test_backend.Caller.Transcript.{CallTurn, ends_with_agent}
use qa_test_backend.Discovery.Observation.{TurnObservation}
use qa_test_backend.Discovery.Graph.{contains, add_once, is_outcome}
use qa_test_backend.Discovery.Explorer.{
  ExplorerCaller, Plan, PlanOutput, next_turn, aim, absorb, count_stall, stalled, canonical, note,
  max_stalls_per_topic, first_of, remaining, unexplored, counts_against, is_done, topic_of,
  count_result, add_reached, match_candidate, same_topic,
}
use qa_test_backend.Discovery.Explorer.Bounds.{Plan-cases, follow-note}

-- The listed topics are among the candidates, each listed once.
abbrev Lists : List String → List String → Type 0
Lists cs [] = Unit
Lists cs (t ∷ ts) = (contains t cs ≡ true) × (contains t ts ≡ false) × Lists cs ts

abbrev MayAsk : List String → Option String → Type 0
MayAsk cs none = Unit
MayAsk cs (some t) = contains t cs ≡ true

pub record IsFrontier (c : ExplorerCaller) : Type 0 where
  pub reached : Lists c.candidates c.reached
  pub abandoned : Lists c.candidates c.abandoned
  pub target : MayAsk c.candidates c.target

contains-snoc :
    (t u : String) (ts : List String) → contains t (ts ++ u ∷ []) ≡ (contains t ts || text_eq u t)
unfolding any
contains-snoc t u [] = ground arith
contains-snoc t u (s ∷ ts) = ground (arith, contains-snoc t u ts)

text_eq_comm : (s t : String) → text_eq s t ≡ text_eq t s
text_eq_comm s t = ground arith

Lists-snoc :
    (cs : List String) (t : String) (ts : List String)
    → contains t cs ≡ true
    → contains t ts ≡ false
    → Lists cs ts
    → Lists cs (ts ++ t ∷ [])
unfolding any
Lists-snoc cs t [] m n h = (m, refl, tt)
Lists-snoc cs t (s ∷ ts) m n h =
    ground (arith, contains-snoc s t ts, text_eq_comm s t, Lists-snoc cs t ts)

Lists-add_once :
    (cs : List String) (t : String) (ts : List String)
    → contains t cs ≡ true
    → Lists cs ts
    → Lists cs (add_once t ts)
Lists-add_once cs t ts m h = elim (Bool-cases (contains t ts)) [
  | inl e ↦ rw e h
  | inr e ↦ rw e (Lists-snoc cs t ts m e h)
]

contains-found :
    (p : String → Bool) (t : String) (cs : List String) → find p cs ≡ some t → contains t cs ≡ true
unfolding find any
contains-found p t [] h = ground arith
contains-found p t (c ∷ cs) h = ground (arith, contains-found p t cs)

MayAsk-cons : (c : String) (cs : List String) (o : Option String) → MayAsk cs o → MayAsk (c ∷ cs) o
unfolding any
MayAsk-cons c cs none h = tt
MayAsk-cons c cs (some t) h = ground arith

MayAsk-first_select : (p : String → Bool) (cs : List String) → MayAsk cs (first_of (select p cs))
unfolding select any
MayAsk-first_select p [] = tt
MayAsk-first_select p (c ∷ cs) = elim (Bool-cases (p c)) [
  | inl e ↦ rw e (ground arith)
  | inr e ↦ rw e (MayAsk-cons c cs _ (MayAsk-first_select p cs))
]

MayAsk-found : (p : String → Bool) (cs : List String) → MayAsk cs (find p cs)
MayAsk-found p cs = elim (Option-cases (find p cs)) [
  | inl e ↦ rw e tt
  | inr (t, e) ↦ rw e (contains-found p t cs e)
]

count_stall-IsFrontier :
    (t : String) (c : ExplorerCaller)
    → contains t c.candidates ≡ true
    → IsFrontier c
    → IsFrontier (count_stall t c)
unfolding count_stall
count_stall-IsFrontier t c m h = elim (Bool-cases (leb max_stalls_per_topic (suc (c.stalls t)))) [
  | inl e ↦ record {
    reached = h.reached;
    abandoned = rw e (Lists-add_once c.candidates t c.abandoned m h.abandoned);
    target = h.target;
  }
  | inr e ↦ record { reached = h.reached; abandoned = rw e h.abandoned; target = h.target }
]

stalled-IsFrontier :
    (o : Option String) (obs : TurnObservation) (c : ExplorerCaller)
    → MayAsk c.candidates o
    → IsFrontier c
    → IsFrontier (stalled o obs c)
stalled-IsFrontier none obs c m h = h
stalled-IsFrontier (some t) obs c m h = elim (Bool-cases (counts_against obs.kind)) [
  | inl e ↦ rw e (count_stall-IsFrontier t c m h)
  | inr e ↦ rw e h
]

contains-add_once : (t : String) (ts : List String) → contains t (add_once t ts) ≡ true
contains-add_once t ts = ground (arith, contains-snoc t t ts)

contains-append :
    (t : String) (ts us : List String) → contains t us ≡ true → contains t (ts ++ us) ≡ true
unfolding any
contains-append t [] us h = h
contains-append t (s ∷ ts) us h = ground (arith, contains-append t ts us h)

module _ (casefold : String → String) where
  MayAsk-topic_of :
      (obs : TurnObservation) (c : ExplorerCaller) → MayAsk c.candidates (topic_of casefold obs c)
  unfolding match_candidate
  MayAsk-topic_of obs c = elim (Bool-cases (is_outcome obs.kind)) [
    | inl e ↦ rw e (MayAsk-found (λ t. same_topic casefold t obs.label) c.candidates)
    | inr e ↦ rw e tt
  ]

  absorb-reaches :
      (obs : TurnObservation) (c : ExplorerCaller) (t : String)
      → topic_of casefold obs c ≡ some t
      → absorb casefold obs c ≡ add_reached t (count_result obs c)
  unfolding absorb match_candidate
  absorb-reaches obs c t e = ground (arith, e)

  absorb-stalls :
      (obs : TurnObservation) (c : ExplorerCaller)
      → topic_of casefold obs c ≡ none
      → absorb casefold obs c ≡ stalled c.target obs (count_result obs c)
  unfolding absorb match_candidate
  absorb-stalls obs c e = ground (arith, e)

  absorb-IsFrontier :
      (obs : TurnObservation) (c : ExplorerCaller)
      → IsFrontier c
      → IsFrontier (absorb casefold obs c)
  absorb-IsFrontier obs c h = elim (Option-cases (topic_of casefold obs c)) [
    | inl e ↦ subst IsFrontier (sym (absorb-stalls obs c e)) (
        stalled-IsFrontier c.target obs (count_result obs c) h.target
          (record { reached = h.reached; abandoned = h.abandoned; target = h.target }))
    | inr (t, e) ↦ subst IsFrontier (sym (absorb-reaches obs c t e)) (record {
      reached =
          Lists-add_once c.candidates t c.reached
            (subst (MayAsk c.candidates) e (MayAsk-topic_of obs c)) h.reached;
      abandoned = h.abandoned;
      target = h.target;
    })
  ]

  aim-IsFrontier : (c : ExplorerCaller) → IsFrontier c → IsFrontier (aim casefold c)
  unfolding aim remaining
  aim-IsFrontier c h = record {
    reached = h.reached;
    abandoned = h.abandoned;
    target = MayAsk-first_select (λ t. not (is_done casefold c t)) c.candidates;
  }

  -- A topic that was given up and that a later reply carries out is listed as reached and as unexplored.
  pub absorb-late :
      (obs : TurnObservation) (c : ExplorerCaller) (t : String)
      → contains t c.abandoned ≡ true
      → topic_of casefold obs c ≡ some t
      → (contains t (absorb casefold obs c).reached ≡ true)
        × (contains t (unexplored casefold (absorb casefold obs c)) ≡ true)
  unfolding unexplored
  absorb-late obs c t a e = rw (absorb-reaches obs c t e) (
    contains-add_once t c.reached,
    contains-append t (remaining casefold (add_reached t (count_result obs c))) c.abandoned a,
  )

  module _ (names_handoff : String → Bool) (slug_of : String → String) where
    note-IsFrontier :
        (index : ℕ) (out : PlanOutput) (c : ExplorerCaller)
        → IsFrontier c
        → IsFrontier (note casefold names_handoff slug_of index out c)
    unfolding note
    note-IsFrontier index out c h =
        absorb-IsFrontier (canonical casefold names_handoff slug_of out c) _
          (record { reached = h.reached; abandoned = h.abandoned; target = h.target })

    answered-IsFrontier :
        (plan : ExplorerCaller → List CallTurn → Plan) (t : CallTurn) (ts : List CallTurn)
        (c : ExplorerCaller)
        → ends_with_agent (t ∷ ts) ≡ true
        → IsFrontier c
        → IsFrontier (next_turn casefold names_handoff slug_of plan (t ∷ ts) c).0
    unfolding next_turn
    answered-IsFrontier plan t ts c a h = elim (Plan-cases (plan (aim casefold c) (t ∷ ts))) [
      | inl (why, e) ↦
          let k = aim-IsFrontier c h in
          rw (a, e) (record { reached = k.reached; abandoned = k.abandoned; target = k.target })
      | inr (out, e) ↦
          rw (a, e)
            (subst IsFrontier
              (sym (follow-note casefold names_handoff slug_of (length ts) out (aim casefold c)))
              (note-IsFrontier (length ts) out (aim casefold c) (aim-IsFrontier c h)))
    ]

    -- Whatever the model answers, no turn lists a topic as reached or given up that is not among the
    -- candidates, lists one twice, or asks for one that is not among them.
    pub next_turn-IsFrontier :
        (plan : ExplorerCaller → List CallTurn → Plan) (ts : List CallTurn) (c : ExplorerCaller)
        → IsFrontier c
        → IsFrontier (next_turn casefold names_handoff slug_of plan ts c).0
    next_turn-IsFrontier plan [] c h = unfold next_turn in h
    next_turn-IsFrontier plan (t ∷ ts) c h = elim (Bool-cases (ends_with_agent (t ∷ ts))) [
      | inl e ↦ answered-IsFrontier plan t ts c e h
      | inr e ↦ unfold next_turn in rw e h
    ]
