-- ===== src/Discovery/Explorer.antt =====
-- app/engine/discovery/explorer.py: `ExplorerCaller`, which decides what a discovery call says next.
-- `casefold` of Python's `str`, the test `_HANDOFF_WORDS.search` and the substitution of `slug` are
-- arguments, and so is `plan`: the language model's answer, or the text of the exception that it raised,
-- from the state and the transcript that the prompt is made of. The callback `on_observation` and the
-- wording of the prompts are left out.
pub mod Candidates
pub mod Bounds
pub mod Frontier
use qa_test_backend.Prelude.{
  ℕ, suc, ◌+◌, ◌-◌, Option, none, some, Bool, true, false, List, [], ◌∷◌, ◌++◌, ◌&&◌, ◌||◌, not,
  String, text_eq, any, find, select, length, leb, if◌then◌else◌,
}
use qa_test_backend.Caller.Transcript.{CallTurn, ends_with_agent}
use qa_test_backend.Discovery.Observation.{
  NodeKind, GateResult, TurnObservation, greeting, gate, menu, intent, handoff, other, pending,
  rejected,
}
use qa_test_backend.Discovery.Graph.{FlowGraph, initial, is_gate, is_outcome, contains, add_once}
use qa_test_backend.Discovery.Graph.Observe.{observe}

-- `ExplorerLLMOutput`
pub record PlanOutput : Type 0 where
  pub observation : TurnObservation
  pub utterance : String
  pub call_complete : Bool
  pub reached_candidate : Option String

-- The model's answer, or the text of the exception that the call ended with.
pub data Plan : Type 0 where
  planned : PlanOutput → Plan
  raised : String → Plan

pub record ExplorerTurn : Type 0 where
  pub utterance : String
  pub call_complete : Bool

pub record ExplorerCaller : Type 0 where
  pub candidates : List String
  pub graph : FlowGraph
  pub turn_budget : ℕ
  pub reached : List String
  pub abandoned : List String
  pub stalls : String → ℕ
  pub target : Option String
  pub rejections : ℕ
  pub caller_turns : ℕ
  pub handed_off : Bool
  pub failure : Option String

abbrev pub max_gate_rejections : ℕ
max_gate_rejections = 3

abbrev pub max_stalls_per_topic : ℕ
max_stalls_per_topic = 2

abbrev pub opening_line : String
opening_line = "Hi, I was hoping you could help me with something."

abbrev pub closing_line : String
closing_line = "Okay, thanks so much for your help. Goodbye."

abbrev pub nudge_line : String
nudge_line = "Hello? Are you still there?"

abbrev pub is_handoff : NodeKind → Bool
is_handoff handoff = true
is_handoff _ = false

abbrev pub is_rejected : Option GateResult → Bool
is_rejected (some rejected) = true
is_rejected _ = false

-- `obs.gate_result in ("pending", "rejected")`
abbrev is_unanswered : Option GateResult → Bool
is_unanswered (some pending) = true
is_unanswered (some rejected) = true
is_unanswered _ = false

-- `_gate_open`
abbrev pub gate_open : TurnObservation → Bool
gate_open obs = is_gate obs.kind && is_unanswered obs.gate_result

-- `obs.kind not in ("gate", "greeting")`
abbrev pub counts_against : NodeKind → Bool
counts_against gate = false
counts_against greeting = false
counts_against _ = true

-- `self.remaining[0] if self.remaining else None`
abbrev pub first_of : List String → Option String
first_of [] = none
first_of (c ∷ cs) = some c

abbrev pub is_nil : List String → Bool
is_nil [] = true
is_nil (c ∷ cs) = false

-- `kind if kind in ("intent", "handoff") else "intent"`
abbrev outcome_or_intent : NodeKind → NodeKind
outcome_or_intent handoff = handoff
outcome_or_intent _ = intent

abbrev pub says : String → Bool → ExplorerCaller → ExplorerCaller × ExplorerTurn
says utterance complete c = (c, record { utterance = utterance; call_complete = complete })

abbrev set_stalls : String → ℕ → (String → ℕ) → String → ℕ
set_stalls t n f s = if text_eq s t then n else f s

-- A turn that carried nothing out counts against the topic that was asked for.
unfoldable pub count_stall : String → ExplorerCaller → ExplorerCaller
count_stall t c = record c {
  stalls = set_stalls t (suc (c.stalls t)) c.stalls;
  abandoned =
      if leb max_stalls_per_topic (suc (c.stalls t)) then add_once t c.abandoned else c.abandoned;
}

abbrev pub stalled : Option String → TurnObservation → ExplorerCaller → ExplorerCaller
stalled none obs c = c
stalled (some t) obs c = if counts_against obs.kind then count_stall t c else c

abbrev pub count_result : TurnObservation → ExplorerCaller → ExplorerCaller
count_result obs c = record c {
  rejections = if is_rejected obs.gate_result then suc c.rejections else c.rejections;
  handed_off = if is_handoff obs.kind then true else c.handed_off;
}

abbrev pub add_reached : String → ExplorerCaller → ExplorerCaller
add_reached t c = record c { reached = add_once t c.reached }

module _ (casefold : String → String) where
  abbrev pub same_topic : String → String → Bool
  same_topic a b = text_eq (casefold a) (casefold b)

  abbrev pub is_done : ExplorerCaller → String → Bool
  is_done c t = any (λ d. same_topic d t) (c.reached ++ c.abandoned)

  unfoldable pub remaining : ExplorerCaller → List String
  remaining c = select (λ t. not (is_done c t)) c.candidates

  unfoldable pub unexplored : ExplorerCaller → List String
  unfolding remaining
  unexplored c = remaining c ++ c.abandoned

  -- `_match`
  unfoldable pub match_candidate : String → ExplorerCaller → Option String
  match_candidate name c = find (λ t. same_topic t name) c.candidates

  abbrev pub topic_of : TurnObservation → ExplorerCaller → Option String
  unfolding match_candidate
  topic_of obs c = if is_outcome obs.kind then match_candidate obs.label c else none

  -- `_absorb`
  unfoldable pub absorb : TurnObservation → ExplorerCaller → ExplorerCaller
  unfolding match_candidate count_stall
  absorb obs c = elim (topic_of obs c) [
    | some t ↦ add_reached t (count_result obs c)
    | none ↦ stalled c.target obs (count_result obs c)
  ]

  -- `_should_stop`
  unfoldable pub should_stop : TurnObservation → ExplorerCaller → Bool
  unfolding remaining
  should_stop obs c =
      c.handed_off
      || leb max_gate_rejections c.rejections
      || leb c.turn_budget (suc c.caller_turns)
      || (is_nil (remaining c) && not (gate_open obs))

  -- `self.caller_turns += 1; self._target = …`
  unfoldable pub aim : ExplorerCaller → ExplorerCaller
  unfolding remaining
  aim c = record c { caller_turns = suc c.caller_turns; target = first_of (remaining c) }

  module _ (names_handoff : String → Bool) where
    -- The two lists that the loop of `order_candidates` fills.
    unfoldable pub split_candidates : List String → List String → List String × List String
    split_candidates seen [] = ([], [])
    split_candidates seen (c ∷ cs) =
        let skipped = split_candidates seen cs in
        let rest = split_candidates (casefold c ∷ seen) cs in
        if contains (casefold c) seen
        then skipped
        else if names_handoff c
        then (rest.0, c ∷ rest.1)
        else (c ∷ rest.0, rest.1)

    unfoldable pub order_candidates : List String → List String
    unfolding split_candidates
    order_candidates cs = (split_candidates [] cs).0 ++ (split_candidates [] cs).1

    -- `__init__`
    unfoldable pub new_explorer : List String → FlowGraph → ℕ → ExplorerCaller
    unfolding order_candidates
    new_explorer cs g budget = record {
      candidates = order_candidates cs;
      graph = g;
      turn_budget = budget;
      reached = [];
      abandoned = [];
      stalls = λ t. 0;
      target = none;
      rejections = 0;
      caller_turns = 0;
      handed_off = false;
      failure = none;
    }

    abbrev by_kind : TurnObservation → ExplorerCaller → Option String
    unfolding remaining
    by_kind obs c = elim obs.kind [
      | intent ↦ c.target
      | handoff ↦ find names_handoff (remaining c)
      | _ ↦ none
    ]

    abbrev matched : Option String → ExplorerCaller → Option String
    unfolding match_candidate
    matched none c = none
    matched (some name) c = match_candidate name c

    -- `_attributed_topic`
    unfoldable pub attributed_topic : PlanOutput → ExplorerCaller → Option String
    unfolding match_candidate remaining
    attributed_topic out c = elim (matched out.reached_candidate c) [
      | some t ↦ some t
      | none ↦ by_kind out.observation c
    ]

    module _ (slug_of : String → String) where
      abbrev pub slug : String → String
      slug topic = slug_of (casefold topic)

      -- `_canonical`
      unfoldable pub canonical : PlanOutput → ExplorerCaller → TurnObservation
      unfolding attributed_topic
      canonical out c = elim (attributed_topic out c) [
        | none ↦ out.observation
        | some t ↦ record out.observation {
          node_key = slug t;
          label = t;
          kind = outcome_or_intent out.observation.kind;
        }
      ]

      -- The model's observation of a turn, in the graph and among the topics.
      unfoldable pub note : ℕ → PlanOutput → ExplorerCaller → ExplorerCaller
      unfolding canonical absorb observe
      note index out c =
          let obs = canonical out c in
          absorb obs (record c { graph = (observe index obs c.graph).graph })

      -- What `next_turn` does with the model's answer.
      unfoldable pub follow : ℕ → PlanOutput → ExplorerCaller → ExplorerCaller × ExplorerTurn
      unfolding note canonical should_stop
      follow index out c =
          if out.call_complete
          then says out.utterance true (note index out c)
          else if should_stop (canonical out c) (note index out c)
          then says closing_line true (note index out c)
          else says out.utterance false (note index out c)

      unfoldable pub next_turn :
          (ExplorerCaller → List CallTurn → Plan)
          → List CallTurn
          → ExplorerCaller
          → ExplorerCaller × ExplorerTurn
      unfolding aim follow
      next_turn plan [] c = says opening_line false c
      next_turn plan (t ∷ ts) c =
          if not (ends_with_agent (t ∷ ts))
          then says nudge_line false c
          else elim (plan (aim c) (t ∷ ts)) [
            | raised why ↦ says closing_line true (record (aim c) { failure = some why })
            | planned out ↦ follow (length ts) out (aim c)
          ]
