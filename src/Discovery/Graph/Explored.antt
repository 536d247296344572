-- ===== src/Discovery/Graph/Explored.antt =====
-- What app/engine/discovery/graph.py promises of every graph that a call builds: `observe` for each turn,
-- then `finalize` and `intents`.
use qa_test_backend.Prelude.{
  ℕ, ◌≡◌, inl, inr, refl, none, some, Bool, true, List, [], ◌∷◌, ◌++◌, map, select, arith, All,
  All-append, All-map, String, Option-cases, Bool-cases, ◌||◌, ◌&&◌, not,
}
use qa_test_backend.Store.Payload.{blocked}
use qa_test_backend.Discovery.Observation.{TurnObservation}
use qa_test_backend.Discovery.Graph.{GraphNode, FlowGraph, initial, is_gate, is_outcome, contains}
use qa_test_backend.Discovery.Graph.Observe.{observe}
use qa_test_backend.Discovery.Graph.Places.{Place, place, places, IsUnmoved, refresh-place}
use qa_test_backend.Discovery.Graph.Layout.{
  IsRooted, HasLayout, IsUnmoved-HasLayout, observe-HasLayout, initial-HasLayout,
}
use qa_test_backend.Discovery.Graph.Gates.{
  AreSettled, IsFinal, HasReason, observe-AreSettled, finalize-IsFinal,
}
use qa_test_backend.Discovery.Graph.Finish.{
  finalize_node, finalize, path, IntentSummary, summary_of, reached, blocking_gate, unreached,
  intents, is_blocked,
}
use qa_test_backend.Discovery.Graph.Paths.{All-found, path-ends}

-- The graphs of a call that is still going on.
pub data Explored : FlowGraph → Type 0 where
  start : Explored initial
  turn :
      {g : FlowGraph} (turn_index : ℕ) (obs : TurnObservation)
      → Explored g
      → Explored (observe turn_index obs g).graph

-- Every graph that observations build has its layout: no two nodes have one key or one position, and
-- each node lies in layer 0 with no parent, or one layer below its parent, which is in the graph.
pub Explored-HasLayout : (g : FlowGraph) → Explored g → HasLayout g
Explored-HasLayout _ start = initial-HasLayout
Explored-HasLayout _ (turn {g} turn_index obs e) =
    observe-HasLayout turn_index obs g (Explored-HasLayout g e)

Explored-AreSettled : (g : FlowGraph) → Explored g → AreSettled g
Explored-AreSettled _ start = unfold initial in tt
Explored-AreSettled _ (turn {g} turn_index obs e) =
    observe-AreSettled turn_index obs g (Explored-AreSettled g e)

-- Once the call has ended, each gate was passed and is mapped, or was not and is blocked with a reason;
-- and every blocked node has a reason.
pub Explored-finalize : (g : FlowGraph) → Explored g → All IsFinal (finalize g).graph.nodes
Explored-finalize g e = finalize-IsFinal g (Explored-AreSettled g e)

finalize_node-place : (n : GraphNode) → place (finalize_node n) ≡ place n
finalize_node-place n = elim (Bool-cases (not (is_gate n.kind) || n.gate_passed)) [
  | inl e ↦ unfold finalize_node in rw e refl
  | inr e ↦ unfold finalize_node in rw e (refresh-place (record n { gate_unresolved = true }))
]

finalize-IsUnmoved : (g : FlowGraph) → IsUnmoved g (finalize g).graph
unfolding finalize
finalize-IsUnmoved g = record { nodes = same g.nodes; rows = refl }
  where
    same : (ns : List GraphNode) → map place (map finalize_node ns) ≡ map place ns
    same [] = refl
    same (n ∷ ns) = ground (arith, finalize_node-place n, same ns)

All-select {ℓ κ} :
    {A : Type ℓ} (P : A → Type κ) (q : A → Bool) (xs : List A) → All P xs → All P (select q xs)
unfolding select
All-select P q [] h = tt
All-select P q (x ∷ xs) h = elim (Bool-cases (q x)) [
  | inl e ↦ rw e (h.0, All-select P q xs h.1)
  | inr e ↦ rw e (All-select P q xs h.1)
]

All-place {κ} :
    (P : Place → Type κ) (ns : List GraphNode) → All P (map place ns) → All (λ n. P (place n)) ns
All-place P [] h = tt
All-place P (n ∷ ns) h = (h.0, All-place P ns h.1)

-- A blocked intent says why.
abbrev pub IsExplained : IntentSummary → Type 0
IsExplained i = i.state ≡ blocked → (why : String) × (i.reason ≡ some why)

module _ (g : FlowGraph) (layout : HasLayout g) where
  reached-ends :
      (ns : List GraphNode)
      → All (λ n. IsRooted (places g) (place n)) ns
      → All HasReason ns
      → (out : List IntentSummary) × (reached ns g ≡ some out) × All IsExplained out
  unfolding reached
  reached-ends [] rooted reasons = ([], refl, tt)
  reached-ends (n ∷ ns) rooted reasons =
      let (p, e) = path-ends g n layout rooted.0 in
      let (out, e', explained) = reached-ends ns rooted.1 reasons.1 in
      (summary_of n p ∷ out, rw e (rw e' refl), (reasons.0, explained))

  unreached-IsExplained :
      (casefold : String → String) (gate : GraphNode) (p : String) (seen names : List String)
      → All IsExplained (unreached casefold gate p seen names)
  unfolding unreached
  unreached-IsExplained casefold gate p seen [] = tt
  unreached-IsExplained casefold gate p seen (name ∷ names) =
      elim (Bool-cases (contains (casefold name) seen)) [
        | inl e ↦ rw e (unreached-IsExplained casefold gate p seen names)
        | inr e ↦
            rw e
              ((λ b. (_, refl)), unreached-IsExplained casefold gate p (casefold name ∷ seen) names)
      ]

  intents_open :
      (casefold : String → String) (expected : List String) (out : List IntentSummary)
      → reached (select (λ n. is_outcome n.kind) g.nodes) g ≡ some out
      → blocking_gate g ≡ none
      → intents casefold expected g ≡ some out
  unfolding intents
  intents_open casefold expected out r b = rw r (rw b refl)

  intents_blocked :
      (casefold : String → String) (expected : List String) (out : List IntentSummary)
      (gate : GraphNode) (p : String)
      → reached (select (λ n. is_outcome n.kind) g.nodes) g ≡ some out
      → blocking_gate g ≡ some gate
      → path gate g ≡ some p
      → intents casefold expected g
        ≡ some (out ++ unreached casefold gate p (map (λ i. casefold i.name) out) expected)
  unfolding intents
  intents_blocked casefold expected out gate p r b e = rw r (rw b (rw e refl))

  intents-ends :
      (casefold : String → String) (expected : List String)
      → All HasReason g.nodes
      → (out : List IntentSummary) × (intents casefold expected g ≡ some out) × All IsExplained out
  intents-ends casefold expected reasons =
      let rooted = All-place (IsRooted (places g)) g.nodes layout.rooted in
      let (out, r, explained) =
        reached-ends (select (λ n. is_outcome n.kind) g.nodes)
          (All-select _ (λ n. is_outcome n.kind) g.nodes rooted)
          (All-select HasReason (λ n. is_outcome n.kind) g.nodes reasons) in
      elim (Option-cases (blocking_gate g)) [
        | inl b ↦ (out, intents_open casefold expected out r b, explained)
        | inr (gate, b) ↦
            let (p, e) = path-ends g gate layout (gate_rooted rooted gate b) in
            (
              _,
              intents_blocked casefold expected out gate p r b e,
              All-append IsExplained out _ explained
                  (unreached-IsExplained casefold gate p (map (λ i. casefold i.name) out) expected),
            )
      ]
    where
      gate_rooted :
          All (λ n. IsRooted (places g) (place n)) g.nodes
          → (gate : GraphNode) → blocking_gate g ≡ some gate
          → IsRooted (places g) (place gate)
      gate_rooted rooted gate b =
          All-found (λ n. IsRooted (places g) (place n)) (λ n. is_gate n.kind && is_blocked n.state)
            g.nodes gate rooted (unfold blocking_gate in b)

-- After the call, the intents can be listed for whatever names were expected: no parent is missing on
-- any path, and each intent that is blocked has a reason.
pub Explored-intents :
    (casefold : String → String) (expected : List String) (g : FlowGraph)
    → Explored g
    → (out : List IntentSummary) × (intents casefold expected (finalize g).graph ≡ some out)
      × All IsExplained out
Explored-intents casefold expected g e =
    intents-ends (finalize g).graph
      (IsUnmoved-HasLayout g (finalize g).graph (finalize-IsUnmoved g) (Explored-HasLayout g e))
      casefold expected (All-map (λ n f. f.reason) _ (Explored-finalize g e))
