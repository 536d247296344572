-- ===== src/Discovery/Graph/Paths.antt =====
-- `_path` of app/engine/discovery/graph.py ends, at a root, for every node of the graph.
use qa_test_backend.Prelude.{
  ℕ, zero, suc, ◌+◌, ◌≡◌, inl, inr, refl, sym, ap, ◌∙◌, subst, some, Bool, true, false, List, [],
  ◌∷◌, map, find, arith, All, length, length-append, append_nil, ◌++◌, none, String, Bool-cases,
}
use mathlib.Core.Option.{some-injective}
use qa_test_backend.Discovery.Graph.{GraphNode, FlowGraph, has_key, node_at}
use qa_test_backend.Discovery.Graph.Places.{Place, place, places}
use qa_test_backend.Discovery.Graph.Layout.{at_key, find-place, IsRooted, HasLayout}
use qa_test_backend.Discovery.Graph.Finish.{labels_up, join_arrows, path}

find_hit {ℓ} :
    {A : Type ℓ} (test : A → Bool) (x : A) (xs : List A)
    → test x ≡ true
    → find test (x ∷ xs) ≡ some x
unfolding find
find_hit test x xs h = rw h

find_miss {ℓ} :
    {A : Type ℓ} (test : A → Bool) (x : A) (xs : List A)
    → test x ≡ false
    → find test (x ∷ xs) ≡ find test xs
unfolding find
find_miss test x xs h = rw h

pub All-found {ℓ κ} :
    {A : Type ℓ} (P : A → Type κ) (test : A → Bool) (xs : List A) (x : A)
    → All P xs
    → find test xs ≡ some x
    → P x
All-found P test [] x h e = absurd (unfold find in ground arith)
All-found P test (y ∷ xs) x h e = elim (Bool-cases (test y)) [
  | inl here ↦ subst P (some-injective y x (sym (find_hit test y xs here) ∙ e)) h.0
  | inr later ↦ All-found P test xs x h.1 (sym (find_miss test y xs later) ∙ e)
]

node_of-place :
    (k : String) (ns : List GraphNode) (q : Place)
    → find (at_key k) (map place ns) ≡ some q
    → (m : GraphNode) × (find (has_key k) ns ≡ some m) × (place m ≡ q)
node_of-place k [] q e = absurd (unfold find in ground arith)
node_of-place k (n ∷ ns) q e = elim (Bool-cases (has_key k n)) [
  | inl here ↦ (
    n,
    find_hit (has_key k) n ns here,
    some-injective (place n) q (sym (find_hit (at_key k) (place n) (map place ns) here) ∙ e),
  )
  | inr later ↦
      let (m, found, same) =
        node_of-place k ns q (sym (find_miss (at_key k) (place n) (map place ns) later) ∙ e) in
      (m, find_miss (has_key k) n ns later ∙ found, same)
]

-- The nodes from a root down to a node: the first has no parent, and each other one has the one before it
-- for its parent.
pub data IsLineage (g : FlowGraph) : GraphNode → List GraphNode → Type 0 where
  root : {n : GraphNode} → n.parent ≡ none → IsLineage g n (n ∷ [])
  child :
      {n m : GraphNode} {ms : List GraphNode} (k : String)
      → n.parent ≡ some k
      → node_at k g ≡ some m
      → IsLineage g m ms
      → IsLineage g n (ms ++ n ∷ [])

abbrev pub labels : List GraphNode → List String
labels ns = map (λ n. n.label) ns

labels-snoc :
    (ms : List GraphNode) (n : GraphNode) (below : List String)
    → labels ms ++ n.label ∷ below ≡ labels (ms ++ n ∷ []) ++ below
labels-snoc [] n below = refl
labels-snoc (m ∷ ms) n below = ap (λ ls. m.label ∷ ls) (labels-snoc ms n below)

labels_step :
    (fuel : ℕ) (n m : GraphNode) (g : FlowGraph) (below : List String) (k : String)
    → n.parent ≡ some k
    → node_at k g ≡ some m
    → labels_up (suc fuel) n g below ≡ labels_up fuel m g (n.label ∷ below)
unfolding labels_up
labels_step fuel n m g below k up found = ground arith

-- The climb ends with as much fuel as the node is deep.
labels_up-ends :
    (fuel : ℕ) (n : GraphNode) (g : FlowGraph) (below : List String)
    → HasLayout g
    → IsRooted (places g) (place n)
    → n.depth ≡ fuel
    → (ns : List GraphNode) × IsLineage g n ns
      × (labels_up fuel n g below ≡ some (labels ns ++ below))
      × (length ns ≡ fuel + 1)
labels_up-ends zero n g below l (inl (top, d)) e =
    (n ∷ [], root top, unfold labels_up in rw top, omega arith)
labels_up-ends (suc fuel) n g below l (inl (top, d)) e = absurd (omega (arith, d, e))
labels_up-ends zero n g below l (inr (k, q, up, there, d)) e = absurd (omega (arith, d, e))
labels_up-ends (suc fuel) n g below l (inr (k, q, up, there, d)) e =
    let (m, found, same) = node_of-place k g.nodes q there in
    let rooted : IsRooted (places g) (place m) =
      subst (IsRooted (places g)) (sym same)
        (All-found (IsRooted (places g)) (at_key k) (places g) q l.rooted there) in
    let depth : m.depth ≡ q.depth = ap (λ p. p.depth) same in
    let (ms, line, ends, count) =
      labels_up-ends fuel m g (n.label ∷ below) l rooted (omega (arith, depth, d, e)) in
    (
      ms ++ n ∷ [],
      child k up found line,
      labels_step fuel n m g below k up found ∙ ends ∙ ap some (labels-snoc ms n below),
      omega (arith, count, length-append ms (n ∷ [])),
    )

path_of-lineage :
    (g : FlowGraph) (n : GraphNode) (ns : List GraphNode)
    → labels_up n.depth n g [] ≡ some (labels ns ++ [])
    → path n g ≡ some (join_arrows (labels ns))
unfolding path
path_of-lineage g n ns ends = rw ends (rw append_nil refl)

pub path-ends :
    (g : FlowGraph) (n : GraphNode)
    → HasLayout g
    → IsRooted (places g) (place n)
    → (p : String) × (path n g ≡ some p)
path-ends g n l rooted =
    let (ns, line, ends, count) = labels_up-ends n.depth n g [] l rooted refl in
    (join_arrows (labels ns), path_of-lineage g n ns ends)

-- In a graph that has its layout (keys and positions distinct, each parent in the graph and one layer up),
-- the path of a node in the graph is found: it is the labels, joined by arrows, of the nodes from a root
-- down to that node, each the parent of the next, and there is one of them for each layer.
pub path-labels :
    (g : FlowGraph) (k : String) (n : GraphNode)
    → HasLayout g
    → node_at k g ≡ some n
    → (ns : List GraphNode) × IsLineage g n ns
      × (path n g ≡ some (join_arrows (labels ns)))
      × (length ns ≡ n.depth + 1)
path-labels g k n l found =
    let rooted =
      All-found (IsRooted (places g)) (at_key k) (places g) (place n) l.rooted
        (find-place k g.nodes n found) in
    let (ns, line, ends, count) = labels_up-ends n.depth n g [] l rooted refl in
    (ns, line, path_of-lineage g n ns ends, count)
