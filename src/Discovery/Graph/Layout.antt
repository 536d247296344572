-- ===== src/Discovery/Graph/Layout.antt =====
-- The layout of app/engine/discovery/graph.py: keys and positions are distinct, and each node lies one
-- layer below its parent.
use qa_test_backend.Prelude.{
  text_eq→≡, ℕ, ◌+◌, ◌<◌, ◌≡◌, ◌≢◌, ◌⊎◌, inl, inr, refl, sym, ap, ◌∙◌, subst, Option, none, some,
  Bool, List, [], ◌∷◌, ◌++◌, map, find, arith, All, All-append, All-map, find-eq-some, String,
  text_eq, ◌==◌, if◌then◌else◌, Option-cases,
}
use qa_test_backend.Discovery.Observation.{TurnObservation}
use qa_test_backend.Discovery.Graph.{
  GraphNode, FlowGraph, has_key, node_at, create, new_node, depth_below, node_at?, initial,
}
use qa_test_backend.Discovery.Graph.Observe.{observe}
use qa_test_backend.Discovery.Graph.Places.{
  Place, place, places, IsUnmoved, Grows, found, added, observe-Grows,
}

-- Two nodes differ in their keys, and in one layer in their rows.
abbrev pub IsApartFrom : Place → Place → Type 0
IsApartFrom p q = (p.key ≢ q.key) × (p.depth ≡ q.depth → p.row ≢ q.row)

abbrev pub IsApart : List Place → Type 0
IsApart [] = Unit
IsApart (p ∷ ps) = All (IsApartFrom p) ps × IsApart ps

abbrev pub at_key : String → Place → Bool
at_key key p = text_eq p.key key

-- A node with no parent lies in layer 0; another's parent is in the graph, one layer above.
abbrev pub IsRooted : List Place → Place → Type 0
IsRooted ps p =
    (p.parent ≡ none) × (p.depth ≡ 0)
    ⊎ (k : String) × (q : Place) × (p.parent ≡ some k)
      × (find (at_key k) ps ≡ some q)
      × (p.depth ≡ q.depth + 1)

pub record IsLaidOut (ps : List Place) (rows : ℕ → ℕ) : Type 0 where
  pub apart : IsApart ps
  pub below : All (λ p. p.row < rows p.depth) ps
  pub rooted : All (IsRooted ps) ps

-- `IsLaidOut` of a graph.
abbrev pub HasLayout : FlowGraph → Type 0
HasLayout g = IsLaidOut (places g) g.rows_per_depth

pub IsUnmoved-HasLayout : (g h : FlowGraph) → IsUnmoved g h → HasLayout g → HasLayout h
IsUnmoved-HasLayout g h u l =
    subst (λ ps. IsLaidOut ps h.rows_per_depth) (sym u.nodes)
      (subst (λ rows. IsLaidOut (places g) rows) (sym u.rows) l)

IsApart-snoc :
    (ps : List Place) (q : Place)
    → IsApart ps
    → All (λ p. IsApartFrom p q) ps
    → IsApart (ps ++ q ∷ [])
IsApart-snoc [] q a h = (tt, tt)
IsApart-snoc (p ∷ ps) q a h =
    (All-append (IsApartFrom p) ps (q ∷ []) a.0 (h.0, tt), IsApart-snoc ps q a.1 h.1)

find-snoc :
    (k : String) (ps : List Place) (q r : Place)
    → find (at_key k) ps ≡ some r
    → find (at_key k) (ps ++ q ∷ []) ≡ some r
unfolding find
find-snoc k [] q r h = ground arith
find-snoc k (p ∷ ps) q r h = ground (arith, find-snoc k ps q r)

pub find-place :
    (k : String) (ns : List GraphNode) (n : GraphNode)
    → find (has_key k) ns ≡ some n
    → find (at_key k) (map place ns) ≡ some (place n)
unfolding find
find-place k [] n h = ground arith
find-place k (m ∷ ns) n h = ground (arith, find-place k ns n)

map-snoc :
    (ns : List GraphNode) (n : GraphNode) → map place (ns ++ n ∷ []) ≡ map place ns ++ place n ∷ []
map-snoc [] n = refl
map-snoc (m ∷ ns) n = ap (λ ps. place m ∷ ps) (map-snoc ns n)

-- A key that the graph does not have is none of its nodes'.
absent-key :
    (k : String) (ns : List GraphNode)
    → find (has_key k) ns ≡ none
    → All (λ p. p.key ≢ k) (map place ns)
unfolding find
absent-key k [] h = tt
absent-key k (n ∷ ns) h = ground (arith, absent-key k ns)

-- The new node lies below a node of the graph, or in layer 0.
new_node-IsRooted :
    (turn_index : ℕ) (obs : TurnObservation) (parent_key : Option String) (g : FlowGraph)
    → IsRooted
        (places g ++ place (new_node turn_index obs (node_at? parent_key g) g) ∷ [])
        (place (new_node turn_index obs (node_at? parent_key g) g))
unfolding new_node
new_node-IsRooted turn_index obs none g = inl (refl, refl)
new_node-IsRooted turn_index obs (some k) g = elim (Option-cases (node_at k g)) [
  | inl e ↦ rw e (inl (refl, refl))
  | inr (m, e) ↦
      let same : m.key ≡ k = text_eq→≡ m.key k (find-eq-some (has_key k) m g.nodes e) in
      let there : find (at_key m.key) (places g) ≡ some (place m) =
        subst (λ j. find (at_key j) (places g) ≡ some (place m)) (sym same)
          (find-place k g.nodes m e) in
      rw e (inr (m.key, place m, refl, find-snoc m.key (places g) _ (place m) there, refl))
]

new_apart :
    (ps : List Place) (rows : ℕ → ℕ) (q : Place)
    → All (λ p. p.key ≢ q.key) ps
    → All (λ p. p.row < rows p.depth) ps
    → q.row ≡ rows q.depth
    → All (λ p. IsApartFrom p q) ps
new_apart [] rows q keys below e = tt
new_apart (p ∷ ps) rows q keys below e =
    ((keys.0, λ same. apart_rows same), new_apart ps rows q keys.1 below.1 e)
  where
    apart_rows : p.depth ≡ q.depth → p.row ≢ q.row
    apart_rows same =
        let row : rows p.depth ≡ rows q.depth = ap rows same in ground (arith, row, below.0, e)

below_grown :
    (d : ℕ) (rows : ℕ → ℕ) (ps : List Place)
    → All (λ p. p.row < rows p.depth) ps
    → All (λ p. p.row < (if p.depth == d then rows d + 1 else rows p.depth)) ps
below_grown d rows ps h = All-map (λ p b. one p b) ps h
  where
    one :
        (p : Place)
        → p.row < rows p.depth
        → p.row < (if p.depth == d then rows d + 1 else rows p.depth)
    one p b = ground (arith, b)

IsRooted-snoc : (ps : List Place) (q p : Place) → IsRooted ps p → IsRooted (ps ++ q ∷ []) p
IsRooted-snoc ps q p (inl top) = inl top
IsRooted-snoc ps q p (inr (k, r, e, there, d)) = inr (k, r, e, find-snoc k ps q r there, d)

create-HasLayout :
    (turn_index : ℕ) (obs : TurnObservation) (parent_key : Option String) (g : FlowGraph)
    → node_at obs.node_key g ≡ none
    → HasLayout g
    → HasLayout (create turn_index obs parent_key g)
unfolding create new_node
create-HasLayout turn_index obs parent_key g fresh l =
    let n = new_node turn_index obs (node_at? parent_key g) g in
    let d = depth_below (node_at? parent_key g) in
    rw (map-snoc g.nodes n) (record {
      apart = IsApart-snoc (places g) (place n) l.apart (
          new_apart (places g) g.rows_per_depth (place n) (absent-key obs.node_key g.nodes fresh)
            l.below refl);
      below =
          All-append _ (places g) (place n ∷ []) (below_grown d g.rows_per_depth (places g) l.below)
            (ground arith, tt);
      rooted =
          All-append _ (places g) (place n ∷ [])
            (All-map (IsRooted-snoc (places g) (place n)) (places g) l.rooted)
            (new_node-IsRooted turn_index obs parent_key g, tt);
    })

Grows-HasLayout :
    (turn_index : ℕ) (g h : FlowGraph) → Grows turn_index g h → HasLayout g → HasLayout h
Grows-HasLayout turn_index g h (found u) l = IsUnmoved-HasLayout g h u l
Grows-HasLayout turn_index g h (added obs parent fresh u) l =
    IsUnmoved-HasLayout (create turn_index obs parent g) h u
      (create-HasLayout turn_index obs parent g fresh l)

-- However an observation is classified, the graph keeps its layout: no two nodes have one key or one
-- position, the next free row of each layer lies below all of its nodes, and each node is in layer 0
-- with no parent or one layer below its parent, which is in the graph.
pub observe-HasLayout :
    (turn_index : ℕ) (raw : TurnObservation) (g : FlowGraph)
    → HasLayout g
    → HasLayout (observe turn_index raw g).graph
observe-HasLayout turn_index raw g l =
    Grows-HasLayout turn_index g _ (observe-Grows turn_index raw g) l

pub initial-HasLayout : HasLayout initial
unfolding initial
initial-HasLayout = record { apart = tt; below = tt; rooted = tt }

-- An observation moves no node: the nodes keep their order, layers, rows and parents, and at most one
-- new node, first seen in this turn, is put behind them.
pub observe-places :
    (turn_index : ℕ) (raw : TurnObservation) (g : FlowGraph)
    → let h = (observe turn_index raw g).graph in
      (places h ≡ places g)
      ⊎ (p : Place) × (places h ≡ places g ++ p ∷ []) × (p.first_turn ≡ turn_index)
observe-places turn_index raw g = elim (observe-Grows turn_index raw g) [
  | found u ↦ inl u.nodes
  | added obs parent fresh u ↦
      let n = new_node turn_index obs (node_at? parent g) g in
      inr (place n, u.nodes ∙ created obs parent, new_turn obs (node_at? parent g))
]
  where
    created :
        (obs : TurnObservation) (parent : Option String)
        → places (create turn_index obs parent g)
          ≡ places g ++ place (new_node turn_index obs (node_at? parent g) g) ∷ []
    created obs parent =
        unfold create in map-snoc g.nodes (new_node turn_index obs (node_at? parent g) g)

    new_turn :
        (obs : TurnObservation) (above : Option GraphNode)
        → (place (new_node turn_index obs above g)).first_turn ≡ turn_index
    new_turn obs above = unfold new_node in refl
