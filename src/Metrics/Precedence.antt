-- ===== src/Metrics/Precedence.antt =====
-- What `resolve_metrics_for_agent` of app/engine/metrics/resolver.py promises: of the visible metrics of a
-- name, one of the most specific level.
use qa_test_backend.Prelude.{
  text_eq→≡, ℕ, ◌+◌, ◌≡◌, refl, List, [], ◌∷◌, String, arith, Bool-cases, inl, inr, ◌⊎◌,
  if◌then◌else◌, Option, none, some, find, select, any, Among, max,
}
use qa_test_backend.Metrics.Resolver.{
  MetricRow, put_metric, by_name, resolve_metrics_for_agent, level_rank, is_named, is_visible,
}

-- The highest level among the rows of a name, counted from 1, or 0 when there is none.
unfoldable pub top_level : String → List MetricRow → ℕ
top_level name [] = 0
top_level name (row ∷ rows) =
    let rest = top_level name rows in
    if is_named name row then max (level_rank row + 1) rest else rest

abbrev level_of : Option MetricRow → ℕ
level_of none = 0
level_of (some row) = level_rank row + 1

unfoldable pub occurrences : String → List MetricRow → ℕ
occurrences name [] = 0
occurrences name (row ∷ rows) = (if is_named name row then 1 else 0) + occurrences name rows

-- What is found under a name after one round, when the row has that name and when it has another.
put_metric-find :
    (name : String) (row : MetricRow) (dict : List MetricRow)
    → level_of (find (is_named name) (put_metric row dict)) ≡ (
        if is_named name row
        then max (level_rank row + 1) (level_of (find (is_named name) dict))
        else level_of (find (is_named name) dict))
unfolding put_metric find
put_metric-find name row [] = ground arith
put_metric-find name row (current ∷ rest) = elim (Bool-cases (is_named name row)) [
  | inl e ↦ ground (arith, e, text_eq→≡ row.name name e, put_metric-find name row rest)
  | inr e ↦ ground (arith, e, text_eq→≡ current.name row.name, put_metric-find name row rest)
]

put_metric-occurrences :
    (name : String) (row : MetricRow) (dict : List MetricRow)
    → occurrences name (put_metric row dict)
      ≡ (if is_named name row then max 1 (occurrences name dict) else occurrences name dict)
unfolding put_metric occurrences
put_metric-occurrences name row [] = ground arith
put_metric-occurrences name row (current ∷ rest) = elim (Bool-cases (is_named name row)) [
  | inl e ↦ ground (arith, e, text_eq→≡ row.name name e, put_metric-occurrences name row rest)
  | inr e ↦ ground (arith, e, text_eq→≡ current.name row.name, put_metric-occurrences name row rest)
]

by_name-occurrences :
    (name : String) (rows dict : List MetricRow)
    → occurrences name (by_name rows dict)
      ≡ (if any (is_named name) rows then max 1 (occurrences name dict) else occurrences name dict)
unfolding by_name any
by_name-occurrences name [] dict = refl
by_name-occurrences name (row ∷ rows) dict = ground (
  arith,
  put_metric-occurrences name row dict,
  by_name-occurrences name rows (put_metric row dict),
)

-- A row of the dict is one of the rows that were put there.
put_metric-Among :
    (r row : MetricRow) (dict : List MetricRow)
    → Among r (put_metric row dict)
    → (row ≡ r) ⊎ Among r dict
unfolding put_metric
put_metric-Among r row [] h = ground arith
put_metric-Among r row (current ∷ rest) h = ground (arith, put_metric-Among r row rest)

by_name-Among :
    (r : MetricRow) (rows dict : List MetricRow)
    → Among r (by_name rows dict)
    → Among r rows ⊎ Among r dict
unfolding by_name
by_name-Among r [] dict h = inr h
by_name-Among r (row ∷ rows) dict h = elim (by_name-Among r rows (put_metric row dict) h) [
  | inl later ↦ inl (inr later)
  | inr there ↦ elim (put_metric-Among r row dict there) [
    | inl same ↦ inl (inl same)
    | inr old ↦ inr old
  ]
]

by_name-find :
    (name : String) (rows dict : List MetricRow)
    → level_of (find (is_named name) (by_name rows dict))
      ≡ max (top_level name rows) (level_of (find (is_named name) dict))
unfolding by_name top_level
by_name-find name [] dict = omega arith
by_name-find name (row ∷ rows) dict =
    ground (arith, put_metric-find name row dict, by_name-find name rows (put_metric row dict))

-- The metrics that an agent sees: each of them is a visible one, each visible name stands once among
-- them and no other does, and the row of a name has the highest level that the name has.
pub record IsResolved (visible resolved : List MetricRow) : Type 0 where
  pub sound : (r : MetricRow) → Among r resolved → Among r visible
  pub once :
      (name : String) → occurrences name resolved ≡ (if any (is_named name) visible then 1 else 0)
  pub highest : (name : String) → level_of (find (is_named name) resolved) ≡ top_level name visible

-- Whatever rows the table has, in whatever order they come, an agent's metrics are visible ones, one for
-- each visible name, and it has the most specific level of that name: the agent's own, else the
-- project's, else a builtin.
pub resolve_metrics_for_agent-IsResolved :
    (project_id agent_id : ℕ) (rows : List MetricRow)
    → IsResolved
        (select (is_visible project_id agent_id) rows)
        (resolve_metrics_for_agent project_id agent_id rows)
unfolding resolve_metrics_for_agent
resolve_metrics_for_agent-IsResolved project_id agent_id rows = record {
  sound = λ r m. ground (arith, by_name-Among r visible [] m);
  once = λ name. unfold occurrences in by_name-occurrences name visible [];
  highest = λ name. unfold find in (let e = by_name-find name visible [] in omega (arith, e));
}
  where
    visible : List MetricRow
    visible = select (is_visible project_id agent_id) rows
