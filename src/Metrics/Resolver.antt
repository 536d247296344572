-- ===== src/Metrics/Resolver.antt =====
-- app/engine/metrics/resolver.py: which metrics an agent sees. A row of `metrics` has the columns that
-- the resolver and the compiler read; of `spec` they are the threshold, in thousandths, and the code.
use qa_test_backend.Prelude.{
  ℕ, Option, Bool, List, [], ◌∷◌, ◌&&◌, ◌||◌, not, String, text_eq, select, ltb, is_some, is_id,
  if◌then◌else◌,
}

pub data MetricKind : Type 0 where
  llm_judge builtin_code python : MetricKind

pub data OutputType : Type 0 where
  numeric boolean enum tri_state : OutputType

pub record MetricRow : Type 0 where
  pub id : ℕ
  pub project_id : Option ℕ
  pub agent_id : Option ℕ
  pub name : String
  pub kind : MetricKind
  pub output_type : OutputType
  pub threshold : Option ℕ
  pub code : Option String
  pub sampling_pct : ℕ
  pub is_active : Bool
  pub version : ℕ
  pub is_builtin : Bool

-- `_VISIBLE_METRICS_SQL`; a column that is null equals nothing.
abbrev pub is_visible : ℕ → ℕ → MetricRow → Bool
is_visible project_id agent_id row =
    row.is_active
    && (row.is_builtin
        || (is_id row.project_id project_id && not (is_some row.agent_id))
        || (is_id row.project_id project_id && is_id row.agent_id agent_id))

-- `source_level`
pub data SourceLevel : Type 0 where
  builtin project agent : SourceLevel

unfoldable pub source_level : MetricRow → SourceLevel
source_level row =
    if row.is_builtin then builtin else if is_some row.agent_id then agent else project

-- `_LEVEL_RANK`
abbrev pub rank : SourceLevel → ℕ
rank builtin = 0
rank project = 1
rank agent = 2

abbrev pub level_rank : MetricRow → ℕ
unfolding source_level
level_rank row = rank (source_level row)

abbrev pub outranks : MetricRow → MetricRow → Bool
unfolding source_level
outranks row current = ltb (level_rank current) (level_rank row)

abbrev pub is_named : String → MetricRow → Bool
is_named name row = text_eq row.name name

-- One round of the loop: the dict by name, as the list of its values in insertion order.
unfoldable pub put_metric : MetricRow → List MetricRow → List MetricRow
unfolding source_level
put_metric row [] = row ∷ []
put_metric row (current ∷ rest) =
    let later = put_metric row rest in
    if is_named row.name current
    then (if outranks row current then row ∷ rest else current ∷ rest)
    else current ∷ later

unfoldable pub by_name : List MetricRow → List MetricRow → List MetricRow
unfolding put_metric
by_name [] dict = dict
by_name (row ∷ rows) dict = by_name rows (put_metric row dict)

unfoldable pub resolve_metrics_for_agent : ℕ → ℕ → List MetricRow → List MetricRow
unfolding by_name
resolve_metrics_for_agent project_id agent_id rows =
    by_name (select (is_visible project_id agent_id) rows) []
