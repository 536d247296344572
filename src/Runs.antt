-- ===== src/Runs.antt =====
-- app/api/runs.py: `_reduce_events`, which builds the detail view of a run from its log. The printing of a
-- latency and of the turn at which an assertion was triggered are parameters.
pub mod Agrees
pub mod Create
pub mod Rerun
use mathlib.Core.Option
use qa_test_backend.Prelude.{
  ℕ, Option, none, some, Bool, List, [], ◌∷◌, ◌++◌, String, text_eq, if◌then◌else◌,
}
use qa_test_backend.Store.Payload.{
  Event, Role, TurnData, AssertionData, MetricsData, turn, assertion, metrics,
}
use qa_test_backend.Store.{EventRow}
use qa_test_backend.Materialize.{upsert}

-- `TranscriptTurn` of app/schemas/runs.py
pub record ShownTurn : Type 0 where
  pub role : Role
  pub text : String
  pub lat : Option String
  pub flag : Bool
  pub flag_text : Option String

pub record ResultAssertion : Type 0 where
  pub text : String
  pub detail : String
  pub ok : Bool

-- The four locals of `_reduce_events`; the dict is a list of entries in the order of its keys.
pub record Detail : Type 0 where
  pub transcript : List ShownTurn
  pub assertions_by_id : List (String × ResultAssertion)
  pub latency_series : List ℕ
  pub latest_metrics_event : Option MetricsData

abbrev pub no_events : Detail
no_events = record {
  transcript = [];
  assertions_by_id = [];
  latency_series = [];
  latest_metrics_event = none;
}

abbrev pub has_entry : String → String × ResultAssertion → Bool
has_entry id entry = text_eq entry.0 id

abbrev pub listed : Option ℕ → List ℕ
listed none = []
listed (some n) = n ∷ []

-- `show_ms` is `f"{round(latency_ms)}ms"` and `show_turn` is `f"Triggered at turn {triggered_at_turn}"`.
module _ (show_ms : ℕ → String) (show_turn : ℕ → String) where
  abbrev pub shown_turn : TurnData → ShownTurn
  shown_turn d = record {
    role = d.role;
    text = d.text;
    lat = Option.map show_ms d.latency_ms;
    flag = d.flagged;
    flag_text = d.flag_reason;
  }

  abbrev pub triggered : Option ℕ → String
  triggered none = ""
  triggered (some n) = show_turn n

  abbrev pub detail_of : Option String → Option ℕ → String
  detail_of none at = triggered at
  detail_of (some note) at = if text_eq note "" then triggered at else note

  abbrev pub shown_assertion : AssertionData → ResultAssertion
  shown_assertion d = record {
    text = d.name;
    detail = detail_of d.note d.triggered_at_turn;
    ok = d.ok;
  }

  unfoldable pub reduce_event : Event → Detail → Detail
  unfolding upsert
  reduce_event (turn d) v = record v {
    transcript = v.transcript ++ shown_turn d ∷ [];
    latency_series = v.latency_series ++ listed d.latency_ms;
  }
  reduce_event (assertion d) v = record v {
    assertions_by_id =
        upsert (has_entry d.assertion_id) (d.assertion_id, shown_assertion d) v.assertions_by_id;
  }
  reduce_event (metrics d) v = record v { latest_metrics_event = some d }
  reduce_event _ v = v

  unfoldable pub reduce_events : List EventRow → Detail → Detail
  unfolding reduce_event
  reduce_events [] v = v
  reduce_events (row ∷ rows) v = reduce_events rows (reduce_event row.event v)
