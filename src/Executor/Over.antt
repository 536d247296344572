-- ===== src/Executor/Over.antt =====
-- Every way in which a call of app/engine/executor ends leaves a run that is over, unless it was ended by
-- somebody else before.
use qa_test_backend.Prelude.{
  ℕ, ◌≡◌, refl, sym, ap, subst, Option, none, some, Bool, true, false, List, [], ◌∷◌, ◌++◌, String,
  arith, any, Option-cases, Bool-cases, inl, inr, ◌⊎◌, map, ◌>>=◌, List-cases,
}
use qa_test_backend.Verdict.{is_terminal, completed, cancelled, RunStatus}
use qa_test_backend.Store.Payload.{Event, DiscoveryResult}
use qa_test_backend.Store.{Db, Run, EndReason, RunMetrics, find_run}
use qa_test_backend.Reaper.{is_executing}
use qa_test_backend.Materialize.{materialize_run}
use qa_test_backend.Runner.{partial_done}
use qa_test_backend.Stream.{ends_stream, has_ended}
use qa_test_backend.Executor.{set_finished, may_finish, finish_run, or_failed, end_reason_for}
use qa_test_backend.Executor.Ending.{EndsRun}
use qa_test_backend.Executor.Log.{IsOver, fail_run-IsOver, finish_run-IsOver}
use qa_test_backend.Executor.Tables.{
  materialize_run-WritesTables, write_graded-WritesTables, materialize_both-WritesTables,
}
use qa_test_backend.Executor.Simulation.{
  AssertionSpec, CallReport, Scored, finish_call, finish_cancelled, finish_scored, scored_events,
  assertion_event, metric_event,
}
use qa_test_backend.Redteam.Judge.{GradedAttack}
use qa_test_backend.Executor.Redteam.{
  AttackReport, finish_attack, finish_graded, graded_events, write_graded, insert_finding,
}
use qa_test_backend.Discovery.Graph.{FlowGraph}
use qa_test_backend.Discovery.Graph.Observe.{Observed}
use qa_test_backend.Discovery.Graph.Finish.{IntentSummary, intents, finalize}
use qa_test_backend.Discovery.Explorer.{ExplorerCaller}
use qa_test_backend.Executor.Discovery.{
  finish_discovery, finish_cancelled_call, finish_mapped, materialize_both, mapped_events,
  node_frames, intent_frames, failure_events, summarize,
}

set_finished-EndsRun :
    (now : ℕ) (status : RunStatus) (reason : EndReason) (metrics : RunMetrics)
    → is_terminal status ≡ true
    → EndsRun (set_finished now status reason metrics)
set_finished-EndsRun now status reason metrics t = record { same_id = λ r. refl; ended = λ r. t }

any-last :
    (p : Event → Bool) (es : List Event) (e : Event) → p e ≡ true → any p (es ++ e ∷ []) ≡ true
unfolding any
any-last p [] e h = ground (arith, h)
any-last p (f ∷ es) e h = ground (arith, any-last p es e h)

-- What may have happened to a run that its executor ends: nothing, or a cancel that the executor has seen.
abbrev pub MayEnd : Bool → Run → Type 0
MayEnd was_cancelled row =
    (is_executing row.status ≡ true) ⊎ (was_cancelled ≡ true) × (row.status ≡ cancelled)

may_finish_executing : (s : RunStatus) → is_executing s ≡ true → may_finish s ≡ true
may_finish_executing s h = ground (arith, h)

MayEnd-may_finish : (b : Bool) (row : Run) → MayEnd b row → may_finish row.status ≡ true
MayEnd-may_finish b row (inl e) = may_finish_executing row.status e
MayEnd-may_finish b row (inr (c, e)) = rw e refl

finish_cancelled-IsOver :
    (now i : ℕ) (code message : String) (reason : EndReason) (r : CallReport) (db : Db) (row : Run)
    → find_run i db ≡ some row
    → may_finish row.status ≡ true
    → IsOver i (or_failed now i code message db (finish_cancelled now i reason r.clock db))
unfolding finish_cancelled
finish_cancelled-IsOver now i code message reason r db row found may =
    finish_run-IsOver may_finish (materialize_run i) _ (Event.done partial_done ∷ []) now i db code
      message row (materialize_run-WritesTables i)
      (set_finished-EndsRun now cancelled reason _ refl) (unfold any in refl) found may

MayEnd-executing :
    (b : Bool) (row : Run) → b ≡ false → MayEnd b row → is_executing row.status ≡ true
MayEnd-executing b row e (inl h) = h
MayEnd-executing b row e (inr (c, h)) = ground (arith, e, c)

finish_scored-IsOver :
    (now i : ℕ) (code message : String) (specs : List AssertionSpec) (s : Scored)
    (reason : EndReason) (r : CallReport) (db : Db) (row : Run)
    → find_run i db ≡ some row
    → is_executing row.status ≡ true
    → IsOver i
        (or_failed now i code message db (finish_scored now i specs s reason r.clock r.turns db))
unfolding finish_scored scored_events
finish_scored-IsOver now i code message specs s reason r db row found may =
    finish_run-IsOver is_executing (materialize_run i) _ _ now i db code message row
      (materialize_run-WritesTables i) (set_finished-EndsRun now completed reason _ refl)
      (any-last ends_stream
        (map (assertion_event specs) s.verdict.assertions
          ++ map (metric_event s.metric_names) s.outcomes)
        _ refl)
      found may

-- However a call of a simulation ends, if its run is live then, or is cancelled and the executor has seen
-- it, the run has ended after the executor's last transaction and its log has an event that ends the
-- stream: also when the judge, the metrics or the writing of the read tables raise.
pub finish_call-IsOver :
    (now i : ℕ) (specs : List AssertionSpec) (r : CallReport) (db : Db) (row : Run)
    → find_run i db ≡ some row
    → MayEnd r.was_cancelled row
    → IsOver i (finish_call now i specs r db)
unfolding finish_call
finish_call-IsOver now i specs r db row found may = elim (Bool-cases r.was_cancelled) [
  | inl c ↦ rw c (
      finish_cancelled-IsOver now i _ _ _ r db row found
        (MayEnd-may_finish r.was_cancelled row may))
  | inr c ↦ rw c (elim (Option-cases r.scored) [
    | inl e ↦ rw e (fail_run-IsOver now i _ _ db row found)
    | inr (s, e) ↦ rw e (
        finish_scored-IsOver now i _ _ specs s _ r db row found
          (MayEnd-executing r.was_cancelled row c may))
  ])
]

finish_scored_refused :
    (now i : ℕ) (specs : List AssertionSpec) (s : Scored) (reason : EndReason) (r : CallReport)
    (db : Db) (row : Run)
    → find_run i db ≡ some row
    → row.status ≡ cancelled
    → finish_scored now i specs s reason r.clock r.turns db ≡ some db
unfolding finish_scored finish_run
finish_scored_refused now i specs s reason r db row found c = ground (arith, found, c)

-- When a run is cancelled after its call has ended, so that the executor has not seen it, and the call is
-- scored, the executor's last transaction changes nothing at all: a log that has no event that ends the
-- stream gets none, and the row stays as the cancel left it.
pub finish_call-stranded :
    (now i : ℕ) (specs : List AssertionSpec) (r : CallReport) (s : Scored) (db : Db) (row : Run)
    → find_run i db ≡ some row
    → row.status ≡ cancelled
    → r.was_cancelled ≡ false
    → r.scored ≡ some s
    → has_ended i db.events ≡ false
    → (finish_call now i specs r db ≡ db)
      × (has_ended i (finish_call now i specs r db).events ≡ false)
      × (find_run i (finish_call now i specs r db) ≡ some row)
finish_call-stranded now i specs r s db row found c unseen scored open_ =
    let same : finish_call now i specs r db ≡ db =
      unfold finish_call in
      rw (unseen, scored)
        (ap (or_failed now i "scoring_failed" "final scoring failed" db)
          (finish_scored_refused now i specs s _ r db row found c)) in
    (
      same,
      subst (λ d. has_ended i d.events ≡ false) (sym same) open_,
      subst (λ d. find_run i d ≡ some row) (sym same) found,
    )

finish_graded-IsOver :
    (encrypt : String → Option String) (now i : ℕ) (code message category : String)
    (g : GradedAttack) (said : String × String) (reason : EndReason) (r : CallReport) (turns : ℕ)
    (db : Db) (row : Run)
    → find_run i db ≡ some row
    → may_finish row.status ≡ true
    → IsOver i (
        or_failed now i code message db
          (finish_graded encrypt now i category g said reason r.clock turns db))
unfolding finish_graded
finish_graded-IsOver encrypt now i code message category g said reason r turns db row found may =
    finish_run-IsOver may_finish (write_graded i (insert_finding encrypt i category g said)) _
      (graded_events category g said) now i db code message row
      (write_graded-WritesTables i (insert_finding encrypt i category g said))
      (set_finished-EndsRun now completed reason _ refl)
      (unfold any in unfold graded_events in refl) found may

-- However a red-team call ends, if its run is live or cancelled then, it has ended after the executor's
-- last transaction and its log has an event that ends the stream, also when the attack was never
-- delivered, could not be graded, or its finding could not be encrypted.
pub finish_attack-IsOver :
    (strip : String → String) (now i : ℕ) (a : AttackReport) (db : Db) (row : Run)
    → find_run i db ≡ some row
    → may_finish row.status ≡ true
    → IsOver i (finish_attack strip now i a db)
unfolding finish_attack
finish_attack-IsOver strip now i a db row found may = elim (Bool-cases a.report.was_cancelled) [
  | inl c ↦ rw c (finish_cancelled-IsOver now i _ _ _ a.report db row found may)
  | inr c ↦ rw c (elim (List-cases a.attacker.attack_lines) [
    | inl e ↦ rw e (fail_run-IsOver now i _ _ db row found)
    | inr (l, ls, e) ↦ rw e (elim (Option-cases a.graded) [
      | inl n ↦ rw n (fail_run-IsOver now i _ _ db row found)
      | inr (g, n) ↦
          rw n
            (finish_graded-IsOver a.encrypt now i _ _ a.category g _ _ a.report _ db row found may)
    ])
  ])
]

finish_cancelled_call-IsOver :
    (now i : ℕ) (code message : String) (reason : EndReason) (r : CallReport) (db : Db) (row : Run)
    → find_run i db ≡ some row
    → may_finish row.status ≡ true
    → IsOver i (or_failed now i code message db (finish_cancelled_call now i reason r db))
unfolding finish_cancelled_call
finish_cancelled_call-IsOver now i code message reason r db row found may =
    finish_run-IsOver may_finish (materialize_both i) _ (Event.done partial_done ∷ []) now i db code
      message row (materialize_both-WritesTables i)
      (set_finished-EndsRun now cancelled reason _ refl) (unfold any in refl) found may

mapped_events_end :
    (g : FlowGraph) (keys : List String) (is : List IntentSummary) (failure : Option String)
    (d : DiscoveryResult)
    → any ends_stream (mapped_events g keys is failure d) ≡ true
unfolding mapped_events
mapped_events_end g keys is failure d =
    any-last ends_stream (node_frames g keys ++ intent_frames is ++ failure_events failure) _ refl

module _ (casefold : String → String) (now i : ℕ) (code message : String) (db : Db) where
  finish_mapped-IsOver :
      (reason : EndReason) (r : CallReport) (c : ExplorerCaller) (o : Observed)
      (is : List IntentSummary) (row : Run)
      → find_run i db ≡ some row
      → may_finish row.status ≡ true
      → IsOver i (or_failed now i code message db (finish_mapped casefold now i reason r c o is db))
  unfolding finish_mapped
  finish_mapped-IsOver reason r c o is row found may =
      finish_run-IsOver may_finish (materialize_both i) _
        (mapped_events o.graph o.changed is c.failure (summarize casefold o.graph is c)) now i db
        code message row (materialize_both-WritesTables i)
        (set_finished-EndsRun now completed _ _ refl)
        (mapped_events_end o.graph o.changed is c.failure (summarize casefold o.graph is c)) found
        may

  -- A step that may raise before the last transaction.
  after_step {ℓ} :
      {A : Type ℓ} (o : Option A) (f : A → Option Db) (row : Run)
      → find_run i db ≡ some row
      → ((a : A) → IsOver i (or_failed now i code message db (f a)))
      → IsOver i (or_failed now i code message db (o >>= f))
  after_step none f row found h = fail_run-IsOver now i code message db row found
  after_step (some a) f row found h = h a

-- However a discovery call ends, if its run is live or cancelled then, it has ended after the executor's
-- last transaction and its log has an event that ends the stream, also when the agent never spoke or the
-- map could not be written.
pub finish_discovery-IsOver :
    (casefold : String → String) (now i : ℕ) (r : CallReport) (c : ExplorerCaller) (db : Db)
    (row : Run)
    → find_run i db ≡ some row
    → may_finish row.status ≡ true
    → IsOver i (finish_discovery casefold now i r c db)
unfolding finish_discovery
finish_discovery-IsOver casefold now i r c db row found may = elim (Bool-cases r.was_cancelled) [
  | inl e ↦ rw e (
      after_step casefold now i failed not_recorded db listed
        (λ is. finish_cancelled_call now i (end_reason_for r.end_reason true) r db) row found
        (λ is. finish_cancelled_call-IsOver now i failed not_recorded _ r db row found may))
  | inr e ↦ rw e (elim (List-cases c.graph.nodes) [
    | inl n ↦ rw n (fail_run-IsOver now i _ _ db row found)
    | inr (n, ns, k) ↦ rw k (
        after_step casefold now i failed not_recorded db listed
          (λ is.
            finish_mapped casefold now i (end_reason_for r.end_reason r.was_cancelled) r c
              (finalize c.graph) is db)
          row found
          (λ is.
            finish_mapped-IsOver casefold now i failed not_recorded db _ r c (finalize c.graph) is
              row found may))
  ])
]
  where
    failed : String
    failed = "finalize_failed"

    not_recorded : String
    not_recorded = "could not record the discovery result"

    listed : Option (List IntentSummary)
    listed = intents casefold c.candidates (finalize c.graph).graph
