-- ===== src/Executor/Gapless.antt =====
-- The transactions that end a call (app/engine/executor) and the event log: its numbers keep no gap.
use qa_test_backend.Prelude.{
  ℕ, Option, none, some, true, List, [], ◌∷◌, String, Option-cases, Bool-cases, inl, inr,
  List-cases, ◌>>=◌,
}
use qa_test_backend.Store.Payload.{Event}
use qa_test_backend.Store.{Db}
use qa_test_backend.Store.Log.{IsGapless}
use qa_test_backend.Materialize.{materialize_run}
use qa_test_backend.Reaper.{is_executing}
use qa_test_backend.Runner.{partial_done}
use qa_test_backend.Discovery.Graph.Finish.{IntentSummary, intents, finalize}
use qa_test_backend.Discovery.Explorer.{ExplorerCaller}
use qa_test_backend.Executor.{may_finish, or_failed, end_reason_for}
use qa_test_backend.Executor.Log.{fail_run-IsGapless, finish_run-IsGapless}
use qa_test_backend.Executor.Tables.{
  materialize_run-WritesTables, write_graded-WritesTables, materialize_both-WritesTables,
}
use qa_test_backend.Executor.Simulation.{
  AssertionSpec, CallReport, finish_call, finish_cancelled, finish_scored, scored_events,
}
use qa_test_backend.Executor.Redteam.{
  AttackReport, finish_attack, finish_graded, attack_text, graded_events, write_graded,
  insert_finding,
}
use qa_test_backend.Executor.Discovery.{
  finish_discovery, finish_cancelled_call, finish_mapped, mapped_events, materialize_both,
  summarize,
}

module _ (now i : ℕ) (db : Db) (h : IsGapless db) where
  pub finish_call-IsGapless :
      (specs : List AssertionSpec) (r : CallReport) → IsGapless (finish_call now i specs r db)
  unfolding finish_call finish_cancelled finish_scored
  finish_call-IsGapless specs r = elim (Bool-cases r.was_cancelled) [
    | inl c ↦ rw c (
        finish_run-IsGapless may_finish (materialize_run i) _ (Event.done partial_done ∷ []) now i _
          _ db (materialize_run-WritesTables i) h)
    | inr c ↦ rw c (elim (Option-cases r.scored) [
      | inl e ↦ rw e (fail_run-IsGapless now i _ _ db h)
      | inr (s, e) ↦ rw e (
          finish_run-IsGapless is_executing (materialize_run i) _ (scored_events specs s) now i _ _
            db (materialize_run-WritesTables i) h)
    ])
  ]

  pub finish_attack-IsGapless :
      (strip : String → String) (a : AttackReport) → IsGapless (finish_attack strip now i a db)
  unfolding finish_attack finish_cancelled finish_graded
  finish_attack-IsGapless strip a = elim (Bool-cases a.report.was_cancelled) [
    | inl c ↦ rw c (
        finish_run-IsGapless may_finish (materialize_run i) _ (Event.done partial_done ∷ []) now i _
          _ db (materialize_run-WritesTables i) h)
    | inr c ↦ rw c (elim (List-cases a.attacker.attack_lines) [
      | inl e ↦ rw e (fail_run-IsGapless now i _ _ db h)
      | inr (l, ls, e) ↦ rw e (elim (Option-cases a.graded) [
        | inl n ↦ rw n (fail_run-IsGapless now i _ _ db h)
        | inr (g, n) ↦ rw n (
            finish_run-IsGapless may_finish
              (write_graded i (
                insert_finding a.encrypt i a.category g
                  (attack_text strip a.attacker a.transcript)))
              _ (graded_events a.category g (attack_text strip a.attacker a.transcript)) now i _ _
              db (write_graded-WritesTables i _) h)
      ])
    ])
  ]

  after_step {ℓ} :
      {A : Type ℓ} (code message : String) (o : Option A) (f : A → Option Db)
      → ((a : A) → IsGapless (or_failed now i code message db (f a)))
      → IsGapless (or_failed now i code message db (o >>= f))
  after_step code message none f k = fail_run-IsGapless now i code message db h
  after_step code message (some a) f k = k a

  pub finish_discovery-IsGapless :
      (casefold : String → String) (r : CallReport) (c : ExplorerCaller)
      → IsGapless (finish_discovery casefold now i r c db)
  unfolding finish_discovery finish_cancelled_call finish_mapped
  finish_discovery-IsGapless casefold r c = elim (Bool-cases r.was_cancelled) [
    | inl e ↦ rw e (
        after_step failed not_recorded listed
          (λ is. finish_cancelled_call now i (end_reason_for r.end_reason true) r db)
          (λ is.
            finish_run-IsGapless may_finish (materialize_both i) _ (Event.done partial_done ∷ [])
              now i _ _ db (materialize_both-WritesTables i) h))
    | inr e ↦ rw e (elim (List-cases c.graph.nodes) [
      | inl n ↦ rw n (fail_run-IsGapless now i _ _ db h)
      | inr (n, ns, k) ↦ rw k (
          after_step failed not_recorded listed
            (λ is.
              finish_mapped casefold now i (end_reason_for r.end_reason r.was_cancelled) r c
                (finalize c.graph) is db)
            (λ is.
              let d = summarize casefold (finalize c.graph).graph is c in
              finish_run-IsGapless may_finish (materialize_both i) _
                (mapped_events (finalize c.graph).graph (finalize c.graph).changed is c.failure d)
                now i _ _ db (materialize_both-WritesTables i) h))
    ])
  ]
    where
      failed : String
      failed = "finalize_failed"

      not_recorded : String
      not_recorded = "could not record the discovery result"

      listed : Option (List IntentSummary)
      listed = intents casefold c.candidates (finalize c.graph).graph
