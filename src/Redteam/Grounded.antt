-- ===== src/Redteam/Grounded.antt =====
-- What `AttackJudge.grade` of app/engine/redteam/judge.py promises: no leak without a quote of the agent.
use qa_test_backend.Prelude.{
  append_assoc, ℕ, suc, ◌≡◌, refl, sym, subst, Option, none, some, Bool, true, false, List, [], ◌∷◌,
  ◌++◌, String, arith, All, All-append, Bool-cases, Option-cases, inl, inr, ◌⊎◌, get_elem?, is_some,
  length, ltb, ◌+◌, ◌∙◌, length-append, not, ◌&&◌, text_eq, ◌>>=◌,
}
use mathlib.Core.Option.{some-injective}
use qa_test_backend.Metrics.Compiler.{TranscriptTurn, is_agent}
use qa_test_backend.Redteam.Attacker.{is_held}
use qa_test_backend.Redteam.Judge.{
  AttackVerdict, GradedAttack, Indexed, runs_from, close_run, indices, last_run, touched,
  first_match, locate_evidence, last_agent_reply, refs_of, settle, grade, joined, quotes,
  settle_unless_held, grade_answer, settled,
}

-- The index of a turn of the agent.
abbrev pub IsAgentTurn : List TranscriptTurn → ℕ → Type 0
IsAgentTurn transcript i =
    (t : TranscriptTurn) × (get_elem? transcript i ≡ some t) × (is_agent t.role ≡ true)

abbrev OfAgent : List TranscriptTurn → List Indexed → Type 0
OfAgent transcript run = All (λ t. IsAgentTurn transcript t.index) run

get_elem?-append :
    (xs ys : List TranscriptTurn) (t : TranscriptTurn)
    → get_elem? (xs ++ t ∷ ys) (length xs) ≡ some t
get_elem?-append [] ys t = refl
get_elem?-append (x ∷ xs) ys t = get_elem?-append xs ys t

close_run-OfAgent :
    (transcript : List TranscriptTurn) (run : List Indexed) (runs : List (List Indexed))
    → OfAgent transcript run
    → All (OfAgent transcript) runs
    → All (OfAgent transcript) (close_run run runs)
close_run-OfAgent transcript [] runs h k = k
close_run-OfAgent transcript (t ∷ ts) runs h k = (h, k)

-- The turn after those that were seen stands at their number.
next_turn-IsAgentTurn :
    (transcript seen ts : List TranscriptTurn) (t : TranscriptTurn) (i : ℕ)
    → transcript ≡ seen ++ t ∷ ts
    → i ≡ length seen
    → is_agent t.role ≡ true
    → IsAgentTurn transcript i
next_turn-IsAgentTurn transcript seen ts t i e n a = (t, rw (e, n) (get_elem?-append seen ts t), a)

runs_from-OfAgent :
    (transcript seen : List TranscriptTurn) (i : ℕ) (run : List Indexed)
    (rest : List TranscriptTurn)
    → transcript ≡ seen ++ rest
    → i ≡ length seen
    → OfAgent transcript run
    → All (OfAgent transcript) (runs_from i run rest)
unfolding runs_from
runs_from-OfAgent transcript seen i run [] e n h = close_run-OfAgent transcript run [] h tt
runs_from-OfAgent transcript seen i run (t ∷ ts) e n h =
    let e' = e ∙ sym (append_assoc seen (t ∷ []) ts) in
    let n' : suc i ≡ length (seen ++ t ∷ []) = omega (arith, n, length-append seen (t ∷ [])) in
    elim (Bool-cases (is_agent t.role)) [
      | inl a ↦ rw a (
          runs_from-OfAgent transcript (seen ++ t ∷ []) (suc i) _ ts e' n' (
            All-append (λ u. IsAgentTurn transcript u.index) run _ h
              (next_turn-IsAgentTurn transcript seen ts t i e n a, tt)))
      | inr a ↦ rw a (
          close_run-OfAgent transcript run _ h
            (runs_from-OfAgent transcript (seen ++ t ∷ []) (suc i) [] ts e' n' tt))
    ]

abbrev Refs : List TranscriptTurn → List ℕ → Type 0
Refs transcript is = All (IsAgentTurn transcript) is

last_run-OfAgent :
    (transcript : List TranscriptTurn) (runs : List (List Indexed)) (run : List Indexed)
    → All (OfAgent transcript) runs
    → last_run runs ≡ some run
    → OfAgent transcript run
last_run-OfAgent transcript [] run h e = cc
last_run-OfAgent transcript (r ∷ []) run h e =
    subst (OfAgent transcript) (some-injective r run e) h.0
last_run-OfAgent transcript (r ∷ s ∷ rs) run h e = last_run-OfAgent transcript (s ∷ rs) run h.1 e

indices-Refs :
    (transcript : List TranscriptTurn) (run : List Indexed)
    → OfAgent transcript run
    → Refs transcript (indices run)
indices-Refs transcript [] h = tt
indices-Refs transcript (t ∷ ts) h = (h.0, indices-Refs transcript ts h.1)

-- What a grade of a transcript may say.
pub record IsGrounded (transcript : List TranscriptTurn) (g : GradedAttack) : Type 0 where
  pub quoted : is_some g.evidence ≡ not (is_held g.verdict)
  pub refs : Refs transcript g.turn_refs

module _ (find_text : String → String → Option ℕ) (len : String → ℕ)
    (normalize strip : String → String) where
  touched-Refs :
      (transcript : List TranscriptTurn) (start stop cursor : ℕ) (run : List Indexed)
      → OfAgent transcript run
      → Refs transcript (touched find_text len normalize strip start stop cursor run)
  unfolding touched
  touched-Refs transcript start stop cursor [] h = tt
  touched-Refs transcript start stop cursor (t ∷ ts) h =
      let rest =
        touched-Refs transcript start stop (suc (cursor + len (normalize t.text))) ts h.1 in
      elim (Bool-cases (ltb cursor stop && ltb start (cursor + len (normalize t.text)))) [
        | inl e ↦ rw e (h.0, rest)
        | inr e ↦ rw e rest
      ]

  first_match_cons :
      (needle : String) (run : List Indexed) (runs : List (List Indexed))
      → (first_match find_text len normalize strip needle (run ∷ runs)
          ≡ first_match find_text len normalize strip needle runs)
        ⊎ ((start : ℕ) × (first_match find_text len normalize strip needle (run ∷ runs)
              ≡ some (touched find_text len normalize strip start (start + len needle) 0 run)))
  unfolding first_match
  first_match_cons needle run runs =
      elim (Option-cases (find_text (joined find_text len normalize strip run) needle)) [
        | inl k ↦ inl (ground (arith, k))
        | inr (start, k) ↦ inr (start, ground (arith, k))
      ]

  first_match-Refs :
      (transcript : List TranscriptTurn) (needle : String) (runs : List (List Indexed))
      (refs : List ℕ)
      → All (OfAgent transcript) runs
      → first_match find_text len normalize strip needle runs ≡ some refs
      → Refs transcript refs
  unfolding first_match
  first_match-Refs transcript needle [] refs h e = cc
  first_match-Refs transcript needle (run ∷ runs) refs h e =
      elim (first_match_cons needle run runs) [
        | inl later ↦ first_match-Refs transcript needle runs refs h.1 (sym later ∙ e)
        | inr (start, here) ↦
            subst (Refs transcript) (some-injective _ refs (sym here ∙ e))
              (touched-Refs transcript start (start + len needle) 0 run h.0)
      ]

  runs_OfAgent :
      (transcript : List TranscriptTurn) → All (OfAgent transcript) (runs_from 0 [] transcript)
  runs_OfAgent transcript = runs_from-OfAgent transcript [] 0 [] transcript refl refl tt

  locate_evidence-Refs :
      (evidence : String) (transcript : List TranscriptTurn) (refs : List ℕ)
      → locate_evidence find_text len normalize strip evidence transcript ≡ some refs
      → Refs transcript refs
  unfolding locate_evidence
  locate_evidence-Refs evidence transcript refs e =
      elim (Bool-cases (text_eq (normalize evidence) "")) [
        | inl k ↦ absurd (none-ne-some refs (rw k at e))
        | inr k ↦
            first_match-Refs transcript (normalize evidence) (runs_from 0 [] transcript) refs
              (runs_OfAgent transcript) (rw k at e)
      ]
    where
      none-ne-some : (r : List ℕ) → none ≡ some r → ⊥
      none-ne-some r h = cc

  -- What is cited: a quote, or the last reply.
  abbrev Cites : List TranscriptTurn → Option (String × List ℕ) → Type 0
  Cites transcript none = Unit
  Cites transcript (some found) = Refs transcript found.1

  Cites-bind :
      (transcript : List TranscriptTurn) (text : String) (o : Option (List ℕ))
      → ((refs : List ℕ) → o ≡ some refs → Refs transcript refs)
      → Cites transcript (o >>= (λ refs. some (text, refs)))
  Cites-bind transcript text none h = tt
  Cites-bind transcript text (some refs) h = h refs refl

  refs_of-Cites :
      (v : AttackVerdict) (transcript : List TranscriptTurn)
      → Cites transcript (refs_of find_text len normalize strip v transcript)
  unfolding refs_of
  refs_of-Cites v transcript = elim (Option-cases v.evidence) [
    | inl n ↦ rw n tt
    | inr (e, n) ↦ rw n (elim (Bool-cases (text_eq e "")) [
      | inl k ↦ rw k tt
      | inr k ↦ rw k (Cites-bind transcript (normalize e) _ (locate_evidence-Refs e transcript))
    ])
  ]

  last_agent_reply-Cites :
      (transcript : List TranscriptTurn)
      → Cites transcript (last_agent_reply find_text len normalize strip transcript)
  unfolding last_agent_reply
  last_agent_reply-Cites transcript = elim (Option-cases (last_run (runs_from 0 [] transcript))) [
    | inl e ↦ rw e tt
    | inr (run, e) ↦ rw e (
        indices-Refs transcript run
          (last_run-OfAgent transcript (runs_from 0 [] transcript) run (runs_OfAgent transcript) e))
  ]

  settled-IsGrounded :
      (template : String) (transcript : List TranscriptTurn) (v : AttackVerdict)
      (o p : Option (String × List ℕ))
      → is_held v.verdict ≡ false
      → Cites transcript o
      → Cites transcript p
      → IsGrounded transcript (settled find_text len normalize strip template v o p)
  settled-IsGrounded template transcript v (some found) p leak h k = record {
    quoted = ground (arith, leak);
    refs = h;
  }
  settled-IsGrounded template transcript v none (some reply) leak h k = record {
    quoted = ground (arith, leak);
    refs = k;
  }
  settled-IsGrounded template transcript v none none leak h k = record { quoted = refl; refs = tt }

  settle-IsGrounded :
      (template : String) (transcript : List TranscriptTurn) (v : AttackVerdict)
      → is_held v.verdict ≡ false
      → IsGrounded transcript (settle find_text len normalize strip template transcript v)
  unfolding settle
  settle-IsGrounded template transcript v leak =
      settled-IsGrounded template transcript v _ _ leak (refs_of-Cites v transcript)
        (last_agent_reply-Cites transcript)

  abbrev Grounds : List TranscriptTurn → Option GradedAttack → Type 0
  Grounds transcript none = Unit
  Grounds transcript (some g) = IsGrounded transcript g

  settle_unless_held-IsGrounded :
      (template : String) (transcript : List TranscriptTurn) (w : AttackVerdict)
      → IsGrounded transcript
          (settle_unless_held find_text len normalize strip template transcript w)
  unfolding settle_unless_held
  settle_unless_held-IsGrounded template transcript w = elim (Bool-cases (is_held w.verdict)) [
    | inl e ↦ rw e (record { quoted = refl; refs = tt })
    | inr e ↦ rw e (settle-IsGrounded template transcript w e)
  ]

  grade_answer-Grounds :
      (retry : Option AttackVerdict) (template : String) (transcript : List TranscriptTurn)
      (v : AttackVerdict)
      → Grounds transcript (grade_answer find_text len normalize strip retry template transcript v)
  unfolding grade_answer
  grade_answer-Grounds retry template transcript v = elim (Bool-cases (is_held v.verdict)) [
    | inl e ↦ rw e (record { quoted = refl; refs = tt })
    | inr e ↦
        rw e
          (elim (Bool-cases (
            quotes find_text len normalize strip
              (refs_of find_text len normalize strip v transcript))) [
                | inl k ↦ rw k (settle-IsGrounded template transcript v e)
                | inr k ↦ rw k (elim (Option-cases retry) [
                  | inl n ↦ rw n tt
                  | inr (w, n) ↦ rw n (settle_unless_held-IsGrounded template transcript w)
                ])
              ])
  ]

  -- Whatever the model answers, a grade cites turns of the agent only, and it has a text as evidence
  -- exactly when its verdict is that the agent leaked something or was bypassed.
  pub grade-IsGrounded :
      (ask : Bool → Option AttackVerdict) (template : String) (transcript : List TranscriptTurn)
      (g : GradedAttack)
      → grade find_text len normalize strip ask template transcript ≡ some g
      → IsGrounded transcript g
  unfolding grade
  grade-IsGrounded ask template transcript g e = elim (Option-cases (ask false)) [
    | inl n ↦ subst (Grounds transcript) e (rw n tt)
    | inr (v, n) ↦
        subst (Grounds transcript) e (rw n (grade_answer-Grounds (ask true) template transcript v))
  ]
