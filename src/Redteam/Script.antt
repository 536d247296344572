-- ===== src/Redteam/Script.antt =====
-- How far `AttackerCaller` of app/engine/redteam/attacker.py can go, and which line an exchange names: what
-- each part of a turn keeps.
pub mod Call
use qa_test_backend.Prelude.{
  map-snoc, take-append, ℕ, zero, suc, take, get_elem?, map, Bool, ◌≤◌, ◌<◌, ◌≡◌, refl, some, true,
  false, List, [], ◌∷◌, ◌++◌, String, length, length-append, leb, arith, Bool-cases, Option-cases,
  inl, inr, ◌⊎◌, ◌&&◌, sym, ◌∙◌, ap, subst,
}
use qa_test_backend.Caller.Transcript.{CallTurn, ends_with_agent}
use qa_test_backend.Redteam.Attacker.{
  AttackerCaller, PlanOutput, Plan, planned, raised, Exchange, say_attack, record_exchange,
  count_verify, answer, open_call, next_turn, max_verify_turns, unreachable_surface, first_line,
  graded, graded_line, or_empty, AttackPack, new_attacker,
}

-- The exchanges name the lines that were said, the first exchange the first line and so on; no more lines
-- were said than the script has, and no more identity questions answered than `max_verify_turns`.
pub record IsScripted (c : AttackerCaller) : Type 0 where
  pub in_order : map (λ e. e.attack_prompt) c.exchanges ≡ take (length c.exchanges) c.attack_lines
  pub graded_once : length c.exchanges ≤ length c.attack_lines
  pub within_script : length c.attack_lines ≤ length c.script
  pub verify_bounded : c.verify_turns ≤ max_verify_turns

length-snoc : (xs : List Exchange) (x : Exchange) → length (xs ++ x ∷ []) ≡ suc (length xs)
length-snoc xs x = omega (arith, length-append xs (x ∷ []))

take-snoc :
    (n : ℕ) (ls : List String)
    → n < length ls
    → take (suc n) ls ≡ take n ls ++ or_empty (get_elem? ls n) ∷ []
take-snoc n [] h = absurd (omega (arith, h))
take-snoc zero (l ∷ ls) h = refl
take-snoc (suc n) (l ∷ ls) h = ap (λ ks. l ∷ ks) (take-snoc n ls (omega (arith, h)))

pub count_verify-IsScripted :
    (out : PlanOutput) (c : AttackerCaller)
    → (c.verifying && leb max_verify_turns c.verify_turns) ≡ false
    → IsScripted c
    → IsScripted (count_verify out c)
count_verify-IsScripted out c room h = record {
  in_order = elim (Bool-cases c.verifying) [ inl e ↦ rw e h.in_order | inr e ↦ rw e h.in_order ];
  graded_once = ground (arith, h.graded_once);
  within_script = ground (arith, h.within_script);
  verify_bounded = ground (arith, h.verify_bounded, room);
}

pub record_exchange_cases :
    (strip : String → String) (transcript : List CallTurn) (out : PlanOutput) (c : AttackerCaller)
    → (record_exchange strip transcript out c ≡ c)
      ⊎ (e : Exchange) × (length c.exchanges < length c.attack_lines)
        × (e.attack_prompt ≡ graded_line c)
        × (record_exchange strip transcript out c ≡ record c { exchanges = c.exchanges ++ e ∷ [] })
record_exchange_cases strip transcript out c = elim (Option-cases out.interim_verdict) [
  | inl e ↦ inl (unfold record_exchange in ground (arith, e))
  | inr (verdict, e) ↦ elim (Bool-cases (leb (length c.attack_lines) (length c.exchanges))) [
    | inl full ↦ inl (unfold record_exchange in ground (arith, full))
    | inr room ↦ inr (
      graded strip transcript out verdict c,
      ground (arith, room),
      refl,
      unfold record_exchange in ground (arith, room, e),
    )
  ]
]

pub record_exchange-IsScripted :
    (strip : String → String) (transcript : List CallTurn) (out : PlanOutput) (c : AttackerCaller)
    → IsScripted c
    → IsScripted (record_exchange strip transcript out c)
record_exchange-IsScripted strip transcript out c h =
    elim (record_exchange_cases strip transcript out c) [
      | inl e ↦ subst IsScripted (sym e) h
      | inr (x, room, line, e) ↦ subst IsScripted (sym e) (record {
        in_order = appended x room line;
        graded_once = omega (arith, room, length-append c.exchanges (x ∷ []));
        within_script = h.within_script;
        verify_bounded = h.verify_bounded;
      })
    ]
  where
    appended :
        (x : Exchange)
        → length c.exchanges < length c.attack_lines
        → x.attack_prompt ≡ graded_line c
        → map (λ e. e.attack_prompt) (c.exchanges ++ x ∷ [])
          ≡ take (length (c.exchanges ++ x ∷ [])) c.attack_lines
    appended x room line = rw (length-snoc c.exchanges x) (
        map-snoc (λ e. e.attack_prompt) c.exchanges x
        ∙ rw (h.in_order, line) (sym (take-snoc (length c.exchanges) c.attack_lines room)))

pub say_attack-IsScripted :
    (i : ℕ) (utterance : String) (c : AttackerCaller)
    → length c.attack_lines < length c.script
    → IsScripted c
    → IsScripted (say_attack i utterance c).0
say_attack-IsScripted i utterance c room h = record {
  in_order =
      h.in_order
      ∙ sym (take-append (length c.exchanges) c.attack_lines (utterance ∷ []) h.graded_once);
  graded_once = omega (arith, h.graded_once, length-append c.attack_lines (utterance ∷ []));
  within_script = omega (arith, room, length-append c.attack_lines (utterance ∷ []));
  verify_bounded = h.verify_bounded;
}

answer_cases :
    (strip : String → String) (transcript : List CallTurn) (out : PlanOutput) (c : AttackerCaller)
    → ((answer strip transcript out c).0 ≡ c)
      ⊎ ((length c.attack_lines < length c.script) ⊎ (length c.attack_lines ≡ 0))
        × ((answer strip transcript out c).0 ≡ (say_attack (length transcript) out.utterance c).0)
unfolding answer
answer_cases strip transcript out c = ground arith

pub answer-IsScripted :
    (strip : String → String) (transcript : List CallTurn) (out : PlanOutput) (c : AttackerCaller)
    → 0 < length c.script
    → IsScripted c
    → IsScripted (answer strip transcript out c).0
answer-IsScripted strip transcript out c some_line h = elim (answer_cases strip transcript out c) [
  | inl e ↦ subst IsScripted (sym e) h
  | inr (room, e) ↦ subst IsScripted (sym e) (
      say_attack-IsScripted (length transcript) out.utterance c (ground (arith, room, some_line)) h)
]
