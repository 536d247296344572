-- ===== src/Redteam/Attacker.antt =====
-- app/engine/redteam/attacker.py: `AttackerCaller`. The language model is the argument `plan`, which is
-- given the state and the transcript that the prompt is made of; `strip` is Python's. The callback
-- `on_exchange` and the wording of the prompts are left out. The verdict "blocked" is `held`.
use qa_test_backend.Prelude.{
  ℕ, suc, Option, none, some, Bool, true, false, List, [], ◌∷◌, ◌++◌, ◌&&◌, not, String, text_eq,
  append_text, decimal, leb, ltb, length, get_elem?, if◌then◌else◌, ◌-◌,
}
use qa_test_backend.Store.Payload.{AttackOutcome, held}
use qa_test_backend.Caller.Transcript.{CallTurn, is_agent, ends_with_agent}

pub data Severity : Type 0 where
  critical high medium low : Severity

-- The fields of the pack that the attacker works with.
pub record AttackPack : Type 0 where
  pub requires_verified : Bool
  pub opening : String
  pub escalations : List String

-- `AttackerLLMOutput`; `is_attack` is `kind == "attack"`
pub record PlanOutput : Type 0 where
  pub utterance : String
  pub is_attack : Bool
  pub agent_verified : Bool
  pub interim_verdict : Option AttackOutcome
  pub interim_severity : Option Severity
  pub call_complete : Bool

-- The model's answer, or the text of the exception that the call ended with.
pub data Plan : Type 0 where
  planned : PlanOutput → Plan
  raised : String → Plan

pub record AttackerTurn : Type 0 where
  pub utterance : String
  pub call_complete : Bool

pub record Exchange : Type 0 where
  pub transcript_index : ℕ
  pub attack_prompt : String
  pub agent_response : String
  pub verdict : AttackOutcome
  pub severity : Severity

pub record AttackerCaller : Type 0 where
  pub script : List String
  pub verifying : Bool
  pub verify_turns : ℕ
  pub attack_lines : List String
  pub attack_start : Option ℕ
  pub exchanges : List Exchange
  pub failure : Option String

abbrev pub max_verify_turns : ℕ
max_verify_turns = 12

abbrev pub greeting_line : String
greeting_line = "Hi, I need some help with my account."

abbrev pub closing_line : String
closing_line = "Okay, thanks for your time. Goodbye."

abbrev pub nudge_line : String
nudge_line = "Hello? Are you still there?"

-- `__init__`
unfoldable pub new_attacker : AttackPack → Bool → AttackerCaller
new_attacker pack has_identity = record {
  script = pack.opening ∷ pack.escalations;
  verifying = pack.requires_verified && has_identity;
  verify_turns = 0;
  attack_lines = [];
  attack_start = none;
  exchanges = [];
  failure = none;
}

abbrev pub is_held : AttackOutcome → Bool
is_held held = true
is_held _ = false

-- `stopped_on_success`: the last exchange was not blocked.
abbrev pub last_succeeded : List Exchange → Bool
last_succeeded [] = false
last_succeeded (e ∷ []) = not (is_held e.verdict)
last_succeeded (e ∷ f ∷ es) = last_succeeded (f ∷ es)

abbrev or_index : Option ℕ → ℕ → Option ℕ
or_index none i = some i
or_index (some j) i = some j

-- `_say_attack`
abbrev pub say_attack : ℕ → String → AttackerCaller → AttackerCaller × AttackerTurn
say_attack next_index utterance c = (
  record c {
    attack_start = or_index c.attack_start next_index;
    attack_lines = c.attack_lines ++ utterance ∷ [];
  },
  record { utterance = utterance; call_complete = false },
)

abbrev pub says : String → Bool → AttackerCaller → AttackerCaller × AttackerTurn
says utterance complete c = (c, record { utterance = utterance; call_complete = complete })

abbrev reversed_onto : List CallTurn → List CallTurn → List CallTurn
reversed_onto [] acc = acc
reversed_onto (t ∷ ts) acc = reversed_onto ts (t ∷ acc)

-- The agent's turns after the last caller turn, from the transcript read backwards.
abbrev reply_of : (String → String) → List CallTurn → List String → List String
reply_of strip [] acc = acc
reply_of strip (t ∷ ts) acc =
    let more = reply_of strip ts (strip t.text ∷ acc) in if is_agent t.speaker then more else acc

abbrev join_spaces : List String → String
join_spaces [] = ""
join_spaces (s ∷ []) = s
join_spaces (s ∷ t ∷ ss) = append_text s (append_text " " (join_spaces (t ∷ ss)))

abbrev pub or_empty : Option String → String
or_empty none = ""
or_empty (some s) = s

abbrev severity_or : Option Severity → AttackOutcome → Severity
severity_or (some s) v = s
severity_or none v = if is_held v then low else high

-- `self.attack_lines[len(self.exchanges)]`, which is in range where it is read
abbrev pub graded_line : AttackerCaller → String
graded_line c = or_empty (get_elem? c.attack_lines (length c.exchanges))

abbrev pub graded :
    (String → String) → List CallTurn → PlanOutput → AttackOutcome → AttackerCaller → Exchange
graded strip transcript out verdict c = record {
  transcript_index = length transcript - 1;
  attack_prompt = graded_line c;
  agent_response = join_spaces (reply_of strip (reversed_onto transcript []) []);
  verdict = verdict;
  severity = severity_or out.interim_severity verdict;
}

-- `_record_exchange`
unfoldable pub record_exchange :
    (String → String) → List CallTurn → PlanOutput → AttackerCaller → AttackerCaller
record_exchange strip transcript out c =
    if leb (length c.attack_lines) (length c.exchanges) then c else elim out.interim_verdict [
      | none ↦ c
      | some verdict ↦ record c {
        exchanges = c.exchanges ++ graded strip transcript out verdict c ∷ [];
      }
    ]

-- `if self.verifying: self.verify_turns += 1 …`
abbrev pub count_verify : PlanOutput → AttackerCaller → AttackerCaller
count_verify out c =
    if c.verifying
    then record c { verify_turns = suc c.verify_turns; verifying = not out.agent_verified }
    else c

abbrev or_closing : String → String
or_closing s = if text_eq s "" then closing_line else s

abbrev pub unreachable_surface : String
unreachable_surface =
    append_text "could not authenticate to reach this attack's surface after "
      (append_text (decimal max_verify_turns) " turns")

abbrev is_exhausted : AttackerCaller → Bool
is_exhausted c = ltb 0 (length c.attack_lines) && leb (length c.script) (length c.attack_lines)

-- The end of `next_turn`, once the exchange is recorded.
unfoldable pub answer :
    (String → String) → List CallTurn → PlanOutput → AttackerCaller → AttackerCaller × AttackerTurn
answer strip transcript out c =
    if last_succeeded c.exchanges
    then says closing_line true c
    else if is_exhausted c
    then says closing_line true c
    else if out.call_complete
    then says (or_closing (strip out.utterance)) true c
    else if out.is_attack && not c.verifying
    then say_attack (length transcript) out.utterance c
    else says out.utterance false c

-- `self._script[0]`: the script starts with the opening.
abbrev pub first_line : List String → String
first_line [] = ""
first_line (s ∷ ss) = s

-- The first turn of the call.
unfoldable pub open_call : AttackerCaller → AttackerCaller × AttackerTurn
open_call c =
    if c.verifying then says greeting_line false c else say_attack 0 (first_line c.script) c

unfoldable pub next_turn :
    (String → String)
    → (AttackerCaller → List CallTurn → Plan)
    → List CallTurn
    → AttackerCaller
    → AttackerCaller × AttackerTurn
unfolding open_call answer record_exchange
next_turn strip plan [] c = open_call c
next_turn strip plan (t ∷ ts) c =
    if not (ends_with_agent (t ∷ ts))
    then says nudge_line false c
    else if c.verifying && leb max_verify_turns c.verify_turns
    then says closing_line true (record c { failure = some unreachable_surface })
    else elim (plan c (t ∷ ts)) [
      | raised why ↦ says closing_line true (record c { failure = some why })
      | planned out ↦
          answer strip (t ∷ ts) out (record_exchange strip (t ∷ ts) out (count_verify out c))
    ]
