-- ===== src/Verdict.antt =====
-- app/verdict.py: the verdict that is computed from a run's status and metrics, and app/engine/rubric.py:
-- the verdict of a call from its gating metrics and of a batch from its rubric. Scores and pass rates
-- are floats in the source; a score is a number of hundredths here and a rate is a fraction.
pub mod Rubric
use qa_test_backend.Prelude.{
  ℕ, Option, none, some, Bool, true, false, leb, if◌then◌else◌, ◌≡◌, arith, ◌⊎◌,
}

-- 'pass' | 'warn' | 'fail'
pub data Badge : Type 0 where
  pass warn fail : Badge

-- 'idle', or one of the three badges
pub data Verdict : Type 0 where
  idle : Verdict
  judged : Badge → Verdict

pub data RunStatus : Type 0 where
  queued claimed running completed cancelled failed : RunStatus

pub Badge-discrete : Discrete Badge
Badge-discrete = hlevel

unfoldable pub badge_from_score : ℕ → Badge
badge_from_score score = if leb 80 score then pass else if leb 50 score then warn else fail

-- The branch of a completed run: its badge, else its score, else a pass.
abbrev completed_badge : Option Badge → Option ℕ → Badge
completed_badge (some badge) score = badge
completed_badge none (some score) = badge_from_score score
completed_badge none none = pass

unfoldable pub verdict_for_run : RunStatus → Option Badge → Option ℕ → Verdict
verdict_for_run completed badge score = judged (completed_badge badge score)
verdict_for_run failed badge score = judged fail
verdict_for_run cancelled badge score = judged fail
verdict_for_run _ badge score = idle

-- A status from which no run moves on.
abbrev pub is_terminal : RunStatus → Bool
is_terminal completed = true
is_terminal cancelled = true
is_terminal failed = true
is_terminal _ = false

abbrev pub IsJudged : Verdict → Type 0
IsJudged idle = ⊥
IsJudged (judged b) = Unit
