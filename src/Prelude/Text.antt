-- ===== src/Prelude/Text.antt =====
-- Equality of texts, as a decision whose two cases hand the equation or its negation, and numbers in
-- decimal.
use Prim.Native.Nat.{ℕ, zero, suc, ◌/◌, ◌%◌}
use Prim.Native.String.{String, slice}
pub use Prim.Native.String.{◌++◌ as append_text}
use qa_test_backend.Prelude.Tests.{ltb, if◌then◌else◌}
use mathlib.Core.Path.{◌≡◌}
use mathlib.Core.Logic.{ite, dite}
use native.Mathlib.Omega.{arith}
use mathlib.Core.Bool.{Bool, true, false, Bool-discrete}
use text.Mathlib.Text
use text.Mathlib.TextEquality.{eq_iff}

unfoldable pub text_dec : Discrete String
text_dec s t =
    dite (Bool-discrete (Text.◌==◌ s t) true) (λ same. yes ((eq_iff s t).0 same))
      (λ differ. no (λ p. differ ((eq_iff s t).1 p)))

-- `s == t` on `str`
abbrev pub text_eq : String → String → Bool
text_eq s t = ite (text_dec s t) true false

pub text_eq→≡ : (s t : String) → text_eq s t ≡ true → s ≡ t
text_eq→≡ s t h = ground arith

abbrev digit : ℕ → String
digit n = slice "0123456789" n (suc n)

-- The decimal digits of a number, at most one more than the fuel.
unfoldable pub decimal_upto : ℕ → ℕ → String
decimal_upto zero n = digit (n % 10)
decimal_upto (suc fuel) n =
    let rest = decimal_upto fuel (n / 10) in
    if ltb n 10 then digit n else append_text rest (digit (n % 10))

-- A number in decimal, as an f-string prints it: it has at most as many digits as its value plus one.
unfoldable pub decimal : ℕ → String
unfolding decimal_upto
decimal n = decimal_upto n n
