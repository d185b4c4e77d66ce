-- ===== src/Prelude/Decimal.antt =====
-- A number as a template literal shows it.
use Prim.Native.Nat.{ℕ, zero, suc, ◌/◌, ◌%◌, ◌<◌}
use Prim.Native.String as String
use Prim.Native.String.{String}
use mathlib.Core.Path.{◌≡◌}
use mathlib.Core.Logic.{inl, inr}
use mathlib.Core.Bool.{true, false}
use native.Mathlib.Omega.{arith}
use mediavault_backend.Prelude.Basics.{if◌then◌else◌, eqb, ltb, Bool-cases}

abbrev pub digit : ℕ → String
digit n =
    if eqb n 0
    then "0"
    else if eqb n 1
    then "1"
    else if eqb n 2
    then "2"
    else if eqb n 3
    then "3"
    else if eqb n 4
    then "4"
    else if eqb n 5
    then "5"
    else if eqb n 6
    then "6"
    else if eqb n 7
    then "7"
    else if eqb n 8
    then "8"
    else "9"

-- The digits of a number before a text, on fuel.
unfoldable pub digits : ℕ → ℕ → String → String
digits zero n s = s
digits (suc fuel) n s = elim (ltb n 10) [
  | true ↦ String.◌++◌ (digit n) s
  | false ↦ digits fuel (n / 10) (String.◌++◌ (digit (n % 10)) s)
]

unfoldable pub decimal : ℕ → String
decimal n = digits (suc n) n ""

-- Any two fuels above the number give the same digits.
digits_enough : (f g n : ℕ) (s : String) → n < f → n < g → digits f n s ≡ digits g n s
unfolding digits
digits_enough zero g n s h k = absurd (ground arith)
digits_enough (suc f) zero n s h k = absurd (ground arith)
digits_enough (suc f) (suc g) n s h k = elim (Bool-cases (ltb n 10)) [
  | inl e ↦ ground arith
  | inr e ↦ ground (
    arith,
    digits_enough f g (n / 10) (String.◌++◌ (digit (n % 10)) s) (ground arith) (ground arith),
  )
]
