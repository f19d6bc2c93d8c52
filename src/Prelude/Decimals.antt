-- ===== src/Prelude/Decimals.antt =====
-- A number that is printed in decimal digits is read again.
use Prim.Native.Nat.{ℕ, zero, suc, ◌+◌, ◌-◌, ◌*◌, ◌/◌, ◌%◌, ◌≤◌, ◌<◌}
use mathlib.Core.Path.{◌≡◌, refl, ap, ◌∙◌}
use mathlib.Core.Logic.{◌⊎◌, inl, inr}
use mathlib.Core.Bool.{Bool, true, false, ◌&&◌}
use mathlib.Core.List.{[], ◌∷◌, ◌++◌}
use mathlib.Core.Option.{Option, none, some}
use native.Mathlib.Omega.{arith}
use nvidia_build_lb.Prelude.Tests.{Bool-cases, ◌==◌, ltb, if◌then◌else◌}
use nvidia_build_lb.Prelude.Lists.{All, All-append, length}
use nvidia_build_lb.Prelude.Ascii.{Bytes}
use nvidia_build_lb.Prelude.Splits.{is_digit, read_digits, parse_below, decimal_from}

-- What one more digit makes of a number.
abbrev with_digit : ℕ → ℕ → Option ℕ → Option ℕ
with_digit bound d none = none
with_digit bound d (some v) =
    if is_digit d && ltb (v * 10 + (d - b'0')) bound then some (v * 10 + (d - b'0')) else none

read_digits-append :
    (bound seen : ℕ) (s : Bytes) (d : ℕ)
    → read_digits bound seen (s ++ d ∷ []) ≡ with_digit bound d (read_digits bound seen s)
unfolding read_digits
read_digits-append bound seen [] d = refl
read_digits-append bound seen (b ∷ s) d =
    elim (Bool-cases (is_digit b && ltb (seen * 10 + (b - b'0')) bound)) [
      | inl hit ↦ rw hit (read_digits-append bound (seen * 10 + (b - b'0')) s d)
      | inr miss ↦ rw miss refl
    ]

-- The numbers with so many digits at most stay below this.
unfoldable pub ten_power : ℕ → ℕ
ten_power zero = 1
ten_power (suc rounds) = ten_power rounds * 10

kept : (b : Bool) (m n : ℕ) → b ≡ true → m ≡ n → (if b then some m else none) ≡ some n
kept true m n h same = ap (λ (k : ℕ). some k) same
kept false m n h same = cc

decimal-read :
    (bound rounds n : ℕ)
    → n < ten_power rounds
    → n < bound
    → 0 < rounds
    → read_digits bound 0 (decimal_from rounds n) ≡ some n
unfolding decimal_from read_digits ten_power is_digit
decimal-read bound zero n small fits some_rounds = ground arith
decimal-read bound (suc zero) n small fits some_rounds = rw one (kept _ _ n digit (omega arith))
  where
    one : ltb n 10 ≡ true
    one = ground arith

    digit : is_digit (b'0' + n) && ltb (0 + (b'0' + n - b'0')) bound ≡ true
    digit = ground arith
decimal-read bound (suc (suc rounds)) n small fits some_rounds =
    go
      (decimal-read bound (suc rounds) (n / 10) (omega (arith, small)) (omega (arith, fits))
        (omega arith))
      (Bool-cases (ltb n 10))
  where
    Front : Type 0
    Front = read_digits bound 0 (decimal_from (suc rounds) (n / 10)) ≡ some (n / 10)

    go :
        Front
        → (ltb n 10 ≡ true) ⊎ (ltb n 10 ≡ false)
        → read_digits bound 0 (
            if ltb n 10
            then (b'0' + n) ∷ []
            else decimal_from (suc rounds) (n / 10) ++ (b'0' + n % 10) ∷ [])
          ≡ some n
    go front (inl one) = rw one (kept _ _ n (ground arith) (omega arith))
    go front (inr more) = rw more (
        read_digits-append bound 0 (decimal_from (suc rounds) (n / 10)) (b'0' + n % 10)
        ∙ ap (with_digit bound (b'0' + n % 10)) front
        ∙ kept _ _ n (ground arith) (omega arith))

-- The digits of a number: no byte of another kind, and one at least.
pub decimal-All : (rounds n : ℕ) → All (λ b. (b'0' ≤ b) × (b ≤ b'9')) (decimal_from rounds n)
unfolding decimal_from
decimal-All zero n = tt
decimal-All (suc rounds) n = elim (Bool-cases (ltb n 10)) [
  | inl one ↦ rw one ((omega arith, ground arith), tt)
  | inr more ↦ rw more (
      All-append (λ b. (b'0' ≤ b) × (b ≤ b'9')) (decimal_from rounds (n / 10))
        ((b'0' + n % 10) ∷ []) (decimal-All rounds (n / 10)) ((omega arith, omega arith), tt))
]

parse_digits :
    (bound : ℕ) (s : Bytes) (n : ℕ)
    → All (λ b. (b'0' ≤ b) × (b ≤ b'9')) s
    → 0 < length s
    → read_digits bound 0 s ≡ some n
    → parse_below bound s ≡ some n
unfolding parse_below
parse_digits bound [] n digits nonempty h = ground arith
parse_digits bound (b ∷ []) n digits nonempty h = h
parse_digits bound (b ∷ c ∷ s) n digits nonempty h = rw (other b digits.0) h
  where
    other : (b : ℕ) → (b'0' ≤ b) × (b ≤ b'9') → b == b'+' ≡ false
    other b h = ground (arith, h.0)

nonempty-append : (s : Bytes) (b : ℕ) → 0 < length (s ++ b ∷ [])
nonempty-append [] b = omega arith
nonempty-append (c ∷ s) b = omega arith

decimal-nonempty : (rounds n : ℕ) → 0 < length (decimal_from (suc rounds) n)
unfolding decimal_from
decimal-nonempty rounds n = elim (Bool-cases (ltb n 10)) [
  | inl one ↦ rw one (omega arith)
  | inr more ↦ rw more (nonempty-append (decimal_from rounds (n / 10)) (b'0' + n % 10))
]

pub parse_below-decimal_from :
    (bound rounds n : ℕ)
    → n < ten_power (suc rounds)
    → n < bound
    → parse_below bound (decimal_from (suc rounds) n) ≡ some n
parse_below-decimal_from bound rounds n small fits =
    parse_digits bound (decimal_from (suc rounds) n) n (decimal-All (suc rounds) n)
      (decimal-nonempty rounds n) (decimal-read bound (suc rounds) n small fits (omega arith))
