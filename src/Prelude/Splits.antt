-- ===== src/Prelude/Splits.antt =====
-- `str` methods of Rust on ASCII text: splitting at a byte, and `parse` for small unsigned numbers.
use Prim.Native.Nat.{ℕ, zero, suc, ◌+◌, ◌-◌, ◌*◌, ◌/◌, ◌%◌}
use mathlib.Core.Path.{◌≡◌, ap, subst}
use mathlib.Core.Logic.{inl, inr}
use mathlib.Core.Bool.{Bool, false, ◌&&◌, ◌||◌}
use mathlib.Core.List.{[], ◌∷◌, ◌++◌}
use mathlib.Core.Option.{Option, none, some}
use native.Mathlib.Omega.{arith}
use nvidia_build_lb.Prelude.Tests.{Bool-cases, ◌==◌, leb, ltb, if◌then◌else◌}
use nvidia_build_lb.Prelude.Ascii.{Bytes}

-- `contains` for one byte.
unfoldable pub holds_byte : ℕ → Bytes → Bool
holds_byte c [] = false
holds_byte c (b ∷ s) = b == c || holds_byte c s

abbrev pub before_rest : ℕ → Option (Bytes × Bytes) → Option (Bytes × Bytes)
before_rest b none = none
before_rest b (some (s, t)) = some (b ∷ s, t)

-- `split_once`
unfoldable pub split_once : ℕ → Bytes → Option (Bytes × Bytes)
split_once c [] = none
split_once c (b ∷ s) =
    let rest = split_once c s in if b == c then some ([], s) else before_rest b rest

-- `rsplit_once`
unfoldable pub rsplit_once : ℕ → Bytes → Option (Bytes × Bytes)
rsplit_once c [] = none
rsplit_once c (b ∷ s) = elim (rsplit_once c s) [
  | some (t, u) ↦ some (b ∷ t, u)
  | none ↦ if b == c then some ([], s) else none
]

-- `matches(..).count()`
unfoldable pub count_byte : ℕ → Bytes → ℕ
count_byte c [] = 0
count_byte c (b ∷ s) = (if b == c then 1 else 0) + count_byte c s

unfoldable pub is_digit : ℕ → Bool
is_digit b = leb b'0' b && leb b b'9'

-- The digits of a number that stays below a bound, after what is read so far.
unfoldable pub read_digits : ℕ → ℕ → Bytes → Option ℕ
read_digits bound seen [] = some seen
read_digits bound seen (b ∷ s) =
    let next = seen * 10 + (b - b'0') in
    let rest = read_digits bound next s in if is_digit b && ltb next bound then rest else none

-- `parse`: at least one digit, after a plus sign if there is one.
unfoldable pub parse_below : ℕ → Bytes → Option ℕ
unfolding read_digits is_digit
parse_below bound [] = none
parse_below bound (b ∷ []) = read_digits bound 0 (b ∷ [])
parse_below bound (b ∷ c ∷ s) =
    if b == b'+' then read_digits bound 0 (c ∷ s) else read_digits bound 0 (b ∷ c ∷ s)

-- The decimal digits of a number, with as many rounds as it has digits at most.
unfoldable pub decimal_from : ℕ → ℕ → Bytes
decimal_from zero n = []
decimal_from (suc rounds) n =
    let front = decimal_from rounds (n / 10) in
    if ltb n 10 then (b'0' + n) ∷ [] else front ++ (b'0' + n % 10) ∷ []

-- `to_ascii_lowercase`
unfoldable pub lower_byte : ℕ → ℕ
lower_byte b = if leb b'A' b && leb b b'Z' then b + 32 else b

unfoldable pub lowercase : Bytes → Bytes
unfolding lower_byte
lowercase [] = []
lowercase (b ∷ s) = lower_byte b ∷ lowercase s

-- What is split at a byte is put together with it.
abbrev Joins : ℕ → Bytes → Option (Bytes × Bytes) → Type 0
Joins c s none = Unit
Joins c s (some (t, u)) = s ≡ t ++ c ∷ u

split_once-Joins : (c : ℕ) (s : Bytes) → Joins c s (split_once c s)
unfolding split_once
split_once-Joins c [] = tt
split_once-Joins c (b ∷ s) = step (split_once c s) (split_once-Joins c s)
  where
    step :
        (rest : Option (Bytes × Bytes))
        → Joins c s rest
        → Joins c (b ∷ s) (if b == c then some ([], s) else before_rest b rest)
    step none h = elim (Bool-cases (b == c)) [
      | inl hit ↦ rw hit (ap (λ (x : ℕ). x ∷ s) (ground arith))
      | inr miss ↦ rw miss tt
    ]
    step (some (t, u)) h = elim (Bool-cases (b == c)) [
      | inl hit ↦ rw hit (ap (λ (x : ℕ). x ∷ s) (ground arith))
      | inr miss ↦ rw miss (ap (λ (x : Bytes). b ∷ x) h)
    ]

rsplit_once-Joins : (c : ℕ) (s : Bytes) → Joins c s (rsplit_once c s)
unfolding rsplit_once
rsplit_once-Joins c [] = tt
rsplit_once-Joins c (b ∷ s) = step (rsplit_once c s) (rsplit_once-Joins c s)
  where
    step :
        (rest : Option (Bytes × Bytes))
        → Joins c s rest
        → Joins c (b ∷ s) (elim rest as (λ _. Option (Bytes × Bytes)) [
          | some (t, u) ↦ some (b ∷ t, u)
          | none ↦ if b == c then some ([], s) else none
        ])
    step none h = elim (Bool-cases (b == c)) [
      | inl hit ↦ rw hit (ap (λ (x : ℕ). x ∷ s) (ground arith))
      | inr miss ↦ rw miss tt
    ]
    step (some (t, u)) h = ap (λ (x : Bytes). b ∷ x) h

pub split_once-append : (c : ℕ) (s t u : Bytes) → split_once c s ≡ some (t, u) → s ≡ t ++ c ∷ u
split_once-append c s t u h = subst (Joins c s) h (split_once-Joins c s)

pub rsplit_once-append : (c : ℕ) (s t u : Bytes) → rsplit_once c s ≡ some (t, u) → s ≡ t ++ c ∷ u
rsplit_once-append c s t u h = subst (Joins c s) h (rsplit_once-Joins c s)
