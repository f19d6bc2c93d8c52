-- ===== src/Prelude/Lists.antt =====
-- Lists measured, indexed and searched, under the library's names over the native numbers.
use Prim.Native.Nat.{ℕ, zero, suc, ◌+◌, ◌<◌}
use mathlib.Core.Path.{◌≡◌, refl, subst, ap}
use mathlib.Core.Logic.{inl, inr}
use mathlib.Core.Bool.{Bool, true, false, ◌&&◌, ◌||◌}
use mathlib.Core.List.{List, [], ◌∷◌, ◌++◌}
use mathlib.Core.Option.{Option, none, some}
use native.Mathlib.Omega.{arith}
use nvidia_build_lb.Prelude.Tests.{Bool-cases, if◌then◌else◌}

module _ {ℓ} {A : Type ℓ} where
  abbrev pub length : List A → ℕ
  length [] = 0
  length (x ∷ xs) = suc (length xs)

  abbrev pub get_elem? : List A → ℕ → Option A
  get_elem? [] i = none
  get_elem? (x ∷ xs) zero = some x
  get_elem? (x ∷ xs) (suc i) = get_elem? xs i

  abbrev pub take : ℕ → List A → List A
  take zero xs = []
  take (suc n) [] = []
  take (suc n) (x ∷ xs) = x ∷ take n xs

  abbrev pub drop : ℕ → List A → List A
  drop zero xs = xs
  drop (suc n) [] = []
  drop (suc n) (x ∷ xs) = drop n xs

  abbrev pub any : (A → Bool) → List A → Bool
  any p [] = false
  any p (x ∷ xs) = p x || any p xs

  abbrev pub all : (A → Bool) → List A → Bool
  all p [] = true
  all p (x ∷ xs) = p x && all p xs

  -- Keeps the elements that pass a Boolean test.
  abbrev pub select_by : (A → Bool) → List A → List A
  select_by p [] = []
  select_by p (x ∷ xs) = if p x then x ∷ select_by p xs else select_by p xs

  -- The number of elements that pass a Boolean test.
  abbrev pub count_by : (A → Bool) → List A → ℕ
  count_by p [] = 0
  count_by p (x ∷ xs) = (if p x then 1 else 0) + count_by p xs

  -- The first element that passes a Boolean test.
  abbrev pub find_by : (A → Bool) → List A → Option A
  find_by p [] = none
  find_by p (x ∷ xs) = if p x then some x else find_by p xs

  -- Rewrites the first element that passes a Boolean test.
  abbrev pub update_by : (A → Bool) → (A → A) → List A → List A
  update_by p f [] = []
  update_by p f (x ∷ xs) = if p x then f x ∷ xs else x ∷ update_by p f xs

  -- Every element has the property.
  abbrev pub All {κ} : (A → Type κ) → List A → Type κ
  All P [] = Unit
  All P (x ∷ xs) = P x × All P xs

  pub length-append : (xs ys : List A) → length (xs ++ ys) ≡ length xs + length ys
  length-append [] ys = omega arith
  length-append (x ∷ xs) ys = omega (arith, length-append xs ys)

  pub length-take-drop : (n : ℕ) (xs : List A) → length (take n xs) + length (drop n xs) ≡ length xs
  length-take-drop zero xs = omega arith
  length-take-drop (suc n) [] = omega arith
  length-take-drop (suc n) (x ∷ xs) = omega (arith, length-take-drop n xs)

  pub count_by-append :
      (p : A → Bool) (xs ys : List A) → count_by p (xs ++ ys) ≡ count_by p xs + count_by p ys
  count_by-append p [] ys = omega arith
  count_by-append p (x ∷ xs) ys = omega (arith, count_by-append p xs ys)

  pub any-append : (p : A → Bool) (xs ys : List A) → any p (xs ++ ys) ≡ any p xs || any p ys
  any-append p [] ys = refl
  any-append p (x ∷ xs) ys = ground (arith, any-append p xs ys)

  pub find_by-append_none :
      (p : A → Bool) (xs ys : List A) → any p xs ≡ false → find_by p (xs ++ ys) ≡ find_by p ys
  find_by-append_none p [] ys h = refl
  find_by-append_none p (x ∷ xs) ys h = ground (arith, find_by-append_none p xs ys)

  pub find_by-none_iff_any : (p : A → Bool) (xs : List A) → find_by p xs ≡ none → any p xs ≡ false
  find_by-none_iff_any p [] h = refl
  find_by-none_iff_any p (x ∷ xs) h = ground (arith, find_by-none_iff_any p xs)

module _ {ℓ κ} {A : Type ℓ} (P : A → Type κ) where
  pub All-append : (xs ys : List A) → All P xs → All P ys → All P (xs ++ ys)
  All-append [] ys h k = k
  All-append (x ∷ xs) ys (p, h) k = (p, All-append xs ys h k)

  -- A found element has whatever all elements have, and passes the test.
  pub find_by-All :
      (p : A → Bool) (xs : List A) (a : A) → All P xs → find_by p xs ≡ some a → P a × (p a ≡ true)
  find_by-All p [] a h e = ground arith
  find_by-All p (x ∷ xs) a (px, h) e = elim (Bool-cases (p x)) [
    | inl hit ↦ let is : x ≡ a = ground arith in (subst P is px, subst (λ y. p y ≡ true) is hit)
    | inr miss ↦ find_by-All p xs a h (ground arith)
  ]

  pub update_by-All :
      (p : A → Bool) (f : A → A) (xs : List A)
      → ((a : A) → p a ≡ true → P a → P (f a))
      → All P xs
      → All P (update_by p f xs)
  update_by-All p f [] keep h = tt
  update_by-All p f (x ∷ xs) keep (px, h) = elim (Bool-cases (p x)) [
    | inl hit ↦ rw hit (keep x hit px, h)
    | inr miss ↦ rw miss (px, update_by-All p f xs keep h)
  ]

pub get_elem?_lt {ℓ} :
    {A : Type ℓ} (xs : List A) (i : ℕ) → i < length xs → (a : A) × (get_elem? xs i ≡ some a)
get_elem?_lt [] i h = elim h [ ]
get_elem?_lt (x ∷ xs) zero h = (x, refl)
get_elem?_lt (x ∷ xs) (suc i) h = get_elem?_lt xs i (omega arith)

pub get_elem?-lt_length {ℓ} :
    {A : Type ℓ} (xs : List A) (i : ℕ) (a : A) → get_elem? xs i ≡ some a → i < length xs
get_elem?-lt_length [] i a h = cc
get_elem?-lt_length (x ∷ xs) zero a h = omega arith
get_elem?-lt_length (x ∷ xs) (suc i) a h = omega (arith, get_elem?-lt_length xs i a h)

-- A plain search finds an element at a place.
pub found_at {ℓ} :
    {A : Type ℓ} (test : A → Bool) (xs : List A) (a : A)
    → find_by test xs ≡ some a
    → (i : ℕ) × (get_elem? xs i ≡ some a) × (test a ≡ true)
found_at test [] a e = cc
found_at {A = A} test (x ∷ xs) a e = elim (Bool-cases (test x)) [
  | inl hit ↦
      let same : x ≡ a = ground arith in
      (0, ap some same, subst (λ (y : A). test y ≡ true) same hit)
  | inr miss ↦ let (i, at, passes) = found_at test xs a (rw miss at e) in (suc i, at, passes)
]
