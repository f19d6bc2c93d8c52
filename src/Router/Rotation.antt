-- ===== src/Router/Rotation.antt =====
-- Repeated calls of `select`: rotation over healthy keys, and no starvation of an eligible key.
use native.Mathlib.Nat.{mod-add-mod, mod-eq_of_lt, mod-eq-sub-mod, mod-lt}
use native.Mathlib.Decide.{dec_lt}
use nvidia_build_lb.Prelude.{
  get_elem?_lt, get_elem?-lt_length, ℕ, zero, suc, ◌+◌, ◌-◌, ◌%◌, ◌^◌, ◌≤◌, ◌<◌, Bool, true, false,
  List, [], ◌∷◌, Option, none, some, length, get_elem?, ◌≡◌, arith, ap, sym, ◌∙◌, subst, ◌⊎◌, inl,
  inr, any, ◌==◌, ==_iff, All,
}
use nvidia_build_lb.Vault.State.{Uuid, Time, KeySummary}
use nvidia_build_lb.Router.{Router, eligible, select}
use nvidia_build_lb.Router.Selection.{slot, Promise, select-Promise, distance, slot-distance}

-- The results of consecutive calls on an unchanged list of keys.
unfoldable pub selections : ℕ → Time → List KeySummary → Router → List (Option Uuid)
selections zero now keys r = []
selections (suc n) now keys r = (select now keys r).1 ∷ selections n now keys (select now keys r).0

abbrev pub is_choice : Uuid → Option Uuid → Bool
is_choice id none = false
is_choice id (some chosen) = chosen == id

-- A remainder below twice the divisor.
mod_cases : (x n : ℕ) → x < n + n → ((x < n) × (x % n ≡ x)) ⊎ ((n ≤ x) × (x % n ≡ x - n))
mod_cases x n h = elim (dec_lt x n) [
  | yes lt ↦ inl (lt, mod-eq_of_lt lt)
  | no ge ↦
      inr (omega arith, mod-eq-sub-mod {n = x} {m = n} (omega arith) ∙ mod-eq_of_lt (omega arith))
]

-- Past a slot that comes before the target, the target is nearer.
nearer :
    (c n i o : ℕ)
    → i < n
    → o < (i + n - c % n) % n
    → (i + n - ((c + o) % n + 1) % n % n) % n < (i + n - c % n) % n
nearer c n i o h before =
    let m = c % n in
    let m_lt : m < n = mod-lt c (omega arith) in
    let o_lt : o < n = omega (arith, mod-lt (i + n - m) {m = n} (omega arith)) in
    let a_is : (c + o) % n ≡ (m + o) % n = sym (mod-add-mod c n o) in
    let a_lt : (m + o) % n < n = mod-lt (m + o) (omega arith) in
    let b_lt : ((m + o) % n + 1) % n < n = mod-lt ((m + o) % n + 1) (omega arith) in
    rw a_is (
      rw (mod-eq_of_lt b_lt) (
        omega (
          arith,
          mod_cases (i + n - m) n (omega arith),
          mod_cases (m + o) n (omega arith),
          mod_cases ((m + o) % n + 1) n (omega arith),
          mod_cases (i + n - ((m + o) % n + 1) % n) n (omega arith),
        )))

is_choice_of_eq : (id id' : Uuid) → id ≡ id' → is_choice id' (some id) ≡ true
is_choice_of_eq id id' e = (==_iff id id').1 e

module _ (now : Time) (keys : List KeySummary) (target : ℕ) (key : KeySummary)
    (found : get_elem? keys target ≡ some key) (fit : eligible now key ≡ true) where
  -- A call that does not choose the key brings the cursor nearer to it.
  approach :
      (r r' : Router) (o : Option Uuid)
      → Promise now keys r r' o
      → (is_choice key.id o ≡ true)
        ⊎ ((r'.next_slot < length keys)
            × (distance keys r'.next_slot target < distance keys r.next_slot target))
  approach r r' none p = cc (p.1 target key found)
  approach r r' (some id) p =
      let inside = get_elem?-lt_length keys target key found in
      let d = distance keys r.next_slot target in
      let at : get_elem? keys (slot keys r.next_slot d) ≡ some key =
        rw (slot-distance keys r.next_slot target inside) found in
      elim (dec_lt d p.offset) [
        | yes lt ↦ cc (p.skipped d key lt at)
        | no ge ↦ elim (dec_lt p.offset d) [
          | yes gt ↦ inr (
            rw p.moved (mod-lt _ (omega arith)),
            rw p.moved (nearer r.next_slot (length keys) target p.offset inside gt),
          )
          | no le ↦
              let same : p.offset ≡ d = omega arith in
              let here =
                subst (λ m. get_elem? keys (slot keys r.next_slot m) ≡ some p.key) same p.found in
              let one : p.key ≡ key = cc in
              inl (is_choice_of_eq id key.id (sym p.named ∙ ap (λ (k : KeySummary). k.id) one))
        ]
      ]

  chosen_within :
      (n : ℕ) (r : Router)
      → length keys + length keys ≤ 2 ^ 64
      → r.next_slot + length keys ≤ 2 ^ 64
      → distance keys r.next_slot target < n
      → any (is_choice key.id) (selections n now keys r) ≡ true
  unfolding selections
  chosen_within zero r few small near = absurd (omega arith)
  chosen_within (suc n) r few small near =
      elim (approach r (select now keys r).0 (select now keys r).1
        (select-Promise now keys r small)) [
          | inl hit ↦ rw hit
          | inr (low, less) ↦
              let rest = chosen_within n (select now keys r).0 few (omega arith) (omega arith) in
              ground (arith, rest)
        ]

-- No starvation: on an unchanged list of at most 2 ^ 63 keys, and from a cursor that stays within a 64-bit
-- word when the number of keys is added, a key that is eligible is returned by one of the next calls of
-- `select`, as many calls as there are keys.
pub select-no_starvation :
    (now : Time) (keys : List KeySummary) (r : Router) (target : ℕ) (key : KeySummary)
    → length keys ≤ 2 ^ 63
    → r.next_slot + length keys ≤ 2 ^ 64
    → get_elem? keys target ≡ some key
    → eligible now key ≡ true
    → any (is_choice key.id) (selections (length keys) now keys r) ≡ true
select-no_starvation now keys r target key few small found fit =
    let inside = get_elem?-lt_length keys target key found in
    chosen_within now keys target key found fit (length keys) r (omega arith) small
      (mod-lt (target + length keys - r.next_slot % length keys) (omega arith))

some-injective-at {ℓ} : {A : Type ℓ} (x a : A) → some x ≡ some a → x ≡ a
some-injective-at x a e = cc

step_slot : (c i n : ℕ) → (((c + 0) % n + 1) % n + i) % n ≡ (c + suc i) % n
step_slot c i n =
    mod-add-mod ((c + 0) % n + 1) n i
    ∙ ap (λ (m : ℕ). m % n) (omega (arith, plain))
    ∙ mod-add-mod c n (suc i)
  where
    plain : (c + 0) % n ≡ c % n
    plain = ap (λ (m : ℕ). m % n) (omega arith)

All-get_elem? {ℓ κ} :
    {A : Type ℓ} (P : A → Type κ) (xs : List A) (i : ℕ) (a : A)
    → All P xs
    → get_elem? xs i ≡ some a
    → P a
All-get_elem? P [] i a h e = cc
All-get_elem? P (x ∷ xs) zero a h e = subst P (some-injective-at x a e) h.0
All-get_elem? P (x ∷ xs) (suc i) a h e = All-get_elem? P xs i a h.1 e

module _ (now : Time) (keys : List KeySummary) (some_key : 0 < length keys)
    (fit : All (λ k. eligible now k ≡ true) keys) where
  -- Over healthy keys the call returns the key in the cursor's own slot.
  healthy_choice :
      (r r' : Router) (o : Option Uuid)
      → Promise now keys r r' o
      → (key : KeySummary) × (get_elem? keys (slot keys r.next_slot 0) ≡ some key)
        × (o ≡ some key.id)
        × (r'.next_slot ≡ (slot keys r.next_slot 0 + 1) % length keys)
  healthy_choice r r' none p =
      let (key, at) = get_elem?_lt keys (slot keys r.next_slot 0) (mod-lt _ some_key) in
      cc (
        p.1 (slot keys r.next_slot 0) key at,
        All-get_elem? (λ k. eligible now k ≡ true) keys (slot keys r.next_slot 0) key fit at,
      )
  healthy_choice r r' (some id) p =
      let (key, at) = get_elem?_lt keys (slot keys r.next_slot 0) (mod-lt _ some_key) in
      elim (dec_lt 0 p.offset) [
        | yes later ↦ cc (
          p.skipped 0 key later at,
          All-get_elem? (λ k. eligible now k ≡ true) keys (slot keys r.next_slot 0) key fit at,
        )
        | no now_here ↦
            let zero_offset : p.offset ≡ 0 = omega arith in
            (
              p.key,
              subst (λ m. get_elem? keys (slot keys r.next_slot m) ≡ some p.key) zero_offset
                  p.found,
              ap some (sym p.named),
              subst (λ m. r'.next_slot ≡ (slot keys r.next_slot m + 1) % length keys) zero_offset
                  p.moved,
            )
      ]

  rotation :
      (n : ℕ) (r : Router) (i : ℕ)
      → length keys ≤ 2 ^ 63
      → r.next_slot + length keys ≤ 2 ^ 64
      → i < n
      → (key : KeySummary) × (get_elem? keys ((r.next_slot + i) % length keys) ≡ some key)
        × (get_elem? (selections n now keys r) i ≡ some (some key.id))
  unfolding selections
  rotation zero r i few small h = elim h [ ]
  rotation (suc n) r zero few small h =
      let (key, at, is, _) =
        healthy_choice r (select now keys r).0 (select now keys r).1
          (select-Promise now keys r small) in
      (key, at, ap some is)
  rotation (suc n) r (suc i) few small h =
      let (key, at, is, moved) =
        healthy_choice r (select now keys r).0 (select now keys r).1
          (select-Promise now keys r small) in
      let low : (select now keys r).0.next_slot < length keys = rw moved (mod-lt _ some_key) in
      let (key', at', is') = rotation n (select now keys r).0 i few (omega arith) (omega arith) in
      (key', subst (λ m. get_elem? keys m ≡ some key') (same_slot moved) at', is')
    where
      same_slot :
          (select now keys r).0.next_slot ≡ (slot keys r.next_slot 0 + 1) % length keys
          → ((select now keys r).0.next_slot + i) % length keys
            ≡ (r.next_slot + suc i) % length keys
      same_slot moved = rw moved (step_slot r.next_slot i (length keys))

-- Rotation: where every key is eligible, the call number i of a row of calls returns the key that
-- stands i slots after the cursor, cyclically (for a list of at least one key and at most 2 ^ 63,
-- and a cursor that stays within a 64-bit word when the number of keys is added).
pub select-rotates :
    (now : Time) (keys : List KeySummary) (n : ℕ) (r : Router) (i : ℕ)
    → 0 < length keys
    → length keys ≤ 2 ^ 63
    → r.next_slot + length keys ≤ 2 ^ 64
    → All (λ k. eligible now k ≡ true) keys
    → i < n
    → (key : KeySummary) × (get_elem? keys ((r.next_slot + i) % length keys) ≡ some key)
      × (get_elem? (selections n now keys r) i ≡ some (some key.id))
select-rotates now keys n r i some_key few small fit h =
    rotation now keys some_key fit n r i few small h
