-- ===== src/Router/Selection.antt =====
-- What one call of `select` returns.
use nvidia_build_lb.Prelude.{
  get_elem?_lt, get_elem?-lt_length, ℕ, zero, suc, ◌+◌, ◌-◌, ◌%◌, ◌^◌, ◌≤◌, ◌<◌, true, false, List,
  Option, none, some, length, get_elem?, if◌then◌else◌, inl, inr, ◌≡◌, refl, arith, Bool-cases, ap,
  sym, ◌∙◌, subst,
}
use native.Mathlib.Decide.{dec_lt}
use native.Mathlib.Nat.{add-mod-mod, mod-add-mod, add-mod_right, mod-eq_of_lt, mod-lt}
use nvidia_build_lb.Vault.State.{Uuid, Time, KeySummary}
use nvidia_build_lb.Router.{Router, eligible, select_from, select}

-- The key at the cyclic offset from the cursor.
abbrev pub slot : List KeySummary → ℕ → ℕ → ℕ
slot keys cursor offset = (cursor + offset) % length keys

-- The first eligible key at or after the cursor, in cyclic order, and where the cursor goes.
pub record IsFirst (now : Time) (keys : List KeySummary) (r r' : Router) (id : Uuid) : Type 0 where
  pub offset : ℕ
  pub key : KeySummary
  pub within : offset < length keys
  pub found : get_elem? keys (slot keys r.next_slot offset) ≡ some key
  pub named : key.id ≡ id
  pub fit : eligible now key ≡ true
  pub skipped :
      (j : ℕ) (k : KeySummary)
      → j < offset
      → get_elem? keys (slot keys r.next_slot j) ≡ some k
      → eligible now k ≡ false
  pub moved : r'.next_slot ≡ (slot keys r.next_slot offset + 1) % length keys

module _ (now : Time) (keys : List KeySummary) (r : Router) where
  -- All offsets below this one were passed over.
  abbrev Skipped : ℕ → Type 0
  Skipped n =
      (j : ℕ) (k : KeySummary)
      → j < n
      → get_elem? keys (slot keys r.next_slot j) ≡ some k
      → eligible now k ≡ false

  Skipped-suc :
      (n : ℕ) (k : KeySummary)
      → get_elem? keys (slot keys r.next_slot n) ≡ some k
      → eligible now k ≡ false
      → Skipped n
      → Skipped (suc n)
  Skipped-suc n k found miss before j k' h e = elim (dec_lt j n) [
    | yes lt ↦ before j k' lt e
    | no ge ↦
        let same : j ≡ n = omega arith in
        let here = subst (λ m. get_elem? keys (slot keys r.next_slot m) ≡ some k') same e in cc
  ]

  -- What the walk returns, from the router and the key of its result.
  abbrev pub Outcome : Router → Option Uuid → Type 0
  Outcome r' none = (r' ≡ r) × Skipped (length keys)
  Outcome r' (some id) = IsFirst now keys r r' id

  -- One round of the loop, at a key of the list.
  select_from-suc :
      (rounds offset : ℕ) (key : KeySummary)
      → r.next_slot + offset < 2 ^ 64
      → get_elem? keys (slot keys r.next_slot offset) ≡ some key
      → select_from (suc rounds) now keys r offset ≡ (
          if eligible now key
          then (
            record r { next_slot = (slot keys r.next_slot offset + 1) % length keys },
            some key.id,
          )
          else select_from rounds now keys r (offset + 1))
  unfolding select_from
  select_from-suc rounds offset key small found =
      rw (wrap, select_from)
        (rw (found, select_from)
          (elim (Bool-cases (eligible now key)) [
            | inl hit ↦ rw (hit, select_from) (rw wrap)
            | inr miss ↦ rw (miss, select_from)
          ]))
    where
      wrap : (r.next_slot + offset) % 2 ^ 64 ≡ r.next_slot + offset
      wrap = omega arith

  select_from-Outcome :
      (rounds offset : ℕ)
      → offset + rounds ≡ length keys
      → r.next_slot + length keys ≤ 2 ^ 64
      → Skipped offset
      → Outcome (select_from rounds now keys r offset).0 (select_from rounds now keys r offset).1
  select_from-Outcome zero offset total small before =
      unfold select_from in (refl, subst Skipped (omega arith) before)
  select_from-Outcome (suc rounds) offset total small before =
      let in_range : slot keys r.next_slot offset < length keys = omega arith in
      let (key, found) = get_elem?_lt keys (slot keys r.next_slot offset) in_range in
      let step = select_from-suc rounds offset key (omega arith) found in
      subst (λ (p : Router × Option Uuid). Outcome p.0 p.1) (sym step)
        (elim (Bool-cases (eligible now key)) [
          | inl hit ↦ rw hit (record {
            offset = offset;
            key = key;
            within = omega arith;
            found = found;
            named = refl;
            fit = hit;
            skipped = before;
            moved = refl;
          })
          | inr miss ↦ rw miss (
              select_from-Outcome rounds (offset + 1) (omega arith) small
                (subst Skipped (omega arith) (Skipped-suc offset key found miss before)))
        ])

-- The offset at which the walk from the cursor meets an index.
abbrev pub distance : List KeySummary → ℕ → ℕ → ℕ
distance keys cursor index = (index + length keys - cursor % length keys) % length keys

cyclic : (c n i : ℕ) → i < n → (c + (i + n - c % n) % n) % n ≡ i
cyclic c n i h =
    add-mod-mod c (i + n - c % n) n
    ∙ sym (mod-add-mod c n (i + n - c % n))
    ∙ ap (λ (m : ℕ). m % n) meets
    ∙ add-mod_right i n
    ∙ mod-eq_of_lt h
  where
    bound : c % n < n
    bound = mod-lt c (omega arith)

    meets : c % n + (i + n - c % n) ≡ i + n
    meets = omega (arith, bound)

pub slot-distance :
    (keys : List KeySummary) (cursor index : ℕ)
    → index < length keys
    → slot keys cursor (distance keys cursor index) ≡ index
slot-distance keys cursor index h = cyclic cursor (length keys) index h

-- A full walk that passes over every slot passes over every key.
Skipped-all :
    (now : Time) (keys : List KeySummary) (r : Router)
    → Skipped now keys r (length keys)
    → (i : ℕ) (k : KeySummary) → get_elem? keys i ≡ some k
    → eligible now k ≡ false
Skipped-all now keys r before i k at =
    let inside = get_elem?-lt_length keys i k at in
    before (distance keys r.next_slot i) k (omega arith)
      (subst (λ m. get_elem? keys m ≡ some k) (sym (slot-distance keys r.next_slot i inside)) at)

-- What `select` promises: the first eligible key at or after the cursor with the cursor moved past
-- it, or no change where no key at all is eligible.
abbrev pub Promise : Time → List KeySummary → Router → Router → Option Uuid → Type 0
Promise now keys r r' none =
    (r' ≡ r) × ((i : ℕ) (k : KeySummary) → get_elem? keys i ≡ some k → eligible now k ≡ false)
Promise now keys r r' (some id) = IsFirst now keys r r' id

Promise-of_Outcome :
    (now : Time) (keys : List KeySummary) (r r' : Router) (o : Option Uuid)
    → Outcome now keys r r' o
    → Promise now keys r r' o
Promise-of_Outcome now keys r r' none h = (h.0, Skipped-all now keys r h.1)
Promise-of_Outcome now keys r r' (some id) h = h

-- Whatever the cursor, if cursor and number of keys together stay within a 64-bit word, `select`
-- returns the first eligible key in cyclic order from the cursor and moves the cursor just past it,
-- and it returns nothing and changes nothing exactly where no key is eligible.
pub select-Promise :
    (now : Time) (keys : List KeySummary) (r : Router)
    → r.next_slot + length keys ≤ 2 ^ 64
    → Promise now keys r (select now keys r).0 (select now keys r).1
unfolding select
select-Promise now keys r small = Promise-of_Outcome now keys r _ _ (
    select_from-Outcome now keys r (length keys) 0 (omega arith) small
      (λ j k h _. absurd (omega arith)))
