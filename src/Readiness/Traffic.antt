-- ===== src/Readiness/Traffic.antt =====
-- Readiness against what the selector of crates/core/src/lib.rs would serve.
use nvidia_build_lb.Prelude.{
  ℕ, zero, suc, ◌+◌, ◌≤◌, ◌^◌, Bool, true, false, not, ◌&&◌, List, [], ◌∷◌, Option, none, some, ◌≡◌,
  refl, arith, length, get_elem?, count_by, find_by, any, Bool-cases, Option-cases, found_at, subst,
  inl, inr, ltb,
}
use nvidia_build_lb.Json.{and_then, is_some_and}
use nvidia_build_lb.Vault.State.{Uuid, Time, KeySummary}
use nvidia_build_lb.Router.{Router, eligible, select}
use nvidia_build_lb.Router.Selection.{Promise, select-Promise}
use nvidia_build_lb.Readiness.{
  from_state, retry_after_for_keys, least_wait, was_attempted, select_failover_key,
}

abbrev pub is_some {ℓ} : {A : Type ℓ} → Option A → Bool
is_some o = is_some_and o (λ _. true)

is_some-none {ℓ} : {A : Type ℓ} (o : Option A) → is_some o ≡ false → o ≡ none
is_some-none none h = refl
is_some-none (some a) h = cc

count-any : (p : KeySummary → Bool) (keys : List KeySummary) → ltb 0 (count_by p keys) ≡ any p keys
count-any p [] = refl
count-any p (key ∷ keys) = ground (arith, count-any p keys)

any-at :
    (p : KeySummary → Bool) (keys : List KeySummary) (i : ℕ) (key : KeySummary)
    → get_elem? keys i ≡ some key
    → p key ≡ true
    → any p keys ≡ true
any-at p [] i key e h = cc
any-at p (k ∷ keys) zero key e h = ground arith
any-at p (k ∷ keys) (suc i) key e h = ground (arith, any-at p keys i key e h)

none-any :
    (p : KeySummary → Bool) (keys : List KeySummary)
    → ((i : ℕ) (key : KeySummary) → get_elem? keys i ≡ some key → p key ≡ false)
    → any p keys ≡ false
none-any p [] h = refl
none-any p (key ∷ keys) h = ground (arith, h 0 key refl, none-any p keys (λ i k e. h (suc i) k e))

any-Promise :
    (now : Time) (keys : List KeySummary) (r r' : Router) (o : Option Uuid)
    → Promise now keys r r' o
    → any (eligible now) keys ≡ is_some o
any-Promise now keys r r' none h = none-any (eligible now) keys h.1
any-Promise now keys r r' (some id) h = any-at (eligible now) keys _ h.key h.found h.fit

-- The readiness computed from a list of keys says ready exactly when the database is ready and the selector
-- would return a key from the list, wherever the selector's cursor stands (within a 64-bit word together with the number of keys).
pub from_state-select :
    (now : Time) (database_ready : Bool) (keys : List KeySummary) (r : Router)
    → r.next_slot + length keys ≤ 2 ^ 64
    → (from_state now database_ready keys).ready ≡ database_ready && is_some (select now keys r).1
unfolding from_state
from_state-select now database_ready keys r small = ground (
  arith,
  count-any (eligible now) keys,
  any-Promise now keys r _ _ (select-Promise now keys r small),
)

-- A client is told to come back only where the selector would return nothing, and then after 1 to 300
-- seconds.
pub retry_after_for_keys-select :
    (now : Time) (keys : List KeySummary) (r : Router) (seconds : ℕ)
    → r.next_slot + length keys ≤ 2 ^ 64
    → retry_after_for_keys now keys ≡ some seconds
    → ((select now keys r).1 ≡ none) × (1 ≤ seconds) × (seconds ≤ 300)
unfolding retry_after_for_keys
retry_after_for_keys-select now [] r seconds small e = cc
retry_after_for_keys-select now (key ∷ keys) r seconds small e =
    let all_unfit = any-Promise now (key ∷ keys) r _ _ (select-Promise now (key ∷ keys) r small) in
    elim (Bool-cases (any (eligible now) (key ∷ keys))) [
      | inl some_fit ↦ absurd (ground arith)
      | inr none_fit ↦ elim (Option-cases (least_wait now (key ∷ keys))) [
        | inl no_wait ↦ absurd (ground arith)
        | inr (s, wait) ↦ (is_some-none _ (ground arith), ground arith, ground arith)
      ]
    ]

some-id : (a b : ℕ) → some a ≡ some b → a ≡ b
some-id a b h = cc

-- Without a database a failover never returns to a key that was tried, and only goes to an eligible key of the
-- list.
pub select_failover_key_lem :
    (now : Time) (keys : List KeySummary) (attempted : List Uuid) (id : Uuid)
    → select_failover_key now keys attempted ≡ some id
    → (was_attempted attempted id ≡ false)
      × ((i : ℕ) × (key : KeySummary) × (get_elem? keys i ≡ some key)
          × (key.id ≡ id)
          × (eligible now key ≡ true))
unfolding select_failover_key
select_failover_key_lem now keys attempted id e =
    go (find_by (λ key. not (was_attempted attempted key.id) && eligible now key) keys) refl e
  where
    go :
        (o : Option KeySummary)
        → find_by (λ key. not (was_attempted attempted key.id) && eligible now key) keys ≡ o
        → and_then o (λ key. some key.id) ≡ some id
        → (was_attempted attempted id ≡ false)
          × ((i : ℕ) × (key : KeySummary) × (get_elem? keys i ≡ some key)
              × (key.id ≡ id)
              × (eligible now key ≡ true))
    go none is e' = cc
    go (some key) is e' =
        let (i, at, passes) = found_at _ keys key is in
        let same : key.id ≡ id = some-id key.id id e' in
        (
          subst (λ (n : ℕ). was_attempted attempted n ≡ false) same (ground arith),
          (i, key, at, same, ground arith),
        )
