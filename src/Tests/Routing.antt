-- ===== src/Tests/Routing.antt =====
-- The selector of crates/core/src/lib.rs: runs, and the theorems on it at concrete inputs.
use nvidia_build_lb.Readiness.{from_state, retry_after_for_keys, was_attempted, select_failover_key}
use nvidia_build_lb.Readiness.Traffic.{
  is_some, from_state-select, retry_after_for_keys-select, select_failover_key_lem,
}
use nvidia_build_lb.Vault.State.{second}
use nvidia_build_lb.Prelude.{
  ℕ, none, ◌&&◌, ◌*◌, ◌≤◌, false, ◌+◌, ◌%◌, true, List, [], ◌∷◌, some, length, get_elem?, any, ◌≡◌,
  refl, arith, codes,
}
use nvidia_build_lb.Vault.State.{KeySummary, summary}
use nvidia_build_lb.Router.{Router, eligible, select_from, select}
use nvidia_build_lb.Router.Selection.{Promise, select-Promise}
use nvidia_build_lb.Router.Rotation.{selections, is_choice, select-no_starvation, select-rotates}
use nvidia_build_lb.Vault.Keys.{list}
use nvidia_build_lb.Vault.Calls.Safety.{Serves, select-Serves}
use nvidia_build_lb.Tests.Fixtures.{serving_key, idle_key, two_keys, house}

abbrev first_key : KeySummary
first_key = summary serving_key

abbrev second_key : KeySummary
second_key = summary (record serving_key { id = 3; label = codes "three" })

abbrev healthy : List KeySummary
healthy = first_key ∷ second_key ∷ []

abbrev at_one : Router
at_one = record { next_slot = 1 }

fit : eligible 10 second_key ≡ true
unfolding eligible summary
fit = refl

fit_first : eligible 10 first_key ≡ true
unfolding eligible summary
fit_first = refl

-- The cursor passes over the key that is not eligible.
passes_idle :
    select 10 (summary idle_key ∷ first_key ∷ []) (record { next_slot = 0 })
    ≡ (record { next_slot = 0 }, some 1)
unfolding select select_from eligible summary
passes_idle = refl

select-Promise_example :
    Promise 10 healthy at_one (select 10 healthy at_one).0 (select 10 healthy at_one).1
select-Promise_example = select-Promise 10 healthy at_one (omega arith)

select-no_starvation_example :
    any (is_choice second_key.id) (selections (length healthy) 10 healthy at_one) ≡ true
select-no_starvation_example =
    select-no_starvation 10 healthy at_one 1 second_key (omega arith) (omega arith) refl fit

select-rotates_example :
    (key : KeySummary) × (get_elem? healthy ((at_one.next_slot + 3) % length healthy) ≡ some key)
    × (get_elem? (selections 5 10 healthy at_one) 3 ≡ some (some key.id))
select-rotates_example =
    select-rotates 10 healthy 5 at_one 3 (omega arith) (omega arith) (omega arith)
      (fit_first, (fit, tt)) (omega arith)

short : 1 + length (list house) ≡ 3
unfolding list
short = refl

select-Serves_example : Serves 10 two_keys.keys (select 10 (list house) at_one).1
select-Serves_example = select-Serves 10 house at_one (omega (arith, short))

from_state-select_example :
    (from_state 10 true healthy).ready ≡ true && is_some (select 10 healthy at_one).1
from_state-select_example = from_state-select 10 true healthy at_one (omega arith)

abbrev cooling : List KeySummary
cooling = record first_key { cooldown_until = some (10 + 7 * second) } ∷ []

waits : retry_after_for_keys 10 cooling ≡ some 7
unfolding retry_after_for_keys eligible summary nvidia_build_lb.Readiness.least_wait
waits = refl

retry_after_for_keys-select_example : ((select 10 cooling at_one).1 ≡ none) × (1 ≤ 7) × (7 ≤ 300)
retry_after_for_keys-select_example =
    retry_after_for_keys-select 10 cooling at_one 7 (omega arith) waits

goes_on : select_failover_key 10 healthy (1 ∷ []) ≡ some 3
unfolding select_failover_key summary eligible
goes_on = refl

select_failover_key_example :
    (was_attempted (1 ∷ []) 3 ≡ false)
    × ((i : ℕ) × (key : KeySummary) × (get_elem? healthy i ≡ some key)
        × (key.id ≡ 3)
        × (eligible 10 key ≡ true))
select_failover_key_example = select_failover_key_lem 10 healthy (1 ∷ []) 3 goes_on
