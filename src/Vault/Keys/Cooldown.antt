-- ===== src/Vault/Keys/Cooldown.antt =====
-- The cooldown that `record_failure` of crates/core/src/lib.rs sets.
use nvidia_build_lb.Prelude.{
  ℕ, zero, suc, ◌+◌, ◌*◌, ◌-◌, ◌^◌, ◌≤◌, ◌<◌, min, false, Option, none, some, ◌≡◌, arith,
}
use nvidia_build_lb.Vault.State.{
  Time, Duration, pos, negsuc, second, saturating_suc, StoredKey, ok, summary,
}
use nvidia_build_lb.Vault.Keys.{failure_delay, later_of, count_failure}
use nvidia_build_lb.Router.{eligible}

-- The powers that the backoff uses.
pow_bounds : (n : ℕ) → n ≤ 6 → (1 ≤ 2 ^ n) × (2 ^ n ≤ 64)
pow_bounds zero h = omega arith
pow_bounds (suc zero) h = omega arith
pow_bounds (suc (suc zero)) h = omega arith
pow_bounds (suc (suc (suc zero))) h = omega arith
pow_bounds (suc (suc (suc (suc zero)))) h = omega arith
pow_bounds (suc (suc (suc (suc (suc zero))))) h = omega arith
pow_bounds (suc (suc (suc (suc (suc (suc zero)))))) h = omega arith
pow_bounds (suc (suc (suc (suc (suc (suc (suc n))))))) h = absurd (omega arith)

-- A delay is at most 300 seconds, and without a hint it lies between 1 and 64 seconds.
pub failure_delay_bounds :
    (hint : Option Duration) (failures : ℕ)
    → (failure_delay hint failures ≤ 300 * second)
      × (second ≤ failure_delay none failures)
      × (failure_delay none failures ≤ 64 * second)
unfolding failure_delay
failure_delay_bounds none failures =
    let b = pow_bounds (min failures 6) (omega arith) in (omega arith, omega arith, omega arith)
failure_delay_bounds (some (pos d)) failures =
    let b = pow_bounds (min failures 6) (omega arith) in (omega arith, omega arith, omega arith)
failure_delay_bounds (some (negsuc d)) failures =
    let b = pow_bounds (min failures 6) (omega arith) in (omega arith, omega arith, omega arith)

-- The old cooldown, where there is one, ends by the given time.
abbrev pub EndsBy : Option Time → Time → Type 0
EndsBy none until = Unit {0}
EndsBy (some old) until = old ≤ until

later_of-EndsBy : (old : Option Time) (until : Time) → EndsBy old (later_of old until)
later_of-EndsBy none until = tt
later_of-EndsBy (some old) until = omega arith

-- After a failure a key that is not retired has a cooldown that starts at least the delay from now,
-- is never earlier than the old one, and ends at most at the later of the old one and 300 seconds from
-- now. The failure is counted, up to the largest 64-bit number.
pub count_failure-cooldown :
    (now : Time) (hint : Option Duration) (key key' : StoredKey) (u : Unit {0})
    → count_failure now hint key ≡ ok (key', u)
    → key.retired ≡ false
    → (key'.failure_count ≡ min (key.failure_count + 1) (2 ^ 64 - 1))
      × ((until : Time) × (key'.cooldown_until ≡ some until)
          × (now + failure_delay hint key'.failure_count ≤ until)
          × EndsBy key.cooldown_until until
          × (until ≤ later_of key.cooldown_until (now + 300 * second)))
unfolding count_failure
count_failure-cooldown now hint key key' u e live =
    let bounds = failure_delay_bounds hint (saturating_suc key.failure_count) in
    let ends = later_of-EndsBy key.cooldown_until in
    (
      ground arith,
      (
        later_of key.cooldown_until (now + failure_delay hint (saturating_suc key.failure_count)),
        ground arith,
        ground arith,
        ends (now + failure_delay hint (saturating_suc key.failure_count)),
        ground (arith, bounds.0),
      ),
    )

-- A key that has just failed without a hint is not eligible at that time, nor within the next second.
pub count_failure-ineligible :
    (now later : Time) (key key' : StoredKey) (u : Unit {0})
    → count_failure now none key ≡ ok (key', u)
    → key.retired ≡ false
    → later < now + second
    → eligible later (summary key') ≡ false
unfolding eligible summary
count_failure-ineligible now later key key' u e live soon =
    let (until, is, after, _, _) = (count_failure-cooldown now none key key' u e live).1 in
    let bounds = (failure_delay_bounds none key'.failure_count).1 in ground arith
