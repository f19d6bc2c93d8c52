-- ===== src/Readiness.antt =====
-- Readiness and the choice of a key in crates/gateway/src: `Readiness` of health.rs, `eligible_key_count`
-- and the branch without a database of `select_failover_key` of main.rs, `retry_after_for_keys` of
-- proxy.rs.
pub mod Traffic
use nvidia_build_lb.Prelude.{
  ℕ, ◌+◌, ◌-◌, ◌/◌, String, Bool, true, false, not, ◌&&◌, ◌||◌, List, [], ◌∷◌, ◌++◌, Option, none,
  some, count_by, find_by, any, leb, ltb, ◌==◌, min, max, if◌then◌else◌,
}
use nvidia_build_lb.Json.{and_then}
use nvidia_build_lb.Vault.State.{Uuid, Time, second, KeySummary, max_upstream_keys}
use nvidia_build_lb.Router.{eligible}

unfoldable pub eligible_key_count : Time → List KeySummary → ℕ
eligible_key_count now keys = count_by (eligible now) keys

pub record Readiness : Type 0 where
  pub status : String
  pub ready : Bool
  pub database_ready : Bool
  pub traffic_ready : Bool
  pub pair_ready : Bool
  pub eligible_keys : ℕ
  pub reason_codes : List String

unfoldable pub from_eligible_count : Bool → ℕ → Readiness
from_eligible_count database_ready eligible_keys =
    let traffic_ready = database_ready && ltb 0 eligible_keys in
    let pair_ready = database_ready && eligible_keys == max_upstream_keys in
    let first : List String =
      if not database_ready
      then "database_unavailable" ∷ []
      else if eligible_keys == 0
      then "no_eligible_upstream" ∷ []
      else [] in
    record {
      status = if traffic_ready then "ok" else "degraded";
      ready = traffic_ready;
      database_ready = database_ready;
      traffic_ready = traffic_ready;
      pair_ready = pair_ready;
      eligible_keys = eligible_keys;
      reason_codes =
          first ++ (if database_ready && not pair_ready then "pair_not_ready" ∷ [] else []);
    }

unfoldable pub from_state : Time → Bool → List KeySummary → Readiness
unfolding from_eligible_count eligible_key_count
from_state now database_ready keys =
    from_eligible_count database_ready (if database_ready then eligible_key_count now keys else 0)

-- `(until - now).num_seconds().try_into().ok()`: whole seconds, rounded towards zero, if not negative.
unfoldable pub seconds_left : Time → Time → Option ℕ
seconds_left now until =
    if leb now until
    then some ((until - now) / second)
    else if ltb (now - until) second
    then some 0
    else none

-- The two `filter_map`s and `min`.
unfoldable pub least_wait : Time → List KeySummary → Option ℕ
unfolding seconds_left
least_wait now [] = none
least_wait now (key ∷ keys) =
    let rest = least_wait now keys in
    elim (and_then key.cooldown_until (seconds_left now)) [
      | none ↦ rest
      | some s ↦ elim rest [ none ↦ some s | some t ↦ some (min s t) ]
    ]

unfoldable pub retry_after_for_keys : Time → List KeySummary → Option ℕ
retry_after_for_keys now [] = none
retry_after_for_keys now (key ∷ keys) =
    if any (eligible now) (key ∷ keys)
    then none
    else and_then (least_wait now (key ∷ keys)) (λ seconds. some (max 1 (min seconds 300)))

abbrev pub was_attempted : List Uuid → Uuid → Bool
was_attempted attempted id = any (λ a. a == id) attempted

-- The clock is read once here; the source reads it for each key.
unfoldable pub select_failover_key : Time → List KeySummary → List Uuid → Option Uuid
select_failover_key now keys attempted =
    and_then (find_by (λ key. not (was_attempted attempted key.id) && eligible now key) keys)
      (λ key. some key.id)
