-- ===== src/Database/Permits.antt =====
-- The permits of downstream requests in crates/gateway/src/main.rs: `acquire_downstream_permit`,
-- `release_downstream_permit` and what the answers to a refusal are.
pub mod Limits
use nvidia_build_lb.Prelude.{
  ℕ, ◌+◌, ◌-◌, ◌*◌, ◌/◌, ◌%◌, max, String, str_eq, Bool, true, false, not, ◌&&◌, ◌||◌, List, [],
  ◌∷◌, ◌++◌, Option, none, some, any, find_by, count_by, ltb, leb, ◌==◌, if◌then◌else◌,
}
use nvidia_build_lb.Json.{is_some_and}
use nvidia_build_lb.Vault.State.{Uuid, Time, second}
use nvidia_build_lb.Database.Tables.{Tables, DownstreamRow, PermitRow}
use nvidia_build_lb.Database.Transactions.{
  Engine, Session, DbError, Outcome, done, failed, Tx, ◌>>=◌, ◌>>◌, return, execute, update_where,
}

pub data PermitError : Type 0 where
  expired model_forbidden : PermitError
  rate_limited : ℕ → PermitError
  daily_limit concurrency_limit store_unavailable : PermitError

abbrev pub minute : ℕ
minute = 60 * second

abbrev pub day : ℕ
day = 24 * 60 * minute

-- `date_trunc` to a length of time, in UTC.
abbrev pub truncated : ℕ → Time → Time
truncated length t = t - t % length

abbrev pub of_bearer : Uuid → PermitRow → Bool
of_bearer id row = row.downstream_credential_id == id

-- `acquired_at >= date_trunc(.., now())`
abbrev pub acquired_within : ℕ → Time → Uuid → PermitRow → Bool
acquired_within length now id row = of_bearer id row && leb (truncated length now) row.acquired_at

abbrev is_none {ℓ} : {A : Type ℓ} → Option A → Bool
is_none none = true
is_none (some _) = false

abbrev pub is_unreleased : Uuid → PermitRow → Bool
is_unreleased id row = of_bearer id row && is_none row.released_at

abbrev pub count_permits : (Engine → PermitRow → Bool) → Engine → Tables → Tables × ℕ
count_permits test e t = (t, count_by (test e) t.downstream_request_permits)

-- `limit.is_some_and(|limit| count >= limit)`
abbrev pub reaches : ℕ → Option ℕ → Bool
reaches count limit = is_some_and limit (λ n. leb n count)

-- Whole seconds to the next minute, rounded up, and at least one.
unfoldable pub seconds_to_next_minute : Time → ℕ
seconds_to_next_minute now = max 1 ((truncated minute now + minute - now + (second - 1)) / second)

abbrev pub retry_statement : Engine → Tables → Tables × ℕ
retry_statement e t = (t, seconds_to_next_minute e.now)

abbrev or_sixty : Session → Outcome ℕ → Outcome ℕ
or_sixty s (done seconds s') = done seconds s'
or_sixty s (failed x) = done 60 s

-- `.unwrap_or(60)`
abbrev pub retry_after : Tx ℕ
retry_after e s = or_sixty s (execute retry_statement e s)

abbrev pub find_bearer : Uuid → Engine → Tables → Tables × Option DownstreamRow
find_bearer id e t = (t, find_by (λ row. row.id == id) t.downstream_credentials)

abbrev pub is_expired : Time → DownstreamRow → Bool
is_expired now row = not row.active || is_some_and row.expires_at (λ expires. leb expires now)

abbrev pub forbids_model : String → DownstreamRow → Bool
forbids_model profile row =
    is_some_and row.model_allowlist (λ models. not (any (λ model. str_eq model profile) models))

-- A refusal returns from the function, and the transaction is dropped.
pub data Decision : Type 0 where
  granted : Decision
  refused : PermitError → Decision

abbrev pub permit_row : Engine → Uuid → Uuid → Uuid → String → PermitRow
permit_row e request_id id owner_id profile = record {
  request_id = request_id;
  downstream_credential_id = id;
  owner_id = owner_id;
  profile_id = profile;
  acquired_at = e.stamp e.now;
  released_at = none;
}

abbrev pub insert_permit : Uuid → Uuid → Uuid → String → Engine → Tables → Tables × Unit {0}
insert_permit request_id id owner_id profile e t = (
  record t {
    downstream_request_permits =
        t.downstream_request_permits ++ permit_row e request_id id owner_id profile ∷ [];
  },
  tt,
)

module _ (clock : Time) (request_id id owner_id : Uuid) (profile : String) where
  abbrev pub grant : Tx Decision
  grant = execute (insert_permit request_id id owner_id profile) >> return granted

  abbrev pub check_active : DownstreamRow → Tx Decision
  check_active policy = do
    active ← execute (count_permits (λ e. is_unreleased id))
    if reaches active policy.max_concurrency then return (refused concurrency_limit) else grant

  abbrev pub check_day : DownstreamRow → Tx Decision
  check_day policy = do
    day_count ← execute (count_permits (λ e. acquired_within day e.now id))
    if reaches day_count policy.request_limit_day
        then return (refused daily_limit)
        else check_active policy

  abbrev pub refuse_rate : Tx Decision
  refuse_rate = do seconds ← retry_after; return (refused (rate_limited seconds))

  abbrev pub check_minute : DownstreamRow → Tx Decision
  check_minute policy = do
    minute_count ← execute (count_permits (λ e. acquired_within minute e.now id))
    if reaches minute_count policy.rpm_limit then refuse_rate else check_day policy

  unfoldable pub check_policy : Option DownstreamRow → Tx Decision
  check_policy none = return (refused expired)
  check_policy (some policy) =
      if is_expired clock policy
      then return (refused expired)
      else if forbids_model profile policy
      then return (refused model_forbidden)
      else check_minute policy

  -- The statements of the transaction: the lock of the bearer, its row, and the checks in their order.
  unfoldable pub permit_steps : Tx Decision
  unfolding check_policy
  permit_steps = do execute (λ e t. (t, tt)); policy ← execute (find_bearer id); check_policy policy

-- The answer of the method: `true` for a permit, `false` where none is needed.
pub data Answer : Type 0 where
  permitted : Bool → Answer
  refusal : PermitError → Answer

abbrev pub permit_committed : Tables → Session → Bool → Bool → Tables × Answer
permit_committed before s true true = (s.tables, permitted true)
permit_committed before s true false = (s.tables, refusal store_unavailable)
permit_committed before s false _ = (before, refusal store_unavailable)

abbrev pub permit_ended : Engine → Tables → Outcome Decision → Tables × Answer
permit_ended e before (failed x) = (before, refusal store_unavailable)
permit_ended e before (done (refused x) s) = (before, refusal x)
permit_ended e before (done granted s) = permit_committed before s e.commits e.acknowledges

unfoldable pub acquire_from : Engine → Time → Uuid → Uuid → Uuid → String → Tables → Tables × Answer
unfolding permit_steps
acquire_from e clock request_id id owner_id profile t =
    permit_ended e t
      (permit_steps clock request_id id owner_id profile e (record { tables = t; sent = 0 }))

abbrev pub kept_database : Tables × Answer → Option Tables × Answer
kept_database (t, answer) = (some t, answer)

abbrev pub acquire_as :
    Engine → Time → Uuid → Uuid → String → Option Uuid → Tables → Option Tables × Answer
acquire_as e clock request_id id profile none t = (some t, refusal store_unavailable)
acquire_as e clock request_id id profile (some owner_id) t =
    kept_database (acquire_from e clock request_id id owner_id profile t)

-- No permit is needed without a database or for a request without a bearer.
unfoldable pub acquire_downstream_permit :
    Engine
    → Time
    → Option Uuid
    → Uuid
    → Option Uuid
    → String
    → Option Tables
    → Option Tables × Answer
unfolding acquire_from
acquire_downstream_permit e clock owner request_id none profile database =
    (database, permitted false)
acquire_downstream_permit e clock owner request_id (some id) profile none = (none, permitted false)
acquire_downstream_permit e clock owner request_id (some id) profile (some t) =
    acquire_as e clock request_id id profile owner t

abbrev pub released : Engine → PermitRow → PermitRow
released e row = elim row.released_at [
  | none ↦ record row { released_at = some (e.stamp e.now) }
  | some at ↦ row
]

-- One statement outside a transaction; a failure changes nothing. The answer tells whether it succeeded.
unfoldable pub release_downstream_permit : Engine → Uuid → Option Tables → Option Tables × Bool
release_downstream_permit e request_id none = (none, true)
release_downstream_permit e request_id (some t) =
    if e.executes 0
    then (
      some (record t {
        downstream_request_permits =
            update_where (λ (row : PermitRow). row.request_id == request_id) (released e)
              t.downstream_request_permits;
      }),
      true,
    )
    else (some t, false)
