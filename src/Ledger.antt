-- ===== src/Ledger.antt =====
-- The ledger of requests and attempts in crates/gateway/src: the statements of main.rs and evidence.rs on
-- `proxy_requests` and `request_attempts`. Times and durations are those of the server.
pub mod Operations
pub mod Recorded
use nvidia_build_lb.Prelude.{
  ℕ, ◌+◌, ◌-◌, ◌/◌, ◌*◌, ◌^◌, min, max, String, Bool, true, false, not, ◌&&◌, ◌||◌, List, [], ◌∷◌,
  ◌++◌, map, Option, none, some, any, count_by, select_by, find_by, ◌==◌, ltb, leb, str_eq,
  if◌then◌else◌,
}
use nvidia_build_lb.Vault.State.{Uuid, Time}
use nvidia_build_lb.Database.Tables.{Tables, RequestRow, AttemptRow, ReceiptRow, KeyRow, RoutingRow}
use nvidia_build_lb.Database.Transactions.{
  unavailable, Engine, Tx, ◌>>=◌, ◌>>◌, return, raise, raise_if, only_if, execute, update_where,
  expect_one, stamped, Ended, transaction,
}

-- What a finished attempt and a finished request are recorded with.
pub record AttemptTerminal : Type 0 where
  pub outcome : String
  pub status_code : Option ℕ
  pub error_class : Option String
  pub cooldown_applied_until : Option Time
  pub bytes_out : Option ℕ

pub record RequestTerminal : Type 0 where
  pub outcome : String
  pub status_code : Option ℕ
  pub error_class : Option String
  pub ttfb_ms : Option ℕ

-- `i64::try_from(value).unwrap_or(i64::MAX)`
abbrev pub as_i64 : ℕ → ℕ
as_i64 n = min n (2 ^ 63 - 1)

abbrev pub some_i64 : Option ℕ → Option ℕ
some_i64 none = none
some_i64 (some n) = some (as_i64 n)

abbrev pub attempt_succeeded : ℕ → Option ℕ → AttemptTerminal
attempt_succeeded status_code bytes_out = record {
  outcome = "succeeded";
  status_code = some status_code;
  error_class = none;
  cooldown_applied_until = none;
  bytes_out = some_i64 bytes_out;
}

abbrev pub attempt_failed : Option ℕ → String → Option Time → AttemptTerminal
attempt_failed status_code error_class cooldown_applied_until = record {
  outcome = "failed";
  status_code = status_code;
  error_class = some error_class;
  cooldown_applied_until = cooldown_applied_until;
  bytes_out = none;
}

abbrev pub with_bytes_out : ℕ → AttemptTerminal → AttemptTerminal
with_bytes_out bytes_out attempt = record attempt { bytes_out = some (as_i64 bytes_out) }

abbrev pub request_succeeded : ℕ → RequestTerminal
request_succeeded status_code = record {
  outcome = "succeeded";
  status_code = some status_code;
  error_class = none;
  ttfb_ms = none;
}

abbrev pub request_failed : ℕ → String → RequestTerminal
request_failed status_code error_class = record {
  outcome = "failed";
  status_code = some status_code;
  error_class = some error_class;
  ttfb_ms = none;
}

abbrev pub request_rejected : ℕ → String → RequestTerminal
request_rejected status_code error_class = record {
  outcome = "rejected";
  status_code = some status_code;
  error_class = some error_class;
  ttfb_ms = none;
}

-- What a request is recorded with when it arrives.
pub record Arrival : Type 0 where
  pub request_id : Uuid
  pub downstream_credential_id : Option Uuid
  pub endpoint : String
  pub profile_id : String
  pub stream : Bool
  pub modality : String

abbrev pub elapsed_ms : Engine → Time → ℕ
elapsed_ms e from = (e.now - from) / 10 ^ 6

-- `owner_id=$3`: a null on either side is never equal.
abbrev pub same_owner : Option Uuid → Option Uuid → Bool
same_owner none owner = false
same_owner (some a) none = false
same_owner (some a) (some b) = a == b

abbrev pub is_unfinished : Option Time → Bool
is_unfinished none = true
is_unfinished (some at) = false

abbrev pub is_started : Uuid → RequestRow → Bool
is_started request_id row = row.request_id == request_id && str_eq row.outcome "started"

-- An attempt of this gateway on a key that has no end yet.
abbrev pub is_open : Option Uuid → Uuid → Uuid → AttemptRow → Bool
is_open owner request_id key_id row =
    row.request_id == request_id
    && row.key_id == key_id
    && same_owner row.owner_id owner
    && is_unfinished row.finished_at

abbrev pub later : AttemptRow → Option AttemptRow → Option AttemptRow
later row none = some row
later row (some other) = if leb other.created_at row.created_at then some row else some other

-- `ORDER BY created_at DESC LIMIT 1`
unfoldable pub latest : (AttemptRow → Bool) → List AttemptRow → Option AttemptRow
latest test [] = none
latest test (row ∷ rows) = let rest = latest test rows in if test row then later row rest else rest

abbrev pub request_row : Engine → Uuid → Option Uuid → Arrival → RequestRow
request_row e id owner arrival = record {
  id = id;
  request_id = arrival.request_id;
  owner_id = owner;
  downstream_credential_id = arrival.downstream_credential_id;
  endpoint = arrival.endpoint;
  profile_id = arrival.profile_id;
  stream = arrival.stream;
  modality = arrival.modality;
  outcome = "started";
  status_code = none;
  error_class = none;
  duration_ms = none;
  ttfb_ms = none;
  failover_count = 0;
  started_at = e.stamp e.now;
  finished_at = none;
}

abbrev pub attempt_row : Engine → Uuid → Uuid → String → Uuid → Option Uuid → ℕ → AttemptRow
attempt_row e request_id proxy_request_id profile key_id owner attempt_no = record {
  id = e.fresh;
  request_id = request_id;
  profile_id = profile;
  key_id = key_id;
  owner_id = owner;
  proxy_request_id = proxy_request_id;
  attempt_no = attempt_no;
  outcome = "started";
  status_code = none;
  error_class = none;
  cooldown_applied_until = none;
  bytes_out = none;
  response_started = false;
  ttfb_ms = none;
  latency_ms = none;
  created_at = e.stamp e.now;
  finished_at = none;
}

abbrev pub insert_request : Option Uuid → Arrival → Engine → Tables → Tables × Uuid
insert_request owner arrival e t = (
  record t { proxy_requests = t.proxy_requests ++ request_row e e.fresh owner arrival ∷ [] },
  e.fresh,
)

-- `COALESCE(max(attempt_no), 0)` over the attempts of a request.
unfoldable pub max_attempt_no : Uuid → List AttemptRow → ℕ
max_attempt_no id [] = 0
max_attempt_no id (row ∷ rows) =
    let rest = max_attempt_no id rows in
    if row.proxy_request_id == id then max row.attempt_no rest else rest

-- `INSERT .. SELECT .. FROM proxy_requests`, one row for each request that is started.
abbrev pub insert_attempt : Uuid → String → Uuid → Option Uuid → Engine → Tables → Tables × ℕ
insert_attempt request_id profile key_id owner e t = (
  record t {
    request_attempts =
        t.request_attempts
        ++ map
            (λ (row : RequestRow).
              attempt_row e request_id row.id profile key_id owner
                (max_attempt_no row.id t.request_attempts + 1))
            (select_by (is_started request_id) t.proxy_requests);
  },
  count_by (is_started request_id) t.proxy_requests,
)

abbrev pub attempt_ended : Engine → AttemptTerminal → AttemptRow → AttemptRow
attempt_ended e terminal row = record row {
  outcome = terminal.outcome;
  status_code = terminal.status_code;
  error_class = terminal.error_class;
  cooldown_applied_until = stamped e terminal.cooldown_applied_until;
  bytes_out = terminal.bytes_out;
  latency_ms = some (elapsed_ms e row.created_at);
  finished_at = some (e.stamp e.now);
}

-- The attempt that a statement is about, by the subquery on its identifier.
abbrev pub update_latest :
    (AttemptRow → Bool) → (AttemptRow → AttemptRow) → Tables → Option AttemptRow → Tables × ℕ
update_latest test set t none = (t, 0)
update_latest test set t (some found) = (
  record t {
    request_attempts =
        update_where (λ (row : AttemptRow). row.id == found.id) set t.request_attempts;
  },
  count_by (λ (row : AttemptRow). row.id == found.id) t.request_attempts,
)

abbrev pub finish_attempt :
    Option Uuid → Uuid → Uuid → AttemptTerminal → Engine → Tables → Tables × ℕ
finish_attempt owner request_id key_id terminal e t =
    update_latest (is_open owner request_id key_id) (attempt_ended e terminal) t
      (latest (is_open owner request_id key_id) t.request_attempts)

abbrev pub find_profile : Option Uuid → Uuid → Uuid → Engine → Tables → Tables × Option AttemptRow
find_profile owner request_id key_id e t =
    (t, latest (is_open owner request_id key_id) t.request_attempts)

abbrev pub is_receipt_of : String → Uuid → ReceiptRow → Bool
is_receipt_of profile key_id row = str_eq row.profile_id profile && row.key_id == key_id

abbrev pub renew_receipt : String → Uuid → Engine → Tables → Tables × Unit {0}
renew_receipt profile key_id e t = (
  record t {
    profile_probe_receipts =
        if any (is_receipt_of profile key_id) t.profile_probe_receipts
        then update_where (is_receipt_of profile key_id)
            (λ (row : ReceiptRow). record row {
              verified_at = e.stamp e.now;
              invalidated_at = none;
              invalidation_reason = none;
            })
            t.profile_probe_receipts
        else t.profile_probe_receipts
          ++ record {
            profile_id = profile;
            key_id = key_id;
            verified_at = e.stamp e.now;
            last_probe_run_id = none;
            invalidated_at = none;
            invalidation_reason = none;
          }
            ∷ [];
  },
  tt,
)

abbrev pub request_ended : Engine → RequestTerminal → Tables → RequestRow → RequestRow
request_ended e terminal t row = record row {
  outcome = terminal.outcome;
  status_code = terminal.status_code;
  error_class = terminal.error_class;
  duration_ms = some (elapsed_ms e row.started_at);
  ttfb_ms = terminal.ttfb_ms;
  failover_count =
      count_by (λ (child : AttemptRow). child.proxy_request_id == row.id) t.request_attempts - 1;
  finished_at = some (e.stamp e.now);
}

abbrev pub finish_request : Uuid → RequestTerminal → Engine → Tables → Tables × ℕ
finish_request request_id terminal e t = (
  record t {
    proxy_requests =
        update_where (is_started request_id) (request_ended e terminal t) t.proxy_requests;
  },
  count_by (is_started request_id) t.proxy_requests,
)
