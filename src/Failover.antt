-- ===== src/Failover.antt =====
-- What one attempt on the provider uses in crates/gateway/src: `retry_after_duration`,
-- `load_routing_policy`, `response_body_limit` and `bounded_response_bytes` of proxy.rs, and
-- `select_failover_key`, `record_request`, `record_failure`, `quarantine_key`, `attempt_started` and
-- `attempt_finished` of main.rs.
pub mod Attempts
pub mod Recorded
pub mod Accounted
pub mod Silent
pub mod Tracked
pub mod Posts
use nvidia_build_lb.Prelude.{
  ℕ, ◌+◌, ◌-◌, ◌*◌, ◌/◌, ◌^◌, min, max, Bytes, String, Bool, true, false, not, ◌&&◌, ◌||◌, List, [],
  ◌∷◌, ◌++◌, Option, none, some, any, length, find_by, select_by, leb, ltb, ◌==◌, str_eq, codes,
  starts_with, parse_below, if◌then◌else◌,
}
use nvidia_build_lb.Json.{
  Value, object, array, elements_of, get, as_u64, as_i64, as_array, and_then, is_some_and,
  integer_within, Integer, at_least_zero, below_zero, is_blank,
}
use nvidia_build_lb.Vault.State.{Uuid, Time, second, Duration, pos, KeySummary, Result, ok, err}
use nvidia_build_lb.Vault.Custody.{Primitives, Env, World}
use nvidia_build_lb.Vault.Keys
use nvidia_build_lb.Vault.Keys.{list}
use nvidia_build_lb.Database.Tables.{Tables, KeyRow}
use nvidia_build_lb.Database.Transactions.{Engine, Ended, execute, transaction}
use nvidia_build_lb.Store.{Answer, success, failure, VaultStore, Operation, mutate}
use nvidia_build_lb.Selection.{Operations, is_candidate, by_slot}
use nvidia_build_lb.Readiness.{select_failover_key, was_attempted}
use nvidia_build_lb.Ledger.{AttemptTerminal}
use nvidia_build_lb.Ledger.Operations.{
  Written, attempt_started as ledger_started, attempt_finished as ledger_finished,
}
use nvidia_build_lb.Evidence.{
  Response, openai_error, Server, Surroundings, Handler, Step, go_on, respond, ◌>>=◌, ◌>>◌, return,
  reply, or_reply, on_database, on_request, arm_evidence_failure, reset_drop_recovery,
}

-- `response_body_limit`
unfoldable pub response_body_limit : String → ℕ
response_body_limit path =
    if str_eq path "/v1/videos/generations"
    then 128 * 1024 * 1024
    else if str_eq path "/v1/images/generations" || str_eq path "/v1/audio/speech"
    then 32 * 1024 * 1024
    else 16 * 1024 * 1024

pub data ResponseBodyError : Type 0 where
  too_large : ResponseBodyError
  transport : ResponseBodyError

pub data Body : Type 0 where
  whole : Bytes → Body
  broken : ResponseBodyError → Body

-- The chunks of a stream, each of which may fail; `chunk.len()` does not leave the range of `usize`.
unfoldable pub collect_chunks : ℕ → Bytes → List (Option Bytes) → Body
collect_chunks limit body [] = whole body
collect_chunks limit body (none ∷ chunks) = broken transport
collect_chunks limit body (some chunk ∷ chunks) =
    let rest = collect_chunks limit (body ++ chunk) chunks in
    if ltb limit (length body + length chunk) then broken too_large else rest

-- An answer of the provider: its status, headers and the stream of its body.
pub record Received : Type 0 where
  pub status : ℕ
  pub content_type : Option Bytes
  pub content_length : Option ℕ
  pub chunks : List (Option Bytes)

unfoldable pub bounded_response_bytes : Received → ℕ → Body
unfolding collect_chunks
bounded_response_bytes response limit =
    if is_some_and response.content_length (λ n. ltb limit n)
    then broken too_large
    else collect_chunks limit [] response.chunks

-- `Duration::seconds(..)`
abbrev pub seconds : ℕ → Duration
seconds n = pos (n * second)

pub record RuntimeRoutingPolicy : Type 0 where
  pub retryable_statuses : List ℕ
  pub default_cooldown : Duration

abbrev pub default_policy : RuntimeRoutingPolicy
default_policy = record {
  retryable_statuses = 402 ∷ 408 ∷ 429 ∷ 500 ∷ 502 ∷ 503 ∷ 504 ∷ [];
  default_cooldown = seconds 2;
}

-- The two `filter_map`s.
abbrev pub keep_status : Option ℕ → List ℕ → List ℕ
keep_status none rest = rest
keep_status (some n) rest = if ltb n (2 ^ 16) then n ∷ rest else rest

unfoldable pub statuses_of : List Value → List ℕ
statuses_of [] = []
statuses_of (v ∷ more) = let rest = statuses_of more in keep_status (as_u64 v) rest

abbrev pub value_get : Value → String → Option Value
value_get (object m) name = get m name
value_get _ name = none

abbrev pub unless_empty : List ℕ → List ℕ → List ℕ
unless_empty [] statuses = statuses
unless_empty (n ∷ ns) statuses = n ∷ ns

abbrev pub retryable_of : Option (List Value) → List ℕ
retryable_of none = default_policy.retryable_statuses
retryable_of (some items) = unless_empty (statuses_of items) default_policy.retryable_statuses

abbrev pub cooldown_of : Option Integer → Duration
cooldown_of none = seconds 2
cooldown_of (some (at_least_zero n)) =
    if integer_within 1 3600 (at_least_zero n) then seconds n else seconds 2
cooldown_of (some (below_zero n)) = seconds 2

-- The active policy of the database, if there is a database and the query answers a document.
unfoldable pub load_routing_policy : Option Tables → Option Value → RuntimeRoutingPolicy
unfolding statuses_of
load_routing_policy none document = default_policy
load_routing_policy (some t) none = default_policy
load_routing_policy (some t) (some document) = record {
  retryable_statuses = retryable_of (and_then (value_get document "retryable_statuses") as_array);
  default_cooldown = cooldown_of (and_then (value_get document "default_cooldown_seconds") as_i64);
}

-- `Retry-After`: a number of seconds, or a date that `http_date` reads.
abbrev trim_start : Bytes → Bytes
trim_start [] = []
trim_start (b ∷ s) = if is_blank (b ∷ []) then trim_start s else b ∷ s

abbrev prepend_unless_blank : ℕ → Bytes → Bytes
prepend_unless_blank b [] = if is_blank (b ∷ []) then [] else b ∷ []
prepend_unless_blank b (c ∷ s) = b ∷ c ∷ s

abbrev trim_end : Bytes → Bytes
trim_end [] = []
trim_end (b ∷ s) = prepend_unless_blank b (trim_end s)

abbrev negative_digits : Bytes → Bool
negative_digits [] = false
negative_digits (b ∷ []) = false
negative_digits (b ∷ c ∷ s) =
    b == b'-' && not (c == b'+') && is_some_and (parse_below (2 ^ 63 + 1) (c ∷ s)) (λ n. true)

-- `deadline.duration_since(now)`, in whole seconds, between 1 and 300.
abbrev pub remaining : Time → Time → Option Duration
remaining now deadline =
    if leb now deadline then some (seconds (max 1 (min ((deadline - now) / second) 300))) else none

abbrev pub hinted : (Bytes → Option Time) → Time → Bytes → Option ℕ → Option Duration
hinted http_date now value (some n) = if ltb 0 n then some (seconds (min n 300)) else none
hinted http_date now value none =
    if negative_digits value then none else and_then (http_date value) (remaining now)

unfoldable pub retry_after_duration : (Bytes → Option Time) → Time → Option Bytes → Option Duration
retry_after_duration http_date now none = none
retry_after_duration http_date now (some header) =
    let value = trim_end (trim_start header) in
    hinted http_date now value (parse_below (2 ^ 63) value)

abbrev first_id : List KeyRow → Option Uuid
first_id [] = none
first_id (key ∷ keys) = some key.id

-- The query of `select_failover_key` with a database.
unfoldable pub failover_query :
    Operations → String → List Uuid → Engine → Tables → Tables × Option Uuid
unfolding is_candidate by_slot
failover_query operations profile attempted e t = (
  t,
  first_id (
      by_slot (
        select_by
          (λ key.
            is_candidate operations e.now profile t.profile_probe_receipts key
            && not (was_attempted attempted key.id))
          t.upstream_keys)),
)

abbrev flattened : Option (Option Uuid) → Option Uuid
flattened none = none
flattened (some id) = id

abbrev ledger_unavailable : ℕ → Response
ledger_unavailable status =
    openai_error status "service_unavailable_error" "ledger_unavailable" none

abbrev of_answer {ℓ} :
    {F : Type 0} {A : Type ℓ} → Server F → Response → VaultStore F × Answer A → Server F × Step A
of_answer s r (store, success a) = (record s { store = store; calls = s.calls + 1 }, go_on a)
of_answer s r (store, failure x) = (record s { store = store; calls = s.calls + 1 }, respond r)

module _ (p : Primitives) (around : Surroundings) where
  abbrev pub failover_from :
      String → List Uuid → Server p.File → Option Tables → Option Uuid → Option Uuid
  failover_from profile attempted s (some t) (some owner) =
      flattened
        (transaction (around.engine s.calls 0)
          (execute (failover_query (around.operations s.calls) profile attempted)) t).result
  failover_from profile attempted s _ _ =
      select_failover_key (around.clock s.calls) (list s.store.world.vault) attempted

  -- `select_failover_key`
  unfoldable pub next_failover_key : String → List Uuid → Handler p.File (Option Uuid)
  unfolding transaction failover_query
  next_failover_key profile attempted s = (
    record s { calls = s.calls + 1 },
    go_on (failover_from profile attempted s s.store.database around.owner_id),
  )

  -- A mutation of the vault, which answers the response where it fails.
  unfoldable pub on_vault {ℓ} : {A : Type ℓ} → Response → Operation p A → Handler p.File A
  unfolding mutate
  on_vault r operation s = of_answer s r (mutate p (around.setting s.calls) operation s.store)

  unfoldable pub record_request : Uuid → Handler p.File (Unit {0})
  unfolding on_vault
  record_request id = on_vault (ledger_unavailable 500) (λ env. Keys.record_request p env id)

  abbrev pub cooldown_until :
      Uuid → World p.File × Result (Unit {0}) → World p.File × Result (Option Time)
  cooldown_until id (w, err x) = (w, err x)
  cooldown_until id (w, ok _) = (
    w,
    ok (
        and_then (find_by (λ (key : KeySummary). key.id == id) (list w.vault))
          (λ key. key.cooldown_until)),
  )

  abbrev pub failure_recorded : Uuid → Option Duration → Operation p (Option Time)
  failure_recorded id retry_after env w =
      cooldown_until id (Keys.record_failure p env id retry_after w)

  unfoldable pub record_failure : Uuid → Option Duration → Handler p.File (Option Time)
  unfolding on_vault
  record_failure id retry_after =
      on_vault (ledger_unavailable 503) (failure_recorded id retry_after)

  unfoldable pub quarantine_key : Uuid → Handler p.File KeySummary
  unfolding on_vault
  quarantine_key id = on_vault (ledger_unavailable 503) (λ env. Keys.quarantine p env id)

  abbrev pub start_call : String → Uuid → Uuid → ℕ → Option Tables → Written
  start_call profile key_id request_id n =
      ledger_started (around.engine n 0) around.owner_id request_id profile key_id

  abbrev pub end_call : Uuid → AttemptTerminal → Uuid → ℕ → Option Tables → Written
  end_call key_id attempt request_id n =
      ledger_finished around.owner_id request_id key_id (around.engine n 0) (around.engine n 1)
        (around.engine n 2) attempt

  unfoldable pub attempt_finished : Uuid → AttemptTerminal → Handler p.File (Unit {0})
  attempt_finished key_id attempt = do
    recorded ← on_request (end_call key_id attempt)
    or_reply (ledger_unavailable 500) recorded

  unfoldable pub attempt_started : String → Uuid → Handler p.File (Unit {0})
  attempt_started profile key_id = do
    recorded ← on_request (start_call profile key_id)
    or_reply (ledger_unavailable 500) recorded

  unfoldable pub start_evidenced_attempt : String → Uuid → Handler p.File (Unit {0})
  unfolding attempt_started arm_evidence_failure reset_drop_recovery
  start_evidenced_attempt profile key_id = do
    arm_evidence_failure none 0
    attempt_started profile key_id
    reset_drop_recovery
