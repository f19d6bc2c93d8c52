-- ===== src/Database/Tables.antt =====
-- The rows of the tables in the schema `nblb` that crates/gateway/src/main.rs writes for the vault, as its
-- statements name the columns, and the mutations that it applies beside the vault (`VaultAuditMutation`,
-- `ClientPolicyMutation`, `ProbeAuditMutation`). The columns of counts have the check `>= 0`.
use nvidia_build_lb.Prelude.{ℕ, Bytes, String, Bool, List, Option}
use nvidia_build_lb.Json.{Value}
use nvidia_build_lb.Vault.State.{Uuid, Text, Time}

pub record KeyRow : Type 0 where
  pub id : Uuid
  pub label : Text
  pub fingerprint : Bytes
  pub ciphertext : Bytes
  pub nonce : Bytes
  pub enabled : Bool
  pub verified : Bool
  pub retired : Bool
  pub cooldown_until : Option Time
  pub request_count : ℕ
  pub failure_count : ℕ
  pub slot_no : ℕ

-- The columns of a bearer, its policy included.
pub record DownstreamRow : Type 0 where
  pub id : Uuid
  pub label : Text
  pub digest : Bytes
  pub scopes : List String
  pub active : Bool
  pub request_count : ℕ
  pub last_used_at : Option Time
  pub created_at : Time
  pub revoked_at : Option Time
  pub rotated_at : Option Time
  pub expires_at : Option Time
  pub model_allowlist : Option (List String)
  pub rpm_limit : Option ℕ
  pub max_concurrency : Option ℕ
  pub request_limit_day : Option ℕ

pub record RoutingRow : Type 0 where
  pub profile_id : String
  pub next_slot : ℕ
  pub generation : ℕ

pub record ReceiptRow : Type 0 where
  pub profile_id : String
  pub key_id : Uuid
  pub verified_at : Time
  pub last_probe_run_id : Option Uuid
  pub invalidated_at : Option Time
  pub invalidation_reason : Option String

pub record ProbeRow : Type 0 where
  pub id : Uuid
  pub kind : String
  pub upstream_id : Uuid
  pub profile_id : Option String
  pub status : String
  pub status_code : Option ℕ
  pub latency_ms : ℕ
  pub error_class : Option String
  pub billable : Bool
  pub started_at : Time
  pub finished_at : Time

pub record AuditRow : Type 0 where
  pub id : Uuid
  pub action : String
  pub resource_kind : String
  pub resource_id : Option Uuid
  pub request_id : Uuid
  pub outcome : String
  pub detail : Value

pub record PermitRow : Type 0 where
  pub request_id : Uuid
  pub downstream_credential_id : Uuid
  pub owner_id : Uuid
  pub profile_id : String
  pub acquired_at : Time
  pub released_at : Option Time

-- A request of a client, and one call of the provider for it.
pub record RequestRow : Type 0 where
  pub id : Uuid
  pub request_id : Uuid
  pub owner_id : Option Uuid
  pub downstream_credential_id : Option Uuid
  pub endpoint : String
  pub profile_id : String
  pub stream : Bool
  pub modality : String
  pub outcome : String
  pub status_code : Option ℕ
  pub error_class : Option String
  pub duration_ms : Option ℕ
  pub ttfb_ms : Option ℕ
  pub failover_count : ℕ
  pub started_at : Time
  pub finished_at : Option Time

pub record AttemptRow : Type 0 where
  pub id : Uuid
  pub request_id : Uuid
  pub profile_id : String
  pub key_id : Uuid
  pub owner_id : Option Uuid
  pub proxy_request_id : Uuid
  pub attempt_no : ℕ
  pub outcome : String
  pub status_code : Option ℕ
  pub error_class : Option String
  pub cooldown_applied_until : Option Time
  pub bytes_out : Option ℕ
  pub response_started : Bool
  pub ttfb_ms : Option ℕ
  pub latency_ms : Option ℕ
  pub created_at : Time
  pub finished_at : Option Time

pub record Tables : Type 0 where
  pub upstream_keys : List KeyRow
  pub downstream_credentials : List DownstreamRow
  pub routing_state : List RoutingRow
  pub profile_probe_receipts : List ReceiptRow
  pub probe_runs : List ProbeRow
  pub audit_events : List AuditRow
  pub downstream_request_permits : List PermitRow
  pub proxy_requests : List RequestRow
  pub request_attempts : List AttemptRow

pub record ClientPolicyMutation : Type 0 where
  pub id : Uuid
  pub expires_at : Option Time
  pub expires_at_changed : Bool
  pub model_allowlist : Option (List String)
  pub model_allowlist_changed : Bool
  pub rpm_limit : Option ℕ
  pub rpm_limit_changed : Bool
  pub max_concurrency : Option ℕ
  pub max_concurrency_changed : Bool
  pub request_limit_day : Option ℕ
  pub request_limit_day_changed : Bool

pub record ProbeAuditMutation : Type 0 where
  pub id : Uuid
  pub kind : String
  pub upstream_id : Uuid
  pub profile_id : Option String
  pub receipt_profile : Option String
  pub billable : Bool
  pub status_code : Option ℕ
  pub error_class : Option String
  pub latency_ms : ℕ

pub record VaultAuditMutation : Type 0 where
  pub action : String
  pub resource_kind : String
  pub resource_id : Option Uuid
  pub request_id : Uuid
  pub detail : Value
  pub client_policy : Option ClientPolicyMutation
  pub probe_result : Option ProbeAuditMutation
