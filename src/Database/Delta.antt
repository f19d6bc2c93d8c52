-- ===== src/Database/Delta.antt =====
-- `sync_database_delta` of crates/gateway/src/main.rs: one transaction that writes what one mutation of the
-- vault has changed, its client policy, its probe result and its audit event.
pub mod Frames
pub mod Synced
use nvidia_build_lb.Prelude.{
  ℕ, ◌+◌, ◌-◌, ◌%◌, ◌^◌, min, String, str_eq, Bool, true, false, not, ◌&&◌, ◌||◌, List, [], ◌∷◌,
  ◌++◌, Option, none, some, any, count_by, ltb, leb, ◌==◌, if◌then◌else◌,
}
use nvidia_build_lb.Json.{is_some_and}
use nvidia_build_lb.Vault.State.{Uuid, VaultKeyRecord, VaultDownstreamRecord}
use nvidia_build_lb.Vault.Opening.{get_cursor, unwrap_or}
use nvidia_build_lb.Requests.{profiles}
use nvidia_build_lb.Database.Tables.{
  Tables, DownstreamRow, RoutingRow, ReceiptRow, ProbeRow, AuditRow, ClientPolicyMutation,
  ProbeAuditMutation, VaultAuditMutation,
}
use nvidia_build_lb.Database.Transactions.{
  Engine, Tx, ◌>>=◌, ◌>>◌, return, raise_if, only_if, execute, update_where, expect_one, stamped,
  update_row, Ended, transaction, policy_target_is_unavailable,
}
use nvidia_build_lb.Database.Keys.{sync_keys, coalesce}
use nvidia_build_lb.Database.Bearers.{bearer_table, sync_bearers}

pub record VaultSyncSnapshot : Type 0 where
  pub keys : List VaultKeyRecord
  pub downstream : List VaultDownstreamRecord
  pub cursors : List (String × ℕ)

-- `SELECT pg_advisory_xact_lock(..)`
abbrev pub lock : Tx (Unit {0})
lock = execute λ e t. (t, tt)

-- The other slot of the pair.
abbrev pub toggled : RoutingRow → RoutingRow
toggled row = record row {
  next_slot = if row.next_slot == 1 then 2 else 1;
  generation = row.generation + 1;
}

abbrev pub toggle_cursor : String → Engine → Tables → Tables × ℕ
toggle_cursor profile e t = (
  record t {
    routing_state =
        update_where (λ (row : RoutingRow). str_eq row.profile_id profile) toggled t.routing_state;
  },
  count_by (λ (row : RoutingRow). str_eq row.profile_id profile) t.routing_state,
)

-- `previous_cursor.wrapping_sub(current_cursor) % 2 == 0`
abbrev pub same_parity : ℕ → ℕ → Bool
same_parity before now = (before + 2 ^ 64 - now) % 2 ^ 64 % 2 == 0

unfoldable pub sync_cursor : List (String × ℕ) → List (String × ℕ) → String → Tx (Unit {0})
sync_cursor previous current profile =
    only_if
      (not (
        same_parity (unwrap_or (get_cursor profile previous) 0)
          (unwrap_or (get_cursor profile current) 0)))
      (execute (toggle_cursor profile) >>= expect_one)

unfoldable pub sync_cursors : List (String × ℕ) → List (String × ℕ) → List String → Tx (Unit {0})
unfolding sync_cursor
sync_cursors previous current [] = return tt
sync_cursors previous current (profile ∷ rest) =
    sync_cursor previous current profile >> sync_cursors previous current rest

-- `i32::try_from(value).unwrap_or(i32::MAX)`, and so for `i16`.
abbrev pub clamped : ℕ → Option ℕ → Option ℕ
clamped largest none = none
clamped largest (some n) = some (min n largest)

abbrev pub policy_set : ClientPolicyMutation → Engine → DownstreamRow → DownstreamRow
policy_set policy e row = record row {
  expires_at = if policy.expires_at_changed then stamped e policy.expires_at else row.expires_at;
  model_allowlist =
      if policy.model_allowlist_changed then policy.model_allowlist else row.model_allowlist;
  rpm_limit =
      if policy.rpm_limit_changed then clamped (2 ^ 31 - 1) policy.rpm_limit else row.rpm_limit;
  max_concurrency =
      if policy.max_concurrency_changed
      then clamped (2 ^ 15 - 1) policy.max_concurrency
      else row.max_concurrency;
  request_limit_day =
      if policy.request_limit_day_changed
      then clamped (2 ^ 31 - 1) policy.request_limit_day
      else row.request_limit_day;
}

abbrev pub is_target : ClientPolicyMutation → DownstreamRow → Bool
is_target policy row = row.id == policy.id && row.active

abbrev pub write_policy : ClientPolicyMutation → Engine → Tables → Tables × ℕ
write_policy policy e t = (
  record t {
    downstream_credentials =
        update_where (is_target policy) (policy_set policy e) t.downstream_credentials;
  },
  count_by (is_target policy) t.downstream_credentials,
)

abbrev pub expect_target : ℕ → Tx (Unit {0})
expect_target affected = raise_if (not (affected == 1)) policy_target_is_unavailable

-- The client policy, of a bearer that must be active.
unfoldable pub apply_policy : Option ClientPolicyMutation → Tx (Unit {0})
apply_policy none = return tt
apply_policy (some policy) = execute (write_policy policy) >>= expect_target

abbrev is_none {ℓ} : {A : Type ℓ} → Option A → Bool
is_none none = true
is_none (some _) = false

unfoldable pub probe_passed : ProbeAuditMutation → Bool
probe_passed probe =
    is_none probe.error_class
    && is_some_and probe.status_code (λ status. leb 200 status && ltb status 300)

abbrev pub probe_row : Engine → ProbeAuditMutation → ProbeRow
probe_row e probe = record {
  id = probe.id;
  kind = probe.kind;
  upstream_id = probe.upstream_id;
  profile_id = probe.profile_id;
  status = if probe_passed probe then "passed" else "failed";
  status_code = probe.status_code;
  latency_ms = min probe.latency_ms (2 ^ 63 - 1);
  error_class = probe.error_class;
  billable = probe.billable;
  started_at = e.now;
  finished_at = e.now;
}

abbrev is_receipt : String → Uuid → ReceiptRow → Bool
is_receipt profile key row = str_eq row.profile_id profile && row.key_id == key

-- The receipt of a probe that passed, new or renewed.
abbrev pub store_receipt : String → ProbeAuditMutation → Engine → Tables → Tables × Unit {0}
store_receipt profile probe e t =
    let fresh : ReceiptRow = record {
      profile_id = profile;
      key_id = probe.upstream_id;
      verified_at = e.now;
      last_probe_run_id = some probe.id;
      invalidated_at = none;
      invalidation_reason = none;
    } in
    (
      record t {
        profile_probe_receipts =
            if any (is_receipt profile probe.upstream_id) t.profile_probe_receipts
            then update_where (is_receipt profile probe.upstream_id) (λ row. fresh)
                t.profile_probe_receipts
            else t.profile_probe_receipts ++ fresh ∷ [];
      },
      tt,
    )

-- A provider that refuses the credential invalidates all receipts of the key.
abbrev pub refuse_receipts : ProbeAuditMutation → Engine → Tables → Tables × Unit {0}
refuse_receipts probe e t = (
  record t {
    profile_probe_receipts =
        update_where (λ (row : ReceiptRow). row.key_id == probe.upstream_id)
          (λ (row : ReceiptRow). record row {
            invalidated_at = coalesce row.invalidated_at e.now;
            invalidation_reason = some "provider_auth_error";
          })
          t.profile_probe_receipts;
  },
  tt,
)

unfoldable pub settle_receipt : ProbeAuditMutation → Bool → Option String → Tx (Unit {0})
settle_receipt probe true none = return tt
settle_receipt probe true (some profile) = execute (store_receipt profile probe)
settle_receipt probe false receipt_profile =
    only_if (is_some_and probe.status_code (λ status. status == 401 || status == 403))
      (execute (refuse_receipts probe))

abbrev pub insert_probe : ProbeAuditMutation → Engine → Tables → Tables × Unit {0}
insert_probe probe e t = (record t { probe_runs = t.probe_runs ++ probe_row e probe ∷ [] }, tt)

unfoldable pub record_probe : Option ProbeAuditMutation → Tx (Unit {0})
unfolding probe_passed settle_receipt
record_probe none = return tt
record_probe (some probe) = do
  execute (insert_probe probe)
  settle_receipt probe (probe_passed probe) probe.receipt_profile

abbrev pub audit_row : Engine → VaultAuditMutation → AuditRow
audit_row e audit = record {
  id = e.fresh;
  action = audit.action;
  resource_kind = audit.resource_kind;
  resource_id = audit.resource_id;
  request_id = audit.request_id;
  outcome = "succeeded";
  detail = audit.detail;
}

abbrev pub insert_audit : VaultAuditMutation → Engine → Tables → Tables × Option Uuid
insert_audit audit e t =
    (record t { audit_events = t.audit_events ++ audit_row e audit ∷ [] }, some e.fresh)

unfoldable pub write_audit : Option VaultAuditMutation → Tx (Option Uuid)
unfolding apply_policy record_probe
write_audit none = return none
write_audit (some audit) = do
  apply_policy audit.client_policy
  record_probe audit.probe_result
  execute (insert_audit audit)

-- The statements between BEGIN and COMMIT.
unfoldable pub delta :
    VaultSyncSnapshot → VaultSyncSnapshot → Option VaultAuditMutation → Tx (Option Uuid)
unfolding sync_keys sync_bearers sync_cursors write_audit
delta previous current audit = do
  lock
  sync_keys previous.keys current.keys
  sync_bearers previous.downstream current.downstream
  sync_cursors previous.cursors current.cursors profiles
  write_audit audit

unfoldable pub sync_database_delta :
    Engine
    → VaultSyncSnapshot
    → VaultSyncSnapshot
    → Option VaultAuditMutation
    → Tables
    → Ended (Option Uuid)
unfolding delta transaction
sync_database_delta e previous current audit = transaction e (delta previous current audit)
