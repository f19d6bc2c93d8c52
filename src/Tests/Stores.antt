-- ===== src/Tests/Stores.antt =====
-- The store of crates/gateway/src/main.rs: runs, and its theorems at concrete inputs.
use nvidia_build_lb.Prelude.{
  ◌≢◌, sym, str_eq_iff, ℕ, String, Bool, true, false, [], ◌∷◌, ◌++◌, List, map, none, some, Option,
  ◌≡◌, ◌↔◌, refl, codes, arith, Bytes,
}
use nvidia_build_lb.Json.{Value}
use nvidia_build_lb.Vault.State.{
  Uuid, Time, VaultKeyRecord, VaultDownstreamRecord, StoredKey, StoredDownstream, ok, summary,
  KeySummary, VaultFile,
}
use nvidia_build_lb.Vault.Custody.{Env, World}
use nvidia_build_lb.Vault.Keys.{quarantine}
use nvidia_build_lb.Vault.Downstream.Access.{Grants}
use nvidia_build_lb.Requests.{profiles}
use nvidia_build_lb.Vault.Opening.{router_cursor_for}
use nvidia_build_lb.Database.Tables.{Tables, KeyRow, DownstreamRow, ReceiptRow, VaultAuditMutation}
use nvidia_build_lb.Database.Transactions.{Engine}
use nvidia_build_lb.Database.Transactions.{last_with}
use nvidia_build_lb.Database.Keys.Mirrors as Keys
use nvidia_build_lb.Database.Bearers.Mirrors as Bearers
use nvidia_build_lb.Database.Delta.{VaultSyncSnapshot}
use nvidia_build_lb.Database.Delta.Synced.{IsReady}
use nvidia_build_lb.Database.Permits.{acquire_downstream_permit}
use nvidia_build_lb.Database.Permits.Limits.{IsPermitted, acquire_downstream_permit-IsPermitted}
use nvidia_build_lb.Store.{
  VaultStore, Setting, snapshot, mutate, mutate_with_audit, success, not_synchronised, Operation,
}
use nvidia_build_lb.Store.Rollbacks.{IsRestored}
use nvidia_build_lb.Store.Mutations.{IsAudited, mutate-IsRestored, mutate_with_audit-IsAudited}
use nvidia_build_lb.Store.Access.{authorize_downstream, pass}
use nvidia_build_lb.Store.Access.Authorization.{InForce, authorize_downstream_iff}
use nvidia_build_lb.Selection.{Operations, Gateway, select_from_database, select_from_vault}
use nvidia_build_lb.Selection.Slots.{IsTurn, select_from_database-IsTurn}
use nvidia_build_lb.Selection.Cursors.{IsInStep, select_from_vault-IsInStep}
use nvidia_build_lb.Tests.Fixtures.{
  toy, calm, serving_key, idle_key, bearer, old_bearer, bearer_token, house, here_and_now, two_keys,
}

-- A server on which everything succeeds, and one that is gone.
abbrev pub server : Engine
server = record {
  now = 1000;
  stamp = λ t. t;
  fresh = 77;
  executes = λ n. true;
  refuses = λ t. false;
  commits = true;
  acknowledges = true;
}

abbrev lost_server : Engine
lost_server = record server { executes = λ n. false }

abbrev pub setting : Setting
setting = record { operation = calm; rollback = calm; engine = server }

abbrev key_row_of : StoredKey → ℕ → KeyRow
key_row_of key slot = record {
  id = key.id;
  label = key.label;
  fingerprint = key.fingerprint;
  ciphertext = key.ciphertext;
  nonce = key.nonce;
  enabled = key.enabled;
  verified = key.verified;
  retired = key.retired;
  cooldown_until = key.cooldown_until;
  request_count = key.request_count;
  failure_count = key.failure_count;
  slot_no = slot;
}

abbrev bearer_row_of : StoredDownstream → DownstreamRow
bearer_row_of item = record {
  id = item.id;
  label = item.label;
  digest = item.token_digest;
  scopes = item.scopes;
  active = item.active;
  request_count = item.request_count;
  last_used_at = item.last_used_at;
  created_at = item.created_at;
  revoked_at = item.revoked_at;
  rotated_at = none;
  expires_at = some 2000;
  model_allowlist = none;
  rpm_limit = some 3;
  max_concurrency = some 1;
  request_limit_day = none;
}

abbrev proof_of : Uuid → ReceiptRow
proof_of id = record {
  profile_id = "nvidia/vila";
  key_id = id;
  verified_at = 900;
  last_probe_run_id = none;
  invalidated_at = none;
  invalidation_reason = none;
}

abbrev pub tables : Tables
tables = record {
  upstream_keys = key_row_of serving_key 1 ∷ key_row_of idle_key 2 ∷ [];
  downstream_credentials = bearer_row_of bearer ∷ bearer_row_of old_bearer ∷ [];
  routing_state = record { profile_id = "nvidia/vila"; next_slot = 2; generation = 4 } ∷ [];
  profile_probe_receipts = proof_of 1 ∷ proof_of 2 ∷ [];
  probe_runs = [];
  audit_events = [];
  downstream_request_permits = [];
  proxy_requests = [];
  request_attempts = [];
}

abbrev pub store : VaultStore VaultFile
store = record { world = here_and_now; database = some tables }

abbrev record_of : StoredKey → VaultKeyRecord
record_of key = record {
  id = key.id;
  label = key.label;
  fingerprint = key.fingerprint;
  nonce = key.nonce;
  ciphertext = key.ciphertext;
  enabled = key.enabled;
  verified = key.verified;
  retired = key.retired;
  cooldown_until = key.cooldown_until;
  request_count = key.request_count;
  failure_count = key.failure_count;
}

abbrev bearer_of : StoredDownstream → VaultDownstreamRecord
bearer_of item = record {
  id = item.id;
  label = item.label;
  scopes = item.scopes;
  token_digest = item.token_digest;
  active = item.active;
  request_count = item.request_count;
  last_used_at = item.last_used_at;
  created_at = item.created_at;
  revoked_at = item.revoked_at;
}

abbrev before : VaultSyncSnapshot
before = record {
  keys = record_of serving_key ∷ record_of idle_key ∷ [];
  downstream = bearer_of bearer ∷ bearer_of old_bearer ∷ [];
  cursors = map (λ profile. (profile, router_cursor_for house profile)) profiles;
}

abbrev quarantined : StoredKey
quarantined = record serving_key { enabled = false; verified = false }

abbrev after : VaultSyncSnapshot
after = record before { keys = record_of quarantined ∷ record_of idle_key ∷ [] }

abbrev quarantine_one : Operation toy KeySummary
quarantine_one env w = quarantine toy env 1 w

abbrev audit_of : KeySummary → VaultAuditMutation
audit_of key = record {
  action = "upstream.quarantine";
  resource_kind = "upstream";
  resource_id = some key.id;
  request_id = 41;
  detail = Value.null;
  client_policy = none;
  probe_result = none;
}

key-Mirrors :
    (key : StoredKey) (slot : ℕ) → Keys.Mirrors server (record_of key) (key_row_of key slot)
key-Mirrors key slot = go key.cooldown_until
  where
    go :
        (t : Option Time)
        → Keys.Mirrors server
            (record_of (record key { cooldown_until = t }))
            (key_row_of (record key { cooldown_until = t }) slot)
    go none = ground arith
    go (some t) = ground arith

bearer-Mirrors :
    (item : StoredDownstream) → Bearers.Mirrors server (bearer_of item) (bearer_row_of item)
bearer-Mirrors item = go item.last_used_at item.revoked_at
  where
    go :
        (t u : Option Time)
        → Bearers.Mirrors server
            (bearer_of (record item { last_used_at = t; revoked_at = u }))
            (bearer_row_of (record item { last_used_at = t; revoked_at = u }))
    go none none = ground arith
    go none (some u) = ground arith
    go (some t) none = ground arith
    go (some t) (some u) = ground arith

two_differs : ◌≡◌ {A = ℕ} 2 1 → ⊥
two_differs h = absurd (omega arith)

six_differs : ◌≡◌ {A = ℕ} 6 5 → ⊥
six_differs h = absurd (omega arith)

ready : IsReady server before after tables
unfolding last_with
ready = record {
  distinct_keys = ((two_differs, tt), (tt, tt));
  distinct_bearers = ((six_differs, tt), (tt, tt));
  keys = (
    (
      record { id = refl; label = refl; fingerprint = refl; ciphertext = refl; nonce = refl },
      record { row = key_row_of serving_key 1; found = refl; mirrors = key-Mirrors serving_key 1 },
    ),
    (
      (
        record { id = refl; label = refl; fingerprint = refl; ciphertext = refl; nonce = refl },
        record { row = key_row_of idle_key 2; found = refl; mirrors = key-Mirrors idle_key 2 },
      ),
      tt,
    ),
  );
  bearers = (
    (
      record { id = refl; label = refl; created_at = refl; used_later = tt },
      record { row = bearer_row_of bearer; found = refl; mirrors = bearer-Mirrors bearer },
    ),
    (
      (
        record { id = refl; label = refl; created_at = refl; used_later = tt },
        record {
          row = bearer_row_of old_bearer;
          found = refl;
          mirrors = bearer-Mirrors old_bearer;
        },
      ),
      tt,
    ),
  );
}

mutate-IsRestored_example :
    IsRestored toy
      (record setting { engine = lost_server })
      (quarantine_one calm store.world)
      store
      (mutate toy (record setting { engine = lost_server }) quarantine_one store).0
unfolding mutate quarantine nvidia_build_lb.Vault.Custody.commit nvidia_build_lb.Vault.Keys.on_keys
    nvidia_build_lb.Vault.Custody.modify_first nvidia_build_lb.Vault.Keys.quarantine_key
    nvidia_build_lb.Vault.Custody.persist nvidia_build_lb.Vault.Opening.key_records
    nvidia_build_lb.Vault.Opening.collect nvidia_build_lb.Vault.Opening.key_record
    nvidia_build_lb.Vault.Opening.downstream_records nvidia_build_lb.Vault.Opening.downstream_record
    nvidia_build_lb.Database.Delta.sync_database_delta nvidia_build_lb.Database.Transactions.execute
    nvidia_build_lb.Vault.Custody.persist_for_rollback
mutate-IsRestored_example =
    mutate-IsRestored toy (record setting { engine = lost_server }) quarantine_one store
      not_synchronised refl

audited_runs :
    (mutate_with_audit toy setting quarantine_one audit_of store).1
    ≡ success (summary quarantined, 77)
unfolding snapshot nvidia_build_lb.Vault.Opening.key_records nvidia_build_lb.Vault.Opening.collect
    nvidia_build_lb.Vault.Opening.key_record nvidia_build_lb.Vault.Opening.downstream_records
    nvidia_build_lb.Vault.Opening.downstream_record quarantine nvidia_build_lb.Vault.Custody.commit
    nvidia_build_lb.Vault.Keys.on_keys nvidia_build_lb.Vault.Custody.modify_first
    nvidia_build_lb.Vault.Keys.quarantine_key nvidia_build_lb.Vault.Custody.persist
    router_cursor_for mutate_with_audit nvidia_build_lb.Database.Delta.sync_database_delta
    nvidia_build_lb.Database.Transactions.execute last_with
    nvidia_build_lb.Database.Keys.update_changed nvidia_build_lb.Database.Columns.same_bool
    nvidia_build_lb.Database.Transactions.update_row
    nvidia_build_lb.Database.Keys.invalidate_receipts nvidia_build_lb.Database.Columns.same_time
    nvidia_build_lb.Database.Bearers.update_changed nvidia_build_lb.Prelude.same
    nvidia_build_lb.Database.Columns.same_texts
audited_runs = refl

exported_before : snapshot toy house ≡ ok before
unfolding snapshot nvidia_build_lb.Vault.Opening.key_records nvidia_build_lb.Vault.Opening.collect
    nvidia_build_lb.Vault.Opening.key_record nvidia_build_lb.Vault.Opening.downstream_records
    nvidia_build_lb.Vault.Opening.downstream_record
exported_before = refl

exported_after : snapshot toy (quarantine_one calm here_and_now).0.vault ≡ ok after
unfolding snapshot quarantine nvidia_build_lb.Vault.Opening.key_records
    nvidia_build_lb.Vault.Opening.collect nvidia_build_lb.Vault.Custody.commit
    nvidia_build_lb.Vault.Keys.on_keys nvidia_build_lb.Vault.Custody.modify_first
    nvidia_build_lb.Vault.Keys.quarantine_key nvidia_build_lb.Vault.Custody.persist
    nvidia_build_lb.Vault.Opening.key_record nvidia_build_lb.Vault.Opening.downstream_records
    nvidia_build_lb.Vault.Opening.downstream_record router_cursor_for
exported_after = refl

mutate_with_audit-IsAudited_example :
    IsAudited toy setting quarantine_one audit_of store
      (mutate_with_audit toy setting quarantine_one audit_of store).0
      (summary quarantined)
      77
      after
mutate_with_audit-IsAudited_example =
    mutate_with_audit-IsAudited toy setting quarantine_one audit_of store tables before after
      (summary quarantined) 77 refl exported_before exported_after ready audited_runs

acquire_downstream_permit-IsPermitted_example :
    (t : Tables) × ((acquire_downstream_permit server 1000
        (some 9)
        41
        (some 5)
        "nvidia/vila"
        (some tables)).0
      ≡ some t)
    × IsPermitted server 1000 41 5 9 "nvidia/vila" tables t
unfolding acquire_downstream_permit nvidia_build_lb.Database.Transactions.execute
acquire_downstream_permit-IsPermitted_example =
    acquire_downstream_permit-IsPermitted server 1000 9 41 5 "nvidia/vila" tables refl

authorize_downstream_iff_example :
    (authorize_downstream toy setting bearer_token "chat:write" store ≡ pass 5) ↔ (
      Grants toy two_keys.downstream bearer_token "chat:write" 5
      × InForce server 1000 5 (some tables))
unfolding nvidia_build_lb.Prelude.same
authorize_downstream_iff_example =
    authorize_downstream_iff toy setting bearer_token "chat:write" store 5 (refl, (refl, tt))
      (refl, (refl, tt))

abbrev pub live : Operations
live = record { proof_freshness_seconds = 3600; owner_is_alive = true }

-- Slot two has the turn, and its key is not in service: the key of slot one is chosen.
select_from_database-IsTurn_example :
    (key : KeyRow) × (key.id ≡ 1)
    × IsTurn live server "nvidia/vila" tables
        (select_from_database live server "nvidia/vila" [] tables).tables
        key
unfolding select_from_database nvidia_build_lb.Database.Transactions.execute
select_from_database-IsTurn_example =
    select_from_database-IsTurn live server "nvidia/vila" [] tables 1 refl

not_fallback : ◌≢◌ {A = String} "nvidia/vila" "__legacy__"
not_fallback h = cc (sym ((str_eq_iff "nvidia/vila" "__legacy__").1 h))

abbrev gateway : Gateway VaultFile
gateway = record { store = record store { database = none }; routers = [] }

select_from_vault-IsInStep_example :
    IsInStep 1000 "nvidia/vila" gateway (select_from_vault toy setting 1000 "nvidia/vila" gateway)
unfolding nvidia_build_lb.Vault.Opening.get_cursor nvidia_build_lb.Vault.Keys.list
select_from_vault-IsInStep_example =
    select_from_vault-IsInStep toy setting 1000 "nvidia/vila" gateway not_fallback (omega arith)
