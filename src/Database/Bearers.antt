-- ===== src/Database/Bearers.antt =====
-- The downstream credentials in `sync_database_delta` of crates/gateway/src/main.rs: a new one is inserted,
-- and each field that one local mutation changed is written, most of them under a guard on the old value.
pub mod Mirrors
pub mod Synced
use nvidia_build_lb.Prelude.{
  ℕ, Bool, true, false, not, ◌&&◌, List, [], ◌∷◌, ◌++◌, Option, none, some, any, ◌==◌, max, same,
  if◌then◌else◌,
}
use nvidia_build_lb.Vault.State.{Uuid, Time, VaultDownstreamRecord}
use nvidia_build_lb.Database.Tables.{Tables, DownstreamRow}
use nvidia_build_lb.Database.Columns.{same_bool, same_time, same_texts}
use nvidia_build_lb.Database.Transactions.{
  insert_row, Engine, Table, Tx, ◌>>=◌, ◌>>◌, raise_if, only_if, execute, expect_one, stamped,
  fits_i64, update_row, update_count, sync_all, count_overflow,
}

abbrev pub bearer_table : Table DownstreamRow
bearer_table = record {
  id = λ row. row.id;
  rows = λ t. t.downstream_credentials;
  with_rows = λ t rows. record t { downstream_credentials = rows };
}

-- A new row has no policy.
abbrev pub bearer_row : Engine → VaultDownstreamRecord → DownstreamRow
bearer_row e item = record {
  id = item.id;
  label = item.label;
  digest = item.token_digest;
  scopes = item.scopes;
  active = item.active;
  request_count = item.request_count;
  last_used_at = stamped e item.last_used_at;
  created_at = e.stamp item.created_at;
  revoked_at = stamped e item.revoked_at;
  rotated_at = none;
  expires_at = none;
  model_allowlist = none;
  rpm_limit = none;
  max_concurrency = none;
  request_limit_day = none;
}

-- The INSERT of a credential.
abbrev pub inserted : VaultDownstreamRecord → Engine → Tables → Tables × ℕ
inserted item e t = insert_row bearer_table (bearer_row e item) t

unfoldable pub add_bearer : VaultDownstreamRecord → Tx (Unit {0})
add_bearer item = do
  raise_if (not (fits_i64 item.request_count)) count_overflow
  affected ← execute (inserted item)
  expect_one affected

unfoldable pub sync_active : VaultDownstreamRecord → VaultDownstreamRecord → Tx (Unit {0})
sync_active before item = only_if (not (same_bool item.active before.active)) (
    update_row bearer_table item.id (λ e row. same_bool row.active before.active)
      (λ e row. record row { active = item.active }))

-- A new digest also sets `rotated_at`.
unfoldable pub sync_digest : VaultDownstreamRecord → VaultDownstreamRecord → Tx (Unit {0})
sync_digest before item = only_if (not (same item.token_digest before.token_digest)) (
    update_row bearer_table item.id (λ e row. same row.digest before.token_digest)
      (λ e row. record row { digest = item.token_digest; rotated_at = some e.now }))

unfoldable pub sync_scopes : VaultDownstreamRecord → VaultDownstreamRecord → Tx (Unit {0})
sync_scopes before item = only_if (not (same_texts item.scopes before.scopes)) (
    update_row bearer_table item.id (λ e row. same_texts row.scopes before.scopes)
      (λ e row. record row { scopes = item.scopes }))

unfoldable pub sync_revoked_at : VaultDownstreamRecord → VaultDownstreamRecord → Tx (Unit {0})
sync_revoked_at before item = only_if (not (same_time item.revoked_at before.revoked_at)) (
    update_row bearer_table item.id
      (λ e row. same_time row.revoked_at (stamped e before.revoked_at))
      (λ e row. record row { revoked_at = stamped e item.revoked_at }))

unfoldable pub sync_request_count : VaultDownstreamRecord → VaultDownstreamRecord → Tx (Unit {0})
sync_request_count before item = only_if (not (item.request_count == before.request_count)) (
    update_count bearer_table item.request_count before.request_count (λ row. row.request_count)
      item.id (λ row n. record row { request_count = n }))

-- `GREATEST(COALESCE(last_used_at, $2), $2)`, where `GREATEST` passes over a NULL.
abbrev pub later_use : Option Time → Option Time → Option Time
later_use old none = old
later_use none (some t) = some t
later_use (some u) (some t) = some (max u t)

unfoldable pub sync_last_used_at : VaultDownstreamRecord → VaultDownstreamRecord → Tx (Unit {0})
sync_last_used_at before item = only_if (not (same_time item.last_used_at before.last_used_at)) (
    update_row bearer_table item.id (λ e row. true)
      (λ e row. record row {
        last_used_at = later_use row.last_used_at (stamped e item.last_used_at);
      }))

unfoldable pub update_changed : VaultDownstreamRecord → VaultDownstreamRecord → Tx (Unit {0})
unfolding sync_active sync_digest sync_scopes sync_revoked_at sync_request_count sync_last_used_at
update_changed before item = do
  sync_active before item
  sync_digest before item
  sync_scopes before item
  sync_revoked_at before item
  sync_request_count before item
  sync_last_used_at before item

abbrev pub sync_bearer : Option VaultDownstreamRecord → VaultDownstreamRecord → Tx (Unit {0})
sync_bearer none item = add_bearer item
sync_bearer (some before) item = update_changed before item

unfoldable pub sync_bearers :
    List VaultDownstreamRecord → List VaultDownstreamRecord → Tx (Unit {0})
unfolding sync_all
sync_bearers = sync_all (λ item. item.id) sync_bearer
