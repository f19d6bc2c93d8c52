-- ===== src/Database/Keys.antt =====
-- The upstream keys in `sync_database_delta` of crates/gateway/src/main.rs: a new key is inserted into a
-- free slot, and each field that one local mutation changed is written under a guard on its old value.
pub mod Mirrors
pub mod Synced
use nvidia_build_lb.Prelude.{
  ℕ, ◌+◌, ◌-◌, ◌^◌, Bool, true, false, not, ◌&&◌, ◌||◌, List, [], ◌∷◌, ◌++◌, map, Option, none,
  some, any, count_by, ltb, leb, ◌==◌, if◌then◌else◌, String,
}
use nvidia_build_lb.Vault.State.{Uuid, Time, VaultKeyRecord, max_upstream_keys}
use nvidia_build_lb.Database.Tables.{Tables, KeyRow, ReceiptRow}
use nvidia_build_lb.Database.Columns.{same_bool, same_time}
use nvidia_build_lb.Database.Transactions.{
  Engine, Tx, ◌>>=◌, ◌>>◌, return, raise, raise_if, only_if, execute, update_where, expect_one,
  insert_row, Table, sync_all, stamped, fits_i64, update_row, update_count, at_most_two_keys,
  count_overflow, unavailable,
}

abbrev pub key_table : Table KeyRow
key_table = record {
  id = λ row. row.id;
  rows = λ t. t.upstream_keys;
  with_rows = λ t rows. record t { upstream_keys = rows };
}

abbrev pub is_active_row : KeyRow → Bool
is_active_row row = not row.retired

abbrev slot_is_taken : List KeyRow → ℕ → Bool
slot_is_taken rows slot = any (λ row. row.slot_no == slot && not row.retired) rows

-- The subquery for `slot_no`: the first slot that no active key has.
unfoldable pub free_slot : List KeyRow → Option ℕ
free_slot rows =
    if not (slot_is_taken rows 1)
    then some 1
    else if not (slot_is_taken rows 2)
    then some 2
    else none

abbrev pub key_row : Engine → ℕ → VaultKeyRecord → KeyRow
key_row e slot key = record {
  id = key.id;
  label = key.label;
  fingerprint = key.fingerprint;
  ciphertext = key.ciphertext;
  nonce = key.nonce;
  enabled = key.enabled;
  verified = key.verified;
  retired = key.retired;
  cooldown_until = stamped e key.cooldown_until;
  request_count = key.request_count;
  failure_count = key.failure_count;
  slot_no = slot;
}

-- The INSERT of a key into a slot.
abbrev pub inserted : ℕ → VaultKeyRecord → Engine → Tables → Tables × ℕ
inserted slot key e t = insert_row key_table (key_row e slot key) t

-- A missing slot is refused by the column's NOT NULL.
abbrev pub insert_into : Option ℕ → VaultKeyRecord → Tx ℕ
insert_into none key = raise unavailable
insert_into (some slot) key = execute (inserted slot key)

unfoldable pub insert_key : VaultKeyRecord → Tx ℕ
insert_key key e s = insert_into (free_slot s.tables.upstream_keys) key e s

-- `SELECT count(*) .. WHERE retired = false`
abbrev pub active_rows : Engine → Tables → Tables × ℕ
active_rows e t = (t, count_by is_active_row t.upstream_keys)

unfoldable pub add_key : VaultKeyRecord → Tx (Unit {0})
unfolding insert_key
add_key key = do
  active_count ← execute active_rows
  raise_if (leb max_upstream_keys active_count) at_most_two_keys
  raise_if (not (fits_i64 key.request_count)) count_overflow
  raise_if (not (fits_i64 key.failure_count)) count_overflow
  affected ← insert_key key
  expect_one affected

abbrev pub coalesce {ℓ} : {A : Type ℓ} → Option A → A → Option A
coalesce none a = some a
coalesce (some b) a = some b

-- `UPDATE nblb.profile_probe_receipts ..`, of any number of rows.
unfoldable pub invalidate_receipts : Uuid → String → Tx (Unit {0})
invalidate_receipts id reason = execute λ e t. (
  record t {
    profile_probe_receipts =
        update_where (λ (row : ReceiptRow). row.key_id == id)
          (λ (row : ReceiptRow). record row {
            invalidated_at = coalesce row.invalidated_at e.now;
            invalidation_reason = coalesce row.invalidation_reason reason;
          })
          t.profile_probe_receipts;
  },
  tt,
)

unfoldable pub sync_enabled : VaultKeyRecord → VaultKeyRecord → Tx (Unit {0})
sync_enabled before key = only_if (not (same_bool key.enabled before.enabled)) (
    update_row key_table key.id (λ e row. same_bool row.enabled before.enabled)
      (λ e row. record row { enabled = key.enabled }))

unfoldable pub sync_verified : VaultKeyRecord → VaultKeyRecord → Tx (Unit {0})
sync_verified before key = only_if (not (same_bool key.verified before.verified)) (
    update_row key_table key.id (λ e row. same_bool row.verified before.verified)
      (λ e row. record row { verified = key.verified }))

unfoldable pub sync_retired : VaultKeyRecord → VaultKeyRecord → Tx (Unit {0})
sync_retired before key = only_if (not (same_bool key.retired before.retired)) (
    update_row key_table key.id (λ e row. same_bool row.retired before.retired)
      (λ e row. record row { retired = key.retired }))

-- The proofs of a key that loses verification or is retired are marked as invalid.
abbrev pub loses_proofs : VaultKeyRecord → VaultKeyRecord → Bool
loses_proofs before key =
    (not key.verified && before.verified) || (key.retired && not before.retired)

abbrev pub reason_of_loss : VaultKeyRecord → VaultKeyRecord → String
reason_of_loss before key =
    if key.retired && not before.retired then "upstream_retired" else "credential_unverified"

unfoldable pub invalidate_proofs : VaultKeyRecord → VaultKeyRecord → Tx (Unit {0})
invalidate_proofs before key =
    only_if (loses_proofs before key) (invalidate_receipts key.id (reason_of_loss before key))

unfoldable pub sync_cooldown : VaultKeyRecord → VaultKeyRecord → Tx (Unit {0})
sync_cooldown before key = only_if (not (same_time key.cooldown_until before.cooldown_until)) (
    update_row key_table key.id
      (λ e row. same_time row.cooldown_until (stamped e before.cooldown_until))
      (λ e row. record row { cooldown_until = stamped e key.cooldown_until }))

unfoldable pub sync_request_count : VaultKeyRecord → VaultKeyRecord → Tx (Unit {0})
sync_request_count before key = only_if (not (key.request_count == before.request_count)) (
    update_count key_table key.request_count before.request_count (λ row. row.request_count) key.id
      (λ row n. record row { request_count = n }))

unfoldable pub sync_failure_count : VaultKeyRecord → VaultKeyRecord → Tx (Unit {0})
sync_failure_count before key = only_if (not (key.failure_count == before.failure_count)) (
    update_count key_table key.failure_count before.failure_count (λ row. row.failure_count) key.id
      (λ row n. record row { failure_count = n }))

unfoldable pub update_changed : VaultKeyRecord → VaultKeyRecord → Tx (Unit {0})
unfolding sync_enabled sync_verified sync_retired invalidate_proofs sync_cooldown sync_request_count
    sync_failure_count
update_changed before key = do
  sync_enabled before key
  sync_verified before key
  sync_retired before key
  invalidate_proofs before key
  sync_cooldown before key
  sync_request_count before key
  sync_failure_count before key

abbrev pub sync_key : Option VaultKeyRecord → VaultKeyRecord → Tx (Unit {0})
sync_key none key = add_key key
sync_key (some before) key = update_changed before key

unfoldable pub sync_keys : List VaultKeyRecord → List VaultKeyRecord → Tx (Unit {0})
unfolding sync_all
sync_keys = sync_all (λ key. key.id) sync_key
