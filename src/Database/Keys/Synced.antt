-- ===== src/Database/Keys/Synced.antt =====
-- The loop over the keys in `sync_database_delta` of crates/gateway/src/main.rs: a new key gets a row, and
-- a key that has changed gets its fields written.
use nvidia_build_lb.Prelude.{ℕ, not, List, Option, none, some, leb, refl, sym, ap, ◌∙◌, arith}
use nvidia_build_lb.Vault.State.{Uuid, VaultKeyRecord, max_upstream_keys}
use nvidia_build_lb.Database.Tables.{Tables, KeyRow}
use nvidia_build_lb.Database.Transactions.{
  fits_i64, Engine, Tx, ◌>>=◌, ◌>>◌, execute, expect_one, raise_if, at_most_two_keys,
  count_overflow,
}
use nvidia_build_lb.Database.Transactions.Rules.{
  Ensures, bind-Ensures, guarded-Ensures, execute-Ensures,
}
use nvidia_build_lb.Database.Transactions.Rows.{row_of}
use nvidia_build_lb.Database.Transactions.Loops
use nvidia_build_lb.Database.Transactions.Loops.{Copying, sync_all-Synced}
use nvidia_build_lb.Database.Keys.{
  key_table, key_row, inserted, insert_into, insert_key, active_rows, add_key, free_slot,
  update_changed, sync_key, sync_keys,
}
use nvidia_build_lb.Database.Keys.Mirrors.{Mirrors, SameSecret, written, update_changed-Ensures}

abbrev pub keys_in_table : Copying KeyRow VaultKeyRecord
keys_in_table = record {
  table = key_table;
  id_of = λ key. key.id;
  Mirrors = Mirrors;
  SameFixed = λ e. SameSecret;
}

abbrev pub Holds : Engine → List KeyRow → VaultKeyRecord → Type 0
Holds = Loops.Holds keys_in_table

abbrev pub Starts : List KeyRow → Tables → Type 0
Starts = Loops.Starts keys_in_table

module _ (e : Engine) (start : List KeyRow) (key : VaultKeyRecord) where
  abbrev Written : Tables → Type 0
  Written = Loops.Written keys_in_table e start key

  abbrev Inserted : ℕ → Tables → Type 0
  Inserted = Loops.Inserted keys_in_table e start key

  key_row-Mirrors : (slot : ℕ) → Mirrors e key (key_row e slot key)
  key_row-Mirrors slot = ground arith

  inserted-Written :
      (slot : ℕ) (t : Tables)
      → Starts start t
      → Inserted (inserted slot key e t).1 (inserted slot key e t).0
  inserted-Written slot t h =
      Loops.insert_row-Written keys_in_table (λ t rows. refl) e start key (key_row e slot key) refl
        (key_row-Mirrors slot) t h

  insert_into-Ensures : (slot : Option ℕ) → Ensures e (Starts start) (insert_into slot key) Inserted
  insert_into-Ensures none s s' a h is = cc
  insert_into-Ensures (some slot) s s' a h is =
      execute-Ensures e (Starts start) (inserted slot key) Inserted (inserted-Written slot) s s' a h
        is

  insert_key-Ensures : Ensures e (Starts start) (insert_key key) Inserted
  unfolding insert_key
  insert_key-Ensures s s' a h is =
      insert_into-Ensures (free_slot s.tables.upstream_keys) s s' a h is

  add_key-Written : Ensures e (Starts start) (add_key key) (λ _. Written)
  unfolding add_key
  add_key-Written =
      bind-Ensures e (Starts start) (execute active_rows) (λ _. Starts start) rest (λ _. Written)
        (execute-Ensures e (Starts start) active_rows (λ _. Starts start) (λ t h. h))
        (λ count.
          guarded-Ensures e (Starts start) _ at_most_two_keys (checked) (λ _. Written)
            (guarded-Ensures e (Starts start) _ count_overflow (checked_failures) (λ _. Written)
              (guarded-Ensures e (Starts start) _ count_overflow insertion (λ _. Written)
                (bind-Ensures e (Starts start) (insert_key key) Inserted expect_one (λ _. Written)
                  insert_key-Ensures (Loops.one-Written keys_in_table e start key)))))
    where
      insertion : Tx (Unit {0})
      insertion = insert_key key >>= expect_one

      checked_failures : Tx (Unit {0})
      checked_failures = raise_if (not (fits_i64 key.failure_count)) count_overflow >> insertion

      checked : Tx (Unit {0})
      checked = raise_if (not (fits_i64 key.request_count)) count_overflow >> checked_failures

      rest : ℕ → Tx (Unit {0})
      rest count = raise_if (leb max_upstream_keys count) at_most_two_keys >> checked

  update_changed-Written :
      (before : VaultKeyRecord)
      → SameSecret before key
      → Holds e start before
      → Ensures e (Starts start) (update_changed before key) (λ _. Written)
  update_changed-Written before secret old s s' a h is =
      let t =
        update_changed-Ensures e start before key old.row old.mirrors s s' a
          (record {
            here =
                ap (row_of key_table key.id) h
                ∙ ap (λ (id : Uuid). row_of key_table id start) (sym secret.id)
                ∙ old.found;
            others = λ j differs. ap (row_of key_table j) h;
          })
          is in
      record {
        held = record {
          row = written e start before key old.row;
          found = t.here;
          mirrors = record {
            label = old.mirrors.label ∙ secret.label;
            fingerprint = old.mirrors.fingerprint ∙ secret.fingerprint;
            ciphertext = old.mirrors.ciphertext ∙ secret.ciphertext;
            nonce = old.mirrors.nonce ∙ secret.nonce;
            enabled = refl;
            verified = refl;
            retired = refl;
            cooldown_until = refl;
            request_count = refl;
            failure_count = refl;
          };
        };
        others = t.others;
      }

  sync_key-Written :
      (before : Option VaultKeyRecord)
      → Loops.Prepared keys_in_table e start before key
      → Ensures e (Starts start) (sync_key before key) (λ _. Written)
  sync_key-Written none h = add_key-Written
  sync_key-Written (some before) h = update_changed-Written before h.0 h.1

pub sync_keys-Synced :
    (e : Engine) (previous keys : List VaultKeyRecord) (start : List KeyRow)
    → Loops.DistinctIds keys_in_table keys
    → Loops.AllPrepared keys_in_table e start previous keys
    → Ensures e
        (Starts start)
        (sync_keys previous keys)
        (λ _. Loops.Synced keys_in_table e start keys)
unfolding sync_keys
sync_keys-Synced e previous keys start d h =
    sync_all-Synced keys_in_table e sync_key previous
      (λ start key before. sync_key-Written e start key before) keys start d h
