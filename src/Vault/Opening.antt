-- ===== src/Vault/Opening.antt =====
-- Opening the vault of crates/core/src/lib.rs: from its file and from database rows, the exports to
-- rows, and the routing cursors.
pub mod Restart
pub mod Records
use nvidia_build_lb.Prelude.{
  ℕ, Bytes, String, str_eq, Bool, true, false, not, ◌&&◌, ◌||◌, List, [], ◌∷◌, Option, none, some,
  any, all, count_by, leb, ltb, ◌==◌, same, length, if◌then◌else◌,
}
use nvidia_build_lb.Vault.State.{
  StoredKey, StoredDownstream, VaultKeyRecord, VaultDownstreamRecord, VaultFile, Vault, Error,
  Result, ok, err, ◌>>=◌, ◌>>◌, bail_if, ok_or, max_upstream_keys, decode_vault, read_vault,
  unsupported_vault_version, at_most_two_upstream_credentials, distinct_fingerprints,
  invalid_encrypted_upstream_row, invalid_downstream_digest, decode_key_fingerprint,
  decode_key_nonce, decode_key_ciphertext, decode_downstream_digest,
}
use nvidia_build_lb.Vault.Custody.{Primitives, Env, World, Change, commit}
use nvidia_build_lb.Vault.Custody.Lists.{holds}
use nvidia_build_lb.Vault.Keys.{is_live}

-- What stands at the path.
pub data AtPath (File : Type 0) : Type 0 where
  absent unreadable : AtPath File
  contents : File → AtPath File

abbrev pub empty_file : VaultFile
empty_file = record {
  version = 1;
  keys = [];
  downstream = [];
  router_cursor = 0;
  router_cursors = [];
}

unfoldable pub load : (p : Primitives) → AtPath p.File → Result VaultFile
load p absent = ok empty_file
load p unreadable = err read_vault
load p (contents bytes) = ok_or (p.from_json bytes) decode_vault

-- The loop over a `HashSet`: every insertion is of a new fingerprint.
unfoldable pub all_new : List Bytes → List StoredKey → Bool
all_new seen [] = true
all_new seen (key ∷ keys) =
    not (holds seen key.fingerprint) && all_new (key.fingerprint ∷ seen) keys

-- The checks of `open` on the state that it has loaded.
unfoldable pub check_state : Bytes → VaultFile → Result Vault
check_state master_key state = do
  bail_if (not (state.version == 1)) unsupported_vault_version
  bail_if (ltb max_upstream_keys (count_by is_live state.keys)) at_most_two_upstream_credentials
  bail_if (not (all_new [] state.keys)) distinct_fingerprints
  ok (record { master_key = master_key; state = state })

unfoldable pub open_vault : (p : Primitives) → Bytes → AtPath p.File → Result Vault
open_vault p master_key file = do state ← load p file; check_state master_key state

abbrev pub is_live_record : VaultKeyRecord → Bool
is_live_record key = not key.retired

-- The same loop over the rows, which also checks the length of each fingerprint.
unfoldable pub all_new_records : List Bytes → List VaultKeyRecord → Bool
all_new_records seen [] = true
all_new_records seen (key ∷ keys) =
    length key.fingerprint == 32
    && not (holds seen key.fingerprint)
    && all_new_records (key.fingerprint ∷ seen) keys

unfoldable pub stored_key : (p : Primitives) → VaultKeyRecord → Result StoredKey
stored_key p key = do
  bail_if
      (not (length key.nonce == 12)
        || leb (length key.ciphertext) 16
        || not (length key.fingerprint == 32))
      invalid_encrypted_upstream_row
  ok (record {
    id = key.id;
    label = key.label;
    fingerprint = p.hex_encode key.fingerprint;
    nonce = p.base64_encode key.nonce;
    ciphertext = p.base64_encode key.ciphertext;
    enabled = key.enabled;
    verified = key.verified;
    retired = key.retired;
    cooldown_until = key.cooldown_until;
    request_count = key.request_count;
    failure_count = key.failure_count;
  })

unfoldable pub stored_downstream :
    (p : Primitives) → VaultDownstreamRecord → Result StoredDownstream
stored_downstream p item = do
  bail_if (not (length item.token_digest == 32)) invalid_downstream_digest
  ok (record {
    id = item.id;
    label = item.label;
    scopes = item.scopes;
    token_digest = p.hex_encode item.token_digest;
    active = item.active;
    request_count = item.request_count;
    last_used_at = item.last_used_at;
    created_at = item.created_at;
    revoked_at = item.revoked_at;
  })

-- `map(..).collect::<Result<Vec<_>>>()`
unfoldable pub collect {ℓ κ} : {A : Type ℓ} {B : Type κ} → (A → Result B) → List A → Result (List B)
collect f [] = ok []
collect f (x ∷ xs) = do y ← f x; ys ← collect f xs; ok (y ∷ ys)

-- The map of cursors: `get` and `insert`.
unfoldable pub get_cursor : String → List (String × ℕ) → Option ℕ
get_cursor profile [] = none
get_cursor profile ((k, v) ∷ cursors) =
    if str_eq k profile then some v else get_cursor profile cursors

unfoldable pub insert_cursor : String → ℕ → List (String × ℕ) → List (String × ℕ)
insert_cursor profile cursor [] = (profile, cursor) ∷ []
insert_cursor profile cursor ((k, v) ∷ cursors) =
    if str_eq k profile
    then (k, cursor) ∷ cursors
    else (k, v) ∷ insert_cursor profile cursor cursors

abbrev pub or_else : Option ℕ → Option ℕ → Option ℕ
or_else none o = o
or_else (some n) o = some n

abbrev pub unwrap_or : Option ℕ → ℕ → ℕ
unwrap_or none n = n
unwrap_or (some m) n = m

unfoldable pub from_records_with_cursors :
    (p : Primitives)
    → Bytes
    → List VaultKeyRecord
    → List VaultDownstreamRecord
    → List (String × ℕ)
    → Result Vault
from_records_with_cursors p master_key keys downstream cursors = do
  bail_if (ltb max_upstream_keys (count_by is_live_record keys)) at_most_two_upstream_credentials
  bail_if (not (all_new_records [] keys)) distinct_fingerprints
  stored ← collect (stored_key p) keys
  bearers ← collect (stored_downstream p) downstream
  ok (record {
    master_key = master_key;
    state = record {
      version = 1;
      keys = stored;
      downstream = bearers;
      router_cursor = unwrap_or (get_cursor "__legacy__" cursors) 0;
      router_cursors = cursors;
    };
  })

unfoldable pub from_records :
    (p : Primitives) → Bytes → List VaultKeyRecord → List VaultDownstreamRecord → ℕ → Result Vault
from_records p master_key keys downstream router_cursor =
    from_records_with_cursors p master_key keys downstream
      (insert_cursor "__legacy__" router_cursor [])

unfoldable pub key_record : (p : Primitives) → StoredKey → Result VaultKeyRecord
key_record p key = do
  fingerprint ← ok_or (p.hex_decode key.fingerprint) decode_key_fingerprint
  nonce ← ok_or (p.base64_decode key.nonce) decode_key_nonce
  ciphertext ← ok_or (p.base64_decode key.ciphertext) decode_key_ciphertext
  ok (record {
    id = key.id;
    label = key.label;
    fingerprint = fingerprint;
    nonce = nonce;
    ciphertext = ciphertext;
    enabled = key.enabled;
    verified = key.verified;
    retired = key.retired;
    cooldown_until = key.cooldown_until;
    request_count = key.request_count;
    failure_count = key.failure_count;
  })

unfoldable pub key_records : (p : Primitives) → Vault → Result (List VaultKeyRecord)
key_records p v = collect (key_record p) v.state.keys

unfoldable pub downstream_record :
    (p : Primitives) → StoredDownstream → Result VaultDownstreamRecord
downstream_record p item = do
  digest ← ok_or (p.hex_decode item.token_digest) decode_downstream_digest
  ok (record {
    id = item.id;
    label = item.label;
    scopes = item.scopes;
    token_digest = digest;
    active = item.active;
    request_count = item.request_count;
    last_used_at = item.last_used_at;
    created_at = item.created_at;
    revoked_at = item.revoked_at;
  })

unfoldable pub downstream_records : (p : Primitives) → Vault → Result (List VaultDownstreamRecord)
downstream_records p v = collect (downstream_record p) v.state.downstream

unfoldable pub router_cursor : Vault → ℕ
unfolding get_cursor
router_cursor v = unwrap_or (get_cursor "__legacy__" v.state.router_cursors) v.state.router_cursor

unfoldable pub set_router_cursor :
    (p : Primitives) → Env → ℕ → World p.File → World p.File × Result (Unit {0})
set_router_cursor p env cursor = commit p env λ s. (
  record s {
    router_cursor = cursor;
    router_cursors = insert_cursor "__legacy__" cursor s.router_cursors;
  },
  ok tt,
)

unfoldable pub router_cursor_for : Vault → String → ℕ
unfolding get_cursor
router_cursor_for v profile =
    unwrap_or
      (or_else (get_cursor profile v.state.router_cursors)
        (get_cursor "__legacy__" v.state.router_cursors))
      v.state.router_cursor

unfoldable pub set_router_cursor_for :
    (p : Primitives) → Env → String → ℕ → World p.File → World p.File × Result (Unit {0})
set_router_cursor_for p env profile cursor =
    commit p env
      λ s. (record s { router_cursors = insert_cursor profile cursor s.router_cursors }, ok tt)
