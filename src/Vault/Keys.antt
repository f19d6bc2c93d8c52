-- ===== src/Vault/Keys.antt =====
-- The methods of the vault of crates/core/src/lib.rs on upstream keys.
pub mod Steps
pub mod Adding
pub mod Cooldown
pub mod Lifecycle
pub mod Secrets
pub mod Stored
use nvidia_build_lb.Prelude.{
  ℕ, ◌+◌, ◌*◌, ◌^◌, min, max, Bytes, String, str_eq, Bool, true, false, not, ◌&&◌, ◌||◌, List, [],
  ◌∷◌, ◌++◌, map, Option, none, some, any, select_by, count_by, find_by, update_by, leb, ltb, ◌==◌,
  same, length, is_utf8, if◌then◌else◌,
}
use nvidia_build_lb.Vault.State.{
  Uuid, Text, Time, Duration, pos, negsuc, second, saturating_suc, KeySummary, StoredKey, VaultFile,
  Vault, Error, Result, ok, err, ◌>>=◌, ◌>>◌, bail_if, ok_or, summary, max_upstream_keys,
  credential_shape_is_invalid, upstream_credential_already_exists, upstream_label_already_exists,
  at_most_two_upstream_credentials, credential_encryption_failed, key_not_found,
  provider_probe_is_required, key_is_cooling_down, decode_nonce, invalid_credential_nonce,
  decode_ciphertext, credential_decryption_failed, credential_utf8,
}
use nvidia_build_lb.Vault.Shapes.{valid_upstream_credential, validate_label}
use nvidia_build_lb.Vault.Custody.{
  Primitives, Env, World, Change, fingerprint, commit, modify_first,
}

-- `!key.retired`
abbrev pub is_live : StoredKey → Bool
is_live key = not key.retired

abbrev pub is_live_with : Uuid → StoredKey → Bool
is_live_with id key = key.id == id && not key.retired

abbrev pub has_id : Uuid → StoredKey → Bool
has_id id key = key.id == id

-- A change to the list of keys.
unfoldable pub on_keys {ℓ} : {A : Type ℓ} → (List StoredKey → List StoredKey × Result A) → Change A
on_keys f s = let r = f s.keys in (record s { keys = r.0 }, r.1)

-- The checks of `add`, which leave the state alone.
unfoldable pub check_new : (p : Primitives) → List StoredKey → Text → Bytes → Result (Unit {0})
check_new p keys label credential = do
  validate_label label
  bail_if (not (valid_upstream_credential credential)) credential_shape_is_invalid
  bail_if (any (λ key. same key.fingerprint (fingerprint p credential)) keys)
      upstream_credential_already_exists
  bail_if (any (λ key. not key.retired && same key.label label) keys) upstream_label_already_exists

-- A live slot that `add` may take over.
abbrev pub is_idle : StoredKey → Bool
is_idle key = not key.retired && not key.enabled

abbrev pub retire : StoredKey → StoredKey
retire key = record key { retired = true; enabled = false }

-- The row of a new key: neither enabled nor verified.
unfoldable pub new_key : (p : Primitives) → Env → Text → Bytes → Bytes → StoredKey
unfolding fingerprint
new_key p env label credential ciphertext = record {
  id = env.uuid;
  label = label;
  fingerprint = fingerprint p credential;
  nonce = p.base64_encode env.nonce;
  ciphertext = p.base64_encode ciphertext;
  enabled = false;
  verified = false;
  retired = false;
  cooldown_until = none;
  request_count = 0;
  failure_count = 0;
}

-- Encryption and storage. A failure of the cipher comes after a slot has been retired.
unfoldable pub store_new :
    (p : Primitives)
    → Env
    → Bytes
    → Text
    → Bytes
    → List StoredKey
    → List StoredKey × Result KeySummary
store_new p env master_key label credential keys =
    elim (p.encrypt master_key env.nonce env.uuid credential) [
      | none ↦ (keys, err credential_encryption_failed)
      | some ciphertext ↦ (
        keys ++ new_key p env label credential ciphertext ∷ [],
        ok (summary (new_key p env label credential ciphertext)),
      )
    ]

unfoldable pub add_to :
    (p : Primitives)
    → Env
    → Bytes
    → Text
    → Bytes
    → List StoredKey
    → List StoredKey × Result KeySummary
add_to p env master_key label credential keys = elim (check_new p keys label credential) [
  | err e ↦ (keys, err e)
  | ok _ ↦
      if leb max_upstream_keys (count_by is_live keys)
      then (if any is_idle keys
          then store_new p env master_key label credential (update_by is_idle retire keys)
          else (keys, err at_most_two_upstream_credentials))
      else store_new p env master_key label credential keys
]

unfoldable pub add :
    (p : Primitives) → Env → Text → Bytes → World p.File → World p.File × Result KeySummary
add p env label credential w =
    commit p env (on_keys (add_to p env w.vault.master_key label credential)) w

unfoldable pub list : Vault → List KeySummary
unfolding summary
list v = map summary (select_by is_live v.state.keys)

-- `is_none_or(|key| key.retired)`
abbrev pub retired_or_absent : Option StoredKey → Bool
retired_or_absent none = true
retired_or_absent (some key) = key.retired

unfoldable pub is_retired : Vault → Uuid → Bool
is_retired v id = retired_or_absent (find_by (has_id id) v.state.keys)

-- `cooldown_until.is_some_and(|until| until > now)`
abbrev pub is_cooling : Time → Option Time → Bool
is_cooling now none = false
is_cooling now (some until) = ltb now until

unfoldable pub enable_key : Time → Bool → StoredKey → Result (StoredKey × KeySummary)
unfolding summary
enable_key now enabled key = do
  bail_if (enabled && not key.verified) provider_probe_is_required
  bail_if (enabled && is_cooling now key.cooldown_until) key_is_cooling_down
  let key' : StoredKey = record key { enabled = enabled }
  ok (key', summary key')

unfoldable pub set_enabled :
    (p : Primitives) → Env → Uuid → Bool → World p.File → World p.File × Result KeySummary
set_enabled p env id enabled =
    commit p env
      (on_keys (modify_first (is_live_with id) (enable_key env.now enabled) key_not_found))

unfoldable pub verify_key : StoredKey → Result (StoredKey × KeySummary)
unfolding summary
verify_key key =
    let key' : StoredKey = record key {
      verified = true;
      cooldown_until = none;
      failure_count = 0;
    } in
    ok (key', summary key')

unfoldable pub mark_verified :
    (p : Primitives) → Env → Uuid → World p.File → World p.File × Result KeySummary
mark_verified p env id =
    commit p env (on_keys (modify_first (is_live_with id) verify_key key_not_found))

unfoldable pub delete_key : StoredKey → Result (StoredKey × Unit {0})
delete_key key =
    ok (record key { enabled = false; verified = false; retired = true; cooldown_until = none }, tt)

unfoldable pub delete :
    (p : Primitives) → Env → Uuid → World p.File → World p.File × Result (Unit {0})
delete p env id = commit p env (on_keys (modify_first (is_live_with id) delete_key key_not_found))

unfoldable pub quarantine_key : StoredKey → Result (StoredKey × KeySummary)
unfolding summary
quarantine_key key =
    let key' : StoredKey = record key {
      enabled = false;
      verified = false;
      cooldown_until = none;
      failure_count = 0;
    } in
    ok (key', summary key')

unfoldable pub quarantine :
    (p : Primitives) → Env → Uuid → World p.File → World p.File × Result KeySummary
quarantine p env id =
    commit p env (on_keys (modify_first (is_live_with id) quarantine_key key_not_found))

-- Decryption of one key, live or retired.
unfoldable pub credential : (p : Primitives) → Vault → Uuid → Result Bytes
credential p v id = do
  key ← ok_or (find_by (has_id id) v.state.keys) key_not_found
  nonce ← ok_or (p.base64_decode key.nonce) decode_nonce
  bail_if (not (length nonce == 12)) invalid_credential_nonce
  ciphertext ← ok_or (p.base64_decode key.ciphertext) decode_ciphertext
  plain ← ok_or (p.decrypt v.master_key nonce id ciphertext) credential_decryption_failed
  bail_if (not (is_utf8 plain)) credential_utf8
  ok plain

unfoldable pub count_request : StoredKey → Result (StoredKey × Unit {0})
count_request key = ok (
  record key {
    cooldown_until = none;
    request_count = saturating_suc key.request_count;
    failure_count = 0;
  },
  tt,
)

unfoldable pub record_request :
    (p : Primitives) → Env → Uuid → World p.File → World p.File × Result (Unit {0})
record_request p env id =
    commit p env (on_keys (modify_first (has_id id) count_request key_not_found))

-- The cooldown that a failure asks for: the provider's hint between 0 and 300 seconds, or
-- 2 ^ min(failures, 6) seconds.
unfoldable pub failure_delay : Option Duration → ℕ → ℕ
failure_delay none failures = 2 ^ min failures 6 * second
failure_delay (some (pos d)) failures = min d (300 * second)
failure_delay (some (negsuc d)) failures = 0

-- `old.map_or(until, |old| old.max(until))`
abbrev pub later_of : Option Time → Time → Time
later_of none until = until
later_of (some old) until = max old until

unfoldable pub count_failure : Time → Option Duration → StoredKey → Result (StoredKey × Unit {0})
unfolding failure_delay
count_failure now retry_after key =
    let failures = saturating_suc key.failure_count in
    let until = now + failure_delay retry_after failures in
    ok (
      record key {
        cooldown_until = if key.retired then none else some (later_of key.cooldown_until until);
        failure_count = failures;
      },
      tt,
    )

unfoldable pub record_failure :
    (p : Primitives)
    → Env
    → Uuid
    → Option Duration
    → World p.File
    → World p.File × Result (Unit {0})
record_failure p env id retry_after =
    commit p env
      (on_keys (modify_first (has_id id) (count_failure env.now retry_after) key_not_found))
