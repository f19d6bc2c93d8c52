-- ===== src/Vault/State.antt =====
-- The data of the vault (crates/core/src/lib.rs): the stored rows, the redacted summaries, the
-- database rows, and the errors that its methods return. A `Uuid` is its 128-bit value, a
-- `DateTime<Utc>` the nanoseconds since the epoch, and a `Duration` a signed count of nanoseconds.
use nvidia_build_lb.Prelude.{
  ℕ, String, Bytes, Bool, List, Option, none, some, ◌^◌, ◌-◌, ◌+◌, min, if◌then◌else◌,
}

abbrev pub Uuid : Type 0
Uuid = ℕ

-- Characters of a label, by their code points.
abbrev pub Text : Type 0
Text = List ℕ

abbrev pub Time : Type 0
Time = ℕ

abbrev pub second : ℕ
second = 1_000_000_000

-- A signed duration: `negsuc n` is -(n + 1) nanoseconds.
pub data Duration : Type 0 where
  pos : ℕ → Duration
  negsuc : ℕ → Duration

-- `u64::saturating_add(1)`.
abbrev pub saturating_suc : ℕ → ℕ
saturating_suc n = min (n + 1) (2 ^ 64 - 1)

pub record KeySummary : Type 0 where
  pub id : Uuid
  pub label : Text
  pub fingerprint : Bytes
  pub enabled : Bool
  pub verified : Bool
  pub cooldown_until : Option Time
  pub request_count : ℕ
  pub failure_count : ℕ

pub record DownstreamSummary : Type 0 where
  pub id : Uuid
  pub label : Text
  pub scopes : List String
  pub active : Bool
  pub request_count : ℕ
  pub last_used_at : Option Time
  pub created_at : Time
  pub revoked_at : Option Time

pub record DownstreamIdentity : Type 0 where
  pub id : Uuid
  pub active : Bool

pub record IssuedDownstream : Type 0 where
  pub summary : DownstreamSummary
  pub token : Bytes

pub record VaultKeyRecord : Type 0 where
  pub id : Uuid
  pub label : Text
  pub fingerprint : Bytes
  pub nonce : Bytes
  pub ciphertext : Bytes
  pub enabled : Bool
  pub verified : Bool
  pub retired : Bool
  pub cooldown_until : Option Time
  pub request_count : ℕ
  pub failure_count : ℕ

pub record VaultDownstreamRecord : Type 0 where
  pub id : Uuid
  pub label : Text
  pub scopes : List String
  pub token_digest : Bytes
  pub active : Bool
  pub request_count : ℕ
  pub last_used_at : Option Time
  pub created_at : Time
  pub revoked_at : Option Time

-- The encoded columns hold text, by its bytes.
pub record StoredKey : Type 0 where
  pub id : Uuid
  pub label : Text
  pub fingerprint : Bytes
  pub nonce : Bytes
  pub ciphertext : Bytes
  pub enabled : Bool
  pub verified : Bool
  pub retired : Bool
  pub cooldown_until : Option Time
  pub request_count : ℕ
  pub failure_count : ℕ

pub record StoredDownstream : Type 0 where
  pub id : Uuid
  pub label : Text
  pub scopes : List String
  pub token_digest : Bytes
  pub active : Bool
  pub request_count : ℕ
  pub last_used_at : Option Time
  pub created_at : Time
  pub revoked_at : Option Time

-- `router_cursors` is the map as an association list with one entry for each profile.
pub record VaultFile : Type 0 where
  pub version : ℕ
  pub keys : List StoredKey
  pub downstream : List StoredDownstream
  pub router_cursor : ℕ
  pub router_cursors : List (String × ℕ)

pub record Vault : Type 0 where
  pub master_key : Bytes
  pub state : VaultFile

-- The steps of `persist`, each of which can fail.
pub data PersistStep : Type 0 where
  serialize open_temp write_temp sync_temp protect rename open_directory sync_directory :
      PersistStep

pub data DownstreamAuthError : Type 0 where
  invalid_credential insufficient_scope : DownstreamAuthError

-- One constructor for each message of the methods' `bail!` and `context` calls.
pub data Error : Type 0 where
  label_is_invalid downstream_label_is_invalid : Error
  credential_shape_is_invalid upstream_credential_already_exists : Error
  upstream_label_already_exists at_most_two_upstream_credentials : Error
  credential_encryption_failed : Error
  distinct_fingerprints invalid_encrypted_upstream_row invalid_downstream_digest : Error
  downstream_label_already_exists downstream_credential_not_found : Error
  invalid_downstream_credential : Error
  key_not_found provider_probe_is_required key_is_cooling_down : Error
  scopes_are_invalid scopes_must_be_unique : Error
  decode_nonce invalid_credential_nonce decode_ciphertext : Error
  credential_decryption_failed credential_utf8 : Error
  decode_key_fingerprint decode_key_nonce decode_key_ciphertext decode_downstream_digest : Error
  read_vault decode_vault unsupported_vault_version : Error
  unauthorized : DownstreamAuthError → Error
  io : PersistStep → Error

pub data Result {ℓ} (A : Type ℓ) : Type ℓ where
  ok : A → Result A
  err : Error → Result A

infixl 5 ◌>>=◌ ◌>>◌
abbrev pub ◌>>=◌ {ℓ κ} : {A : Type ℓ} {B : Type κ} → Result A → (A → Result B) → Result B
ok a >>= f = f a
err e >>= f = err e

abbrev pub ◌>>◌ {ℓ} : {B : Type ℓ} → Result (Unit {0}) → Result B → Result B
ok _ >> k = k
err e >> k = err e

-- `if fails { bail!(e) }`
abbrev pub bail_if : Bool → Error → Result (Unit {0})
bail_if fails e = if fails then err e else ok tt

abbrev pub ok_or {ℓ} : {A : Type ℓ} → Option A → Error → Result A
ok_or none e = err e
ok_or (some a) e = ok a

unfoldable pub summary : StoredKey → KeySummary
summary key = record {
  id = key.id;
  label = key.label;
  fingerprint = key.fingerprint;
  enabled = key.enabled;
  verified = key.verified;
  cooldown_until = key.cooldown_until;
  request_count = key.request_count;
  failure_count = key.failure_count;
}

unfoldable pub downstream_summary : StoredDownstream → DownstreamSummary
downstream_summary item = record {
  id = item.id;
  label = item.label;
  scopes = item.scopes;
  active = item.active;
  request_count = item.request_count;
  last_used_at = item.last_used_at;
  created_at = item.created_at;
  revoked_at = item.revoked_at;
}

abbrev pub max_upstream_keys : ℕ
max_upstream_keys = 2
