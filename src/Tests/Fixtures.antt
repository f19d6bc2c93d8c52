-- ===== src/Tests/Fixtures.antt =====
-- Concrete data for the vault of crates/core/src/lib.rs: third-party primitives that keep their text as
-- it is, surroundings in which nothing fails, and a vault with two keys and two bearers.
use nvidia_build_lb.Prelude.{Bytes, true, false, [], ◌∷◌, ◌++◌, none, some, codes, refl, sym}
use nvidia_build_lb.Vault.State.{StoredKey, StoredDownstream, VaultFile, Vault}
use nvidia_build_lb.Vault.Custody.{Primitives, IsLawful, Env, World}

abbrev pub toy : Primitives
toy = record {
  File = VaultFile;
  sha256 = λ b. b;
  hex_encode = λ b. b;
  hex_decode = λ b. some b;
  base64_encode = λ b. b;
  base64_decode = λ b. some b;
  encrypt = λ key nonce id plain. some plain;
  decrypt = λ key nonce id cipher. some cipher;
  to_json = λ s. s;
  from_json = λ s. some s;
}

pub toy-IsLawful : IsLawful toy
toy-IsLawful = record {
  hex_round = λ b. refl;
  base64_round = λ b. refl;
  cipher_round = λ key nonce id plain cipher e. sym e;
  json_round = λ s. refl;
}

abbrev pub twelve_zeros : Bytes
twelve_zeros = 0 ∷ 0 ∷ 0 ∷ 0 ∷ 0 ∷ 0 ∷ 0 ∷ 0 ∷ 0 ∷ 0 ∷ 0 ∷ 0 ∷ []

abbrev pub calm : Env
calm = record { now = 1000; uuid = 9; nonce = twelve_zeros; random = 7 ∷ []; fails = λ _. false }

abbrev pub good_credential : Bytes
good_credential = codes "nvapi-abcdefghijklmnopqrstuvwxyz012345"

abbrev pub serving_key : StoredKey
serving_key = record {
  id = 1;
  label = codes "one";
  fingerprint = codes "f1";
  nonce = twelve_zeros;
  ciphertext = codes "secret";
  enabled = true;
  verified = true;
  retired = false;
  cooldown_until = none;
  request_count = 3;
  failure_count = 0;
}

abbrev pub idle_key : StoredKey
idle_key = record serving_key {
  id = 2;
  label = codes "two";
  fingerprint = codes "f2";
  enabled = false;
  verified = false;
}

abbrev pub bearer : StoredDownstream
bearer = record {
  id = 5;
  label = codes "app";
  scopes = "chat:write" ∷ [];
  token_digest = codes "6e626c625f64735f01";
  active = true;
  request_count = 0;
  last_used_at = none;
  created_at = 1;
  revoked_at = none;
}

abbrev pub bearer_token : Bytes
bearer_token = codes "nblb_ds_" ++ 1 ∷ []

abbrev pub old_bearer : StoredDownstream
old_bearer = record bearer {
  id = 6;
  label = codes "old";
  token_digest = codes "00";
  active = false;
}

abbrev pub two_keys : VaultFile
two_keys = record {
  version = 1;
  keys = serving_key ∷ idle_key ∷ [];
  downstream = bearer ∷ old_bearer ∷ [];
  router_cursor = 0;
  router_cursors = [];
}

abbrev pub house : Vault
house = record { master_key = codes "key"; state = two_keys }

abbrev pub here_and_now : World VaultFile
here_and_now = record { vault = house; file = some two_keys }
