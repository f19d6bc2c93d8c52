-- ===== src/Tests/Storage.antt =====
-- Storage of crates/core/src/lib.rs: runs, and the theorems on the whole vault at concrete inputs.
use nvidia_build_lb.Prelude.{
  Bytes, Bool, true, false, [], ◌∷◌, none, some, codes, ◌≡◌, ◌↔◌, ◌⊎◌, refl, arith, same,
}
use nvidia_build_lb.Vault.State.{
  VaultFile, Vault, VaultKeyRecord, VaultDownstreamRecord, PersistStep, Result, ok, err, pos,
}
use nvidia_build_lb.Vault.Custody.{Env}
use nvidia_build_lb.Vault.Opening.{
  AtPath, contents, load, open_vault, from_records_with_cursors, key_records, downstream_records,
  router_cursor_for, set_router_cursor_for,
}
use nvidia_build_lb.Vault.Opening.Restart.{open_vault_iff, step-reopens}
use nvidia_build_lb.Vault.Opening.Records.{from_records-key_records}
use nvidia_build_lb.Vault.Calls.{step, quarantines, adds, records_failure, deletes}
use nvidia_build_lb.Vault.Calls.Durability.{step-file}
use nvidia_build_lb.Vault.Calls.Slots.{IsValid, step-IsValid}
use nvidia_build_lb.Vault.Calls.Safety.{IsSafe, step-IsSafe}
use nvidia_build_lb.Tests.Fixtures.{
  toy, toy-IsLawful, calm, good_credential, twelve_zeros, two_keys, house, here_and_now,
}

-- Surroundings in which the rename fails.
abbrev fails_at_rename : PersistStep → Bool
fails_at_rename nvidia_build_lb.Vault.State.rename = true
fails_at_rename _ = false

abbrev stormy : Env
stormy = record calm { fails = fails_at_rename }

two_keys-IsValid : IsValid two_keys
unfolding same
two_keys-IsValid = record { version = refl; slots = omega arith; distinct = (refl, (refl, tt)) }

two_keys-IsSafe : IsSafe two_keys
two_keys-IsSafe = (refl, (refl, tt))

open_vault_iff_example : (open_vault toy (codes "key") (contents two_keys) ≡ ok house) ↔ (
    (load toy (contents two_keys) ≡ ok two_keys)
    × (house.master_key ≡ codes "key")
    × IsValid two_keys)
open_vault_iff_example = open_vault_iff toy (codes "key") (contents two_keys) house

step-file_example :
    ((step toy stormy (quarantines 1) here_and_now).0.vault.master_key ≡ house.master_key)
    × (((step toy stormy (quarantines 1) here_and_now).0.file
          ≡ some (toy.to_json (step toy stormy (quarantines 1) here_and_now).0.vault.state))
        ⊎ (((step toy stormy (quarantines 1) here_and_now).0.file ≡ some two_keys)
            × (((step toy stormy (quarantines 1) here_and_now).1 ≡ false)
                ⊎ ((step toy stormy (quarantines 1) here_and_now).0.vault.state ≡ two_keys))))
step-file_example = step-file toy stormy (quarantines 1) here_and_now

step-reopens_example :
    (bytes : VaultFile) × ((step toy stormy (deletes 2) here_and_now).0.file ≡ some bytes)
    × (((open_vault toy house.master_key (contents bytes) ≡ ok house)
          × ((step toy stormy (deletes 2) here_and_now).1 ≡ false))
        ⊎ (open_vault toy house.master_key (contents bytes)
            ≡ ok (step toy stormy (deletes 2) here_and_now).0.vault))
step-reopens_example =
    step-reopens toy stormy (deletes 2) here_and_now toy-IsLawful two_keys-IsValid refl

step-IsValid_example :
    IsValid (step toy calm (adds (codes "new") good_credential) here_and_now).0.vault.state
step-IsValid_example =
    step-IsValid toy calm (adds (codes "new") good_credential) here_and_now two_keys-IsValid

step-IsSafe_example :
    IsSafe (step toy calm (records_failure 1 (some (pos 5))) here_and_now).0.vault.state
step-IsSafe_example =
    step-IsSafe toy calm (records_failure 1 (some (pos 5))) here_and_now two_keys-IsSafe

abbrev print : Bytes
print =
    1 ∷ 2 ∷ 3 ∷ 4 ∷ 5 ∷ 6 ∷ 7 ∷ 8 ∷ 9 ∷ 10 ∷ 11 ∷ 12 ∷ 13 ∷ 14 ∷ 15 ∷ 16 ∷ 17 ∷ 18 ∷ 19 ∷ 20 ∷ 21
    ∷ 22 ∷ 23 ∷ 24 ∷ 25 ∷ 26 ∷ 27 ∷ 28 ∷ 29 ∷ 30 ∷ 31 ∷ 32 ∷ []

abbrev key_row : VaultKeyRecord
key_row = record {
  id = 1;
  label = codes "one";
  fingerprint = print;
  nonce = twelve_zeros;
  ciphertext = print;
  enabled = true;
  verified = true;
  retired = false;
  cooldown_until = none;
  request_count = 0;
  failure_count = 0;
}

abbrev bearer_row : VaultDownstreamRecord
bearer_row = record {
  id = 5;
  label = codes "app";
  scopes = "chat:write" ∷ [];
  token_digest = print;
  active = true;
  request_count = 0;
  last_used_at = none;
  created_at = 1;
  revoked_at = none;
}

abbrev restored : Vault
restored = record {
  master_key = codes "key";
  state = record {
    version = 1;
    keys =
        record {
          id = 1;
          label = codes "one";
          fingerprint = print;
          nonce = twelve_zeros;
          ciphertext = print;
          enabled = true;
          verified = true;
          retired = false;
          cooldown_until = none;
          request_count = 0;
          failure_count = 0;
        }
        ∷ [];
    downstream =
        record {
          id = 5;
          label = codes "app";
          scopes = "chat:write" ∷ [];
          token_digest = print;
          active = true;
          request_count = 0;
          last_used_at = none;
          created_at = 1;
          revoked_at = none;
        }
        ∷ [];
    router_cursor = 4;
    router_cursors = ("__legacy__", 4) ∷ [];
  };
}

restores :
    from_records_with_cursors toy
      (codes "key")
      (key_row ∷ [])
      (bearer_row ∷ [])
      (("__legacy__", 4) ∷ [])
    ≡ ok restored
unfolding from_records_with_cursors nvidia_build_lb.Vault.Opening.all_new_records
    nvidia_build_lb.Vault.Opening.collect nvidia_build_lb.Vault.Opening.stored_key
    nvidia_build_lb.Vault.Opening.stored_downstream nvidia_build_lb.Vault.Opening.get_cursor
restores = refl

from_records-key_records_example :
    (key_records toy restored ≡ ok (key_row ∷ []))
    × (downstream_records toy restored ≡ ok (bearer_row ∷ []))
from_records-key_records_example =
    from_records-key_records toy (codes "key") (key_row ∷ []) (bearer_row ∷ [])
      (("__legacy__", 4) ∷ []) restored toy-IsLawful restores
