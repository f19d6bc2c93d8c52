-- ===== src/Tests/Keys.antt =====
-- Upstream keys of crates/core/src/lib.rs: runs, and the theorems on them at concrete inputs.
use nvidia_build_lb.Prelude.{
  ◌+◌, ◌*◌, ◌≤◌, ◌^◌, ◌-◌, min, true, false, Option, none, some, ◌≡◌, refl, arith, codes, any,
}
use nvidia_build_lb.Vault.State.{StoredKey, KeySummary, ok, err, second, summary, key_not_found}
use nvidia_build_lb.Vault.Shapes.{lower_hex}
use nvidia_build_lb.Vault.Custody.{fingerprint, persist, finish, commit, modify_first}
use nvidia_build_lb.Vault.Keys.{
  on_keys, check_new, new_key, store_new, add_to, add, is_retired, set_enabled, verify_key,
  mark_verified, delete_key, delete, quarantine_key, quarantine, credential, failure_delay,
  count_failure,
}
use nvidia_build_lb.Vault.Keys.Lifecycle.{delete-gone}
use nvidia_build_lb.Vault.Keys.Secrets.{step-credential}
use nvidia_build_lb.Vault.Keys.Stored.{add-credential}
use nvidia_build_lb.Vault.Calls.{step, quarantines}
use nvidia_build_lb.Tests.Fixtures.{
  toy, toy-IsLawful, calm, good_credential, serving_key, idle_key, house, here_and_now,
}

quarantined :
    (quarantine toy calm 1 here_and_now).1
    ≡ ok (summary (record serving_key { enabled = false; verified = false }))
unfolding quarantine commit finish persist on_keys modify_first quarantine_key summary
quarantined = refl

probed :
    (mark_verified toy calm 2 here_and_now).1 ≡ ok (summary (record idle_key { verified = true }))
unfolding mark_verified commit finish persist on_keys modify_first verify_key summary
probed = refl

deleted : (delete toy calm 1 here_and_now).1 ≡ ok tt
unfolding delete commit finish persist on_keys modify_first delete_key
deleted = refl

delete-gone_example :
    ((set_enabled toy calm 1 true (delete toy calm 1 here_and_now).0).1 ≡ err key_not_found)
    × ((mark_verified toy calm 1 (delete toy calm 1 here_and_now).0).1 ≡ err key_not_found)
    × (is_retired (delete toy calm 1 here_and_now).0.vault 1 ≡ true)
delete-gone_example = delete-gone toy calm calm 1 here_and_now (refl, (refl, tt)) deleted

abbrev failed_key : StoredKey
failed_key = record serving_key { cooldown_until = some (1000 + 2 * second); failure_count = 1 }

failed : count_failure 1000 none serving_key ≡ ok (failed_key, tt)
unfolding count_failure failure_delay
failed = refl

step-credential_example :
    credential toy (step toy calm (quarantines 1) here_and_now).0.vault 1 ≡ credential toy house 1
step-credential_example = step-credential toy calm (quarantines 1) here_and_now 1 refl

-- The reading of a stored credential.
stored_secret : credential toy house 1 ≡ ok (codes "secret")
unfolding credential nvidia_build_lb.Prelude.is_utf8
stored_secret = refl

abbrev added_summary : KeySummary
added_summary = summary (new_key toy calm (codes "new") good_credential good_credential)

added : (add toy calm (codes "new") good_credential here_and_now).1 ≡ ok added_summary
unfolding add commit finish persist on_keys add_to check_new store_new
    nvidia_build_lb.Vault.Shapes.validate_label nvidia_build_lb.Prelude.same
    nvidia_build_lb.Vault.Shapes.is_whitespace
    nvidia_build_lb.Vault.Shapes.valid_upstream_credential nvidia_build_lb.Prelude.starts_with
    nvidia_build_lb.Vault.Shapes.is_ascii_alphanumeric fingerprint
added = refl

add-credential_example :
    credential toy (add toy calm (codes "new") good_credential here_and_now).0.vault 9
    ≡ ok good_credential
add-credential_example =
    add-credential toy calm (codes "new") good_credential here_and_now added_summary toy-IsLawful
      refl refl added
