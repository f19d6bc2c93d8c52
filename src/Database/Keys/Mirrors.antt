-- ===== src/Database/Keys/Mirrors.antt =====
-- The incremental synchronisation of crates/gateway/src/main.rs writes what one mutation has changed: where
-- the tables held the keys from before it, they hold the keys from after it.
use nvidia_build_lb.Prelude.{
  String, ℕ, Bool, true, false, not, List, Option, ◌==◌, ◌≡◌, refl, sym, ap, ◌∙◌, subst, arith,
}
use nvidia_build_lb.Vault.State.{Time, VaultKeyRecord}
use nvidia_build_lb.Database.Tables.{Tables, KeyRow}
use nvidia_build_lb.Database.Columns.{
  same_bool, same_time, same_bool-eq, same_bool_refl, same_time-eq, same_time_refl,
}
use nvidia_build_lb.Database.Transactions.{stamped, Engine, Tx, ◌>>◌}
use nvidia_build_lb.Database.Transactions.Rules.{
  Ensures, then-Ensures, only_if-Ensures, execute-Ensures,
}
use nvidia_build_lb.Database.Keys.{
  loses_proofs, reason_of_loss, key_table, invalidate_receipts, update_changed, sync_enabled,
  sync_verified, sync_retired, sync_cooldown, sync_request_count, sync_failure_count,
  invalidate_proofs,
}
use nvidia_build_lb.Database.Transactions.Rows.{Tracks, maybe_update-Ensures, maybe_count-Ensures}

-- A row holds a key of the vault.
pub record Mirrors (e : Engine) (key : VaultKeyRecord) (row : KeyRow) : Type 0 where
  pub label : row.label ≡ key.label
  pub fingerprint : row.fingerprint ≡ key.fingerprint
  pub ciphertext : row.ciphertext ≡ key.ciphertext
  pub nonce : row.nonce ≡ key.nonce
  pub enabled : row.enabled ≡ key.enabled
  pub verified : row.verified ≡ key.verified
  pub retired : row.retired ≡ key.retired
  pub cooldown_until : row.cooldown_until ≡ stamped e key.cooldown_until
  pub request_count : row.request_count ≡ key.request_count
  pub failure_count : row.failure_count ≡ key.failure_count

-- One key before and after a mutation: the label and the secret stay.
pub record SameSecret (before key : VaultKeyRecord) : Type 0 where
  pub id : before.id ≡ key.id
  pub label : before.label ≡ key.label
  pub fingerprint : before.fingerprint ≡ key.fingerprint
  pub ciphertext : before.ciphertext ≡ key.ciphertext
  pub nonce : before.nonce ≡ key.nonce

not-false : (b : Bool) → not b ≡ false → b ≡ true
not-false true h = refl
not-false false h = cc

module _ (e : Engine) (start : List KeyRow) (before key : VaultKeyRecord) where
  abbrev AtRow : KeyRow → Tables → Type 0
  AtRow row = Tracks key_table start key.id row

  sync_enabled-Ensures :
      (row : KeyRow)
      → row.enabled ≡ before.enabled
      → Ensures e
          (AtRow row)
          (sync_enabled before key)
          (λ _. AtRow (record row { enabled = key.enabled }))
  unfolding sync_enabled
  sync_enabled-Ensures row old =
      maybe_update-Ensures key_table (λ t rows. refl) e start key.id
        (not (same_bool key.enabled before.enabled)) (λ e r. same_bool r.enabled before.enabled)
        (λ e r. record r { enabled = key.enabled }) (λ r. refl) row
        (record row { enabled = key.enabled })
        (subst (λ (b : Bool). same_bool b before.enabled ≡ true) (sym old)
          (same_bool_refl before.enabled))
        refl
        (λ off.
          ap (λ (b : Bool). record row { enabled = b })
            (old ∙ sym (same_bool-eq key.enabled before.enabled (not-false _ off))))

  sync_verified-Ensures :
      (row : KeyRow)
      → row.verified ≡ before.verified
      → Ensures e
          (AtRow row)
          (sync_verified before key)
          (λ _. AtRow (record row { verified = key.verified }))
  unfolding sync_verified
  sync_verified-Ensures row old =
      maybe_update-Ensures key_table (λ t rows. refl) e start key.id
        (not (same_bool key.verified before.verified)) (λ e r. same_bool r.verified before.verified)
        (λ e r. record r { verified = key.verified }) (λ r. refl) row
        (record row { verified = key.verified })
        (subst (λ (b : Bool). same_bool b before.verified ≡ true) (sym old)
          (same_bool_refl before.verified))
        refl
        (λ off.
          ap (λ (b : Bool). record row { verified = b })
            (old ∙ sym (same_bool-eq key.verified before.verified (not-false _ off))))

  sync_retired-Ensures :
      (row : KeyRow)
      → row.retired ≡ before.retired
      → Ensures e
          (AtRow row)
          (sync_retired before key)
          (λ _. AtRow (record row { retired = key.retired }))
  unfolding sync_retired
  sync_retired-Ensures row old =
      maybe_update-Ensures key_table (λ t rows. refl) e start key.id
        (not (same_bool key.retired before.retired)) (λ e r. same_bool r.retired before.retired)
        (λ e r. record r { retired = key.retired }) (λ r. refl) row
        (record row { retired = key.retired })
        (subst (λ (b : Bool). same_bool b before.retired ≡ true) (sym old)
          (same_bool_refl before.retired))
        refl
        (λ off.
          ap (λ (b : Bool). record row { retired = b })
            (old ∙ sym (same_bool-eq key.retired before.retired (not-false _ off))))

  receipts-Ensures :
      (reason : String) (row : KeyRow)
      → Ensures e (AtRow row) (invalidate_receipts key.id reason) (λ _. AtRow row)
  unfolding invalidate_receipts
  receipts-Ensures reason row =
      execute-Ensures e (AtRow row) _ (λ _. AtRow row)
        (λ t h. record { here = h.here; others = h.others })

  invalidate_proofs-Ensures :
      (row : KeyRow) → Ensures e (AtRow row) (invalidate_proofs before key) (λ _. AtRow row)
  unfolding invalidate_proofs
  invalidate_proofs-Ensures row =
      only_if-Ensures e (AtRow row) (loses_proofs before key)
        (invalidate_receipts key.id (reason_of_loss before key)) (AtRow row)
        (λ _. receipts-Ensures (reason_of_loss before key) row) (λ off t h. h)

  sync_cooldown-Ensures :
      (row : KeyRow)
      → row.cooldown_until ≡ stamped e before.cooldown_until
      → Ensures e
          (AtRow row)
          (sync_cooldown before key)
          (λ _. AtRow (record row { cooldown_until = stamped e key.cooldown_until }))
  unfolding sync_cooldown
  sync_cooldown-Ensures row old =
      maybe_update-Ensures key_table (λ t rows. refl) e start key.id
        (not (same_time key.cooldown_until before.cooldown_until))
        (λ e r. same_time r.cooldown_until (stamped e before.cooldown_until))
        (λ e r. record r { cooldown_until = stamped e key.cooldown_until }) (λ r. refl) row
        (record row { cooldown_until = stamped e key.cooldown_until })
        (subst (λ (t : Option Time). same_time t (stamped e before.cooldown_until) ≡ true) (sym old)
          (same_time_refl (stamped e before.cooldown_until)))
        refl
        (λ off.
          ap (λ (t : Option Time). record row { cooldown_until = t })
            (old
              ∙ ap (stamped e)
                  (sym (same_time-eq key.cooldown_until before.cooldown_until (not-false _ off)))))

  sync_request_count-Ensures :
      (row : KeyRow)
      → row.request_count ≡ before.request_count
      → Ensures e
          (AtRow row)
          (sync_request_count before key)
          (λ _. AtRow (record row { request_count = key.request_count }))
  unfolding sync_request_count
  sync_request_count-Ensures row old =
      maybe_count-Ensures key_table (λ t rows. refl) e start key.id
        (not (key.request_count == before.request_count)) key.request_count before.request_count
        (λ r. r.request_count) (λ r n. record r { request_count = n }) (λ r n. refl) row
        (record row { request_count = key.request_count })
        (ap (λ (n : ℕ). record row { request_count = n }) (omega arith))
        (λ off. ap (λ (n : ℕ). record row { request_count = n }) (ground arith))

  sync_failure_count-Ensures :
      (row : KeyRow)
      → row.failure_count ≡ before.failure_count
      → Ensures e
          (AtRow row)
          (sync_failure_count before key)
          (λ _. AtRow (record row { failure_count = key.failure_count }))
  unfolding sync_failure_count
  sync_failure_count-Ensures row old =
      maybe_count-Ensures key_table (λ t rows. refl) e start key.id
        (not (key.failure_count == before.failure_count)) key.failure_count before.failure_count
        (λ r. r.failure_count) (λ r n. record r { failure_count = n }) (λ r n. refl) row
        (record row { failure_count = key.failure_count })
        (ap (λ (n : ℕ). record row { failure_count = n }) (omega arith))
        (λ off. ap (λ (n : ℕ). record row { failure_count = n }) (ground arith))

  -- The row with all fields that a mutation can change.
  abbrev pub written : KeyRow → KeyRow
  written row = record row {
    enabled = key.enabled;
    verified = key.verified;
    retired = key.retired;
    cooldown_until = stamped e key.cooldown_until;
    request_count = key.request_count;
    failure_count = key.failure_count;
  }

  -- The statements on a key that has changed write its row, field by field.
  pub update_changed-Ensures :
      (row : KeyRow)
      → Mirrors e before row
      → Ensures e (AtRow row) (update_changed before key) (λ _. AtRow (written row))
  unfolding update_changed
  update_changed-Ensures row old =
      then-Ensures e (AtRow row) (sync_enabled before key) (AtRow r1) m2 goal
        (sync_enabled-Ensures row old.enabled)
        (then-Ensures e (AtRow r1) (sync_verified before key) (AtRow r2) m3 goal
          (sync_verified-Ensures r1 old.verified)
          (then-Ensures e (AtRow r2) (sync_retired before key) (AtRow r3) m4 goal
            (sync_retired-Ensures r2 old.retired)
            (then-Ensures e (AtRow r3) (invalidate_proofs before key) (AtRow r3) m5 goal
              (invalidate_proofs-Ensures r3)
              (then-Ensures e (AtRow r3) (sync_cooldown before key) (AtRow r4) m6 goal
                (sync_cooldown-Ensures r3 old.cooldown_until)
                (then-Ensures e (AtRow r4) (sync_request_count before key) (AtRow r5) m7 goal
                  (sync_request_count-Ensures r4 old.request_count)
                  (sync_failure_count-Ensures r5 old.failure_count))))))
    where
      goal : Unit {0} → Tables → Type 0
      goal _ = AtRow (written row)

      r1 : KeyRow
      r1 = record row { enabled = key.enabled }

      r2 : KeyRow
      r2 = record r1 { verified = key.verified }

      r3 : KeyRow
      r3 = record r2 { retired = key.retired }

      r4 : KeyRow
      r4 = record r3 { cooldown_until = stamped e key.cooldown_until }

      r5 : KeyRow
      r5 = record r4 { request_count = key.request_count }

      m7 : Tx (Unit {0})
      m7 = sync_failure_count before key

      m6 : Tx (Unit {0})
      m6 = sync_request_count before key >> m7

      m5 : Tx (Unit {0})
      m5 = sync_cooldown before key >> m6

      m4 : Tx (Unit {0})
      m4 = invalidate_proofs before key >> m5

      m3 : Tx (Unit {0})
      m3 = sync_retired before key >> m4

      m2 : Tx (Unit {0})
      m2 = sync_verified before key >> m3
