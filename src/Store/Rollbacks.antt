-- ===== src/Store/Rollbacks.antt =====
-- What a failed synchronisation and the write after a rollback leave, for `VaultStore` of
-- crates/gateway/src/main.rs.
use nvidia_build_lb.Prelude.{
  Bool, ◌||◌, if◌then◌else◌, arith, true, false, Option, none, some, ◌≡◌, refl, ap, ◌⊎◌, inl, inr,
}
use nvidia_build_lb.Vault.State.{
  Uuid, Vault, Result, ok, err, PersistStep, serialize, open_temp, write_temp, sync_temp, protect,
  rename,
}
use nvidia_build_lb.Vault.Custody.{Primitives, Env, World, persist}
use nvidia_build_lb.Database.Tables.{Tables, VaultAuditMutation}
use nvidia_build_lb.Database.Transactions.{Engine, Ended}
use nvidia_build_lb.Database.Delta.{VaultSyncSnapshot, delta, sync_database_delta}
use nvidia_build_lb.Database.Delta.Synced.{transaction-failed}
use nvidia_build_lb.Store.{
  StoreError, failure, VaultStore, Setting, snapshot, answered, from_ended, with_snapshots,
  sync_unlocked_with_audit,
}

-- The database is as before, unless a COMMIT took effect whose acknowledgement was lost.
abbrev pub IsUntouched : Engine → Option Tables → Option Tables → Type 0
IsUntouched e before after = (after ≡ before) ⊎ ((e.commits ≡ true) × (e.acknowledges ≡ false))

module _ (p : Primitives) (e : Engine) where
  from_ended-failed :
      (t : Tables) (ended : Ended (Option Uuid)) (x : StoreError)
      → (ended.result ≡ none → (ended.tables ≡ t) ⊎ ((e.commits ≡ true) × (e.acknowledges ≡ false)))
      → (from_ended ended).1 ≡ failure x
      → IsUntouched e (some t) (from_ended ended).0
  from_ended-failed t ended x h is = go ended.result refl is
    where
      go :
          (o : Option (Option Uuid))
          → ended.result ≡ o
          → (answered ended.tables o).1 ≡ failure x
          → IsUntouched e (some t) (answered ended.tables o).0
      go none at is = elim (h at) [ inl same ↦ inl (ap some same) | inr lost ↦ inr lost ]
      go (some answer) at is = cc

  with_snapshots-failed :
      (audit : Option VaultAuditMutation) (t : Tables) (current previous : Result VaultSyncSnapshot)
      (x : StoreError)
      → (with_snapshots e audit t current previous).1 ≡ failure x
      → IsUntouched e (some t) (with_snapshots e audit t current previous).0
  unfolding sync_database_delta
  with_snapshots-failed audit t (err y) previous x is = inl refl
  with_snapshots-failed audit t (ok current) (err y) x is = inl refl
  with_snapshots-failed audit t (ok current) (ok previous) x is =
      from_ended-failed t (sync_database_delta e previous current audit t) x
        (transaction-failed e (delta previous current audit) t) is

  pub sync-failed :
      (previous : Vault) (audit : Option VaultAuditMutation) (vault : Vault)
      (database : Option Tables) (x : StoreError)
      → (sync_unlocked_with_audit p e previous audit vault database).1 ≡ failure x
      → IsUntouched e database (sync_unlocked_with_audit p e previous audit vault database).0
  unfolding sync_unlocked_with_audit
  sync-failed previous audit vault none x is = inl refl
  sync-failed previous audit vault (some t) x is =
      with_snapshots-failed audit t (snapshot p vault) (snapshot p previous) x is

-- Whether a write of the file ends before the file is replaced.
abbrev pub ends_early : (PersistStep → Bool) → Bool
ends_early fails =
    fails serialize
    || fails open_temp
    || fails write_temp
    || fails sync_temp
    || fails protect
    || fails rename

pub persist-file :
    (p : Primitives) (env : Env) (w : World p.File)
    → (persist p env w).0.file
      ≡ (if ends_early env.fails then w.file else some (p.to_json w.vault.state))
unfolding persist
persist-file p env w = ground arith

-- The file after a failure. Where the operation itself has failed, it is the one that the operation left.
-- Where the operation had succeeded, it is the vault from before, unless its rewriting failed too.
abbrev pub FileRestored {ℓ} :
    {A : Type ℓ} → (p : Primitives) → Env → Vault → World p.File × Result A → Option p.File → Type 0
FileRestored p rollback before (w, err x) file = file ≡ w.file
FileRestored p rollback before (w, ok a) file =
    file ≡ (if ends_early rollback.fails then w.file else some (p.to_json before.state))

-- The vault in memory, its file and the database after a failure, given what the operation answered.
pub record IsRestored {ℓ} {A : Type ℓ} (p : Primitives) (setting : Setting)
    (ran : World p.File × Result A) (before after : VaultStore p.File) : Type 0 where
  pub vault : after.world.vault ≡ before.world.vault
  pub database : IsUntouched setting.engine before.database after.database
  pub file : FileRestored p setting.rollback before.world.vault ran after.world.file
