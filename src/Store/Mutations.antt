-- ===== src/Store/Mutations.antt =====
-- What a mutation through `VaultStore` of crates/gateway/src/main.rs leaves in memory and in the database.
use nvidia_build_lb.Prelude.{List, [], ◌∷◌, ◌++◌, Option, none, some, ◌≡◌, refl, sym, subst, inl}
use nvidia_build_lb.Vault.State.{Uuid, Vault, Result, ok, err}
use nvidia_build_lb.Vault.Custody.{Primitives, Env, World, persist_for_rollback}
use nvidia_build_lb.Vault.Custody.Writes.{persist-IsWritten}
use nvidia_build_lb.Database.Tables.{Tables, AuditRow, VaultAuditMutation}
use nvidia_build_lb.Database.Transactions.{Engine, Ended}
use nvidia_build_lb.Database.Delta.{VaultSyncSnapshot, audit_row, delta, sync_database_delta}
use nvidia_build_lb.Database.Delta.Synced.{
  HoldsVault, IsReady, Audited, delta-HoldsVault, transaction-done,
}
use nvidia_build_lb.Store.{
  StoreError, success, failure, VaultStore, Setting, snapshot, Synced, answered, from_ended,
  sync_unlocked_with_audit, restored, fail_after, roll_back, Operation, after_sync, after_operation,
  mutate, after_audited_sync, after_audited_operation, mutate_with_audit,
}
use nvidia_build_lb.Store.Rollbacks.{
  IsUntouched, sync-failed, persist-file, FileRestored, IsRestored,
}

module _ {ℓ} (A : Type ℓ) (p : Primitives) (setting : Setting) (s : VaultStore p.File) where
  fail_after-IsRestored :
      (s' : VaultStore p.File) (x : StoreError) (r : (World p.File) × Result (Unit {0}))
      → (a : A) (w : World p.File) → r.0.vault ≡ s.world.vault
      → IsUntouched setting.engine s.database s'.database
      → FileRestored p setting.rollback s.world.vault (w, ok a) r.0.file
      → IsRestored p setting (w, ok a) s (fail_after {A = A} s' x r).0
  fail_after-IsRestored s' x (w', err y) a w same untouched rewritten = record {
    vault = same;
    database = untouched;
    file = rewritten;
  }
  fail_after-IsRestored s' x (w', ok _) a w same untouched rewritten = record {
    vault = same;
    database = untouched;
    file = rewritten;
  }

  roll_back-IsRestored :
      (x : StoreError) (s' : VaultStore p.File) (a : A)
      → IsUntouched setting.engine s.database s'.database
      → IsRestored p setting
          (s'.world, ok a)
          s
          (roll_back {A = A} p setting.rollback s.world.vault x s').0
  unfolding roll_back persist_for_rollback
  roll_back-IsRestored x s' a untouched =
      fail_after-IsRestored (restored s' s.world.vault) x _ a s'.world
        (persist-IsWritten p setting.rollback (restored s' s.world.vault).world).0 untouched
        (persist-file p setting.rollback (restored s' s.world.vault).world)

  after_sync-IsRestored :
      (a : A) (w : World p.File) (synced : Synced) (x : StoreError)
      → ((y : StoreError) → synced.1 ≡ failure y → IsUntouched setting.engine s.database synced.0)
      → (after_sync p setting s.world.vault a w synced).1 ≡ failure x
      → IsRestored p setting (w, ok a) s (after_sync p setting s.world.vault a w synced).0
  after_sync-IsRestored a w (database, success _) x h is = cc
  after_sync-IsRestored a w (database, failure y) x h is =
      roll_back-IsRestored y (record { world = w; database = database }) a (h y refl)

  after_operation-IsRestored :
      (r : (World p.File) × Result A) (x : StoreError)
      → (after_operation p setting s.world.vault s.database r).1 ≡ failure x
      → IsRestored p setting r s (after_operation p setting s.world.vault s.database r).0
  unfolding after_operation
  after_operation-IsRestored (w, err y) x is = record {
    vault = refl;
    database = inl refl;
    file = refl;
  }
  after_operation-IsRestored (w, ok a) x is =
      after_sync-IsRestored a w _ x
        (λ y. sync-failed p setting.engine s.world.vault none w.vault s.database y) is

-- A mutation that fails is taken back: whatever the operation did and whichever step failed, the vault in memory
-- is the one from before, and the database has its old tables, unless the server committed and only its
-- acknowledgement was lost. Where the operation had succeeded, the encrypted file is the vault from before,
-- or, if writing it again ends before it is replaced, as the operation left it; where the operation itself
-- failed, the file stays as the operation left it.
pub mutate-IsRestored {ℓ} :
    {A : Type ℓ} (p : Primitives) (setting : Setting) (operation : Operation p A)
    (s : VaultStore p.File) (x : StoreError)
    → (mutate p setting operation s).1 ≡ failure x
    → IsRestored p setting (operation setting.operation s.world) s (mutate p setting operation s).0
unfolding mutate
mutate-IsRestored p setting operation s x is =
    after_operation-IsRestored _ p setting s (operation setting.operation s.world) x is

-- What an audited mutation that succeeds leaves: the operation has succeeded and the world is the one it
-- left, the database holds the vault that is now in memory, and its last audit event is the one for the
-- result, under the identifier that the caller is given.
pub record IsAudited {ℓ} {A : Type ℓ} (p : Primitives) (setting : Setting)
    (operation : Operation p A) (audit_for : A → VaultAuditMutation) (s s' : VaultStore p.File)
    (a : A) (audit_id : Uuid) (current : VaultSyncSnapshot) : Type ℓ where
  pub operated : operation setting.operation s.world ≡ (s'.world, ok a)
  pub tables : Tables
  pub in_database : s'.database ≡ some tables
  pub holds : HoldsVault setting.engine current tables
  pub given : audit_id ≡ setting.engine.fresh
  pub earlier : List AuditRow
  pub event : tables.audit_events ≡ earlier ++ audit_row setting.engine (audit_for a) ∷ []

success-injective {ℓ} : {A : Type ℓ} (a b : A) → success a ≡ success b → a ≡ b
success-injective a b h = cc

fail_after-fails {ℓ} :
    {A : Type ℓ} {F : Type 0} (s : VaultStore F) (x : StoreError)
    (r : (World F) × Result (Unit {0})) (a : A)
    → (fail_after s x r).1 ≡ success a
    → ⊥
fail_after-fails s x (w, err e) a h = cc
fail_after-fails s x (w, ok _) a h = cc

-- A rollback never answers with success.
roll_back-fails {ℓ} :
    {A : Type ℓ} (p : Primitives) (env : Env) (previous : Vault) (x : StoreError)
    (s : VaultStore p.File) (a : A)
    → (roll_back p env previous x s).1 ≡ success a
    → ⊥
unfolding roll_back
roll_back-fails p env previous x s a h =
    fail_after-fails (restored s previous) x
      (persist_for_rollback p env (restored s previous).world) a h

-- Where both snapshots are there, the synchronisation is one incremental transaction.
sync_lem :
    (p : Primitives) (e : Engine) (before vault : Vault) (audit : Option VaultAuditMutation)
    (t : Tables) (previous current : VaultSyncSnapshot)
    → snapshot p before ≡ ok previous
    → snapshot p vault ≡ ok current
    → sync_unlocked_with_audit p e before audit vault (some t)
      ≡ from_ended (sync_database_delta e previous current audit t)
unfolding sync_unlocked_with_audit
sync_lem p e before vault audit t previous current was becomes = rw (was, becomes) refl

-- A synchronisation that succeeds leaves the new vault and its audit event in the tables.
delta-done :
    (e : Engine) (t : Tables) (previous current : VaultSyncSnapshot)
    (audit : Option VaultAuditMutation)
    → IsReady e previous current t
    → (answer : Option Uuid) → (sync_database_delta e previous current audit t).result ≡ some answer
    → HoldsVault e current (sync_database_delta e previous current audit t).tables
      × Audited e audit answer (sync_database_delta e previous current audit t).tables
unfolding sync_database_delta
delta-done e t previous current audit ready answer is =
    transaction-done e (delta previous current audit) t
      (λ a u. HoldsVault e current u × Audited e audit a u)
      (delta-HoldsVault e previous current audit t ready) answer is

module _ {ℓ} {A : Type ℓ} (p : Primitives) (setting : Setting) (operation : Operation p A)
    (audit_for : A → VaultAuditMutation) (s : VaultStore p.File) (t : Tables)
    (previous current : VaultSyncSnapshot) (a : A) (audit_id : Uuid)
    (was : snapshot p s.world.vault ≡ ok previous)
    (ready : IsReady setting.engine previous current t) where
  abbrev Goal : VaultStore p.File → Type ℓ
  Goal s' = IsAudited p setting operation audit_for s s' a audit_id current

  from_ended-IsAudited :
      (b : A) (w : World p.File) (ended : Ended (Option Uuid))
      → operation setting.operation s.world ≡ (w, ok b)
      → ((answer : Option Uuid)
          → ended.result ≡ some answer
          → HoldsVault setting.engine current ended.tables
            × Audited setting.engine (some (audit_for b)) answer ended.tables)
      → (after_audited_sync p setting s.world.vault b w (from_ended ended)).1
        ≡ success (a, audit_id)
      → Goal (after_audited_sync p setting s.world.vault b w (from_ended ended)).0
  from_ended-IsAudited b w ended at done is = go ended.result refl is
    where
      go :
          (o : Option (Option Uuid))
          → ended.result ≡ o
          → (after_audited_sync p setting s.world.vault b w (answered ended.tables o)).1
            ≡ success (a, audit_id)
          → Goal (after_audited_sync p setting s.world.vault b w (answered ended.tables o)).0
      go none at' is = absurd (roll_back-fails p setting.rollback s.world.vault _ _ _ is)
      go (some none) at' is = absurd (roll_back-fails p setting.rollback s.world.vault _ _ _ is)
      go (some (some id)) at' is =
          let (held, (given, (earlier, event))) = done (some id) at' in
          subst
            (λ (r : A × Uuid).
              IsAudited p setting operation audit_for s
                (record { world = w; database = some ended.tables }) r.0 r.1 current)
            (success-injective (b, id) (a, audit_id) is)
            (record {
              operated = at;
              tables = ended.tables;
              in_database = refl;
              holds = held;
              given = cc;
              earlier = earlier;
              event = event;
            })

  after_operation-IsAudited :
      (r : (World p.File) × Result A)
      → operation setting.operation s.world ≡ r
      → snapshot p r.0.vault ≡ ok current
      → (after_audited_operation p setting audit_for s.world.vault (some t) r).1
        ≡ success (a, audit_id)
      → Goal (after_audited_operation p setting audit_for s.world.vault (some t) r).0
  unfolding after_audited_operation
  after_operation-IsAudited (w, err x) at becomes is = cc
  after_operation-IsAudited (w, ok b) at becomes is =
      synced_as
        (sync_lem p setting.engine s.world.vault w.vault (some (audit_for b)) t previous current was
          becomes)
        is
    where
      synced_as :
          {synced : Synced}
          → synced
            ≡ from_ended
                (sync_database_delta setting.engine previous current (some (audit_for b)) t)
          → (after_audited_sync p setting s.world.vault b w synced).1 ≡ success (a, audit_id)
          → Goal (after_audited_sync p setting s.world.vault b w synced).0
      synced_as e is =
          subst
            (λ (y : Synced).
              (after_audited_sync p setting s.world.vault b w y).1 ≡ success (a, audit_id)
              → Goal (after_audited_sync p setting s.world.vault b w y).0)
            (sym e)
            (λ is.
              from_ended-IsAudited b w _ at
                (delta-done setting.engine t previous current (some (audit_for b)) ready) is)
            is

-- An audited mutation that succeeds is whole: where the vaults before and after the operation can be
-- exported, and the tables held the vault from before it (with distinct identifiers afterwards, no key or
-- bearer that was there changed in its fixed fields, and the last use of no bearer moved back in time, which
-- the tables would not follow), the operation has succeeded, the tables hold
-- every key and every bearer of the vault that is now in memory, and the last audit event is the one for
-- the result, under the identifier that the caller is given.
pub mutate_with_audit-IsAudited {ℓ} :
    {A : Type ℓ} (p : Primitives) (setting : Setting) (operation : Operation p A)
    (audit_for : A → VaultAuditMutation) (s : VaultStore p.File) (t : Tables)
    (previous current : VaultSyncSnapshot) (a : A) (audit_id : Uuid)
    → s.database ≡ some t
    → snapshot p s.world.vault ≡ ok previous
    → snapshot p (operation setting.operation s.world).0.vault ≡ ok current
    → IsReady setting.engine previous current t
    → (mutate_with_audit p setting operation audit_for s).1 ≡ success (a, audit_id)
    → IsAudited p setting operation audit_for s
        (mutate_with_audit p setting operation audit_for s).0
        a
        audit_id
        current
unfolding mutate_with_audit
mutate_with_audit-IsAudited {A = A} p setting operation audit_for s t previous current a audit_id at
      was becomes ready is =
    subst
      (λ (d : Option Tables).
        (after_audited_operation p setting audit_for s.world.vault d r).1 ≡ success (a, audit_id)
        → IsAudited p setting operation audit_for s
            (after_audited_operation p setting audit_for s.world.vault d r).0 a audit_id current)
      (sym at)
      (after_operation-IsAudited p setting operation audit_for s t previous current a audit_id was
        ready r refl becomes)
      is
  where
    r : (World p.File) × Result A
    r = operation setting.operation s.world

module _ {ℓ} (A : Type ℓ) (p : Primitives) (setting : Setting) (previous : Vault)
    (database : Option Tables) (a : A) where
  after_sync-operated :
      (b : A) (w : World p.File) (synced : Synced)
      → (after_sync p setting previous b w synced).1 ≡ success a
      → ((after_sync p setting previous b w synced).0.world ≡ w) × (b ≡ a)
  after_sync-operated b w (d, success u) is = (refl, success-injective b a is)
  after_sync-operated b w (d, failure x) is =
      absurd (roll_back-fails p setting.rollback previous x _ a is)

  after_operation-operated :
      (r : (World p.File) × Result A)
      → (after_operation p setting previous database r).1 ≡ success a
      → r ≡ ((after_operation p setting previous database r).0.world, ok a)
  unfolding after_operation
  after_operation-operated (w, err x) is = cc
  after_operation-operated (w, ok b) is =
      let (same, answer) =
        after_sync-operated b w
          (sync_unlocked_with_audit p setting.engine previous none w.vault database) is in
      λ i. (sym same i, ok (answer i))

-- A mutation that succeeds leaves the world that its operation left.
pub mutate-operated {ℓ} :
    {A : Type ℓ} (p : Primitives) (setting : Setting) (operation : Operation p A)
    (s : VaultStore p.File) (a : A)
    → (mutate p setting operation s).1 ≡ success a
    → operation setting.operation s.world ≡ ((mutate p setting operation s).0.world, ok a)
unfolding mutate
mutate-operated p setting operation s a is =
    after_operation-operated _ p setting s.world.vault s.database a
      (operation setting.operation s.world) is
