-- ===== src/Store.antt =====
-- `VaultStore` of crates/gateway/src/main.rs: the vault in memory with its encrypted file, kept in step with
-- PostgreSQL where a database is configured. `sync_lock` makes each method one step. No thread panics
-- while it holds the vault's mutex.
pub mod Rollbacks
pub mod Mutations
pub mod Access
use nvidia_build_lb.Prelude.{
  ℕ, Bytes, String, Bool, true, false, not, ◌&&◌, ◌||◌, List, [], ◌∷◌, map, Option, none, some, any,
  find_by, ◌==◌, ltb, leb, if◌then◌else◌,
}
use nvidia_build_lb.Json.{is_some_and}
use nvidia_build_lb.Requests.{profiles}
use nvidia_build_lb.Vault.State.{
  Uuid, Time, Vault, Error, Result, ok, err, ◌>>=◌, ◌>>◌, bail_if, DownstreamIdentity,
  DownstreamAuthError, invalid_credential, insufficient_scope, unauthorized, DownstreamSummary,
  KeySummary,
}
use nvidia_build_lb.Vault.Custody.{Primitives, Env, World, persist_for_rollback}
use nvidia_build_lb.Vault.Keys
use nvidia_build_lb.Vault.Keys.{is_retired, credential}
use nvidia_build_lb.Vault.Downstream
use nvidia_build_lb.Vault.Downstream.{
  identify_downstream, require_downstream_scope, record_downstream_use,
}
use nvidia_build_lb.Vault.Opening.{
  router_cursor_for, set_router_cursor_for, key_records, downstream_records,
}
use nvidia_build_lb.Database.Tables.{Tables, DownstreamRow, VaultAuditMutation}
use nvidia_build_lb.Database.Transactions.{Engine, Ended}
use nvidia_build_lb.Database.Delta.{VaultSyncSnapshot, sync_database_delta}

-- The failures of a method: of the vault itself, of the synchronisation, or for want of a database. The
-- context that the code adds to a message is left out.
pub data StoreError : Type 0 where
  of_vault : Error → StoreError
  not_synchronised requires_postgresql retired_credential : StoreError

pub data Answer {ℓ} (A : Type ℓ) : Type ℓ where
  success : A → Answer A
  failure : StoreError → Answer A

-- The vault with its file, and the tables of the database if there is one.
pub record VaultStore (File : Type 0) : Type 0 where
  pub world : World File
  pub database : Option Tables

-- The surroundings of one method: of the vault's operation, of the write after a rollback, and of the
-- database's transaction.
pub record Setting : Type 0 where
  pub operation : Env
  pub rollback : Env
  pub engine : Engine

-- What the synchronisation reads of a vault.
unfoldable pub snapshot : (p : Primitives) → Vault → Result VaultSyncSnapshot
snapshot p v = do
  keys ← key_records p v
  downstream ← downstream_records p v
  ok (record {
    keys = keys;
    downstream = downstream;
    cursors = map (λ profile. (profile, router_cursor_for v profile)) profiles;
  })

-- The tables after an attempt, and the identifier of the audit event if there is one. Without a database
-- there is nothing to do.
abbrev pub Synced : Type 0
Synced = Option Tables × Answer (Option Uuid)

abbrev pub answered : Tables → Option (Option Uuid) → Synced
answered t none = (some t, failure not_synchronised)
answered t (some answer) = (some t, success answer)

abbrev pub from_ended : Ended (Option Uuid) → Synced
from_ended ended = answered ended.tables ended.result

abbrev pub with_snapshots :
    Engine
    → Option VaultAuditMutation
    → Tables
    → Result VaultSyncSnapshot
    → Result VaultSyncSnapshot
    → Synced
with_snapshots e audit t (err x) previous = (some t, failure (of_vault x))
with_snapshots e audit t (ok current) (err x) = (some t, failure (of_vault x))
with_snapshots e audit t (ok current) (ok previous) =
    from_ended (sync_database_delta e previous current audit t)

unfoldable pub sync_unlocked_with_audit :
    (p : Primitives) → Engine → Vault → Option VaultAuditMutation → Vault → Option Tables → Synced
unfolding snapshot
sync_unlocked_with_audit p e previous audit vault none = (none, success none)
sync_unlocked_with_audit p e previous audit vault (some t) =
    with_snapshots e audit t (snapshot p vault) (snapshot p previous)

-- `*vault = previous`
abbrev pub restored : {F : Type 0} → VaultStore F → Vault → VaultStore F
restored s previous = record s { world = record s.world { vault = previous } }

-- `*vault = previous; vault.persist_for_rollback()?; return Err(..)`
abbrev pub fail_after {ℓ} :
    {A : Type ℓ} {F : Type 0}
    → VaultStore F
    → StoreError
    → World F × Result (Unit {0})
    → VaultStore F × Answer A
fail_after s x (w, err e) = (record s { world = w }, failure (of_vault e))
fail_after s x (w, ok _) = (record s { world = w }, failure x)

unfoldable pub roll_back {ℓ} :
    {A : Type ℓ}
    → (p : Primitives) → Env
    → Vault
    → StoreError
    → VaultStore p.File
    → VaultStore p.File × Answer A
roll_back p env previous x s =
    fail_after (restored s previous) x (persist_for_rollback p env (restored s previous).world)

-- An operation on the vault, which may write its file.
abbrev pub Operation {ℓ} : Primitives → Type ℓ → Type ℓ
Operation p A = Env → World p.File → World p.File × Result A

module _ {ℓ} {A : Type ℓ} (p : Primitives) (setting : Setting) where
  abbrev pub after_sync : Vault → A → World p.File → Synced → VaultStore p.File × Answer A
  after_sync previous a w (database, success _) =
      (record { world = w; database = database }, success a)
  after_sync previous a w (database, failure x) =
      roll_back p setting.rollback previous x (record { world = w; database = database })

  unfoldable pub after_operation :
      Vault → Option Tables → World p.File × Result A → VaultStore p.File × Answer A
  unfolding sync_unlocked_with_audit roll_back
  after_operation previous database (w, err x) =
      (restored (record { world = w; database = database }) previous, failure (of_vault x))
  after_operation previous database (w, ok a) =
      after_sync previous a w
        (sync_unlocked_with_audit p setting.engine previous none w.vault database)

  unfoldable pub mutate : Operation p A → VaultStore p.File → VaultStore p.File × Answer A
  unfolding after_operation
  mutate operation s =
      after_operation s.world.vault s.database (operation setting.operation s.world)

  -- With an audit event, which needs a database.
  abbrev pub after_audited_sync :
      Vault → A → World p.File → Synced → VaultStore p.File × Answer (A × Uuid)
  after_audited_sync previous a w (database, success (some audit_id)) =
      (record { world = w; database = database }, success (a, audit_id))
  after_audited_sync previous a w (database, success none) =
      roll_back p setting.rollback previous requires_postgresql
        (record { world = w; database = database })
  after_audited_sync previous a w (database, failure x) =
      roll_back p setting.rollback previous x (record { world = w; database = database })

  unfoldable pub after_audited_operation :
      (A → VaultAuditMutation)
      → Vault
      → Option Tables
      → World p.File × Result A
      → VaultStore p.File × Answer (A × Uuid)
  unfolding sync_unlocked_with_audit roll_back
  after_audited_operation audit_for previous database (w, err x) =
      (restored (record { world = w; database = database }) previous, failure (of_vault x))
  after_audited_operation audit_for previous database (w, ok a) =
      after_audited_sync previous a w
        (sync_unlocked_with_audit p setting.engine previous (some (audit_for a)) w.vault database)

  unfoldable pub mutate_with_audit :
      Operation p A
      → (A → VaultAuditMutation)
      → VaultStore p.File
      → VaultStore p.File × Answer (A × Uuid)
  unfolding after_audited_operation
  mutate_with_audit operation audit_for s =
      after_audited_operation audit_for s.world.vault s.database
        (operation setting.operation s.world)

-- The cursor of one profile, through the same steps as `mutate`.
unfoldable pub set_cursor :
    (p : Primitives)
    → Setting
    → String
    → ℕ
    → VaultStore p.File
    → VaultStore p.File × Answer (Unit {0})
unfolding mutate
set_cursor p setting profile cursor =
    mutate p setting (λ env w. set_router_cursor_for p env profile cursor w)
