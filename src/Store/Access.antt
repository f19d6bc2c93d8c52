-- ===== src/Store/Access.antt =====
-- Downstream requests through `VaultStore` of crates/gateway/src/main.rs: `authorize_downstream`,
-- `record_accepted_downstream_use` and `credential_for_probe`.
pub mod Authorization
use nvidia_build_lb.Prelude.{
  ℕ, Bytes, String, Bool, true, false, not, ◌||◌, Option, none, some, find_by, ◌==◌, leb,
  if◌then◌else◌,
}
use nvidia_build_lb.Json.{is_some_and}
use nvidia_build_lb.Vault.State.{
  Uuid, Time, Vault, Error, Result, ok, err, ◌>>=◌, ◌>>◌, bail_if, DownstreamIdentity, unauthorized,
  DownstreamSummary,
}
use nvidia_build_lb.Vault.State as State
use nvidia_build_lb.Vault.Custody.{Primitives, Env, World}
use nvidia_build_lb.Vault.Keys.{is_retired, credential}
use nvidia_build_lb.Vault.Downstream.{
  identify_downstream, require_downstream_scope, record_downstream_use,
}
use nvidia_build_lb.Database.Tables.{Tables, DownstreamRow}
use nvidia_build_lb.Database.Transactions.{Engine}
use nvidia_build_lb.Store.{
  StoreError, of_vault, retired_credential, Answer, success, failure, VaultStore, Setting, mutate,
}

pub data DownstreamAuthenticationError : Type 0 where
  invalid_credential insufficient_scope store_unavailable : DownstreamAuthenticationError

-- The identifier of the bearer, or why it may not pass.
pub data Access : Type 0 where
  pass : Uuid → Access
  deny : DownstreamAuthenticationError → Access

-- `!active || expires_at.is_some_and(|expires| expires <= now)`
abbrev pub out_of_force : Time → DownstreamRow → Bool
out_of_force now row = not row.active || is_some_and row.expires_at (λ expires. leb expires now)

abbrev pub policy_check : Time → Option DownstreamRow → Option DownstreamAuthenticationError
policy_check now none = some invalid_credential
policy_check now (some row) = if out_of_force now row then some invalid_credential else none

-- The policy of the bearer in the database, if there is one, by one query that can fail.
unfoldable pub check_policy :
    Engine → Time → Uuid → Option Tables → Option DownstreamAuthenticationError
check_policy e now id none = none
check_policy e now id (some t) =
    if e.executes 0
    then policy_check now (find_by (λ row. row.id == id) t.downstream_credentials)
    else some store_unavailable

-- `require_downstream_scope` fails in two ways.
abbrev pub scope_error : Error → DownstreamAuthenticationError
scope_error (unauthorized State.insufficient_scope) = insufficient_scope
scope_error _ = invalid_credential

abbrev pub scope_checked : Uuid → Result (Unit {0}) → Access
scope_checked id (ok _) = pass id
scope_checked id (err x) = deny (scope_error x)

abbrev pub policy_checked : Uuid → Result (Unit {0}) → Option DownstreamAuthenticationError → Access
policy_checked id scope (some x) = deny x
policy_checked id scope none = scope_checked id scope

unfoldable pub identified :
    Setting → Vault → String → Option Tables → Result DownstreamIdentity → Access
unfolding check_policy
identified setting v scope database (err x) = deny invalid_credential
identified setting v scope database (ok identity) =
    if not identity.active
    then deny invalid_credential
    else policy_checked identity.id (require_downstream_scope v identity.id scope)
        (check_policy setting.engine setting.operation.now identity.id database)

unfoldable pub authorize_downstream :
    (p : Primitives) → Setting → Bytes → String → VaultStore p.File → Access
unfolding identified
authorize_downstream p setting token scope s =
    identified setting s.world.vault scope s.database (identify_downstream p s.world.vault token)

-- Every failure after the policy is reported as an unavailable store.
abbrev pub use_recorded :
    {F : Type 0} {A : Type 0} → Uuid → VaultStore F × Answer A → VaultStore F × Access
use_recorded id (s, success _) = (s, pass id)
use_recorded id (s, failure _) = (s, deny store_unavailable)

abbrev pub recorded_unless :
    (p : Primitives)
    → Setting
    → Uuid
    → VaultStore p.File
    → Option DownstreamAuthenticationError
    → VaultStore p.File × Access
recorded_unless p setting id s (some x) = (s, deny x)
recorded_unless p setting id s none =
    use_recorded id (mutate p setting (λ env w. record_downstream_use p env id env.now w) s)

unfoldable pub record_accepted_downstream_use :
    (p : Primitives) → Setting → Uuid → VaultStore p.File → VaultStore p.File × Access
unfolding check_policy mutate
record_accepted_downstream_use p setting id s =
    recorded_unless p setting id s (check_policy setting.engine setting.operation.now id s.database)

abbrev pub of_result {ℓ} : {A : Type ℓ} → Result A → Answer A
of_result (ok a) = success a
of_result (err x) = failure (of_vault x)

unfoldable pub credential_for_probe : (p : Primitives) → VaultStore p.File → Uuid → Answer Bytes
credential_for_probe p s id =
    if is_retired s.world.vault id
    then failure retired_credential
    else of_result (credential p s.world.vault id)
