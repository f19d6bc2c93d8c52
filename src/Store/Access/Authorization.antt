-- ===== src/Store/Access/Authorization.antt =====
-- Whom `authorize_downstream` of crates/gateway/src/main.rs lets through: the vault and the policy in the
-- database have to agree.
use nvidia_build_lb.Prelude.{
  Bytes, String, Bool, true, false, not, Option, none, some, find_by, ◌==◌, leb, ◌<◌, if◌then◌else◌,
  ◌≡◌, ◌↔◌, refl, sym, ap, subst, ◌||◌, arith,
}
use nvidia_build_lb.Json.{is_some_and}
use nvidia_build_lb.Vault.State.{
  Uuid, Time, Vault, Result, ok, err, ◌>>=◌, ◌>>◌, bail_if, unauthorized, DownstreamIdentity,
  DownstreamAuthError,
}
use nvidia_build_lb.Vault.Custody.{Primitives}
use nvidia_build_lb.Vault.Downstream.{identify_downstream, require_downstream_scope, authorize}
use nvidia_build_lb.Vault.Downstream.Identity.{HasDistinctDigests, HasUniqueIds}
use nvidia_build_lb.Vault.Downstream.Access.{Grants, authorize_iff}
use nvidia_build_lb.Database.Tables.{Tables, DownstreamRow}
use nvidia_build_lb.Database.Transactions.{Engine}
use nvidia_build_lb.Store.{VaultStore, Setting}
use nvidia_build_lb.Store.Access.{
  DownstreamAuthenticationError, pass, deny, out_of_force, policy_check, check_policy,
  policy_checked, identified, authorize_downstream,
}

-- A time at which a row has not expired.
abbrev pub Lasts : Time → Option Time → Type 0
Lasts now none = Unit
Lasts now (some expires) = now < expires

-- Without a database there is no policy; with one the query has to succeed and to find the bearer active
-- and not expired.
abbrev pub InForce : Engine → Time → Uuid → Option Tables → Type 0
InForce e now id none = Unit
InForce e now id (some t) =
    (e.executes 0 ≡ true)
    × ((row : DownstreamRow) × (find_by (λ r. r.id == id) t.downstream_credentials ≡ some row)
        × (row.active ≡ true)
        × Lasts now row.expires_at)

in_force_iff :
    (now : Time) (row : DownstreamRow)
    → (out_of_force now row ≡ false) ↔ ((row.active ≡ true) × Lasts now row.expires_at)
in_force_iff now row = go row.expires_at
  where
    go :
        (expires : Option Time)
        → ((not row.active || is_some_and expires (λ t. leb t now)) ≡ false)
          ↔ ((row.active ≡ true) × Lasts now expires)
    go none = ground arith
    go (some t) = ground arith

not_denied :
    (b : Bool)
    → (if b then some DownstreamAuthenticationError.invalid_credential else none) ≡ none
    → b ≡ false
not_denied true h = cc
not_denied false h = refl

some-injective {ℓ} : {A : Type ℓ} (a b : A) → some a ≡ some b → a ≡ b
some-injective a b h = cc

pass-injective : (a b : Uuid) → pass a ≡ pass b → a ≡ b
pass-injective a b h = cc

check_policy_iff :
    (e : Engine) (now : Time) (id : Uuid) (database : Option Tables)
    → (check_policy e now id database ≡ none) ↔ InForce e now id database
unfolding check_policy
check_policy_iff e now id none = (λ _. tt, λ _. refl)
check_policy_iff e now id (some t) =
    go (e.executes 0) (find_by (λ r. r.id == id) t.downstream_credentials)
  where
    go :
        (runs : Bool) (found : Option DownstreamRow)
        → ((if runs
              then policy_check now found
              else some DownstreamAuthenticationError.store_unavailable)
            ≡ none)
          ↔ ((runs ≡ true)
              × ((row : DownstreamRow) × (found ≡ some row)
                  × (row.active ≡ true)
                  × Lasts now row.expires_at))
    go false found = (λ h. cc, λ h. cc)
    go true none = (λ h. cc, λ h. cc)
    go true (some row) = (
      λ h.
          let (active, lasts) = (in_force_iff now row).0 (not_denied (out_of_force now row) h) in
          (refl, (row, refl, active, lasts)),
      λ h.
          let same : row ≡ h.1.0 = some-injective row h.1.0 h.1.1 in
          let held =
            subst (λ (r : DownstreamRow). (r.active ≡ true) × Lasts now r.expires_at) (sym same)
              (h.1.2, h.1.3) in
          rw ((in_force_iff now row).1 held) refl,
    )

checked_iff :
    (id id' : Uuid) (scope : Result (Unit {0})) (denied : Option DownstreamAuthenticationError)
    → (policy_checked id scope denied ≡ pass id') ↔ ((id ≡ id') × (scope ≡ ok tt) × (denied ≡ none))
checked_iff id id' scope (some x) = (λ h. cc, λ h. cc)
checked_iff id id' (err x) none = (λ h. cc, λ h. cc)
checked_iff id id' (ok u) none = (λ h. (pass-injective id id' h, refl, refl), λ h. ap pass h.0)

-- The vault's own checks of an identity, as `authorize` of the vault makes them.
abbrev vault_checked : Vault → String → Result DownstreamIdentity → Result Uuid
vault_checked v scope found = do
  identity ← found
  bail_if (not identity.active) (unauthorized DownstreamAuthError.invalid_credential)
  require_downstream_scope v identity.id scope
  ok identity.id

ok-injective : (a b : Uuid) → ok a ≡ ok b → a ≡ b
ok-injective a b h = cc

identified_iff :
    (setting : Setting) (v : Vault) (scope : String) (database : Option Tables) (id : Uuid)
    (identity : Result DownstreamIdentity)
    → (identified setting v scope database identity ≡ pass id) ↔ (
        (vault_checked v scope identity ≡ ok id)
        × InForce setting.engine setting.operation.now id database)
unfolding identified
identified_iff setting v scope database id (err x) = (λ h. cc, λ h. absurd (cc h.0))
identified_iff setting v scope database id (ok identity) =
    go identity.active (require_downstream_scope v identity.id scope)
  where
    e : Engine
    e = setting.engine

    now : Time
    now = setting.operation.now

    go :
        (active : Bool) (scoped : Result (Unit {0}))
        → ((if not active
              then deny DownstreamAuthenticationError.invalid_credential
              else policy_checked identity.id scoped (check_policy e now identity.id database))
            ≡ pass id)
          ↔ (((bail_if (not active) (unauthorized DownstreamAuthError.invalid_credential)
                  >> (scoped >> ok identity.id))
                ≡ ok id)
              × InForce e now id database)
    go false scoped = (λ h. cc, λ h. absurd (cc h.0))
    go true (err x) =
        (λ h. absurd (cc ((checked_iff identity.id id (err x) _).0 h).1), λ h. absurd (cc h.0))
    go true (ok u) = (
      λ h.
          let (same, _, allowed) = (checked_iff identity.id id (ok u) _).0 h in
          (
            ap ok same,
            subst (λ (j : Uuid). InForce e now j database) same
                ((check_policy_iff e now identity.id database).0 allowed),
          ),
      λ h.
          let same = ok-injective identity.id id h.0 in
          (checked_iff identity.id id (ok u) _).1 (
            same,
            refl,
            (check_policy_iff e now identity.id database).1
                (subst (λ (j : Uuid). InForce e now j database) (sym same) h.1),
          ),
    )

-- Vault and policy have to agree: where digests and identifiers of the vault do not repeat, a token passes
-- as a bearer for a scope exactly if the vault grants it (the issued shape, the bearer's digest, the
-- bearer active, the scope held) and either there is no database, or the policy can be read there and
-- says that the bearer is active and has not expired.
pub authorize_downstream_iff :
    (p : Primitives) (setting : Setting) (token : Bytes) (scope : String) (s : VaultStore p.File)
    (id : Uuid)
    → HasDistinctDigests s.world.vault.state.downstream
    → HasUniqueIds s.world.vault.state.downstream
    → (authorize_downstream p setting token scope s ≡ pass id) ↔ (
        Grants p s.world.vault.state.downstream token scope id
        × InForce setting.engine setting.operation.now id s.database)
authorize_downstream_iff p setting token scope s id digests ids = (
  λ h. let (granted, in_force) = both.0 h in (grants.0 granted, in_force),
  λ h. both.1 (grants.1 h.0, h.1),
)
  where
    grants :
        (authorize p s.world.vault token scope ≡ ok id)
        ↔ Grants p s.world.vault.state.downstream token scope id
    grants = authorize_iff p s.world.vault token scope id digests ids

    both : (authorize_downstream p setting token scope s ≡ pass id) ↔ (
        (authorize p s.world.vault token scope ≡ ok id)
        × InForce setting.engine setting.operation.now id s.database)
    both =
        unfold authorize authorize_downstream in
        identified_iff setting s.world.vault scope s.database id
          (identify_downstream p s.world.vault token)
