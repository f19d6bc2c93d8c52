-- ===== src/Vault/Calls/Changes.antt =====
-- What one call of crates/core/src/lib.rs does to the list of keys.
use nvidia_build_lb.Prelude.{Bytes, Bool, true, false, List, ◌≡◌, refl, sym, ap, subst, String}
use nvidia_build_lb.Vault.State.{
  StoredKey, StoredDownstream, DownstreamSummary, VaultFile, Vault, Error, Result, ok, err, Uuid,
  Time, Text, key_not_found,
}
use nvidia_build_lb.Vault.Custody.{
  Primitives, Env, World, Change, commit, with_state, modify_first, persist_for_rollback,
}
use nvidia_build_lb.Vault.Custody.Writes.{persist-IsWritten, commit-IsCommitted}
use nvidia_build_lb.Vault.Keys.{
  add, set_enabled, mark_verified, delete, quarantine, record_request, record_failure, on_keys,
  is_live_with, has_id, enable_key, verify_key, delete_key, quarantine_key, count_request,
  count_failure,
}
use nvidia_build_lb.Vault.Keys.Steps.{
  Pointwise, Pointwise-refl, modify_first-Pointwise, MakesKeySteps, enable_key-KeyStep,
  verify_key-KeyStep, delete_key-KeyStep, quarantine_key-KeyStep, count_request-KeyStep,
  count_failure-KeyStep,
}
use nvidia_build_lb.Vault.Keys.Adding.{Added, add_to-Added}
use nvidia_build_lb.Vault.Downstream.{
  issue_downstream, revoke_downstream, rotate_downstream, update_downstream_scopes, finish_revoke,
  on_downstream, record_downstream_use, authenticate_downstream, authorize,
}
use nvidia_build_lb.Vault.Opening.{set_router_cursor, set_router_cursor_for}
use nvidia_build_lb.Vault.Calls.{
  Call, adds, sets_enabled, marks_verified, deletes, quarantines, records_request, records_failure,
  sets_cursor, sets_cursor_for, issues, revokes, rotates, rescopes, records_use, authenticates,
  persists, step,
}

-- The keys evolve in place, or `add` has been at work.
pub data KeysChange (p : Primitives) (env : Env) (keys keys' : List StoredKey) : Type 0 where
  evolved : Pointwise keys keys' → KeysChange p env keys keys'
  added :
      (label : Text) (credential : Bytes)
      → Added p env label credential keys keys'
      → KeysChange p env keys keys'

pub record StateChange (p : Primitives) (env : Env) (s s' : VaultFile) : Type 0 where
  pub keys : KeysChange p env s.keys s'.keys
  pub version : s'.version ≡ s.version

module _ (p : Primitives) (env : Env) where
  unchanged :
      (s s' : VaultFile) → s'.keys ≡ s.keys → s'.version ≡ s.version → StateChange p env s s'
  unchanged s s' same v = record {
    keys =
        evolved
          (subst (λ (l : List StoredKey). Pointwise s.keys l) (sym same) (Pointwise-refl s.keys));
    version = v;
  }

  module _ (w : World p.File) where
    commit-StateChange {ℓ} :
        {A : Type ℓ} (change : Change A)
        → StateChange p env w.vault.state (change w.vault.state).0
        → StateChange p env w.vault.state (commit p env change w).0.vault.state
    commit-StateChange change c =
        subst (λ (s : VaultFile). StateChange p env w.vault.state s)
          (sym (commit-IsCommitted p env change w).changed) c

    -- A rewriting of one key.
    rewrite-StateChange {ℓ} :
        {B : Type ℓ} (test : StoredKey → Bool) (f : StoredKey → Result (StoredKey × B))
        (missing : Error)
        → MakesKeySteps test f
        → StateChange p env w.vault.state
            (commit p env (on_keys (modify_first test f missing)) w).0.vault.state
    rewrite-StateChange test f missing steps =
        commit-StateChange (on_keys (modify_first test f missing)) (
          unfold on_keys in
          record {
            keys = evolved (modify_first-Pointwise test f missing steps w.vault.state.keys);
            version = refl;
          })

    -- A change of the bearers alone.
    bearers-StateChange {ℓ} :
        {A : Type ℓ} (f : List StoredDownstream → List StoredDownstream × Result A)
        → StateChange p env w.vault.state (commit p env (on_downstream f) w).0.vault.state
    bearers-StateChange f =
        commit-StateChange (on_downstream f)
          (unfold on_downstream in unchanged w.vault.state _ refl refl)

    finish_revoke-StateChange :
        (r : VaultFile × Result (DownstreamSummary × Bool))
        → StateChange p env w.vault.state r.0
        → StateChange p env w.vault.state (finish_revoke p env w r).0.vault.state
    unfolding finish_revoke
    finish_revoke-StateChange (s, err e) h = h
    finish_revoke-StateChange (s, ok (summary, true)) h =
        subst (λ (t : VaultFile). StateChange p env w.vault.state t)
          (sym (commit-IsCommitted p env (λ t. (t, ok summary)) (with_state w s)).changed) h
    finish_revoke-StateChange (s, ok (summary, false)) h = h

    record_use-StateChange :
        (id : Uuid) (used_at : Time)
        → StateChange p env w.vault.state (record_downstream_use p env id used_at w).0.vault.state
    unfolding record_downstream_use
    record_use-StateChange id used_at = bearers-StateChange _

    authenticate-StateChange :
        (token : Bytes) (scope : String)
        → StateChange p env w.vault.state
            (authenticate_downstream p env token scope w).0.vault.state
    authenticate-StateChange token scope = go (authorize p w.vault token scope) refl
      where
        go :
            (r : Result Uuid)
            → authorize p w.vault token scope ≡ r
            → StateChange p env w.vault.state
                (authenticate_downstream p env token scope w).0.vault.state
        go (err e) is =
            unfold authenticate_downstream in
            rw (is, authenticate_downstream) (unchanged w.vault.state _ refl refl)
        go (ok id) is =
            unfold authenticate_downstream in
            rw (is, authenticate_downstream) (record_use-StateChange id env.now)

-- Every call, on every branch.
pub step-StateChange :
    (p : Primitives) (env : Env) (call : Call) (w : World p.File)
    → StateChange p env w.vault.state (step p env call w).0.vault.state
unfolding step add set_enabled mark_verified delete quarantine record_request record_failure
    set_router_cursor set_router_cursor_for issue_downstream revoke_downstream rotate_downstream
    update_downstream_scopes record_downstream_use persist_for_rollback on_keys on_downstream
step-StateChange p env (adds label credential) w = commit-StateChange p env w _ (record {
  keys =
      added label credential
        (add_to-Added p env w.vault.master_key label credential w.vault.state.keys);
  version = refl;
})
step-StateChange p env (sets_enabled id enabled) w =
    rewrite-StateChange p env w (is_live_with id) (enable_key env.now enabled) key_not_found
      (enable_key-KeyStep env.now id enabled)
step-StateChange p env (marks_verified id) w =
    rewrite-StateChange p env w (is_live_with id) verify_key key_not_found (verify_key-KeyStep id)
step-StateChange p env (deletes id) w =
    rewrite-StateChange p env w (is_live_with id) delete_key key_not_found (delete_key-KeyStep id)
step-StateChange p env (quarantines id) w =
    rewrite-StateChange p env w (is_live_with id) quarantine_key key_not_found
      (quarantine_key-KeyStep id)
step-StateChange p env (records_request id) w =
    rewrite-StateChange p env w (has_id id) count_request key_not_found (count_request-KeyStep id)
step-StateChange p env (records_failure id hint) w =
    rewrite-StateChange p env w (has_id id) (count_failure env.now hint) key_not_found
      (count_failure-KeyStep env.now id hint)
step-StateChange p env (sets_cursor cursor) w =
    commit-StateChange p env w _ (unchanged p env w.vault.state _ refl refl)
step-StateChange p env (sets_cursor_for profile cursor) w =
    commit-StateChange p env w _ (unchanged p env w.vault.state _ refl refl)
step-StateChange p env (issues label scopes) w = bearers-StateChange p env w _
step-StateChange p env (revokes id) w =
    finish_revoke-StateChange p env w _ (unchanged p env w.vault.state _ refl refl)
step-StateChange p env (rotates id) w = bearers-StateChange p env w _
step-StateChange p env (rescopes id scopes) w = bearers-StateChange p env w _
step-StateChange p env (records_use id used_at) w = record_use-StateChange p env w id used_at
step-StateChange p env (authenticates token scope) w = authenticate-StateChange p env w token scope
step-StateChange p env persists w =
    let same = (persist-IsWritten p env w).0 in
    unchanged p env w.vault.state _ (ap (λ (v : Vault). v.state.keys) same)
      (ap (λ (v : Vault). v.state.version) same)
