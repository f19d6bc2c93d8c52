-- ===== src/Vault/Keys/Lifecycle.antt =====
-- From storage to service and out of it, in crates/core/src/lib.rs: what one call on a key means for a
-- later one on the same key.
use nvidia_build_lb.Prelude.{Bool, true, false, ◌≡◌, refl, List, [], ◌∷◌, arith, any, find_by}
use nvidia_build_lb.Vault.State.{
  Uuid, Time, StoredKey, KeySummary, VaultFile, PersistStep, Error, Result, ok, err, summary,
  key_not_found, provider_probe_is_required,
}
use nvidia_build_lb.Vault.Custody.{
  Primitives, Env, World, Change, commit, finish, persist, and_return, modify_first, with_state,
}
use nvidia_build_lb.Vault.Custody.Writes.{commit-IsCommitted}
use nvidia_build_lb.Router.{eligible}
use nvidia_build_lb.Vault.Keys.{
  on_keys, has_id, is_live_with, enable_key, verify_key, quarantine_key, delete_key, set_enabled,
  mark_verified, quarantine, delete, is_retired, retired_or_absent,
}

and_return-ok {ℓ} :
    {A : Type ℓ} {F : Type 0} (r : World F × Result (Unit {0})) (b a : A)
    → (and_return b r).1 ≡ ok a
    → ok b ≡ ok a
and_return-ok (w, ok _) b a h = h
and_return-ok (w, err e) b a h = cc

module _ {ℓ} {A : Type ℓ} (p : Primitives) (env : Env) (w : World p.File) where
  finish-err : (r : VaultFile × Result A) (e : Error) → r.1 ≡ err e → (finish p env w r).1 ≡ err e
  unfolding finish
  finish-err (s, err e') e h = h
  finish-err (s, ok a) e h = cc

  finish-ok : (r : VaultFile × Result A) (a : A) → (finish p env w r).1 ≡ ok a → r.1 ≡ ok a
  unfolding finish
  finish-ok (s, err e) a h = h
  finish-ok (s, ok b) a h = and_return-ok (persist p env (with_state w s)) b a h

  finish-written :
      (r : VaultFile × Result A) (a : A)
      → ((step : PersistStep) → env.fails step ≡ false)
      → r.1 ≡ ok a
      → (finish p env w r).1 ≡ ok a
  unfolding finish persist
  finish-written (s, err e) a never h = cc
  finish-written (s, ok b) a never h = simp never h

-- The result of a method against that of its change: an error is handed on, a success comes from one,
-- and where no step of the write fails a success is handed on.
module _ {ℓ} {A : Type ℓ} (p : Primitives) (env : Env) (change : Change A) (w : World p.File) where
  pub commit-err :
      (e : Error) → (change w.vault.state).1 ≡ err e → (commit p env change w).1 ≡ err e
  unfolding commit
  commit-err e h = finish-err p env w (change w.vault.state) e h

  pub commit-ok : (a : A) → (commit p env change w).1 ≡ ok a → (change w.vault.state).1 ≡ ok a
  unfolding commit
  commit-ok a h = finish-ok p env w (change w.vault.state) a h

  pub commit-written :
      (a : A)
      → ((step : PersistStep) → env.fails step ≡ false)
      → (change w.vault.state).1 ≡ ok a
      → (commit p env change w).1 ≡ ok a
  unfolding commit
  commit-written a never h = finish-written p env w (change w.vault.state) a never h

-- No two keys have one identifier.
abbrev pub HasUniqueIds : List StoredKey → Type 0
HasUniqueIds [] = Unit {0}
HasUniqueIds (key ∷ keys) = (any (has_id key.id) keys ≡ false) × HasUniqueIds keys

no_other :
    (key : StoredKey) (keys : List StoredKey)
    → any (has_id key.id) keys ≡ false
    → any (is_live_with key.id) keys ≡ false
no_other key [] h = refl
no_other key (k ∷ keys) h = ground (arith, no_other key keys)

-- On one list of keys: two calls on the first live key with an identifier.
module _ (id : Uuid) (now : Time) where
  quarantined-needs_probe :
      (keys : List StoredKey) (s : KeySummary)
      → (modify_first (is_live_with id) quarantine_key key_not_found keys).1 ≡ ok s
      → (modify_first
          (is_live_with id)
          (enable_key now true)
          key_not_found
          (modify_first (is_live_with id) quarantine_key key_not_found keys).0).1
        ≡ err provider_probe_is_required
  unfolding modify_first quarantine_key enable_key
  quarantined-needs_probe [] s e = cc
  quarantined-needs_probe (key ∷ keys) s e = ground (arith, quarantined-needs_probe keys s)

  verified-enables :
      (keys : List StoredKey) (s : KeySummary)
      → (modify_first (is_live_with id) verify_key key_not_found keys).1 ≡ ok s
      → (modify_first
          (is_live_with id)
          (enable_key now true)
          key_not_found
          (modify_first (is_live_with id) verify_key key_not_found keys).0).1
        ≡ ok (record s { enabled = true })
  unfolding modify_first verify_key enable_key summary
  verified-enables [] s e = cc
  verified-enables (key ∷ keys) s e = ground (arith, verified-enables keys s)

  verified-eligible :
      (keys : List StoredKey) (s : KeySummary)
      → (modify_first (is_live_with id) verify_key key_not_found keys).1 ≡ ok s
      → eligible now (record s { enabled = true }) ≡ true
  unfolding modify_first verify_key summary eligible
  verified-eligible [] s e = cc
  verified-eligible (key ∷ keys) s e = ground (arith, verified-eligible keys s)

  deleted-absent :
      (keys : List StoredKey) (u : Unit {0})
      → HasUniqueIds keys
      → (modify_first (is_live_with id) delete_key key_not_found keys).1 ≡ ok u
      → any (is_live_with id) (modify_first (is_live_with id) delete_key key_not_found keys).0
        ≡ false
  unfolding modify_first delete_key
  deleted-absent [] u unique e = cc
  deleted-absent (key ∷ keys) u unique e =
      ground (arith, deleted-absent keys u unique.1, no_other key keys)

-- A method on a live key that is not there fails.
absent-not_found {ℓ} :
    {B : Type ℓ} (test : StoredKey → Bool) (f : StoredKey → Result (StoredKey × B))
    (keys : List StoredKey)
    → any test keys ≡ false
    → (modify_first test f key_not_found keys).1 ≡ err key_not_found
unfolding modify_first
absent-not_found test f [] h = refl
absent-not_found test f (key ∷ keys) h = ground (arith, absent-not_found test f keys)

absent-retired :
    (id : Uuid) (keys : List StoredKey)
    → any (is_live_with id) keys ≡ false
    → retired_or_absent (find_by (has_id id) keys) ≡ true
absent-retired id [] h = refl
absent-retired id (key ∷ keys) h = ground (arith, absent-retired id keys)

module _ (p : Primitives) (env env' : Env) (id : Uuid) (w : World p.File) where
  -- After a successful quarantine, enabling the key fails for want of a probe, whenever and however it is asked.
  pub quarantine-set_enabled :
      (s : KeySummary)
      → (quarantine p env id w).1 ≡ ok s
      → (set_enabled p env' id true (quarantine p env id w).0).1 ≡ err provider_probe_is_required
  unfolding set_enabled quarantine
  quarantine-set_enabled s h =
      commit-err p env' _ (quarantine p env id w).0 provider_probe_is_required (
        rw (commit-IsCommitted p env _ w).changed (
          unfold on_keys in
          quarantined-needs_probe id env'.now w.vault.state.keys s (commit-ok p env _ w s h)))

  -- After a successful `mark_verified` the key can be enabled if no step of the write fails, and the selector then
  -- counts it as eligible at every time.
  pub mark_verified-set_enabled :
      (s : KeySummary)
      → (mark_verified p env id w).1 ≡ ok s
      → ((step : PersistStep) → env'.fails step ≡ false)
      → ((set_enabled p env' id true (mark_verified p env id w).0).1
          ≡ ok (record s { enabled = true }))
        × ((time : Time) → eligible time (record s { enabled = true }) ≡ true)
  unfolding set_enabled mark_verified
  mark_verified-set_enabled s h never = (
    commit-written p env' _ (mark_verified p env id w).0 (record s { enabled = true }) never
        (rw (commit-IsCommitted p env _ w).changed (
          unfold on_keys in
          verified-enables id env'.now w.vault.state.keys s (commit-ok p env _ w s h))),
    λ time.
        verified-eligible id time w.vault.state.keys s (unfold on_keys in commit-ok p env _ w s h),
  )

  -- A deleted key is gone for the operator: where identifiers are unique, neither enabling nor probing
  -- finds it any more, and the vault reports it as retired.
  pub delete-gone :
      HasUniqueIds w.vault.state.keys
      → (delete p env id w).1 ≡ ok tt
      → ((set_enabled p env' id true (delete p env id w).0).1 ≡ err key_not_found)
        × ((mark_verified p env' id (delete p env id w).0).1 ≡ err key_not_found)
        × (is_retired (delete p env id w).0.vault id ≡ true)
  unfolding set_enabled mark_verified delete is_retired
  delete-gone unique h = (
    commit-err p env' _ (delete p env id w).0 key_not_found (
        rw state_is (
          unfold on_keys in
          absent-not_found (is_live_with id) (enable_key env'.now true) _ absent)),
    commit-err p env' _ (delete p env id w).0 key_not_found
        (rw state_is (unfold on_keys in absent-not_found (is_live_with id) verify_key _ absent)),
    rw state_is (unfold on_keys in absent-retired id _ absent),
  )
    where
      state_is :
          (commit p env
            (on_keys (modify_first (is_live_with id) delete_key key_not_found))
            w).0.vault.state
          ≡ (on_keys (modify_first (is_live_with id) delete_key key_not_found) w.vault.state).0
      state_is =
          (commit-IsCommitted p env
            (on_keys (modify_first (is_live_with id) delete_key key_not_found)) w).changed

      absent :
          any
            (is_live_with id)
            (modify_first (is_live_with id) delete_key key_not_found w.vault.state.keys).0
          ≡ false
      absent =
          unfold on_keys in
          deleted-absent id env'.now w.vault.state.keys tt unique (commit-ok p env _ w tt h)
