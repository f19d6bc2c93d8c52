-- ===== src/Vault/Custody/Writes.antt =====
-- What `persist` and `commit` of crates/core/src/lib.rs change: the state as the method says, and the
-- file either not at all or to the new state.
use nvidia_build_lb.Prelude.{Bool, true, false, some, ◌≡◌, refl, sym, ap, ◌∙◌, ◌⊎◌, inl, arith}
use nvidia_build_lb.Vault.State.{VaultFile, Vault, Result, ok, err}
use nvidia_build_lb.Vault.Custody.{
  Primitives, Env, World, Change, persist, finish, commit, with_state, and_return,
}

abbrev pub is_ok {ℓ} : {A : Type ℓ} → Result A → Bool
is_ok (ok _) = true
is_ok (err _) = false

-- The file of a world after a call: untouched, or the state that is now in memory.
abbrev pub IsWritten : (p : Primitives) → World p.File → World p.File → Type 0
IsWritten p before after =
    (after.file ≡ before.file) ⊎ (after.file ≡ some (p.to_json after.vault.state))

-- `persist` leaves the vault alone; it fails with the file untouched or written, and succeeds with
-- the file written.
pub persist-IsWritten :
    (p : Primitives) (env : Env) (w : World p.File)
    → ((persist p env w).0.vault ≡ w.vault)
      × IsWritten p w (persist p env w).0
      × (is_ok (persist p env w).1 ≡ true
          → (persist p env w).0.file ≡ some (p.to_json w.vault.state))
unfolding persist
persist-IsWritten p env w = ground arith

-- A method through `commit`: its own change of the state, the master key kept, the file untouched or
-- written, and written where it succeeds.
pub record IsCommitted {ℓ} {A : Type ℓ} (p : Primitives) (change : Change A) (w : World p.File)
    (r : (World p.File) × Result A) : Type 0 where
  pub changed : r.0.vault.state ≡ (change w.vault.state).0
  pub kept : r.0.vault.master_key ≡ w.vault.master_key
  pub written : IsWritten p w r.0
  pub durable : is_ok r.1 ≡ true → r.0.file ≡ some (p.to_json r.0.vault.state)

module _ {ℓ} {A : Type ℓ} (p : Primitives) (change : Change A) (w : World p.File) where
  and_return-IsCommitted :
      (s : VaultFile) (a : A) (r : (World p.File) × Result (Unit {0}))
      → (change w.vault.state).0 ≡ s
      → r.0.vault ≡ (with_state w s).vault
      → IsWritten p w r.0
      → (is_ok r.1 ≡ true → r.0.file ≡ some (p.to_json s))
      → IsCommitted p change w (and_return a r)
  and_return-IsCommitted s a (w', ok _) h same_vault written durable = record {
    changed = ap (λ (v : Vault). v.state) same_vault ∙ sym h;
    kept = ap (λ (v : Vault). v.master_key) same_vault;
    written = written;
    durable = λ e. durable e ∙ ap (λ (v : Vault). some (p.to_json v.state)) (sym same_vault);
  }
  and_return-IsCommitted s a (w', err e) h same_vault written durable = record {
    changed = ap (λ (v : Vault). v.state) same_vault ∙ sym h;
    kept = ap (λ (v : Vault). v.master_key) same_vault;
    written = written;
    durable = λ e. cc;
  }

  finish-IsCommitted :
      (env : Env) (r : VaultFile × Result A)
      → change w.vault.state ≡ r
      → IsCommitted p change w (finish p env w r)
  unfolding finish
  finish-IsCommitted env (s, err e) h = record {
    changed = ap (λ (r : VaultFile × Result A). r.0) (sym h);
    kept = refl;
    written = inl refl;
    durable = λ e. cc;
  }
  finish-IsCommitted env (s, ok a) h =
      let (same_vault, written, durable) = persist-IsWritten p env (with_state w s) in
      and_return-IsCommitted s a (persist p env (with_state w s))
        (ap (λ (r : VaultFile × Result A). r.0) h) same_vault written durable

pub commit-IsCommitted {ℓ} :
    {A : Type ℓ} (p : Primitives) (env : Env) (change : Change A) (w : World p.File)
    → IsCommitted p change w (commit p env change w)
unfolding commit
commit-IsCommitted p env change w = finish-IsCommitted p change w env (change w.vault.state) refl
