-- ===== src/Vault/Opening/Restart.antt =====
-- When `open` of crates/core/src/lib.rs succeeds, and the reopening of the file that a call leaves.
use nvidia_build_lb.Prelude.{
  Bool-cases, ◌≤◌, Bytes, true, false, List, [], ◌∷◌, some, ◌≡◌, refl, sym, ap, subst, ◌∙◌,
  count_by, same, same_iff, arith, ◌⊎◌, inl, inr, ◌↔◌, All,
}
use mathlib.Core.Path.{ap₂}
use nvidia_build_lb.Vault.State.{StoredKey, VaultFile, Vault, Result, ok, err}
use nvidia_build_lb.Vault.Custody.{Primitives, IsLawful, Env, World}
use nvidia_build_lb.Vault.Custody.Lists.{holds, AreDistinct}
use nvidia_build_lb.Vault.Custody.Writes.{IsWritten}
use nvidia_build_lb.Vault.Keys.{is_live}
use nvidia_build_lb.Vault.Keys.Steps.{prints}
use nvidia_build_lb.Vault.Opening.{AtPath, contents, open_vault, check_state, load, all_new}
use nvidia_build_lb.Vault.Calls.{Call, step}
use nvidia_build_lb.Vault.Calls.Durability.{IsDurable, step-IsDurable}
use nvidia_build_lb.Vault.Calls.Slots.{IsValid, step-IsValid}

same_swap : (s t : Bytes) → same s t ≡ same t s
same_swap s t = ground (arith, same_iff s t, same_iff t s)

-- A fingerprint that joins the seen ones must not come later.
new_head :
    (seen : List Bytes) (head : Bytes) (keys : List StoredKey)
    → All (λ k. holds (head ∷ seen) k.fingerprint ≡ false) keys
      ↔ ((holds (prints keys) head ≡ false) × All (λ k. holds seen k.fingerprint ≡ false) keys)
new_head seen head [] = ground arith
new_head seen head (k ∷ keys) =
    ground (arith, new_head seen head keys, same_swap head k.fingerprint)

-- The `HashSet` loop finds exactly the repetitions.
all_new_iff :
    (seen : List Bytes) (keys : List StoredKey)
    → (all_new seen keys ≡ true)
      ↔ (AreDistinct (prints keys) × All (λ k. holds seen k.fingerprint ≡ false) keys)
unfolding all_new
all_new_iff seen [] = ground arith
all_new_iff seen (k ∷ keys) =
    ground (arith, all_new_iff (k.fingerprint ∷ seen) keys, new_head seen k.fingerprint keys)

All-true : (keys : List StoredKey) → All (λ k. holds [] k.fingerprint ≡ false) keys
All-true [] = tt
All-true (k ∷ keys) = (refl, All-true keys)

-- The checks of `open` on a state that has loaded.
checked :
    (s : VaultFile)
    → IsValid s ↔ ((s.version ≡ 1) × (count_by is_live s.keys ≤ 2) × (all_new [] s.keys ≡ true))
checked s = (
  λ v. (v.version, v.slots, (all_new_iff [] s.keys).1 (v.distinct, All-true s.keys)),
  λ h. record { version = h.0; slots = h.1; distinct = ((all_new_iff [] s.keys).0 h.2).0 },
)

check_state_iff :
    (master_key : Bytes) (s : VaultFile) (v : Vault)
    → (check_state master_key s ≡ ok v)
      ↔ ((record { master_key = master_key; state = s } ≡ v) × IsValid s)
unfolding check_state
check_state_iff master_key s v = (
  λ e. (ground arith, (checked s).1 (ground arith)),
  λ h. let (version, slots, new) = (checked s).0 h.1 in ground arith,
)

-- `open` returns a vault exactly for a state that loads and passes the three checks: version one, at
-- most two live keys, distinct fingerprints. The vault then holds that state and the given key.
pub open_vault_iff :
    (p : Primitives) (master_key : Bytes) (file : AtPath p.File) (v : Vault)
    → (open_vault p master_key file ≡ ok v)
      ↔ ((load p file ≡ ok v.state) × (v.master_key ≡ master_key) × IsValid v.state)
unfolding open_vault
open_vault_iff p master_key file v = go (load p file) refl
  where
    go :
        (r : Result VaultFile)
        → load p file ≡ r
        → (open_vault p master_key file ≡ ok v)
          ↔ ((load p file ≡ ok v.state) × (v.master_key ≡ master_key) × IsValid v.state)
    go (err e) is = rw (is, open_vault) ((λ h. cc), (λ h. cc h.0))
    go (ok s) is =
        rw (is, open_vault)
          (
            λ e.
                let (same_vault, valid) = (check_state_iff master_key s v).0 e in
                (
                  ap (λ (u : Vault). ok u.state) same_vault,
                  sym (ap (λ (u : Vault). u.master_key) same_vault),
                  subst (λ (u : Vault). IsValid u.state) same_vault valid,
                ),
            λ h.
                let same_state : s ≡ v.state = cc (h.0) in
                (check_state_iff master_key s v).1 (
                  ap₂ (λ (k : Bytes) (t : VaultFile). record { master_key = k; state = t })
                      (sym h.1) same_state,
                  subst IsValid (sym same_state) h.2,
                ),
          )

-- The file of a valid state opens as the vault that wrote it.
pub reopens :
    (p : Primitives) (master_key : Bytes) (v : Vault)
    → IsLawful p
    → v.master_key ≡ master_key
    → IsValid v.state
    → open_vault p master_key (contents (p.to_json v.state)) ≡ ok v
unfolding load
reopens p master_key v lawful key valid =
    (open_vault_iff p master_key (contents (p.to_json v.state)) v).1
      (rw (lawful.json_round v.state), key, valid)

-- What a restart finds: where the state is valid and the file held it before a call, opening the file
-- that the call leaves, under the same master key, gives back exactly the vault from after the call, or
-- the vault from before the call if the call failed.
pub step-reopens :
    (p : Primitives) (env : Env) (call : Call) (w : World p.File)
    → IsLawful p
    → IsValid w.vault.state
    → w.file ≡ some (p.to_json w.vault.state)
    → (bytes : p.File) × ((step p env call w).0.file ≡ some bytes)
      × (((open_vault p w.vault.master_key (contents bytes) ≡ ok w.vault)
            × ((step p env call w).1 ≡ false))
          ⊎ (open_vault p w.vault.master_key (contents bytes) ≡ ok (step p env call w).0.vault))
step-reopens p env call w lawful valid synced = go d.written
  where
    w' : (World p.File)
    w' = (step p env call w).0

    d : IsDurable p w (step p env call w)
    d = step-IsDurable p env call w

    old : open_vault p w.vault.master_key (contents (p.to_json w.vault.state)) ≡ ok w.vault
    old = reopens p w.vault.master_key w.vault lawful refl valid

    new : open_vault p w.vault.master_key (contents (p.to_json w'.vault.state)) ≡ ok w'.vault
    new = reopens p w.vault.master_key w'.vault lawful d.kept (step-IsValid p env call w valid)

    unmoved :
        w'.file ≡ w.file
        → (w'.file ≡ some (p.to_json w'.vault.state))
          ⊎ ((w'.vault.state ≡ w.vault.state) × (w'.file ≡ w.file))
        → open_vault p w.vault.master_key (contents (p.to_json w.vault.state)) ≡ ok w'.vault
    unmoved e (inl f) =
        let bytes_same : p.to_json w.vault.state ≡ p.to_json w'.vault.state = cc (synced, e, f) in
        rw bytes_same new
    unmoved e (inr (f, _)) =
        subst
          (λ (t : VaultFile).
            open_vault p w.vault.master_key (contents (p.to_json t)) ≡ ok w'.vault)
          f new

    go :
        IsWritten p w w'
        → (bytes : p.File) × (w'.file ≡ some bytes)
          × (((open_vault p w.vault.master_key (contents bytes) ≡ ok w.vault)
                × ((step p env call w).1 ≡ false))
              ⊎ (open_vault p w.vault.master_key (contents bytes) ≡ ok w'.vault))
    go (inl e) = (
      p.to_json w.vault.state,
      e ∙ synced,
      elim (Bool-cases (step p env call w).1) [
        | inl done ↦ inr (unmoved e (d.durable done))
        | inr failed ↦ inl (old, failed)
      ],
    )
    go (inr e) = (p.to_json w'.vault.state, e, inr new)
