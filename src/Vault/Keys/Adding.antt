-- ===== src/Vault/Keys/Adding.antt =====
-- What `add` of crates/core/src/lib.rs does to the list of keys.
use nvidia_build_lb.Prelude.{
  ◌+◌, ◌≤◌, Bytes, true, false, ◌||◌, ◌≡◌, refl, ap, List, [], ◌∷◌, ◌++◌, any, count_by, update_by,
  arith, same, leb, Bool-cases, Option-cases, inl, inr,
}
use nvidia_build_lb.Vault.State.{Text, StoredKey, Result, ok, err}
use nvidia_build_lb.Vault.Custody.{Primitives, Env, fingerprint}
use nvidia_build_lb.Vault.Custody.Lists.{holds}
use nvidia_build_lb.Vault.Keys.Steps.{prints}
use nvidia_build_lb.Vault.Keys.{is_live, is_idle, retire, check_new, new_key, store_new, add_to}

-- The list after `add`: unchanged, or an idle slot retired where both slots were taken, and then
-- the new key at the end, whose fingerprint is new.
pub data Added (p : Primitives) (env : Env) (label : Text) (credential : Bytes)
    (keys : List StoredKey) : List StoredKey → Type 0 where
  refused : Added p env label credential keys keys
  stripped : Added p env label credential keys (update_by is_idle retire keys)
  stored :
      (ciphertext : Bytes)
      → holds (prints keys) (fingerprint p credential) ≡ false
      → count_by is_live keys ≤ 1
      → Added p env label credential keys (keys ++ new_key p env label credential ciphertext ∷ [])
  replaced :
      (ciphertext : Bytes)
      → holds (prints keys) (fingerprint p credential) ≡ false
      → any is_idle keys ≡ true
      → Added p env label credential keys
          (update_by is_idle retire keys ++ new_key p env label credential ciphertext ∷ [])

holds-prints :
    (keys : List StoredKey) (s : Bytes)
    → any (λ key. same key.fingerprint s) keys ≡ holds (prints keys) s
holds-prints [] s = refl
holds-prints (key ∷ keys) s = ap (λ b. same key.fingerprint s || b) (holds-prints keys s)

check_new-fresh :
    (p : Primitives) (keys : List StoredKey) (label : Text) (credential : Bytes) (u : Unit {0})
    → check_new p keys label credential ≡ ok u
    → holds (prints keys) (fingerprint p credential) ≡ false
unfolding check_new
check_new-fresh p keys label credential u e =
    rw (← holds-prints keys (fingerprint p credential)) (ground arith)

module _ (p : Primitives) (env : Env) (master_key : Bytes) (label : Text) (credential : Bytes) where
  store_new-Added :
      (keys base : List StoredKey)
      → ((ciphertext : Bytes)
          → Added p env label credential keys
              (base ++ new_key p env label credential ciphertext ∷ []))
      → Added p env label credential keys base
      → Added p env label credential keys (store_new p env master_key label credential base).0
  unfolding store_new
  store_new-Added keys base placed failed =
      elim (Option-cases (p.encrypt master_key env.nonce env.uuid credential)) [
        | inl none_left ↦ rw (none_left, store_new) failed
        | inr (ciphertext, is) ↦ rw (is, store_new) (placed ciphertext)
      ]

  pub add_to-Added :
      (keys : List StoredKey)
      → Added p env label credential keys (add_to p env master_key label credential keys).0
  add_to-Added keys = go (check_new p keys label credential) refl
    where
      go :
          (r : Result (Unit {0}))
          → check_new p keys label credential ≡ r
          → Added p env label credential keys (add_to p env master_key label credential keys).0
      go (err e) is = unfold add_to in rw (is, add_to) refused
      go (ok u) is =
          let fresh = check_new-fresh p keys label credential u is in
          unfold add_to in
          rw (is, add_to)
            (elim (Bool-cases (leb 2 (count_by is_live keys))) [
              | inl full ↦ rw full (elim (Bool-cases (any is_idle keys)) [
                | inl idle ↦ rw idle (store_new-Added keys _ (λ c. replaced c fresh idle) stripped)
                | inr busy ↦ rw busy refused
              ])
              | inr room ↦
                  rw room (store_new-Added keys keys (λ c. stored c fresh (ground arith)) refused)
            ])

-- Retiring the idle slot frees one live slot and changes no fingerprint.
pub retire-count :
    (keys : List StoredKey)
    → any is_idle keys ≡ true
    → count_by is_live (update_by is_idle retire keys) + 1 ≡ count_by is_live keys
retire-count [] h = cc
retire-count (key ∷ keys) h = ground (arith, retire-count keys)
