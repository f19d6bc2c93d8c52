-- ===== src/Vault/Keys/Stored.antt =====
-- The credential that `add` of crates/core/src/lib.rs stores can be decrypted.
use nvidia_build_lb.Prelude.{
  ℕ, ◌<◌, Bytes, true, false, ◌≡◌, refl, ap, ◌∙◌, List, [], ◌∷◌, ◌++◌, Option, none, some, arith,
  leb, Bool-cases, inl, inr, any, all, count_by, find_by, update_by, length, drop, All, starts_with,
  codes, is_utf8, is_utf8-ascii,
}
use mathlib.Core.Path.{ap₂}
use nvidia_build_lb.Vault.State.{Uuid, Text, StoredKey, KeySummary, VaultFile, Result, ok, err}
use nvidia_build_lb.Vault.Shapes.{
  valid_upstream_credential, is_credential_byte, is_ascii_alphanumeric,
}
use nvidia_build_lb.Vault.Custody.{Primitives, IsLawful, Env, World, commit}
use nvidia_build_lb.Vault.Custody.Writes.{commit-IsCommitted}
use nvidia_build_lb.Vault.Keys.{
  has_id, is_idle, retire, is_live, check_new, new_key, store_new, add_to, add, on_keys, credential,
}
use nvidia_build_lb.Vault.Keys.Lifecycle.{commit-ok}
use nvidia_build_lb.Vault.Keys.Secrets.{secret, open_secret, credential_lem}

-- A credential of the accepted shape is ASCII, so it is UTF-8.
credential_byte-ascii : (b : ℕ) → is_credential_byte b ≡ true → b < 0x80
unfolding is_ascii_alphanumeric
credential_byte-ascii b h = ground arith

all-ascii : (s : Bytes) → all is_credential_byte s ≡ true → All (λ b. b < 0x80) s
all-ascii [] h = tt
all-ascii (b ∷ s) h = (credential_byte-ascii b (ground arith), all-ascii s (ground arith))

prefixed-ascii :
    (prefix s : Bytes)
    → All (λ b. b < 0x80) prefix
    → starts_with prefix s ≡ true
    → All (λ b. b < 0x80) (drop (length prefix) s)
    → All (λ b. b < 0x80) s
unfolding starts_with
prefixed-ascii [] s h e rest = rest
prefixed-ascii (a ∷ prefix) [] h e rest = tt
prefixed-ascii (a ∷ prefix) (b ∷ s) h e rest =
    (ground arith, prefixed-ascii prefix s h.1 (ground arith) rest)

credential-is_utf8 : (s : Bytes) → valid_upstream_credential s ≡ true → is_utf8 s ≡ true
unfolding valid_upstream_credential
credential-is_utf8 s h = is_utf8-ascii s (
    prefixed-ascii (codes "nvapi-") s (omega arith) (ground arith)
      (all-ascii (drop 6 s) (ground arith)))

-- The first key with an identifier, in a longer list and in a list of stepped keys.
found-append :
    (id : Uuid) (keys : List StoredKey) (key : StoredKey)
    → any (has_id id) keys ≡ false
    → key.id ≡ id
    → find_by (has_id id) (keys ++ key ∷ []) ≡ some key
found-append id [] key h e = ground arith
found-append id (k ∷ keys) key h e = ground (arith, found-append id keys key)

-- Retiring a slot makes no identifier.
absent-update :
    (id : Uuid) (keys : List StoredKey)
    → any (has_id id) keys ≡ false
    → any (has_id id) (update_by is_idle retire keys) ≡ false
absent-update id [] h = refl
absent-update id (k ∷ keys) h = ground (arith, absent-update id keys)

-- What `add` has stored.
module _ (p : Primitives) (env : Env) (master_key : Bytes) (label : Text) (plain : Bytes) where
  store_new-ok :
      (keys : List StoredKey) (s : KeySummary)
      → (store_new p env master_key label plain keys).1 ≡ ok s
      → (c : Bytes) × (p.encrypt master_key env.nonce env.uuid plain ≡ some c)
        × ((store_new p env master_key label plain keys).0
            ≡ keys ++ new_key p env label plain c ∷ [])
  store_new-ok keys s e = go (p.encrypt master_key env.nonce env.uuid plain) refl
    where
      go :
          (o : Option Bytes)
          → p.encrypt master_key env.nonce env.uuid plain ≡ o
          → (c : Bytes) × (p.encrypt master_key env.nonce env.uuid plain ≡ some c)
            × ((store_new p env master_key label plain keys).0
                ≡ keys ++ new_key p env label plain c ∷ [])
      go none is = unfold store_new in cc (rw (is, store_new) at e)
      go (some c) is = (c, is, unfold store_new in rw (is, store_new))

  base-ok :
      (keys : List StoredKey) (s : KeySummary)
      → any (has_id env.uuid) keys ≡ false
      → (store_new p env master_key label plain keys).1 ≡ ok s
      → (c : Bytes) × (p.encrypt master_key env.nonce env.uuid plain ≡ some c)
        × (find_by (has_id env.uuid) (store_new p env master_key label plain keys).0
            ≡ some (new_key p env label plain c))
  base-ok keys s fresh e =
      let (c, enc, is) = store_new-ok keys s e in
      (
        c,
        enc,
        ap (find_by (has_id env.uuid)) is
            ∙ found-append env.uuid keys (new_key p env label plain c) fresh
                (unfold new_key in refl),
      )

  add_to-ok :
      (keys : List StoredKey) (s : KeySummary)
      → any (has_id env.uuid) keys ≡ false
      → (add_to p env master_key label plain keys).1 ≡ ok s
      → (valid_upstream_credential plain ≡ true)
        × ((c : Bytes) × (p.encrypt master_key env.nonce env.uuid plain ≡ some c)
            × (find_by (has_id env.uuid) (add_to p env master_key label plain keys).0
                ≡ some (new_key p env label plain c)))
  add_to-ok keys s fresh e = go (check_new p keys label plain) refl
    where
      go :
          (r : Result (Unit {0}))
          → check_new p keys label plain ≡ r
          → (valid_upstream_credential plain ≡ true)
            × ((c : Bytes) × (p.encrypt master_key env.nonce env.uuid plain ≡ some c)
                × (find_by (has_id env.uuid) (add_to p env master_key label plain keys).0
                    ≡ some (new_key p env label plain c)))
      go (err x) is = unfold add_to in cc (rw (is, add_to) at e)
      go (ok u) is =
          unfold add_to in
          (
            unfold check_new in ground arith,
            elim (Bool-cases (leb 2 (count_by is_live keys))) [
              | inl full ↦ elim (Bool-cases (any is_idle keys)) [
                | inl idle ↦
                    rw (is, add_to)
                      (rw (full, idle)
                        (base-ok (update_by is_idle retire keys) s
                          (absent-update env.uuid keys fresh) (rw (is, full, idle, add_to) at e)))
                | inr busy ↦ cc (rw (is, full, busy, add_to) at e)
              ]
              | inr room ↦
                  rw (is, add_to) (rw room (base-ok keys s fresh (rw (is, room, add_to) at e)))
            ],
          )

-- The row of a new key opens under the master key that closed it.
opened :
    (p : Primitives) (env : Env) (master_key : Bytes) (label : Text) (plain c : Bytes)
    → IsLawful p
    → length env.nonce ≡ 12
    → valid_upstream_credential plain ≡ true
    → p.encrypt master_key env.nonce env.uuid plain ≡ some c
    → open_secret p master_key env.uuid (secret (some (new_key p env label plain c))) ≡ ok plain
unfolding new_key
opened p env master_key label plain c lawful twelve valid enc = ground (
  arith,
  lawful.base64_round env.nonce,
  lawful.base64_round c,
  lawful.cipher_round master_key env.nonce env.uuid plain c enc,
  credential-is_utf8 plain valid,
)

-- What `add` accepts can be read back: after a successful call with an identifier that is new to the
-- vault and a nonce of 12 bytes, decryption of that identifier returns the very credential.
pub add-credential :
    (p : Primitives) (env : Env) (label : Text) (plain : Bytes) (w : World p.File) (s : KeySummary)
    → IsLawful p
    → length env.nonce ≡ 12
    → any (has_id env.uuid) w.vault.state.keys ≡ false
    → (add p env label plain w).1 ≡ ok s
    → credential p (add p env label plain w).0.vault env.uuid ≡ ok plain
unfolding add
add-credential p env label plain w s lawful twelve fresh e =
    let change = add_to p env w.vault.master_key label plain in
    let committed = commit-IsCommitted p env (on_keys change) w in
    let done = commit-ok p env (on_keys change) w s e in
    let (valid, (c, enc, found)) =
      add_to-ok p env w.vault.master_key label plain w.vault.state.keys s fresh
        (unfold on_keys in done) in
    let there : find_by (has_id env.uuid) (on_keys change w.vault.state).0.keys
        ≡ some (new_key p env label plain c) =
      unfold on_keys in found in
    credential_lem p (commit p env (on_keys change) w).0.vault env.uuid
    ∙ ap₂ (λ (key : Bytes) (o : Option StoredKey). open_secret p key env.uuid (secret o))
        committed.kept
        (ap (λ (t : VaultFile). find_by (has_id env.uuid) t.keys) committed.changed ∙ there)
    ∙ opened p env w.vault.master_key label plain c lawful twelve valid enc
