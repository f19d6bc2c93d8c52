-- ===== src/Vault/Keys/Secrets.antt =====
-- The encrypted credentials of crates/core/src/lib.rs: no call loses or changes one.
use nvidia_build_lb.Prelude.{
  Bytes, true, not, ◌==◌, ◌≡◌, refl, sym, ◌∙◌, List, [], ◌∷◌, ◌++◌, Option, none, some, arith, any,
  find_by, update_by, length, is_utf8,
}
use mathlib.Core.Path.{ap₂}
use nvidia_build_lb.Vault.State.{
  Uuid, Text, StoredKey, Vault, Result, ok, err, bail_if, ◌>>=◌, ◌>>◌, ok_or, key_not_found,
  decode_nonce, invalid_credential_nonce, decode_ciphertext, credential_decryption_failed,
  credential_utf8,
}
use nvidia_build_lb.Vault.Custody.{Primitives, Env, World}
use nvidia_build_lb.Vault.Keys.{has_id, is_idle, retire, credential}
use nvidia_build_lb.Vault.Keys.Steps.{Pointwise, nil, cons, retire-Pointwise}
use nvidia_build_lb.Vault.Keys.Adding.{Added, refused, stripped, stored, replaced}
use nvidia_build_lb.Vault.Calls.{Call, step}
use nvidia_build_lb.Vault.Calls.Changes.{KeysChange, evolved, added, step-StateChange}
use nvidia_build_lb.Vault.Calls.Durability.{step-IsDurable}

-- What decryption reads of a key.
abbrev pub secret : Option StoredKey → Option (Bytes × Bytes)
secret none = none
secret (some key) = some (key.nonce, key.ciphertext)

abbrev pub open_secret : Primitives → Bytes → Uuid → Option (Bytes × Bytes) → Result Bytes
open_secret p master_key id none = err key_not_found
open_secret p master_key id (some (nonce_text, cipher_text)) = do
  nonce ← ok_or (p.base64_decode nonce_text) decode_nonce
  bail_if (not (length nonce == 12)) invalid_credential_nonce
  ciphertext ← ok_or (p.base64_decode cipher_text) decode_ciphertext
  plain ← ok_or (p.decrypt master_key nonce id ciphertext) credential_decryption_failed
  bail_if (not (is_utf8 plain)) credential_utf8
  ok plain

pub credential_lem :
    (p : Primitives) (v : Vault) (id : Uuid)
    → credential p v id ≡ open_secret p v.master_key id (secret (find_by (has_id id) v.state.keys))
unfolding credential
credential_lem p v id = go (find_by (has_id id) v.state.keys) refl
  where
    go :
        (o : Option StoredKey)
        → find_by (has_id id) v.state.keys ≡ o
        → credential p v id
          ≡ open_secret p v.master_key id (secret (find_by (has_id id) v.state.keys))
    go none is = rw (is, credential)
    go (some key) is = rw (is, credential)

secret-append :
    (id : Uuid) (keys more : List StoredKey)
    → any (has_id id) keys ≡ true
    → secret (find_by (has_id id) (keys ++ more)) ≡ secret (find_by (has_id id) keys)
secret-append id [] more h = cc
secret-append id (k ∷ keys) more h = ground (arith, secret-append id keys more)

secret-Pointwise :
    (id : Uuid) (keys keys' : List StoredKey)
    → Pointwise keys keys'
    → secret (find_by (has_id id) keys') ≡ secret (find_by (has_id id) keys)
secret-Pointwise id keys keys' nil = refl
secret-Pointwise id keys keys' (cons {keys = ks} {keys' = ks'} s more) =
    ground (arith, secret-Pointwise id ks ks' more)

any-Pointwise :
    (id : Uuid) (keys keys' : List StoredKey)
    → Pointwise keys keys'
    → any (has_id id) keys' ≡ any (has_id id) keys
any-Pointwise id keys keys' nil = refl
any-Pointwise id keys keys' (cons {keys = ks} {keys' = ks'} s more) =
    ground (arith, any-Pointwise id ks ks' more)

added-secret :
    (p : Primitives) (env : Env) (label : Text) (plain : Bytes) (id : Uuid)
    (keys keys' : List StoredKey)
    → Added p env label plain keys keys'
    → any (has_id id) keys ≡ true
    → secret (find_by (has_id id) keys') ≡ secret (find_by (has_id id) keys)
added-secret p env label plain id keys keys' refused h = refl
added-secret p env label plain id keys keys' stripped h =
    secret-Pointwise id keys _ (retire-Pointwise keys)
added-secret p env label plain id keys keys' (stored c _ _) h = secret-append id keys _ h
added-secret p env label plain id keys keys' (replaced c _ _) h =
    secret-append id (update_by is_idle retire keys) _
      (any-Pointwise id keys _ (retire-Pointwise keys) ∙ h)
    ∙ secret-Pointwise id keys _ (retire-Pointwise keys)

change-secret :
    (p : Primitives) (env : Env) (id : Uuid) (keys keys' : List StoredKey)
    → KeysChange p env keys keys'
    → any (has_id id) keys ≡ true
    → secret (find_by (has_id id) keys') ≡ secret (find_by (has_id id) keys)
change-secret p env id keys keys' (evolved steps) h = secret-Pointwise id keys keys' steps
change-secret p env id keys keys' (added label plain a) h =
    added-secret p env label plain id keys keys' a h

-- No call loses or changes a stored credential, retired ones included: for every identifier that the
-- vault holds, decryption gives after the call exactly what it gave before.
pub step-credential :
    (p : Primitives) (env : Env) (call : Call) (w : World p.File) (id : Uuid)
    → any (has_id id) w.vault.state.keys ≡ true
    → credential p (step p env call w).0.vault id ≡ credential p w.vault id
step-credential p env call w id h =
    credential_lem p (step p env call w).0.vault id
    ∙ ap₂ (λ (key : Bytes) (o : Option (Bytes × Bytes)). open_secret p key id o)
        (step-IsDurable p env call w).kept
        (change-secret p env id _ _ (step-StateChange p env call w).keys h)
    ∙ sym (credential_lem p w.vault id)
