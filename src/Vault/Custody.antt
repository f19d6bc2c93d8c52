-- ===== src/Vault/Custody.antt =====
-- What every method of the vault of crates/core/src/lib.rs shares: the third-party primitives that it
-- calls, the surroundings of one call, the file at its path, and `persist`.
pub mod Writes
pub mod Lists
use nvidia_build_lb.Prelude.{
  ℕ, ◌+◌, ◌≤◌, Bytes, Bool, true, false, List, [], ◌∷◌, Option, none, some, length, if◌then◌else◌,
  ◌≡◌,
}
use nvidia_build_lb.Vault.State.{
  Uuid, Time, Vault, VaultFile, PersistStep, serialize, open_temp, write_temp, sync_temp, protect,
  rename, open_directory, sync_directory, Error, io, Result, ok, err,
}
use nvidia_build_lb.Vault.Shapes.{lower_hex}

-- The crates `sha2`, `hex`, `base64`, `aes_gcm` and `serde_json`. `encrypt` and `decrypt` take the
-- master key, the nonce, the identifier as associated data, and the text. `File` is the type of the
-- contents of a file, which only `serde_json` reads.
pub record Primitives : Type 1 where
  pub File : Type 0
  pub sha256 : Bytes → Bytes
  pub hex_encode : Bytes → Bytes
  pub hex_decode : Bytes → Option Bytes
  pub base64_encode : Bytes → Bytes
  pub base64_decode : Bytes → Option Bytes
  pub encrypt : Bytes → Bytes → Uuid → Bytes → Option Bytes
  pub decrypt : Bytes → Bytes → Uuid → Bytes → Option Bytes
  pub to_json : VaultFile → File
  pub from_json : File → Option VaultFile

-- What those crates document: each decoder undoes its encoder, and decryption under the same key,
-- nonce and associated data undoes encryption.
pub record IsLawful (p : Primitives) : Type 0 where
  pub hex_round : (b : Bytes) → p.hex_decode (p.hex_encode b) ≡ some b
  pub base64_round : (b : Bytes) → p.base64_decode (p.base64_encode b) ≡ some b
  pub cipher_round :
      (key nonce : Bytes) (id : Uuid) (plain cipher : Bytes)
      → p.encrypt key nonce id plain ≡ some cipher
      → p.decrypt key nonce id cipher ≡ some plain
  pub json_round : (s : VaultFile) → p.from_json (p.to_json s) ≡ some s

-- The surroundings of one call: the clock, a fresh identifier, random bytes for a nonce and for a
-- token, and which steps of `persist` fail.
pub record Env : Type 0 where
  pub now : Time
  pub uuid : Uuid
  pub nonce : Bytes
  pub random : Bytes
  pub fails : PersistStep → Bool

-- The vault in memory and the file at its path, if there is one.
pub record World (File : Type 0) : Type 0 where
  pub vault : Vault
  pub file : Option File

-- The hexadecimal SHA-256 digest.
unfoldable pub fingerprint : (p : Primitives) → Bytes → Bytes
unfolding lower_hex
fingerprint p value = lower_hex (p.sha256 value)

-- A step that may fail, and the steps that follow where it does not.
abbrev pub attempt :
    {F : Type 0}
    → (PersistStep → Bool)
    → PersistStep
    → World F
    → World F × Result (Unit {0})
    → World F × Result (Unit {0})
attempt fails step failed next = if fails step then (failed, err (io step)) else next

-- The path has a parent directory. The file changes at the rename; a later failure leaves it changed.
unfoldable pub persist : (p : Primitives) → Env → World p.File → World p.File × Result (Unit {0})
persist p env w =
    let renamed : (World p.File) = record w { file = some (p.to_json w.vault.state) } in
    attempt env.fails serialize w (
      attempt env.fails open_temp w (
        attempt env.fails write_temp w (
          attempt env.fails sync_temp w (
            attempt env.fails protect w (
              attempt env.fails rename w (
                attempt env.fails open_directory renamed
                  (attempt env.fails sync_directory renamed (renamed, ok tt))))))))

unfoldable pub persist_for_rollback :
    (p : Primitives) → Env → World p.File → World p.File × Result (Unit {0})
unfolding persist
persist_for_rollback p env w = persist p env w

abbrev pub Change {ℓ} : Type ℓ → Type ℓ
Change A = VaultFile → VaultFile × Result A

abbrev pub with_state : {F : Type 0} → World F → VaultFile → World F
with_state w s = record w { vault = record w.vault { state = s } }

-- `persist()?; Ok(a)`
abbrev pub and_return {ℓ} :
    {A : Type ℓ} {F : Type 0} → A → World F × Result (Unit {0}) → World F × Result A
and_return a (w, ok _) = (w, ok a)
and_return a (w, err e) = (w, err e)

unfoldable pub finish {ℓ} :
    {A : Type ℓ}
    → (p : Primitives) → Env
    → World p.File
    → VaultFile × Result A
    → World p.File × Result A
finish p env w (s, err e) = (with_state w s, err e)
finish p env w (s, ok a) = and_return a (persist p env (with_state w s))

-- A method that changes the state and then persists it: an error before that returns at once.
unfoldable pub commit {ℓ} :
    {A : Type ℓ} → (p : Primitives) → Env → Change A → World p.File → World p.File × Result A
unfolding finish
commit p env change w = finish p env w (change w.vault.state)

-- Rewrites the first element that passes the test, or leaves the list if the rewriting fails.
abbrev pub replaced {ℓ κ} :
    {A : Type ℓ} {B : Type κ} → A → List A → Result (A × B) → List A × Result B
replaced x xs (err e) = (x ∷ xs, err e)
replaced x xs (ok (x', b)) = (x' ∷ xs, ok b)

-- `iter_mut().find(..).ok_or_else(..)?` and the statements on the element found.
unfoldable pub modify_first {ℓ κ} :
    {A : Type ℓ} {B : Type κ}
    → (A → Bool)
    → (A → Result (A × B))
    → Error
    → List A
    → List A × Result B
modify_first test f missing [] = ([], err missing)
modify_first test f missing (x ∷ xs) =
    let later = modify_first test f missing xs in
    if test x then replaced x xs (f x) else (x ∷ later.0, later.1)
