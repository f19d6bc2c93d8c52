-- ===== src/Vault/Keys/Steps.antt =====
-- What each method on upstream keys of crates/core/src/lib.rs does to the one key that it rewrites.
use nvidia_build_lb.Prelude.{
  ◌||◌, Bool, true, not, ◌&&◌, ◌≡◌, refl, List, [], ◌∷◌, map, All, count_by, update_by, ◌≤◌, Bytes,
  Bool-cases, inl, inr, Option, arith,
}
use mathlib.Core.Path.{ap₂}
use nvidia_build_lb.Vault.Custody.{modify_first, replaced}
use nvidia_build_lb.Vault.State.{Error, Uuid, Time, Duration, StoredKey, Result, ok, err}
use nvidia_build_lb.Vault.Keys.{
  is_idle, is_live, is_live_with, has_id, retire, enable_key, verify_key, delete_key,
  quarantine_key, count_request, count_failure,
}

-- A key that routing may select has been probed and is in service.
abbrev pub IsRoutable : StoredKey → Type 0
IsRoutable key = (not key.enabled || (key.verified && not key.retired)) ≡ true

-- One rewriting of a key: identity, fingerprint and secret stay, a retired key stays retired, and the
-- key stays routable.
pub record KeyStep (key key' : StoredKey) : Type 0 where
  pub id : key'.id ≡ key.id
  pub fingerprint : key'.fingerprint ≡ key.fingerprint
  pub nonce : key'.nonce ≡ key.nonce
  pub ciphertext : key'.ciphertext ≡ key.ciphertext
  pub label : key'.label ≡ key.label
  pub alive : is_live key' ≡ true → is_live key ≡ true
  pub routable : IsRoutable key → IsRoutable key'

pub retire-KeyStep : (key : StoredKey) → KeyStep key (retire key)
retire-KeyStep key = ground arith

-- The rewriting under `iter_mut().find(..)` always makes such a step.
abbrev pub MakesKeySteps {ℓ} :
    {B : Type ℓ} → (StoredKey → Bool) → (StoredKey → Result (StoredKey × B)) → Type ℓ
MakesKeySteps {B = B} test f =
    (key key' : StoredKey) (b : B) → test key ≡ true → f key ≡ ok (key', b) → KeyStep key key'

pub enable_key-KeyStep :
    (now : Time) (id : Uuid) (enabled : Bool)
    → MakesKeySteps (is_live_with id) (enable_key now enabled)
unfolding enable_key
enable_key-KeyStep now id enabled key key' b hit e = ground arith

pub verify_key-KeyStep : (id : Uuid) → MakesKeySteps (is_live_with id) verify_key
unfolding verify_key
verify_key-KeyStep id key key' b hit e = ground arith

pub delete_key-KeyStep : (id : Uuid) → MakesKeySteps (is_live_with id) delete_key
unfolding delete_key
delete_key-KeyStep id key key' b hit e = ground arith

pub quarantine_key-KeyStep : (id : Uuid) → MakesKeySteps (is_live_with id) quarantine_key
unfolding quarantine_key
quarantine_key-KeyStep id key key' b hit e = ground arith

pub count_request-KeyStep : (id : Uuid) → MakesKeySteps (has_id id) count_request
unfolding count_request
count_request-KeyStep id key key' b hit e = ground arith

pub count_failure-KeyStep :
    (now : Time) (id : Uuid) (hint : Option Duration)
    → MakesKeySteps (has_id id) (count_failure now hint)
unfolding count_failure
count_failure-KeyStep now id hint key key' b hit e = ground arith

abbrev pub prints : List StoredKey → List Bytes
prints keys = map (λ key. key.fingerprint) keys

-- Every key of a list makes such a step.
pub data Pointwise : List StoredKey → List StoredKey → Type 0 where
  nil : Pointwise [] []
  cons :
      {key key' : StoredKey} {keys keys' : List StoredKey}
      → KeyStep key key'
      → Pointwise keys keys'
      → Pointwise (key ∷ keys) (key' ∷ keys')

stay : (key : StoredKey) → KeyStep key key
stay key = record {
  id = refl;
  fingerprint = refl;
  nonce = refl;
  ciphertext = refl;
  label = refl;
  alive = λ h. h;
  routable = λ h. h;
}

pub Pointwise-refl : (keys : List StoredKey) → Pointwise keys keys
Pointwise-refl [] = nil
Pointwise-refl (key ∷ keys) = cons (stay key) (Pointwise-refl keys)

module _ {ℓ} {B : Type ℓ} (test : StoredKey → Bool) (f : StoredKey → Result (StoredKey × B))
    (missing : Error) (steps : MakesKeySteps test f) where
  replaced-Pointwise :
      (key : StoredKey) (keys : List StoredKey) (r : Result (StoredKey × B))
      → test key ≡ true
      → f key ≡ r
      → Pointwise (key ∷ keys) (replaced key keys r).0
  replaced-Pointwise key keys (err e) hit is = Pointwise-refl (key ∷ keys)
  replaced-Pointwise key keys (ok (key', b)) hit is =
      cons (steps key key' b hit is) (Pointwise-refl keys)

  pub modify_first-Pointwise :
      (keys : List StoredKey) → Pointwise keys (modify_first test f missing keys).0
  unfolding modify_first
  modify_first-Pointwise [] = nil
  modify_first-Pointwise (key ∷ keys) = elim (Bool-cases (test key)) [
    | inl hit ↦ rw hit (replaced-Pointwise key keys (f key) hit refl)
    | inr miss ↦ rw miss (cons (stay key) (modify_first-Pointwise keys))
  ]

pub retire-Pointwise : (keys : List StoredKey) → Pointwise keys (update_by is_idle retire keys)
retire-Pointwise [] = nil
retire-Pointwise (key ∷ keys) = elim (Bool-cases (is_idle key)) [
  | inl idle ↦ rw idle (cons (retire-KeyStep key) (Pointwise-refl keys))
  | inr busy ↦ rw busy (cons (stay key) (retire-Pointwise keys))
]

-- What such steps keep of the whole list.
pub Pointwise-count :
    {keys keys' : List StoredKey}
    → Pointwise keys keys'
    → count_by is_live keys' ≤ count_by is_live keys
Pointwise-count nil = omega arith
Pointwise-count (cons s more) = ground (arith, s.alive, Pointwise-count more)

pub Pointwise-prints :
    {keys keys' : List StoredKey} → Pointwise keys keys' → prints keys' ≡ prints keys
Pointwise-prints nil = refl
Pointwise-prints (cons s more) =
    ap₂ (λ (a : Bytes) (l : List Bytes). a ∷ l) s.fingerprint (Pointwise-prints more)

pub Pointwise-IsRoutable :
    {keys keys' : List StoredKey}
    → Pointwise keys keys'
    → All IsRoutable keys
    → All IsRoutable keys'
Pointwise-IsRoutable nil h = tt
Pointwise-IsRoutable (cons s more) h = (s.routable h.0, Pointwise-IsRoutable more h.1)
