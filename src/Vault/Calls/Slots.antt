-- ===== src/Vault/Calls/Slots.antt =====
-- The two upstream slots and the distinct fingerprints, through every call of crates/core/src/lib.rs,
-- and the reopening of the file that a call leaves.
use nvidia_build_lb.Prelude.{
  ℕ, ◌≤◌, Bytes, false, List, [], ◌∷◌, ◌++◌, ◌≡◌, refl, ap, ◌∙◌, count_by, update_by,
  count_by-append, arith,
}
use nvidia_build_lb.Vault.State.{StoredKey, VaultFile}
use nvidia_build_lb.Vault.Custody.{Primitives, Env, World, fingerprint}
use nvidia_build_lb.Vault.Custody.Lists.{holds, AreDistinct, AreDistinct-append}
use nvidia_build_lb.Vault.Keys.{is_live, is_idle, retire, new_key}
use nvidia_build_lb.Vault.Keys.Steps.{
  prints, Pointwise, Pointwise-count, Pointwise-prints, retire-Pointwise,
}
use nvidia_build_lb.Vault.Keys.Adding.{Added, refused, stripped, stored, replaced, retire-count}
use nvidia_build_lb.Vault.Calls.{Call, step, Reach, here, next}
use nvidia_build_lb.Vault.Calls.Changes.{KeysChange, evolved, added, step-StateChange}

-- What `open` checks of a state.
pub record IsValid (s : VaultFile) : Type 0 where
  pub version : s.version ≡ 1
  pub slots : count_by is_live s.keys ≤ 2
  pub distinct : AreDistinct (prints s.keys)

abbrev FitsSlots : List StoredKey → Type 0
FitsSlots keys = (count_by is_live keys ≤ 2) × AreDistinct (prints keys)

prints-append :
    (keys : List StoredKey) (key : StoredKey)
    → prints (keys ++ key ∷ []) ≡ prints keys ++ key.fingerprint ∷ []
prints-append [] key = refl
prints-append (k ∷ keys) key = ap (λ (l : List Bytes). k.fingerprint ∷ l) (prints-append keys key)

Pointwise-FitsSlots :
    {keys keys' : List StoredKey} → Pointwise keys keys' → FitsSlots keys → FitsSlots keys'
Pointwise-FitsSlots steps h =
    (omega (arith, Pointwise-count steps), rw (Pointwise-prints steps) h.1)

-- A new key may go to the end of a list with a free slot and without its fingerprint.
append-FitsSlots :
    (keys : List StoredKey) (key : StoredKey)
    → count_by is_live keys ≤ 1
    → AreDistinct (prints keys)
    → holds (prints keys) key.fingerprint ≡ false
    → FitsSlots (keys ++ key ∷ [])
append-FitsSlots keys key room d fresh = (
  ground (arith, count_by-append is_live keys (key ∷ [])),
  rw (prints-append keys key) (AreDistinct-append (prints keys) key.fingerprint d fresh),
)

module _ (p : Primitives) (env : Env) where
  new_key-fingerprint :
      (label : List ℕ) (credential c : Bytes)
      → (new_key p env label credential c).fingerprint ≡ fingerprint p credential
  unfolding new_key
  new_key-fingerprint label credential c = refl

  added-FitsSlots :
      (label : List ℕ) (credential : Bytes) (keys keys' : List StoredKey)
      → Added p env label credential keys keys'
      → FitsSlots keys
      → FitsSlots keys'
  added-FitsSlots label credential keys keys' refused h = h
  added-FitsSlots label credential keys keys' stripped h =
      Pointwise-FitsSlots (retire-Pointwise keys) h
  added-FitsSlots label credential keys keys' (stored c fresh room) h =
      append-FitsSlots keys (new_key p env label credential c) room h.1
        (rw (new_key-fingerprint label credential c) fresh)
  added-FitsSlots label credential keys keys' (replaced c fresh idle) h =
      append-FitsSlots (update_by is_idle retire keys) (new_key p env label credential c)
        (omega (arith, retire-count keys idle)) (rw (Pointwise-prints (retire-Pointwise keys)) h.1)
        (rw (new_key-fingerprint label credential c)
          (rw (Pointwise-prints (retire-Pointwise keys)) fresh))

  change-FitsSlots :
      (keys keys' : List StoredKey) → KeysChange p env keys keys' → FitsSlots keys → FitsSlots keys'
  change-FitsSlots keys keys' (evolved steps) h = Pointwise-FitsSlots steps h
  change-FitsSlots keys keys' (added label credential a) h =
      added-FitsSlots label credential keys keys' a h

-- At most two live keys, all fingerprints distinct and version one are kept by every call, whether it
-- succeeds or fails and whatever step of the write fails.
pub step-IsValid :
    (p : Primitives) (env : Env) (call : Call) (w : World p.File)
    → IsValid w.vault.state
    → IsValid (step p env call w).0.vault.state
step-IsValid p env call w v =
    let c = step-StateChange p env call w in
    let (slots, distinct) = change-FitsSlots p env _ _ c.keys (v.slots, v.distinct) in
    record { version = c.version ∙ v.version; slots = slots; distinct = distinct }

Reach-IsValid :
    (p : Primitives) (start w : (World p.File))
    → IsValid start.vault.state
    → Reach p start w
    → IsValid w.vault.state
Reach-IsValid p start w v here = v
Reach-IsValid p start w v (next env call r) =
    step-IsValid p env call _ (Reach-IsValid p start _ v r)
