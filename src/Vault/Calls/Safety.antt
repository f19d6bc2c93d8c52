-- ===== src/Vault/Calls/Safety.antt =====
-- Routing safety of the vault of crates/core/src/lib.rs: which keys the selector can ever return.
use nvidia_build_lb.Prelude.{
  ℕ, suc, zero, ◌+◌, ◌≤◌, ◌^◌, Bytes, Bool, true, false, ◌&&◌, not, leb, sym, List, [], ◌∷◌, map,
  Option, none, some, ◌≡◌, refl, ap, ◌∙◌, All, All-append, update_by, arith, select_by, length,
  get_elem?, Bool-cases, inl, inr,
}
use nvidia_build_lb.Vault.State.{Uuid, Time, StoredKey, KeySummary, VaultFile, Vault, summary}
use nvidia_build_lb.Vault.Custody.{Primitives, Env, World}
use nvidia_build_lb.Vault.Keys.{is_live, is_idle, retire, new_key, list}
use nvidia_build_lb.Vault.Keys.Steps.{IsRoutable, Pointwise-IsRoutable, retire-Pointwise}
use nvidia_build_lb.Vault.Keys.Adding.{Added, refused, stripped, stored, replaced}
use nvidia_build_lb.Vault.Calls.{Call, step, Reach, here, next}
use nvidia_build_lb.Vault.Calls.Changes.{KeysChange, evolved, added, step-StateChange}
use nvidia_build_lb.Router.{Router, select, eligible, cooled_down}
use nvidia_build_lb.Router.Selection.{Promise, select-Promise}

abbrev pub IsSafe : VaultFile → Type 0
IsSafe s = All IsRoutable s.keys

new_key-IsRoutable :
    (p : Primitives) (env : Env) (label : List ℕ) (credential c : Bytes)
    → IsRoutable (new_key p env label credential c)
unfolding new_key
new_key-IsRoutable p env label credential c = refl

added-IsSafe :
    (p : Primitives) (env : Env) (label : List ℕ) (credential : Bytes) (keys keys' : List StoredKey)
    → Added p env label credential keys keys'
    → All IsRoutable keys
    → All IsRoutable keys'
added-IsSafe p env label credential keys keys' refused h = h
added-IsSafe p env label credential keys keys' stripped h =
    Pointwise-IsRoutable (retire-Pointwise keys) h
added-IsSafe p env label credential keys keys' (stored c _ _) h =
    All-append IsRoutable keys _ h (new_key-IsRoutable p env label credential c, tt)
added-IsSafe p env label credential keys keys' (replaced c _ _) h =
    All-append IsRoutable (update_by is_idle retire keys) _
      (Pointwise-IsRoutable (retire-Pointwise keys) h)
      (new_key-IsRoutable p env label credential c, tt)

change-IsSafe :
    (p : Primitives) (env : Env) (keys keys' : List StoredKey)
    → KeysChange p env keys keys'
    → All IsRoutable keys
    → All IsRoutable keys'
change-IsSafe p env keys keys' (evolved steps) h = Pointwise-IsRoutable steps h
change-IsSafe p env keys keys' (added label credential a) h =
    added-IsSafe p env label credential keys keys' a h

-- That every enabled key has been probed and is in service is kept by every call, whether it succeeds
-- or fails.
pub step-IsSafe :
    (p : Primitives) (env : Env) (call : Call) (w : World p.File)
    → IsSafe w.vault.state
    → IsSafe (step p env call w).0.vault.state
step-IsSafe p env call w h = change-IsSafe p env _ _ (step-StateChange p env call w).keys h

pub Reach-IsSafe :
    (p : Primitives) (start w : (World p.File))
    → IsSafe start.vault.state
    → Reach p start w
    → IsSafe w.vault.state
Reach-IsSafe p start w h here = h
Reach-IsSafe p start w h (next env call r) = step-IsSafe p env call _ (Reach-IsSafe p start _ h r)

-- An element of a filtered and mapped list comes from one that passes the test, and each of those has
-- its image there.
module _ {ℓ κ} {A : Type ℓ} {B : Type κ} (test : A → Bool) (g : A → B) where
  image-source :
      (xs : List A) (i : ℕ) (b : B)
      → get_elem? (map g (select_by test xs)) i ≡ some b
      → (j : ℕ) × (a : A) × (get_elem? xs j ≡ some a) × (g a ≡ b) × (test a ≡ true)
  image-source [] i b e = cc
  image-source (x ∷ xs) i b e = elim (Bool-cases (test x)) [
    | inl kept ↦ go kept (image-source xs) i (rw kept at e)
    | inr dropped ↦
        let (j, a, found, same, passes) = image-source xs i b (rw dropped at e) in
        (suc j, a, found, same, passes)
  ]
    where
      deeper :
          (j : ℕ) × (a : A) × (get_elem? xs j ≡ some a) × (g a ≡ b) × (test a ≡ true)
          → (j : ℕ) × (a : A) × (get_elem? (x ∷ xs) j ≡ some a) × (g a ≡ b) × (test a ≡ true)
      deeper (j, a, found, same, passes) = (suc j, a, found, same, passes)

      go :
          test x ≡ true
          → ((i : ℕ) (b : B)
              → get_elem? (map g (select_by test xs)) i ≡ some b
              → (j : ℕ) × (a : A) × (get_elem? xs j ≡ some a) × (g a ≡ b) × (test a ≡ true))
          → (i : ℕ) → get_elem? (g x ∷ map g (select_by test xs)) i ≡ some b
          → (j : ℕ) × (a : A) × (get_elem? (x ∷ xs) j ≡ some a) × (g a ≡ b) × (test a ≡ true)
      go kept rest zero first = (zero, x, refl, cc, kept)
      go kept rest (suc i) later = deeper (rest i b later)

  source-image :
      (xs : List A) (j : ℕ) (a : A)
      → get_elem? xs j ≡ some a
      → test a ≡ true
      → (i : ℕ) × (get_elem? (map g (select_by test xs)) i ≡ some (g a))
  source-image [] j a e passes = cc
  source-image (x ∷ xs) zero a e passes =
      let same : x ≡ a = cc in
      let kept : test x ≡ true = rw same passes in (zero, rw kept (ap (λ (y : A). some (g y)) same))
  source-image (x ∷ xs) (suc j) a e passes =
      let (i, found) = source-image xs j a e passes in
      elim (Bool-cases (test x)) [
        | inl kept ↦ (suc i, rw kept found)
        | inr dropped ↦ (i, rw dropped found)
      ]

abbrev pub has_cooled : Time → Option Time → Bool
has_cooled now none = true
has_cooled now (some until) = leb until now

-- A stored key that may serve a request now: in service, enabled, verified, and past its cooldown.
abbrev pub servable : Time → StoredKey → Bool
servable now key =
    not key.retired && key.enabled && key.verified && has_cooled now key.cooldown_until

has_cooled-cooled_down :
    (now : Time) (until : Option Time) → cooled_down now until ≡ has_cooled now until
has_cooled-cooled_down now none = refl
has_cooled-cooled_down now (some until) = refl

servable_lem :
    (now : Time) (key : StoredKey) → (is_live key && eligible now (summary key)) ≡ servable now key
unfolding eligible summary
servable_lem now key = ground (arith, has_cooled-cooled_down now key.cooldown_until)

-- What the selection over the vault's own list serves.
abbrev pub Serves : Time → List StoredKey → Option Uuid → Type 0
Serves now keys none =
    (j : ℕ) (key : StoredKey) → get_elem? keys j ≡ some key → servable now key ≡ false
Serves now keys (some id) =
    (j : ℕ) × (key : StoredKey) × (get_elem? keys j ≡ some key)
    × (key.id ≡ id)
    × (servable now key ≡ true)

Serves-of_Promise :
    (now : Time) (keys : List StoredKey) (r r' : Router) (o : Option Uuid)
    → Promise now (map summary (select_by is_live keys)) r r' o
    → Serves now keys o
Serves-of_Promise now keys r r' none h = λ j key found. elim (Bool-cases (is_live key)) [
  | inl live ↦
      let (i, at) = source-image is_live summary keys j key found live in
      let unfit = h.1 i (summary key) at in sym (servable_lem now key) ∙ ground arith
  | inr gone ↦ sym (servable_lem now key) ∙ ground arith
]
Serves-of_Promise now keys r r' (some id) h =
    let (j, key, found, same, live) = image-source is_live summary keys _ h.key h.found in
    (
      j,
      key,
      found,
      summary-id key ∙ ap (λ (k : KeySummary). k.id) same ∙ h.named,
      sym (servable_lem now key) ∙ and-true live (ap (eligible now) same ∙ h.fit),
    )
  where
    summary-id : (k : StoredKey) → k.id ≡ (summary k).id
    summary-id k = unfold summary in refl

    and-true : {a b : Bool} → a ≡ true → b ≡ true → (a && b) ≡ true
    and-true h k = ground arith

-- The selector over the vault's list serves the stored keys: what it returns names a stored key that is
-- in service, enabled, verified and cooled down at that time, and it returns nothing only if no stored
-- key is so (where cursor and number of listed keys stay within a 64-bit word).
pub select-Serves :
    (now : Time) (v : Vault) (r : Router)
    → r.next_slot + length (list v) ≤ 2 ^ 64
    → Serves now v.state.keys (select now (list v) r).1
select-Serves now v r small =
    unfold list in Serves-of_Promise now v.state.keys r _ _ (select-Promise now (list v) r small)
