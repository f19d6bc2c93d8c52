-- ===== src/Selection/Candidates.antt =====
-- Which keys the query of `select_initial_key` in crates/gateway/src/main.rs takes, and in which order.
use nvidia_build_lb.Prelude.{
  ℕ, String, Bool, true, List, [], ◌∷◌, All, Option, none, some, find_by, find_by-All, select_by,
  leb, ◌==◌, ◌≡◌, ◌⊎◌, inl, inr, refl, ap, subst, Bool-cases, Option-cases, arith, ◌↔◌, ◌≤◌, ◌+◌,
  ◌-◌, ◌*◌, ◌&&◌, ◌||◌, not, any, false, str_eq_iff,
}
use nvidia_build_lb.Json.{is_none_or}
use nvidia_build_lb.Vault.State.{Uuid, Time, second}
use nvidia_build_lb.Database.Tables.{Tables, KeyRow, ReceiptRow}
use nvidia_build_lb.Selection.{
  Operations, proves, is_missing, is_candidate, by_slot, insert_by_slot, or_first, choose,
}

-- Membership of a row in a table.
abbrev pub Stands : {A : Type 0} → A → List A → Type 0
Stands key [] = ⊥
Stands key (k ∷ keys) = (key ≡ k) ⊎ Stands key keys

abbrev pub HasCooled : Time → Option Time → Type 0
HasCooled now none = Unit {0}
HasCooled now (some until) = until ≤ now

-- A probe that the key has passed for the profile, not taken back and not too old.
pub record IsProof (operations : Operations) (now : Time) (profile : String) (key : KeyRow)
    (proof : ReceiptRow) : Type 0 where
  pub of_key : proof.key_id ≡ key.id
  pub of_profile : proof.profile_id ≡ profile
  pub valid : proof.invalidated_at ≡ none
  pub recent : now ≤ proof.verified_at + operations.proof_freshness_seconds * second

-- A key in service, enabled, verified and cooled down, with a proof for the profile, while the server is alive.
pub record Passes (operations : Operations) (now : Time) (profile : String)
    (proofs : List ReceiptRow) (key : KeyRow) : Type 0 where
  pub in_service : key.retired ≡ false
  pub enabled : key.enabled ≡ true
  pub verified : key.verified ≡ true
  pub cooled : HasCooled now key.cooldown_until
  pub proof : (r : ReceiptRow) × Stands r proofs × IsProof operations now profile key r
  pub alive : operations.owner_is_alive ≡ true

-- A key that may serve a profile: it stands in the table and passes every condition of the query.
pub record MayServe (operations : Operations) (now : Time) (profile : String) (t : Tables)
    (key : KeyRow) : Type 0 where
  pub stands : Stands key t.upstream_keys
  pub passes : Passes operations now profile t.profile_probe_receipts key

any_iff :
    {A : Type 0} (p : A → Bool) (xs : List A)
    → (any p xs ≡ true) ↔ ((x : A) × Stands x xs × (p x ≡ true))
any_iff p [] = (λ h. cc, λ (x, s, h). absurd s)
any_iff {A = A} p (x ∷ xs) = (
  λ h. elim (Bool-cases (p x)) [
    | inl hit ↦ (x, inl refl, hit)
    | inr miss ↦ let (y, s, k) = (any_iff p xs).0 (rw miss at h) in (y, inr s, k)
  ],
  λ (y, s, k). elim s [
    | inl same ↦ first_of (subst (λ (z : A). p z ≡ true) same k)
    | inr later ↦ later_of (p x) ((any_iff p xs).1 (y, later, k))
  ],
)
  where
    first_of : p x ≡ true → (p x || any p xs) ≡ true
    first_of h = rw h refl

    later_of : (b : Bool) → any p xs ≡ true → (b || any p xs) ≡ true
    later_of b h = ground arith

HasCooled-iff :
    (now : Time) (until : Option Time)
    → (is_none_or until (λ u. leb u now) ≡ true) ↔ HasCooled now until
HasCooled-iff now none = (λ h. tt, λ h. refl)
HasCooled-iff now (some until) = ground arith

is_missing_iff : (o : Option Time) → (is_missing o ≡ true) ↔ (o ≡ none)
is_missing_iff none = (λ h. refl, λ h. refl)
is_missing_iff (some t) = (λ h. cc, λ h. cc)

and_iff : (a b : Bool) → ((a && b) ≡ true) ↔ ((a ≡ true) × (b ≡ true))
and_iff a b = ground arith

same_id : (a b : Uuid) → (a == b) ≡ true → a ≡ b
same_id a b h = ground arith

kept_in : (b : Bool) → not b ≡ true → b ≡ false
kept_in b h = ground arith

module _ (operations : Operations) (now : Time) (profile : String) where
  still : (at span : ℕ) → leb (now - span) at ≡ true → now ≤ at + span
  still at span h = ground arith

  proves_iff :
      (key : KeyRow) (proof : ReceiptRow)
      → (proves operations now profile key proof ≡ true) ↔ IsProof operations now profile key proof
  proves_iff key proof = (
    λ h.
        let (h₁, recent) = (and_iff _ _).0 h in
        let (h₂, valid) = (and_iff _ _).0 h₁ in
        let (is, of_profile) = (and_iff _ _).0 h₂ in
        record {
          of_key = same_id proof.key_id key.id is;
          of_profile = (str_eq_iff _ _).0 of_profile;
          valid = (is_missing_iff _).0 valid;
          recent = still proof.verified_at (operations.proof_freshness_seconds * second) recent;
        },
    λ h. (and_iff _ _).1 (
      (and_iff _ _).1 (
        (and_iff _ _).1 (ground (arith, h.of_key), (str_eq_iff _ _).1 h.of_profile),
        (is_missing_iff _).1 h.valid,
      ),
      ground (arith, h.recent),
    ),
  )

  pub is_candidate_iff :
      (proofs : List ReceiptRow) (key : KeyRow)
      → (is_candidate operations now profile proofs key ≡ true)
        ↔ Passes operations now profile proofs key
  unfolding is_candidate
  is_candidate_iff proofs key = (
    λ h.
        let (h₁, alive) = (and_iff _ _).0 h in
        let (h₂, proved) = (and_iff _ _).0 h₁ in
        let (h₃, cooled) = (and_iff _ _).0 h₂ in
        let (h₄, verified) = (and_iff _ _).0 h₃ in
        let (kept, enabled) = (and_iff _ _).0 h₄ in
        let (r, stands, is) = (any_iff _ _).0 proved in
        record {
          in_service = kept_in key.retired kept;
          enabled = enabled;
          verified = verified;
          cooled = (HasCooled-iff now _).0 cooled;
          proof = (r, stands, (proves_iff key r).0 is);
          alive = alive;
        },
    λ h. (and_iff _ _).1 (
      (and_iff _ _).1 (
        (and_iff _ _).1 (
          (and_iff _ _).1 ((and_iff _ _).1 (ap not h.in_service, h.enabled), h.verified),
          (HasCooled-iff now _).1 h.cooled,
        ),
        (any_iff _ _).1 (h.proof.0, h.proof.1, (proves_iff key _).1 h.proof.2),
      ),
      h.alive,
    ),
  )

pub select_by-All :
    (test : KeyRow → Bool) (all keys : List KeyRow)
    → All (λ key. Stands key all) keys
    → All (λ key. Stands key all × (test key ≡ true)) (select_by test keys)
select_by-All test all [] h = tt
select_by-All test all (key ∷ keys) (stands, later) = elim (Bool-cases (test key)) [
  | inl hit ↦ rw hit ((stands, hit), select_by-All test all keys later)
  | inr miss ↦ rw miss (select_by-All test all keys later)
]

All-Stands-cons :
    (k : KeyRow) (all keys : List KeyRow)
    → All (λ key. Stands key all) keys
    → All (λ key. Stands key (k ∷ all)) keys
All-Stands-cons k all [] h = tt
All-Stands-cons k all (key ∷ keys) (stands, later) = (inr stands, All-Stands-cons k all keys later)

pub All-Stands : (keys : List KeyRow) → All (λ key. Stands key keys) keys
All-Stands [] = tt
All-Stands (key ∷ keys) = (inl refl, All-Stands-cons key keys keys (All-Stands keys))

module _ (P : KeyRow → Type 0) where
  insert_by_slot-All :
      (key : KeyRow) (keys : List KeyRow) → P key → All P keys → All P (insert_by_slot key keys)
  insert_by_slot-All key [] h hs = (h, tt)
  insert_by_slot-All key (k ∷ keys) h (hk, hs) = elim (Bool-cases (leb key.slot_no k.slot_no)) [
    | inl before ↦ rw before (h, (hk, hs))
    | inr after ↦ rw after (hk, insert_by_slot-All key keys h hs)
  ]

  pub by_slot-All : (keys : List KeyRow) → All P keys → All P (by_slot keys)
  unfolding by_slot
  by_slot-All [] h = tt
  by_slot-All (key ∷ keys) (h, hs) = insert_by_slot-All key (by_slot keys) h (by_slot-All keys hs)

  -- What is chosen is one of the candidates, and in the slot whose turn it is if any of them is.
  pub choose-All :
      (next_slot : ℕ) (keys : List KeyRow) (key : KeyRow)
      → All P keys
      → choose next_slot keys ≡ some key
      → P key × ((key.slot_no ≡ next_slot) ⊎ (find_by (λ k. k.slot_no == next_slot) keys ≡ none))
  unfolding choose
  choose-All next_slot keys key h is =
      elim (Option-cases (find_by (λ k. k.slot_no == next_slot) keys)) [
        | inl missing ↦ (head_of keys h (rw missing at is), inr missing)
        | inr (k, found) ↦
            let (pk, turn) = find_by-All P (λ k. k.slot_no == next_slot) keys k h found in
            let same : k ≡ key = some-injective k key (rw found at is) in
            (
              subst P same pk,
              inl (subst (λ (r : KeyRow). r.slot_no ≡ next_slot) same (ground arith)),
            )
      ]
    where
      some-injective : (a b : KeyRow) → some a ≡ some b → a ≡ b
      some-injective a b h = cc

      head_of : (keys : List KeyRow) → All P keys → or_first none keys ≡ some key → P key
      head_of [] h is = cc
      head_of (k ∷ keys) h is = subst P (some-injective k key is) h.0

-- What holds of all candidates in the order of their slots, seen from the table.
module _ (P : KeyRow → Type 0) where
  insert_by_slot-All_of :
      (key : KeyRow) (keys : List KeyRow) → All P (insert_by_slot key keys) → P key × All P keys
  insert_by_slot-All_of key [] h = h
  insert_by_slot-All_of key (k ∷ keys) h = elim (Bool-cases (leb key.slot_no k.slot_no)) [
    | inl before ↦ rw before at h
    | inr after ↦
        let (hk, rest) = rw after at h in
        let (here, more) = insert_by_slot-All_of key keys rest in (here, (hk, more))
  ]

  pub by_slot-All_of : (keys : List KeyRow) → All P (by_slot keys) → All P keys
  unfolding by_slot
  by_slot-All_of [] h = tt
  by_slot-All_of (key ∷ keys) h =
      let (here, more) = insert_by_slot-All_of key (by_slot keys) h in
      (here, by_slot-All_of keys more)

-- Where no candidate has the slot, no key of the table passes in it.
pub unserved_of :
    (test : KeyRow → Bool) (Q : KeyRow → Type 0) (slot : ℕ) (keys : List KeyRow)
    → ((k : KeyRow) → Q k → test k ≡ true)
    → All (λ k. (k.slot_no == slot) ≡ false) (select_by test keys)
    → All (λ k. ¬ ((k.slot_no ≡ slot) × Q k)) keys
unserved_of test Q slot [] complete h = tt
unserved_of test Q slot (key ∷ keys) complete h = elim (Bool-cases (test key)) [
  | inl hit ↦
      let (other, more) = rw hit at h in
      (λ (same, q). elsewhere other same, unserved_of test Q slot keys complete more)
  | inr miss ↦ (
    λ (same, q). clash _ (complete key q) miss,
    unserved_of test Q slot keys complete (rw miss at h),
  )
]
  where
    elsewhere : (key.slot_no == slot) ≡ false → key.slot_no ≡ slot → ⊥
    elsewhere other same = ground arith

    clash : (b : Bool) → b ≡ true → b ≡ false → ⊥
    clash b h k = cc

pub find_by-none :
    (q : KeyRow → Bool) (keys : List KeyRow) → find_by q keys ≡ none → All (λ k. q k ≡ false) keys
find_by-none q [] h = tt
find_by-none q (key ∷ keys) h = elim (Bool-cases (q key)) [
  | inl hit ↦ absurd (found (rw hit at h))
  | inr miss ↦ (miss, find_by-none q keys (rw miss at h))
]
  where
    found : some key ≡ none → ⊥
    found h = cc
