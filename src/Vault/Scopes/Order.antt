-- ===== src/Vault/Scopes/Order.antt =====
-- Sorting by the canonical order and removing runs, as `canonical_scopes` of
-- crates/core/src/lib.rs does: what each step keeps.
use nvidia_build_lb.Prelude.{
  ℕ, suc, ◌≤◌, ◌<◌, String, str_eq, str_eq_iff, true, false, ◌||◌, List, [], ◌∷◌, length, leb, some,
  get_elem?, ◌≡◌, refl, sym, ◌∙◌, ap, ◌⊎◌, inl, inr, ◌↔◌, All, arith, Bool-cases, subst,
}
use nvidia_build_lb.Vault.Scopes.{
  scope_order, contains, is_scope, sort_key, insert_by_key, sort_by_key, dedup_after,
}

-- Each key is at most the later ones.
abbrev pub Sorted : List String → Type 0
Sorted [] = Unit {0}
Sorted (x ∷ xs) = All (λ y. sort_key x ≤ sort_key y) xs × Sorted xs

-- Strictly in the canonical order.
abbrev pub IsIncreasing : List String → Type 0
IsIncreasing [] = Unit {0}
IsIncreasing (x ∷ xs) = All (λ y. sort_key x < sort_key y) xs × IsIncreasing xs

abbrev pub AreScopes : List String → Type 0
AreScopes xs = All (λ s. is_scope s ≡ true) xs

abbrev pub IsDistinct : List String → Type 0
IsDistinct [] = Unit {0}
IsDistinct (x ∷ xs) = (contains xs x ≡ false) × IsDistinct xs

is_scope-Listed :
    (s : String)
    → is_scope s ≡ true
    → (s ≡ "models:read")
      ⊎ (s ≡ "chat:write")
      ⊎ (s ≡ "embeddings:write")
      ⊎ (s ≡ "images:write")
      ⊎ (s ≡ "audio:write")
      ⊎ (s ≡ "media:write")
unfolding is_scope
is_scope-Listed s h = ground (
  arith,
  str_eq_iff s "models:read",
  str_eq_iff s "chat:write",
  str_eq_iff s "embeddings:write",
  str_eq_iff s "images:write",
  str_eq_iff s "audio:write",
  str_eq_iff s "media:write",
)

-- The key of a scope finds it again, so scopes with one key are one.
key_finds : (s : String) → is_scope s ≡ true → get_elem? scope_order (sort_key s) ≡ some s
unfolding sort_key
key_finds s h = go (is_scope-Listed s h)
  where
    go :
        (s ≡ "models:read")
          ⊎ (s ≡ "chat:write")
          ⊎ (s ≡ "embeddings:write")
          ⊎ (s ≡ "images:write")
          ⊎ (s ≡ "audio:write")
          ⊎ (s ≡ "media:write")
        → get_elem? scope_order (sort_key s) ≡ some s
    go listed = elim listed [
      | inl e ↦ subst (λ x. get_elem? scope_order (sort_key x) ≡ some x) (sym e) refl
      | inr (inl e) ↦ subst (λ x. get_elem? scope_order (sort_key x) ≡ some x) (sym e) refl
      | inr (inr (inl e)) ↦ subst (λ x. get_elem? scope_order (sort_key x) ≡ some x) (sym e) refl
      | inr (inr (inr (inl e))) ↦
          subst (λ x. get_elem? scope_order (sort_key x) ≡ some x) (sym e) refl
      | inr (inr (inr (inr (inl e)))) ↦
          subst (λ x. get_elem? scope_order (sort_key x) ≡ some x) (sym e) refl
      | inr (inr (inr (inr (inr e)))) ↦
          subst (λ x. get_elem? scope_order (sort_key x) ≡ some x) (sym e) refl
    ]

key_injective :
    (s t : String) → is_scope s ≡ true → is_scope t ≡ true → sort_key s ≡ sort_key t → s ≡ t
key_injective s t hs ht e =
    let left = key_finds s hs in
    let right = key_finds t ht in let both = ap (get_elem? scope_order) e in cc

-- Insertion keeps members, length, validity and distinctness, and sorts.
contains-insert :
    (s t : String) (xs : List String) → contains (insert_by_key s xs) t ≡ contains (s ∷ xs) t
unfolding insert_by_key contains
contains-insert s t [] = refl
contains-insert s t (x ∷ xs) = ground (arith, contains-insert s t xs)

length-insert : (s : String) (xs : List String) → length (insert_by_key s xs) ≡ suc (length xs)
unfolding insert_by_key
length-insert s [] = refl
length-insert s (x ∷ xs) = ground (arith, length-insert s xs)

module _ (P : String → Type 0) where
  All-insert : (s : String) (xs : List String) → P s → All P xs → All P (insert_by_key s xs)
  unfolding insert_by_key
  All-insert s [] p h = (p, tt)
  All-insert s (x ∷ xs) p h = ground (arith, All-insert s xs p h.1)

  pub All-sort : (xs : List String) → All P xs → All P (sort_by_key xs)
  unfolding sort_by_key
  All-sort [] h = tt
  All-sort (x ∷ xs) h = All-insert x (sort_by_key xs) h.0 (All-sort xs h.1)

All-weaken :
    (m n : ℕ) (xs : List String)
    → m ≤ n
    → All (λ y. n ≤ sort_key y) xs
    → All (λ y. m ≤ sort_key y) xs
All-weaken m n [] h k = tt
All-weaken m n (x ∷ xs) h k = (omega arith, All-weaken m n xs h k.1)

Sorted-insert : (s : String) (xs : List String) → Sorted xs → Sorted (insert_by_key s xs)
unfolding insert_by_key
Sorted-insert s [] h = (tt, tt)
Sorted-insert s (x ∷ xs) h = elim (Bool-cases (leb (sort_key s) (sort_key x))) [
  | inl low ↦
      let le : sort_key s ≤ sort_key x = ground arith in
      rw low ((le, All-weaken (sort_key s) (sort_key x) xs le h.0), h)
  | inr high ↦
      rw high
        (All-insert (λ y. sort_key x ≤ sort_key y) s xs (ground arith) h.0, Sorted-insert s xs h.1)
]

pub Sorted-sort : (xs : List String) → Sorted (sort_by_key xs)
unfolding sort_by_key
Sorted-sort [] = tt
Sorted-sort (x ∷ xs) = Sorted-insert x (sort_by_key xs) (Sorted-sort xs)

pub contains-sort : (t : String) (xs : List String) → contains (sort_by_key xs) t ≡ contains xs t
unfolding sort_by_key contains
contains-sort t [] = refl
contains-sort t (x ∷ xs) =
    contains-insert x t (sort_by_key xs) ∙ ap (λ b. str_eq x t || b) (contains-sort t xs)

pub length-sort : (xs : List String) → length (sort_by_key xs) ≡ length xs
unfolding sort_by_key
length-sort [] = refl
length-sort (x ∷ xs) = length-insert x (sort_by_key xs) ∙ ap suc (length-sort xs)

IsDistinct-insert :
    (s : String) (xs : List String) → IsDistinct (insert_by_key s xs) ↔ IsDistinct (s ∷ xs)
unfolding insert_by_key contains
IsDistinct-insert s [] = (λ h. h, λ h. h)
IsDistinct-insert s (x ∷ xs) =
    ground (arith, IsDistinct-insert s xs, contains-insert s x xs, str_eq_iff s x, str_eq_iff x s)

pub IsDistinct-sort : (xs : List String) → IsDistinct (sort_by_key xs) ↔ IsDistinct xs
unfolding sort_by_key
IsDistinct-sort [] = (λ h. h, λ h. h)
IsDistinct-sort (x ∷ xs) =
    ground (arith, IsDistinct-insert x (sort_by_key xs), IsDistinct-sort xs, contains-sort x xs)

-- `dedup` never lengthens a list, and where it keeps the length it keeps the list, which then has no
-- two equal neighbours.
abbrev pub NoRepeat : String → List String → Type 0
NoRepeat kept [] = Unit {0}
NoRepeat kept (x ∷ xs) = (str_eq kept x ≡ false) × NoRepeat x xs

dedup_after-le : (kept : String) (xs : List String) → length (dedup_after kept xs) ≤ length xs
unfolding dedup_after
dedup_after-le kept [] = omega arith
dedup_after-le kept (x ∷ xs) = ground (arith, dedup_after-le kept xs, dedup_after-le x xs)

pub dedup_after-full :
    (kept : String) (xs : List String)
    → length (dedup_after kept xs) ≡ length xs
    → (dedup_after kept xs ≡ xs) × NoRepeat kept xs
unfolding dedup_after
dedup_after-full kept [] h = (refl, tt)
dedup_after-full kept (x ∷ xs) h = ground (arith, dedup_after-le kept xs, dedup_after-full x xs)

contains-false_iff :
    (x : String) (xs : List String) → (contains xs x ≡ false) ↔ All (λ y. str_eq y x ≡ false) xs
unfolding contains
contains-false_iff x [] = ground arith
contains-false_iff x (y ∷ ys) = ground (arith, contains-false_iff x ys)

pub dedup_after-distinct :
    (kept : String) (xs : List String)
    → contains xs kept ≡ false
    → IsDistinct xs
    → dedup_after kept xs ≡ xs
unfolding dedup_after contains
dedup_after-distinct kept [] h d = refl
dedup_after-distinct kept (x ∷ xs) h d =
    ground (arith, str_eq_iff kept x, str_eq_iff x kept, dedup_after-distinct x xs d.0 d.1)

-- A sorted list of scopes without equal neighbours increases strictly.
pub increase :
    (kept : String) (xs : List String)
    → is_scope kept ≡ true
    → AreScopes xs
    → Sorted (kept ∷ xs)
    → NoRepeat kept xs
    → IsIncreasing (kept ∷ xs)
increase kept [] hk hs s n = (tt, tt)
increase kept (x ∷ xs) hk hs s n =
    let lt : sort_key kept < sort_key x =
      ground (arith, key_injective kept x hk hs.0, str_eq_iff kept x) in
    (
      (lt, All-weaken (suc (sort_key kept)) (sort_key x) xs lt s.1.0),
      increase x xs hs.0 hs.1 s.1 n.1,
    )

-- A strictly increasing list has no repetition, and sorting leaves it alone.
IsIncreasing-absent :
    (x : String) (xs : List String) → All (λ y. sort_key x < sort_key y) xs → contains xs x ≡ false
unfolding contains
IsIncreasing-absent x [] h = refl
IsIncreasing-absent x (y ∷ ys) h = ground (arith, str_eq_iff y x, IsIncreasing-absent x ys h.1)

pub IsIncreasing-IsDistinct : (xs : List String) → IsIncreasing xs → IsDistinct xs
IsIncreasing-IsDistinct [] h = tt
IsIncreasing-IsDistinct (x ∷ xs) h = (IsIncreasing-absent x xs h.0, IsIncreasing-IsDistinct xs h.1)

insert-least :
    (x : String) (xs : List String)
    → All (λ y. sort_key x < sort_key y) xs
    → insert_by_key x xs ≡ x ∷ xs
unfolding insert_by_key
insert-least x [] h = refl
insert-least x (y ∷ ys) h = ground arith

pub sort-IsIncreasing : (xs : List String) → IsIncreasing xs → sort_by_key xs ≡ xs
unfolding sort_by_key
sort-IsIncreasing [] h = refl
sort-IsIncreasing (x ∷ xs) h =
    ap (insert_by_key x) (sort-IsIncreasing xs h.1) ∙ insert-least x xs h.0
