-- ===== src/Vault/Scopes/Canonical.antt =====
-- What `canonical_scopes` of crates/core/src/lib.rs returns, and which requests it accepts.
use nvidia_build_lb.Prelude.{
  ◌≤◌, String, true, false, not, List, [], ◌∷◌, length, any, ==_iff, ◌≡◌, refl, sym, ◌∙◌, ap, ◌↔◌,
  ◌≢◌, arith,
}
use nvidia_build_lb.Vault.State.{ok}
use nvidia_build_lb.Vault.Scopes.{contains, is_scope, sort_by_key, dedup, canonical_scopes}
use nvidia_build_lb.Vault.Scopes.Order.{
  Sorted, IsIncreasing, AreScopes, IsDistinct, All-sort, Sorted-sort, contains-sort, length-sort,
  IsDistinct-sort, dedup_after-full, dedup_after-distinct, increase, IsIncreasing-IsDistinct,
  sort-IsIncreasing,
}

any-not : (xs : List String) → (any (λ s. not (is_scope s)) xs ≡ false) ↔ AreScopes xs
any-not [] = ground arith
any-not (x ∷ xs) = ground (arith, any-not xs)

-- A list that keeps its length under `dedup` is kept, and if it is sorted it increases strictly.
dedup-full :
    (xs : List String)
    → length (dedup xs) ≡ length xs
    → AreScopes xs
    → Sorted xs
    → (dedup xs ≡ xs) × IsIncreasing xs
unfolding dedup
dedup-full [] h a s = (refl, tt)
dedup-full (x ∷ xs) h a s =
    let (kept, apart) = dedup_after-full x xs (omega arith) in
    (ap (λ (l : List String). x ∷ l) kept, increase x xs a.0 a.1 s apart)

dedup-distinct : (xs : List String) → IsDistinct xs → dedup xs ≡ xs
unfolding dedup
dedup-distinct [] d = refl
dedup-distinct (x ∷ xs) d = ap (λ (l : List String). x ∷ l) (dedup_after-distinct x xs d.0 d.1)

-- The requests that are well formed.
abbrev pub IsRequest : List String → Type 0
IsRequest scopes = (scopes ≢ []) × (length scopes ≤ 6) × AreScopes scopes × IsDistinct scopes

-- A successful call, taken apart.
canonical_scopes-inverse :
    (scopes r : List String)
    → canonical_scopes scopes ≡ ok r
    → (scopes ≢ [])
      × (length scopes ≤ 6)
      × AreScopes scopes
      × (length (dedup (sort_by_key scopes)) ≡ length scopes)
      × (r ≡ dedup (sort_by_key scopes))
unfolding canonical_scopes
canonical_scopes-inverse [] r e = cc
canonical_scopes-inverse (s ∷ rest) r e = ground (
  arith,
  any-not (s ∷ rest),
  ==_iff (length (dedup (sort_by_key (s ∷ rest)))) (length (s ∷ rest)),
)

canonical_scopes-sorted :
    (scopes r : List String)
    → canonical_scopes scopes ≡ ok r
    → (r ≡ sort_by_key scopes) × IsIncreasing (sort_by_key scopes)
canonical_scopes-sorted scopes r e =
    let (_, _, valid, full, is) = canonical_scopes-inverse scopes r e in
    let (kept, up) =
      dedup-full (sort_by_key scopes) (full ∙ sym (length-sort scopes))
        (All-sort (λ s. is_scope s ≡ true) scopes valid) (Sorted-sort scopes) in
    (is ∙ kept, up)

-- An accepted request comes back as its own scopes in the canonical order: the result increases
-- strictly in that order, holds only known scopes, and has the members and the length of the request.
pub canonical_scopes-IsIncreasing :
    (scopes r : List String)
    → canonical_scopes scopes ≡ ok r
    → IsIncreasing r
      × AreScopes r
      × (length r ≡ length scopes)
      × ((s : String) → contains r s ≡ contains scopes s)
canonical_scopes-IsIncreasing scopes r e =
    let (is, up) = canonical_scopes-sorted scopes r e in
    let (_, _, valid, _, _) = canonical_scopes-inverse scopes r e in
    rw is (
      up,
      All-sort (λ s. is_scope s ≡ true) scopes valid,
      length-sort scopes,
      λ s. contains-sort s scopes,
    )

IsRequest-of_accepted : (scopes r : List String) → canonical_scopes scopes ≡ ok r → IsRequest scopes
IsRequest-of_accepted scopes r e =
    let (some_scope, few, valid, _, _) = canonical_scopes-inverse scopes r e in
    let (_, up) = canonical_scopes-sorted scopes r e in
    (some_scope, few, valid, (IsDistinct-sort scopes).0 (IsIncreasing-IsDistinct _ up))

accepted_of_IsRequest :
    (scopes : List String) → IsRequest scopes → canonical_scopes scopes ≡ ok (sort_by_key scopes)
unfolding canonical_scopes
accepted_of_IsRequest [] h = absurd (h.0 refl)
accepted_of_IsRequest (s ∷ rest) h =
    let kept = dedup-distinct (sort_by_key (s ∷ rest)) ((IsDistinct-sort (s ∷ rest)).1 h.3) in
    let size = length-sort (s ∷ rest) in ground (arith, any-not (s ∷ rest), kept, size)

-- Exactly the requests of one to six known scopes without a repetition are accepted.
pub canonical_scopes_iff :
    (scopes : List String)
    → ((r : List String) × (canonical_scopes scopes ≡ ok r)) ↔ IsRequest scopes
canonical_scopes_iff scopes = (
  λ h. IsRequest-of_accepted scopes h.0 h.1,
  λ h. (sort_by_key scopes, accepted_of_IsRequest scopes h),
)

length-positive : (xs : List String) → xs ≢ [] → 1 ≤ length xs
length-positive [] h = absurd (h refl)
length-positive (x ∷ xs) h = omega arith

-- The canonical form of a request is accepted again and is its own canonical form.
pub canonical_scopes_idempotent :
    (scopes r : List String) → canonical_scopes scopes ≡ ok r → canonical_scopes r ≡ ok r
canonical_scopes_idempotent scopes r e =
    let (up, valid, same_length, _) = canonical_scopes-IsIncreasing scopes r e in
    let (some_scope, few, _, _, _) = canonical_scopes-inverse scopes r e in
    let positive = length-positive scopes some_scope in
    accepted_of_IsRequest r (
      λ none_left. absurd (omega (arith, ap length none_left, positive)),
      omega arith,
      valid,
      IsIncreasing-IsDistinct r up,
    )
    ∙ ap ok (sort-IsIncreasing r up)
