-- ===== src/Vault/Custody/Lists.antt =====
-- What `iter_mut().find(..)` and the statements on the element found keep of the list.
use nvidia_build_lb.Prelude.{
  ◌≤◌, Bytes, Bool, true, false, ◌||◌, List, [], ◌∷◌, ◌++◌, map, any, count_by, All, ◌≡◌, refl, ap,
  sym, same, same_iff, inl, inr, Bool-cases, arith,
}
use nvidia_build_lb.Vault.State.{Error, Result, ok, err}
use nvidia_build_lb.Vault.Custody.{modify_first, replaced}

module _ {ℓ κ} {A : Type ℓ} {B : Type κ} (test : A → Bool) (f : A → Result (A × B))
    (missing : Error) where
  module _ {ι} (P : A → Type ι)
      (keep : (a a' : A) (b : B) → test a ≡ true → f a ≡ ok (a', b) → P a → P a') where
    replaced-All :
        (x : A) (xs : List A) (r : Result (A × B))
        → test x ≡ true
        → f x ≡ r
        → All P (x ∷ xs)
        → All P (replaced x xs r).0
    replaced-All x xs (err e) hit is h = h
    replaced-All x xs (ok (x', b)) hit is h = (keep x x' b hit is h.0, h.1)

    pub modify_first-All : (xs : List A) → All P xs → All P (modify_first test f missing xs).0
    unfolding modify_first
    modify_first-All [] h = tt
    modify_first-All (x ∷ xs) h = elim (Bool-cases (test x)) [
      | inl hit ↦ rw hit (replaced-All x xs (f x) hit refl h)
      | inr miss ↦ rw miss (h.0, modify_first-All xs h.1)
    ]

  module _ (q : A → Bool)
      (keep : (a a' : A) (b : B)
        → test a ≡ true
        → f a ≡ ok (a', b)
        → q a' ≡ true
        → q a ≡ true) where
    replaced-count :
        (x : A) (xs : List A) (r : Result (A × B))
        → test x ≡ true
        → f x ≡ r
        → count_by q (replaced x xs r).0 ≤ count_by q (x ∷ xs)
    replaced-count x xs (err e) hit is = omega arith
    replaced-count x xs (ok (x', b)) hit is = ground (arith, keep x x' b hit is)

    pub modify_first-count :
        (xs : List A) → count_by q (modify_first test f missing xs).0 ≤ count_by q xs
    unfolding modify_first
    modify_first-count [] = omega arith
    modify_first-count (x ∷ xs) = elim (Bool-cases (test x)) [
      | inl hit ↦ rw hit (replaced-count x xs (f x) hit refl)
      | inr miss ↦ rw miss (omega (arith, modify_first-count xs))
    ]

  module _ {ι} {C : Type ι} (g : A → C)
      (keep : (a a' : A) (b : B) → test a ≡ true → f a ≡ ok (a', b) → g a' ≡ g a) where
    replaced-map :
        (x : A) (xs : List A) (r : Result (A × B))
        → test x ≡ true
        → f x ≡ r
        → map g (replaced x xs r).0 ≡ map g (x ∷ xs)
    replaced-map x xs (err e) hit is = refl
    replaced-map x xs (ok (x', b)) hit is = ap (λ (y : C). y ∷ map g xs) (keep x x' b hit is)

    pub modify_first-map : (xs : List A) → map g (modify_first test f missing xs).0 ≡ map g xs
    unfolding modify_first
    modify_first-map [] = refl
    modify_first-map (x ∷ xs) = elim (Bool-cases (test x)) [
      | inl hit ↦ rw hit (replaced-map x xs (f x) hit refl)
      | inr miss ↦ rw miss (ap (λ (l : List C). g x ∷ l) (modify_first-map xs))
    ]

-- Byte strings without a repetition.
abbrev pub holds : List Bytes → Bytes → Bool
holds seen s = any (λ t. same t s) seen

abbrev pub AreDistinct : List Bytes → Type 0
AreDistinct [] = Unit {0}
AreDistinct (s ∷ more) = (holds more s ≡ false) × AreDistinct more

pub holds-append :
    (seen more : List Bytes) (s : Bytes) → holds (seen ++ more) s ≡ holds seen s || holds more s
holds-append [] more s = refl
holds-append (t ∷ seen) more s = ground (arith, holds-append seen more s)

same-sym : (s t : Bytes) → same s t ≡ true → same t s ≡ true
same-sym s t h = (same_iff t s).1 (sym ((same_iff s t).0 h))

-- A new byte string may go to the end.
pub AreDistinct-append :
    (seen : List Bytes) (s : Bytes)
    → AreDistinct seen
    → holds seen s ≡ false
    → AreDistinct (seen ++ s ∷ [])
AreDistinct-append [] s d h = (refl, tt)
AreDistinct-append (t ∷ seen) s d h =
    ground (arith, holds-append seen (s ∷ []) t, same-sym s t, AreDistinct-append seen s d.1)
