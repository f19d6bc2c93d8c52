-- ===== src/Database/Columns.antt =====
-- Comparison of columns in crates/gateway/src/main.rs: `!=` on the fields of a row, `=` and
-- `IS NOT DISTINCT FROM` in its statements.
use nvidia_build_lb.Prelude.{
  String, str_eq, str_eq_iff, Bool, true, false, ◌&&◌, List, [], ◌∷◌, Option, none, some, ◌==◌, ◌≡◌,
  refl, arith,
}
use nvidia_build_lb.Vault.State.{Time}

unfoldable pub same_bool : Bool → Bool → Bool
same_bool true b = b
same_bool false true = false
same_bool false false = true

unfoldable pub same_time : Option Time → Option Time → Bool
same_time none none = true
same_time (some t) (some u) = t == u
same_time _ _ = false

unfoldable pub same_texts : List String → List String → Bool
same_texts [] [] = true
same_texts (a ∷ s) (b ∷ t) = str_eq a b && same_texts s t
same_texts _ _ = false

pub same_bool-eq : (a b : Bool) → same_bool a b ≡ true → a ≡ b
unfolding same_bool
same_bool-eq true b h = ground arith
same_bool-eq false true h = cc
same_bool-eq false false h = refl

pub same_bool_refl : (a : Bool) → same_bool a a ≡ true
unfolding same_bool
same_bool_refl true = refl
same_bool_refl false = refl

pub same_time-eq : (t u : Option Time) → same_time t u ≡ true → t ≡ u
unfolding same_time
same_time-eq none none h = refl
same_time-eq none (some u) h = cc
same_time-eq (some t) none h = cc
same_time-eq (some t) (some u) h = ground arith

pub same_time_refl : (t : Option Time) → same_time t t ≡ true
unfolding same_time
same_time_refl none = refl
same_time_refl (some t) = ground arith

pub same_texts-eq : (s t : List String) → same_texts s t ≡ true → s ≡ t
unfolding same_texts
same_texts-eq [] [] h = refl
same_texts-eq [] (b ∷ t) h = cc
same_texts-eq (a ∷ s) [] h = cc
same_texts-eq (a ∷ s) (b ∷ t) h = ground (arith, str_eq_iff a b, same_texts-eq s t)

pub same_texts_refl : (s : List String) → same_texts s s ≡ true
unfolding same_texts
same_texts_refl [] = refl
same_texts_refl (a ∷ s) = ground (arith, str_eq_iff a a, same_texts_refl s)
