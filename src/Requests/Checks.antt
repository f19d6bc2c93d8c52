-- ===== src/Requests/Checks.antt =====
-- What a chain of checks that passes has passed (crates/gateway/src/proxy.rs).
use nvidia_build_lb.Prelude.{Bool, true, false, Option, none, some, ◌≡◌, refl, ◌↔◌}
use nvidia_build_lb.Requests.{Refusal, Checked, pass, refuse, refuse_if, ok_or_else, ◌>>=◌, ◌>>◌}

module _ {ℓ} {B : Type ℓ} (b : B) where
  pub bind-passes {κ} :
      {A : Type κ} (c : Checked A) (f : A → Checked B)
      → ((c >>= f) ≡ pass b) ↔ ((a : A) × (c ≡ pass a) × (f a ≡ pass b))
  bind-passes (pass a) f = (λ e. (a, refl, e), λ h. cc)
  bind-passes (refuse r) f = (λ e. cc, λ h. cc)

  pub then-passes :
      (c : Checked (Unit {0})) (k : Checked B)
      → ((c >> k) ≡ pass b) ↔ ((c ≡ pass tt) × (k ≡ pass b))
  then-passes (pass u) k = (λ e. (refl, e), λ h. h.1)
  then-passes (refuse r) k = (λ e. cc, λ h. cc)

pub ok_or_else-passes {ℓ} :
    {A : Type ℓ} (o : Option A) (r : Refusal) (a : A) → (ok_or_else o r ≡ pass a) ↔ (o ≡ some a)
ok_or_else-passes none r a = (λ e. cc, λ e. cc)
ok_or_else-passes (some x) r a = (λ e. cc, λ e. cc)

pub refuse_if-passes : (b : Bool) (r : Refusal) → (refuse_if b r ≡ pass tt) ↔ (b ≡ false)
refuse_if-passes true r = (λ e. cc, λ e. cc)
refuse_if-passes false r = (λ e. refl, λ e. refl)
