-- ===== src/Evidence/Rules.antt =====
-- What holds after a step of a handler of crates/gateway/src, whether it goes on or returns a response.
use nvidia_build_lb.Prelude.{Bool, true, false, ◌≡◌, refl}
use nvidia_build_lb.Evidence.{
  Response, Server, Step, go_on, respond, Handler, and_so_on, ◌>>=◌, ◌>>◌, or_reply,
}

abbrev pub After {ℓ} :
    {F : Type 0} {A : Type ℓ}
    → (A → Server F → Type 0)
    → (Response → Server F → Type 0)
    → Server F × Step A
    → Type 0
After Q R (s, go_on a) = Q a s
After Q R (s, respond r) = R r s

-- From servers with the first property, a step goes on with the second or responds with the third.
abbrev pub Yields {ℓ} :
    {F : Type 0} {A : Type ℓ}
    → (Server F → Type 0)
    → Handler F A
    → (A → Server F → Type 0)
    → (Response → Server F → Type 0)
    → Type 0
Yields {F = F} P m Q R = (s : Server F) → P s → After Q R (m s)

module _ {F : Type 0} (R : Response → Server F → Type 0) where
  pub bind-Yields {ℓ κ} :
      {A : Type ℓ} {B : Type κ} (P : Server F → Type 0) (m : Handler F A)
      (Q : A → Server F → Type 0) (f : A → Handler F B) (Q' : B → Server F → Type 0)
      → Yields P m Q R
      → ((a : A) → Yields (Q a) (f a) Q' R)
      → Yields P (m >>= f) Q' R
  bind-Yields {A = A} P m Q f Q' first then_ s h = go (m s) (first s h)
    where
      go : (x : Server F × Step A) → After Q R x → After Q' R (and_so_on f x)
      go (s', go_on a) k = then_ a s' k
      go (s', respond r) k = k

  pub then-Yields {ℓ κ} :
      {A : Type ℓ} {B : Type κ} (P : Server F → Type 0) (m : Handler F A) (Q : Server F → Type 0)
      (k : Handler F B) (Q' : B → Server F → Type 0)
      → Yields P m (λ _. Q) R
      → Yields Q k Q' R
      → Yields P (m >> k) Q' R
  then-Yields P m Q k Q' first second = bind-Yields P m (λ _. Q) (λ _. k) Q' first (λ _. second)

  pub or_reply-Yields :
      (P : Server F → Type 0) (r : Response) (succeeded : Bool) (Q : Server F → Type 0)
      → ((s : Server F) → succeeded ≡ true → P s → Q s)
      → ((s : Server F) → P s → R r s)
      → Yields P (or_reply r succeeded) (λ _. Q) R
  or_reply-Yields P r true Q done failed s h = done s refl h
  or_reply-Yields P r false Q done failed s h = failed s h
