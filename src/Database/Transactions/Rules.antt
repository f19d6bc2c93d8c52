-- ===== src/Database/Transactions/Rules.antt =====
-- What holds of the tables after statements of crates/gateway/src/main.rs that succeed, whatever fails
-- besides.
use nvidia_build_lb.Prelude.{ℕ, ◌+◌, Bool, true, false, not, ◌==◌, if◌then◌else◌, ◌≡◌, refl, subst}
use nvidia_build_lb.Database.Tables.{Tables}
use nvidia_build_lb.Database.Transactions.{
  concurrent_change, unavailable, Engine, Session, DbError, Outcome, done, failed, Tx, ◌>>=◌, ◌>>◌,
  return, execute, raise_if, only_if, expect_one,
}

-- Every run that succeeds takes tables with the first property to tables with the second.
abbrev pub Ensures {ℓ} :
    {A : Type ℓ} → Engine → (Tables → Type 0) → Tx A → (A → Tables → Type 0) → Type ℓ
Ensures {A = A} e P m Q = (s s' : Session) (a : A) → P s.tables → m e s ≡ done a s' → Q a s'.tables

module _ (e : Engine) where
  module _ {ℓ κ} {A : Type ℓ} {B : Type κ} (P : Tables → Type 0) (m : Tx A)
      (Q : A → Tables → Type 0) (f : A → Tx B) (R : B → Tables → Type 0) where
    -- One action after another.
    pub bind-Ensures :
        Ensures e P m Q → ((a : A) → Ensures e (Q a) (f a) R) → Ensures e P (m >>= f) R
    bind-Ensures first then_ s s' b h is = go (m e s) refl is
      where
        go :
            (o : Outcome A)
            → m e s ≡ o
            → (elim o [ failed x ↦ failed x | done a s₁ ↦ f a e s₁ ]) ≡ done b s'
            → R b s'.tables
        go (failed x) at is = cc
        go (done a s₁) at is = then_ a s₁ s' b (first s s₁ a h at) is

  pub raise_if-Ensures :
      (P : Tables → Type 0) (fails : Bool) (x : DbError)
      → Ensures e P (raise_if fails x) (λ _ t. P t × (fails ≡ false))
  raise_if-Ensures P true x s s' a h is = cc
  raise_if-Ensures P false x s s' a h is = (
    subst (λ (o : Outcome (Unit {0})). elim o [ failed x ↦ Unit {0} | done a s ↦ P s.tables ]) is h,
    refl,
  )

  -- A check before an action.
  pub guarded-Ensures {ℓ} :
      {A : Type ℓ} (P : Tables → Type 0) (fails : Bool) (x : DbError) (m : Tx A)
      (Q : A → Tables → Type 0)
      → Ensures e P m Q
      → Ensures e P (raise_if fails x >> m) Q
  guarded-Ensures P true x m Q keep s s' a h is = cc
  guarded-Ensures P false x m Q keep s s' a h is = keep s s' a h is

  pub return-Ensures {ℓ} :
      {A : Type ℓ} (P : Tables → Type 0) (a : A) (Q : A → Tables → Type 0)
      → ((t : Tables) → P t → Q a t)
      → Ensures e P (return a) Q
  return-Ensures {A = A} P a Q keep s s' b h is =
      subst (λ (o : Outcome A). elim o [ failed x ↦ Unit {0} | done b s ↦ Q b s.tables ]) is
        (keep s.tables h)

  -- Two actions that answer nothing.
  pub then-Ensures {ℓ} :
      {A : Type ℓ} (P : Tables → Type 0) (m : Tx (Unit {0})) (Q : Tables → Type 0) (k : Tx A)
      (R : A → Tables → Type 0)
      → Ensures e P m (λ _. Q)
      → Ensures e Q k R
      → Ensures e P (m >> k) R
  then-Ensures P m Q k R first second = bind-Ensures P m (λ _. Q) (λ _. k) R first (λ _. second)

  pub expect_one-Ensures :
      (P : Tables → Type 0) (affected : ℕ) → Ensures e P (expect_one affected) (λ _. P)
  expect_one-Ensures P affected s s' a h is =
      (raise_if-Ensures P (not (affected == 1)) concurrent_change s s' a h is).0

  -- The tables and the answer after a statement are those that the statement computes.
  pub execute-Ensures {ℓ} :
      {A : Type ℓ} (P : Tables → Type 0) (statement : Engine → Tables → Tables × A)
      (Q : A → Tables → Type 0)
      → ((t : Tables) → P t → Q (statement e t).1 (statement e t).0)
      → Ensures e P (execute statement) Q
  unfolding execute
  execute-Ensures {A = A} P statement Q keep s s' a h is =
      go (e.executes s.sent) (e.refuses (statement e s.tables).0) is
    where
      go :
          (runs refused : Bool)
          → (if not runs
              then failed unavailable
              else if refused
              then failed unavailable
              else done
                  (statement e s.tables).1
                  (record { tables = (statement e s.tables).0; sent = s.sent + 1 }))
            ≡ done a s'
          → Q a s'.tables
      go true false is =
          subst (λ (o : Outcome A). elim o [ failed x ↦ Unit {0} | done a s ↦ Q a s.tables ]) is
            (keep s.tables h)
      go true true is = cc
      go false refused is = cc

  pub only_if-Ensures :
      (P : Tables → Type 0) (test : Bool) (m : Tx (Unit {0})) (Q : Tables → Type 0)
      → (test ≡ true → Ensures e P m (λ _. Q))
      → (test ≡ false → (t : Tables) → P t → Q t)
      → Ensures e P (only_if test m) (λ _. Q)
  only_if-Ensures P true m Q run skip s s' a h is = run refl s s' a h is
  only_if-Ensures P false m Q run skip s s' a h is =
      subst (λ (o : Outcome (Unit {0})). elim o [ failed x ↦ Unit {0} | done a s ↦ Q s.tables ]) is
        (skip refl s.tables h)
