-- ===== src/Ledger/Recorded.antt =====
-- What the ledger of crates/gateway/src tells of a request after its final statements.
use nvidia_build_lb.Prelude.{
  ℕ, ◌+◌, Bool, true, false, not, ◌&&◌, ◌||◌, List, [], ◌∷◌, Option, none, some, any, count_by,
  str_eq, ◌==◌, if◌then◌else◌, ◌≡◌, refl, ap, arith,
}
use nvidia_build_lb.Vault.State.{Uuid}
use nvidia_build_lb.Database.Tables.{Tables, RequestRow, AttemptRow}
use nvidia_build_lb.Database.Transactions.{
  Engine, Tx, ◌>>=◌, ◌>>◌, execute, update_where, expect_one, transaction, concurrent_change,
}
use nvidia_build_lb.Database.Transactions.Rules.{
  Ensures, bind-Ensures, execute-Ensures, raise_if-Ensures,
}
use nvidia_build_lb.Database.Delta.Synced.{transaction-done}
use nvidia_build_lb.Database.Permits.{release_downstream_permit}
use nvidia_build_lb.Ledger.{
  AttemptTerminal, RequestTerminal, is_started, request_ended, finish_request, find_profile,
  finish_attempt,
}
use nvidia_build_lb.Ledger.Operations.{
  Written, wrote, need, end_request, renew_if, after_attempt, after_row, after_read, terminal_steps,
  request_and_attempt_finished, Recovery, request_of, recovery_steps, close_attempts,
  proxy_request_and_open_attempts_finished,
}

abbrev same_status : Option ℕ → ℕ → Bool
same_status none status = false
same_status (some n) status = n == status

-- A row that tells the outcome of a request with a status.
abbrev told : Uuid → ℕ → RequestRow → Bool
told id status row =
    row.request_id == id && not (str_eq row.outcome "started") && same_status row.status_code status

abbrev pub Tells : Uuid → ℕ → Tables → Type 0
Tells id status t = any (told id status) t.proxy_requests ≡ true

-- An outcome that ends a request, with a status.
abbrev pub Ends : RequestTerminal → ℕ → Type 0
Ends request status =
    (request.status_code ≡ some status) × (str_eq request.outcome "started" ≡ false)

or_true : (a b : Bool) → b ≡ true → a || b ≡ true
or_true true b h = refl
or_true false b h = h

update_started :
    (id : Uuid) (status : ℕ) (set : RequestRow → RequestRow)
    → ((row : RequestRow) → is_started id row ≡ true → told id status (set row) ≡ true)
    → (rows : List RequestRow) → count_by (is_started id) rows ≡ 1
    → any (told id status) (update_where (is_started id) set rows) ≡ true
update_started id status set tells [] h = ground arith
update_started id status set tells (row ∷ rows) h =
    go (is_started id row) refl (update_started id status set tells rows) h
  where
    later : Bool
    later = any (told id status) (update_where (is_started id) set rows)

    go :
        (b : Bool)
        → is_started id row ≡ b
        → (count_by (is_started id) rows ≡ 1 → later ≡ true)
        → (if b then 1 else 0) + count_by (is_started id) rows ≡ 1
        → told id status (if b then set row else row) || later ≡ true
    go true at more is = ap (λ (a : Bool). a || later) (tells row at)
    go false at more is = or_true (told id status row) later (more (omega (arith, is)))

finish_request-Tells :
    (id : Uuid) (status : ℕ) (request : RequestTerminal) (e : Engine) (t : Tables)
    → Ends request status
    → (finish_request id request e t).1 ≡ 1
    → Tells id status (finish_request id request e t).0
finish_request-Tells id status request e t ends one =
    update_started id status (request_ended e request t) tells t.proxy_requests one
  where
    tells :
        (row : RequestRow)
        → is_started id row ≡ true
        → told id status (request_ended e request t row) ≡ true
    tells row at = rw (ends.0, ends.1) (ground arith)

module _ (e : Engine) (id : Uuid) (status : ℕ) where
  abbrev Anything : Tables → Type 0
  Anything t = Unit {0}

  -- A step whose effect on the tables does not matter.
  passing {ℓ} : {A : Type ℓ} (m : Tx A) → Ensures e Anything m (λ _. Anything)
  passing m s s' a h is = tt

  end_request-Tells :
      (request : RequestTerminal)
      → Ends request status
      → Ensures e Anything (end_request id request) (λ _. Tells id status)
  end_request-Tells request ends =
      bind-Ensures e Anything (execute (finish_request id request)) Affected expect_one
        (λ _. Tells id status)
        (execute-Ensures e Anything (finish_request id request) Affected
          (λ t h one. finish_request-Tells id status request e t ends one))
        expected
    where
      Affected : ℕ → Tables → Type 0
      Affected n t = n ≡ 1 → Tells id status t

      expected : (n : ℕ) → Ensures e (Affected n) (expect_one n) (λ _. Tells id status)
      expected n s s' a h is =
          let both = raise_if-Ensures e (Affected n) (not (n == 1)) concurrent_change s s' a h is in
          both.0 (ground (arith, both.1))

  -- A last step that tells makes the whole tell.
  last {ℓ} :
      {A : Type ℓ} (m : Tx A) (f : A → Tx (Unit {0}))
      → ((a : A) → Ensures e Anything (f a) (λ _. Tells id status))
      → Ensures e Anything (m >>= f) (λ _. Tells id status)
  last m f tells =
      bind-Ensures e Anything m (λ _. Anything) f (λ _. Tells id status) (passing m) tells

  module _ (owner : Option Uuid) (key_id : Uuid) (attempt : AttemptTerminal)
      (request : RequestTerminal) (ends : Ends request status) where
    after_attempt-Tells :
        (found : AttemptRow) (n : ℕ)
        → Ensures e Anything
            (after_attempt owner id key_id attempt request found n)
            (λ _. Tells id status)
    after_attempt-Tells found n =
        last (expect_one n)
          (λ _. renew_if owner id key_id attempt found.profile_id >> end_request id request)
          (λ _.
            last (renew_if owner id key_id attempt found.profile_id) (λ _. end_request id request)
              (λ _. end_request-Tells request ends))

    after_row-Tells :
        (found : AttemptRow)
        → Ensures e Anything
            (after_row owner id key_id attempt request found)
            (λ _. Tells id status)
    after_row-Tells found =
        last (execute (finish_attempt owner id key_id attempt))
          (after_attempt owner id key_id attempt request found) (after_attempt-Tells found)

    after_read-Tells :
        (row : Option AttemptRow)
        → Ensures e Anything (after_read owner id key_id attempt request row) (λ _. Tells id status)
    after_read-Tells row =
        last (need row) (after_row owner id key_id attempt request) after_row-Tells

    pub terminal_steps-Tells :
        Ensures e Anything (terminal_steps owner id key_id attempt request) (λ _. Tells id status)
    unfolding terminal_steps
    terminal_steps-Tells =
        last (execute (find_profile owner id key_id)) (after_read owner id key_id attempt request)
          after_read-Tells

  pub recovery_steps-Tells :
      (owner : Option Uuid) (recovery : Recovery)
      → Ends (request_of recovery) status
      → Ensures e Anything (recovery_steps owner id recovery) (λ _. Tells id status)
  unfolding recovery_steps
  recovery_steps-Tells owner recovery ends =
      last (execute (close_attempts owner id recovery)) (λ _. end_request id (request_of recovery))
        (λ _. end_request-Tells (request_of recovery) ends)

-- What the database tells, if there is one.
abbrev pub Known : Uuid → ℕ → Option Tables → Type 0
Known id status none = Unit {0}
Known id status (some t) = Tells id status t

module _ (id : Uuid) (status : ℕ) where
  wrote-Known :
      (e : Engine) (m : Tx (Unit {0})) (t : Tables)
      → Ensures e (Anything e id status) m (λ _. Tells id status)
      → (wrote (transaction e m t)).1 ≡ true
      → Known id status (wrote (transaction e m t)).0
  wrote-Known e m t tells = go (transaction e m t).result refl
    where
      go :
          (o : Option (Unit {0}))
          → (transaction e m t).result ≡ o
          → elim o [ none ↦ false | some a ↦ true ] ≡ true
          → Tells id status (transaction e m t).tables
      go none at is = cc
      go (some a) at is =
          transaction-done e m t (λ _. Tells id status) (λ s s' b h. tells s s' b tt) a at

  pub request_and_attempt_finished-Known :
      (owner : Option Uuid) (key_id : Uuid) (e : Engine) (attempt : AttemptTerminal)
      (request : RequestTerminal) (database : Option Tables)
      → Ends request status
      → (request_and_attempt_finished owner id key_id e attempt request database).1 ≡ true
      → Known id status (request_and_attempt_finished owner id key_id e attempt request database).0
  unfolding request_and_attempt_finished
  request_and_attempt_finished-Known owner key_id e attempt request none ends is = tt
  request_and_attempt_finished-Known owner key_id e attempt request (some t) ends is =
      wrote-Known e (terminal_steps owner id key_id attempt request) t
        (terminal_steps-Tells e id status owner key_id attempt request ends) is

  pub open_attempts_finished-Known :
      (e : Engine) (owner : Option Uuid) (recovery : Recovery) (database : Option Tables)
      → Ends (request_of recovery) status
      → (proxy_request_and_open_attempts_finished e owner id recovery database).1 ≡ true
      → Known id status (proxy_request_and_open_attempts_finished e owner id recovery database).0
  unfolding proxy_request_and_open_attempts_finished
  open_attempts_finished-Known e owner recovery none ends is = tt
  open_attempts_finished-Known e none recovery (some t) ends is = cc
  open_attempts_finished-Known e (some owner) recovery (some t) ends is =
      wrote-Known e (recovery_steps (some owner) id recovery) t
        (recovery_steps-Tells e id status (some owner) recovery ends) is

  either-Known :
      (b : Bool) (x y : Written)
      → Known id status x.0
      → Known id status y.0
      → Known id status (if b then x else y).0
  either-Known true x y h k = h
  either-Known false x y h k = k

  pub release-Known :
      (e : Engine) (request_id : Uuid) (database : Option Tables)
      → Known id status database
      → Known id status (release_downstream_permit e request_id database).0
  unfolding release_downstream_permit
  release-Known e request_id none h = tt
  release-Known e request_id (some t) h = either-Known (e.executes 0) _ _ h h
