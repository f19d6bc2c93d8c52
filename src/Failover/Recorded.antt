-- ===== src/Failover/Recorded.antt =====
-- What the steps of `multimodal` in crates/gateway/src/proxy.rs leave of the evidence of its request.
use nvidia_build_lb.Prelude.{
  ℕ, String, Bool, true, false, List, Option, none, some, length, ltb, if◌then◌else◌, refl, inl,
  inr,
}
use nvidia_build_lb.Vault.State.{Uuid, Duration}
use nvidia_build_lb.Vault.Custody.{Primitives}
use nvidia_build_lb.Vault.Keys
use nvidia_build_lb.Vault.Keys.{list, credential}
use nvidia_build_lb.Store.{VaultStore, Answer, success, failure, Operation, mutate}
use nvidia_build_lb.Ledger.{AttemptTerminal, RequestTerminal}
use nvidia_build_lb.Evidence.{
  Response, Server, Surroundings, Handler, ◌>>◌, return, reply, or_reply, on_request,
  arm_evidence_failure, reset_drop_recovery, arm_drop_recovery, finish_with_attempt,
}
use nvidia_build_lb.Ledger.Recorded.{Ends}
use nvidia_build_lb.Evidence.Rules.{After, Yields, bind-Yields, then-Yields, or_reply-Yields}
use nvidia_build_lb.Evidence.Settled.{
  IsPending, IsArmed, IsSettled, IsAccounted, status_of, arm_evidence_failure-IsArmed,
  finish_with_attempt-IsSettled,
}
use nvidia_build_lb.Failover.{
  ledger_unavailable, of_answer, on_vault, record_request, record_failure, quarantine_key,
  next_failover_key, attempt_finished, attempt_started, start_evidenced_attempt, end_call,
  start_call, failure_recorded,
}
use nvidia_build_lb.Failover.Attempts
use nvidia_build_lb.Failover.Attempts.{
  Answered, Provider, Progress, at_first, noted, as_status, is_success, is_auth_failure,
  upstream_error, is_first, key_attempts, answered, answer_request, last_request, last_response,
  last_recovery, content_type_of,
}

module _ (p : Primitives) (around : Surroundings) where
  abbrev pub Pending : Server p.File → Type 0
  Pending s = IsPending s

  abbrev pub Armed : Server p.File → Type 0
  Armed s = IsArmed s

  abbrev pub Accounted : Response → Server p.File → Type 0
  Accounted r s = IsAccounted r s

  -- A step that keeps what is armed.
  abbrev pub Keeps {ℓ} : {A : Type ℓ} → Handler p.File A → Type 0
  Keeps m = Yields Armed m (λ _. Armed) Accounted

  on_vault-Keeps {ℓ} :
      {A : Type ℓ} (r : Response) (operation : Operation p A)
      → Keeps (on_vault p around r operation)
  unfolding on_vault
  on_vault-Keeps {A = A} r operation s armed =
      go (mutate p (around.setting s.calls) operation s.store)
    where
      go : (x : VaultStore p.File × Answer A) → After (λ _. Armed) Accounted (of_answer s r x)
      go (store, success a) = armed
      go (store, failure x) = inr armed

  pub record_failure-Keeps :
      (id : Uuid) (hint : Option Duration) → Keeps (record_failure p around id hint)
  unfolding record_failure
  record_failure-Keeps id hint =
      on_vault-Keeps (ledger_unavailable 503) (failure_recorded p around id hint)

  pub record_request-Keeps : (id : Uuid) → Keeps (record_request p around id)
  unfolding record_request
  record_request-Keeps id =
      on_vault-Keeps (ledger_unavailable 500) (λ env. Keys.record_request p env id)

  pub quarantine_key-Keeps : (id : Uuid) → Keeps (quarantine_key p around id)
  unfolding quarantine_key
  quarantine_key-Keeps id =
      on_vault-Keeps (ledger_unavailable 503) (λ env. Keys.quarantine p env id)

  attempt_finished-Keeps :
      (key_id : Uuid) (attempt : AttemptTerminal) → Keeps (attempt_finished p around key_id attempt)
  unfolding attempt_finished
  attempt_finished-Keeps key_id attempt =
      bind-Yields Accounted Armed (on_request (end_call p around key_id attempt)) (λ _. Armed)
        (or_reply (ledger_unavailable 500)) (λ _. Armed) (λ s armed. armed)
        (λ recorded.
          or_reply-Yields Accounted Armed (ledger_unavailable 500) recorded Armed (λ s is h. h)
            (λ s h. inr h))

  pub start_evidenced_attempt-Pending :
      (profile : String) (key_id : Uuid)
      → Yields Pending (start_evidenced_attempt p around profile key_id) (λ _. Pending) Accounted
  unfolding start_evidenced_attempt attempt_started reset_drop_recovery arm_drop_recovery
  start_evidenced_attempt-Pending profile key_id =
      then-Yields Accounted Pending (arm_evidence_failure none 0) Armed
        (attempt_started p around profile key_id >> reset_drop_recovery) (λ _. Pending)
        (arm_evidence_failure-IsArmed around none 0)
        (then-Yields Accounted Armed (attempt_started p around profile key_id) Armed
          reset_drop_recovery (λ _. Pending)
          (bind-Yields Accounted Armed (on_request (start_call p around profile key_id))
            (λ _. Armed) (or_reply (ledger_unavailable 500)) (λ _. Armed) (λ s armed. armed)
            (λ recorded.
              or_reply-Yields Accounted Armed (ledger_unavailable 500) recorded Armed (λ s is h. h)
                (λ s h. inr h)))
          (λ s armed. armed.0))

  next_failover_key-Keeps :
      (profile : String) (attempted : List Uuid)
      → Keeps (next_failover_key p around profile attempted)
  unfolding next_failover_key
  next_failover_key-Keeps profile attempted s armed = armed

  pub next_failover_key-Pending :
      (profile : String) (attempted : List Uuid)
      → Yields Pending (next_failover_key p around profile attempted) (λ _. Pending) Accounted
  unfolding next_failover_key
  next_failover_key-Pending profile attempted s pending = pending

  -- Before a step that may fail the failure of the evidence is armed.
  pub Armed-then {ℓ} :
      {A : Type ℓ} (bytes : ℕ) (k : Handler p.File A) (Q : A → Server p.File → Type 0)
      → Yields Armed k Q Accounted
      → Yields Pending (arm_evidence_failure none bytes >> k) Q Accounted
  Armed-then bytes k Q h =
      then-Yields Accounted Pending (arm_evidence_failure none bytes) Armed k Q
        (arm_evidence_failure-IsArmed around none bytes) h

  module _ (provider : Provider) (path profile : String) (attempts : ℕ) where
    abbrev pub go_to_next : Uuid → AttemptTerminal → Bool → Option Uuid → Handler p.File Uuid
    go_to_next = Attempts.go_to_next p around provider path profile attempts

    abbrev pub Goes : Handler p.File (Option Progress) → Type 0
    Goes m = Yields Pending m (λ _. Pending) Accounted

    -- A request that ends with the final attempt, told to the client with the same status.
    pub finish_then_reply {ℓ} :
        {A : Type ℓ} (key_id : Uuid) (attempt : AttemptTerminal) (request : RequestTerminal)
        (r : Response) (Q : A → Server p.File → Type 0)
        → Ends request (status_of r)
        → Yields Pending (finish_with_attempt around key_id attempt request >> reply r) Q Accounted
    finish_then_reply key_id attempt request r Q told =
        then-Yields Accounted Pending (finish_with_attempt around key_id attempt request)
          (IsSettled (status_of r)) (reply r) Q
          (finish_with_attempt-IsSettled around key_id attempt request (status_of r) told)
          (λ s settled. inl settled)

    go_to_next-Pending :
        (key_id : Uuid) (attempt : AttemptTerminal) (all_limited : Bool) (next : Option Uuid)
        → Yields Armed (go_to_next key_id attempt all_limited next) (λ _. Pending) Accounted
    unfolding reset_drop_recovery arm_drop_recovery
    go_to_next-Pending key_id attempt all_limited (some next) =
        then-Yields Accounted Armed (attempt_finished p around key_id attempt) Armed
          (reset_drop_recovery >> return next) (λ _. Pending)
          (attempt_finished-Keeps key_id attempt) (λ s armed. armed.0)
    go_to_next-Pending key_id attempt true none = λ s armed.
        finish_then_reply key_id attempt (last_request true)
          (last_response true (Attempts.wait_of p around provider path profile attempts s))
          (λ (_ : Uuid). Pending) (refl, refl) s armed.0
    go_to_next-Pending key_id attempt false none = λ s armed.
        finish_then_reply key_id attempt (last_request false)
          (last_response false (Attempts.wait_of p around provider path profile attempts s))
          (λ (_ : Uuid). Pending) (refl, refl) s armed.0

    find_next-Keeps :
        (attempted : List Uuid)
        → Keeps (Attempts.find_next p around provider path profile attempts attempted)
    find_next-Keeps attempted = go (ltb (length attempted) attempts)
      where
        go :
            (b : Bool)
            → Keeps (if b then next_failover_key p around profile attempted else return none)
        go true = next_failover_key-Keeps profile attempted
        go false = λ s armed. armed

    pub retry-Pending :
        (l : Progress) (id : Uuid) (attempt : AttemptTerminal) (all_limited : Bool)
        → Yields Armed
            (Attempts.retry p around provider path profile attempts l id attempt all_limited)
            (λ _. Pending)
            Accounted
    unfolding Attempts.finish_retryable_or_terminal
    retry-Pending l id attempt all_limited =
        bind-Yields Accounted Armed
          (Attempts.finish_retryable_or_terminal p around provider path profile attempts l.attempted
            id attempt all_limited)
          (λ _. Pending) (λ next. return (some (record l { next_key_id = some next })))
          (λ _. Pending)
          (bind-Yields Accounted Armed
            (Attempts.find_next p around provider path profile attempts l.attempted) (λ _. Armed)
            (go_to_next id attempt all_limited) (λ _. Pending) (find_next-Keeps l.attempted)
            (go_to_next-Pending id attempt all_limited))
          (λ next s pending. pending)
