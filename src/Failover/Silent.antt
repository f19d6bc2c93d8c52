-- ===== src/Failover/Silent.antt =====
-- The steps of `multimodal` in crates/gateway/src/proxy.rs that call no provider.
use nvidia_build_lb.Prelude.{ℕ, String, Bool, true, false, not, List, Option, none, if◌then◌else◌}
use nvidia_build_lb.Vault.State.{Uuid, Duration}
use nvidia_build_lb.Vault.Custody.{Primitives}
use nvidia_build_lb.Vault.Keys
use nvidia_build_lb.Vault.Keys.{list, credential}
use nvidia_build_lb.Store.{VaultStore, Answer, success, failure, Operation, mutate}
use nvidia_build_lb.Ledger.{AttemptTerminal, RequestTerminal}
use nvidia_build_lb.Evidence.{
  Response, on_database, release_permit_now, release_call, handed_over, settle, settle_if,
  finish_call, close_call, terminal_bytes_out, Server, Surroundings, Handler, Step, go_on, ◌>>=◌,
  ◌>>◌, return, or_reply, on_request, evidence_unavailable, arm_evidence_failure,
  reset_drop_recovery, arm_drop_recovery, finish_with_attempt, finish_with_open_attempts_silently,
}
use nvidia_build_lb.Ledger.Operations.{Written, Recovery}
use nvidia_build_lb.Database.Tables.{Tables}
use nvidia_build_lb.Evidence.Rules.{After, Yields, bind-Yields, then-Yields}
use nvidia_build_lb.Failover.{
  ledger_unavailable, of_answer, on_vault, record_request, record_failure, quarantine_key,
  next_failover_key, attempt_started, start_evidenced_attempt, start_call, failure_recorded,
}

module _ (p : Primitives) (around : Surroundings) (C : List Uuid → Type 0) where
  abbrev Holds : Server p.File → Type 0
  Holds s = C s.posts

  abbrev Then : Response → Server p.File → Type 0
  Then r s = C s.posts

  -- A step that calls no provider.
  abbrev pub Silent {ℓ} : {A : Type ℓ} → Handler p.File A → Type 0
  Silent m = Yields Holds m (λ _. Holds) Then

  pub then-Silent {ℓ κ} :
      {A : Type ℓ} {B : Type κ} (m : Handler p.File A) (k : Handler p.File B)
      → Silent m
      → Silent k
      → Silent (m >> k)
  then-Silent m k first second = then-Yields Then Holds m Holds k (λ _. Holds) first second

  on_vault-Silent {ℓ} :
      {A : Type ℓ} (r : Response) (operation : Operation p A)
      → Silent (on_vault p around r operation)
  unfolding on_vault
  on_vault-Silent {A = A} r operation s h = go (mutate p (around.setting s.calls) operation s.store)
    where
      go : (x : VaultStore p.File × Answer A) → After (λ _. Holds) Then (of_answer s r x)
      go (store, success a) = h
      go (store, failure x) = h

  pub record_failure-Silent :
      (id : Uuid) (hint : Option Duration) → Silent (record_failure p around id hint)
  unfolding record_failure
  record_failure-Silent id hint =
      on_vault-Silent (ledger_unavailable 503) (failure_recorded p around id hint)

  pub record_request-Silent : (id : Uuid) → Silent (record_request p around id)
  unfolding record_request
  record_request-Silent id =
      on_vault-Silent (ledger_unavailable 500) (λ env. Keys.record_request p env id)

  pub quarantine_key-Silent : (id : Uuid) → Silent (quarantine_key p around id)
  unfolding quarantine_key
  quarantine_key-Silent id =
      on_vault-Silent (ledger_unavailable 503) (λ env. Keys.quarantine p env id)

  or_reply-Silent : (r : Response) (succeeded : Bool) → Silent (or_reply r succeeded)
  or_reply-Silent r true s h = h
  or_reply-Silent r false s h = h

  -- A call of the ledger that must succeed.
  pub on_request-Silent :
      (call : Uuid → ℕ → Option Tables → Written) (r : Response)
      → Silent (on_request call >>= or_reply r)
  on_request-Silent call r =
      bind-Yields Then Holds (on_request call) (λ _. Holds) (or_reply r) (λ _. Holds) (λ s h. h)
        (or_reply-Silent r)

  release_permit_now-Silent : Silent (release_permit_now around)
  unfolding release_permit_now
  release_permit_now-Silent s h = go s.evidence.permit_acquired
    where
      held : Server p.File × Step (Unit {0})
      held = (on_database (release_call around s.evidence.request_id) >>= handed_over) s

      go : (b : Bool) → After (λ _. Holds) Then (if not b then (s, go_on tt) else held)
      go true = h
      go false = h

  settle-Silent : Silent (settle around)
  unfolding settle
  settle-Silent s h =
      release_permit_now-Silent (record s { evidence = record s.evidence { terminal = true } }) h

  pub finish_with_attempt-Silent :
      (key_id : Uuid) (attempt : AttemptTerminal) (request : RequestTerminal)
      → Silent (finish_with_attempt around key_id attempt request)
  unfolding finish_with_attempt arm_evidence_failure arm_drop_recovery
  finish_with_attempt-Silent key_id attempt request =
      then-Silent (arm_evidence_failure request.ttfb_ms (terminal_bytes_out attempt))
        (on_request (finish_call around key_id attempt request) >>= λ recorded.
          or_reply evidence_unavailable recorded >> settle around)
        (λ s h. h)
        (bind-Yields Then Holds (on_request (finish_call around key_id attempt request))
          (λ _. Holds) (λ recorded. or_reply evidence_unavailable recorded >> settle around)
          (λ _. Holds) (λ s h. h)
          (λ recorded.
            then-Silent (or_reply evidence_unavailable recorded) (settle around)
              (or_reply-Silent evidence_unavailable recorded) settle-Silent))

  pub finish_with_open_attempts-Silent :
      (recovery : Recovery) → Silent (finish_with_open_attempts_silently around recovery)
  unfolding finish_with_open_attempts_silently arm_drop_recovery
  finish_with_open_attempts-Silent recovery =
      then-Silent (arm_drop_recovery recovery)
        (on_request (close_call around recovery) >>= settle_if around) (λ s h. h)
        (bind-Yields Then Holds (on_request (close_call around recovery)) (λ _. Holds)
          (settle_if around) (λ _. Holds) (λ s h. h) settled)
    where
      settled : (recorded : Bool) → Silent (settle_if around recorded)
      settled true = then-Silent (settle around) (return true) settle-Silent (λ s h. h)
      settled false = λ s h. h

  pub start_evidenced_attempt-Silent :
      (profile : String) (key_id : Uuid) → Silent (start_evidenced_attempt p around profile key_id)
  unfolding start_evidenced_attempt attempt_started reset_drop_recovery arm_evidence_failure
      arm_drop_recovery
  start_evidenced_attempt-Silent profile key_id =
      then-Silent (arm_evidence_failure none 0)
        (attempt_started p around profile key_id >> reset_drop_recovery) (λ s h. h)
        (then-Silent (attempt_started p around profile key_id) reset_drop_recovery
          (on_request-Silent (start_call p around profile key_id) (ledger_unavailable 500))
          (λ s h. h))

  pub next_failover_key-Silent :
      (profile : String) (attempted : List Uuid)
      → Silent (next_failover_key p around profile attempted)
  unfolding next_failover_key
  next_failover_key-Silent profile attempted s h = h
