-- ===== src/Evidence/Settled.antt =====
-- The states of a request's evidence that a response of crates/gateway/src may leave, and the steps that
-- lead to them.
use nvidia_build_lb.Prelude.{
  ℕ, Bool, true, false, not, str_eq, Option, if◌then◌else◌, ◌≡◌, refl, ◌⊎◌, inr,
}
use nvidia_build_lb.Vault.State.{Uuid}
use nvidia_build_lb.Database.Tables.{Tables}
use nvidia_build_lb.Ledger.{AttemptTerminal, RequestTerminal}
use nvidia_build_lb.Ledger.Operations.{Written, Recovery, request_of}
use nvidia_build_lb.Ledger.Recorded.{
  Known, Ends, request_and_attempt_finished-Known, open_attempts_finished-Known, release-Known,
}
use nvidia_build_lb.Evidence.{
  Response, openai_error, provided, Server, Surroundings, Step, go_on, ◌>>=◌, ◌>>◌, return,
  or_reply, on_database, on_request, evidence_unavailable, arm_drop_recovery, arm_evidence_failure,
  release_permit_now, settle, finish_with_attempt, finish_call, close_call, settle_if,
  terminal_bytes_out, finish_with_open_attempts_silently, handed_over, release_call,
}
use nvidia_build_lb.Evidence.Rules.{After, Yields, bind-Yields, then-Yields, or_reply-Yields}

abbrev pub status_of : Response → ℕ
status_of (openai_error status kind code retry_after) = status
status_of (provided status content_type body) = status

-- The request is not closed yet.
abbrev pub IsPending : {F : Type 0} → Server F → Type 0
IsPending s = s.evidence.terminal ≡ false

-- And if the handler ends here, it is closed with an error class of its own.
abbrev pub IsArmed : {F : Type 0} → Server F → Type 0
IsArmed s =
    (s.evidence.terminal ≡ false)
    × (str_eq s.evidence.drop_recovery.error_class "handler_abandoned" ≡ false)

-- The request is closed with a status, in the ledger too, and holds no permit.
pub record IsSettled {F : Type 0} (status : ℕ) (s : Server F) : Type 0 where
  pub terminal : s.evidence.terminal ≡ true
  pub permit : s.evidence.permit_acquired ≡ false
  pub known : Known s.evidence.request_id status s.store.database

-- What a response leaves: the ledger tells the client's status, or the evidence that could not be written
-- is named.
abbrev pub IsAccounted : {F : Type 0} → Response → Server F → Type 0
IsAccounted r s = IsSettled (status_of r) s ⊎ IsArmed s

module _ {F : Type 0} (around : Surroundings) where
  release_permit_now-IsSettled :
      (status : ℕ) (R : Response → Server F → Type 0)
      → Yields
          (λ s. (s.evidence.terminal ≡ true) × Known s.evidence.request_id status s.store.database)
          (release_permit_now around)
          (λ _. IsSettled status)
          R
  unfolding release_permit_now
  release_permit_now-IsSettled status R s (terminal, known) = go s.evidence.permit_acquired refl
    where
      held : Server F × Step (Unit {0})
      held = (on_database (release_call around s.evidence.request_id) >>= handed_over) s

      go :
          (b : Bool)
          → s.evidence.permit_acquired ≡ b
          → After (λ _. IsSettled status) R (if not b then (s, go_on tt) else held)
      go false free = record { terminal = terminal; permit = free; known = known }
      go true free = record {
        terminal = terminal;
        permit = refl;
        known =
            release-Known s.evidence.request_id status (around.engine s.calls 0)
              s.evidence.request_id s.store.database known;
      }

  settle-IsSettled :
      (status : ℕ) (R : Response → Server F → Type 0)
      → Yields
          (λ s. Known s.evidence.request_id status s.store.database)
          (settle around)
          (λ _. IsSettled status)
          R
  unfolding settle
  settle-IsSettled status R s known =
      release_permit_now-IsSettled status R
        (record s { evidence = record s.evidence { terminal = true } }) (refl, known)

  abbrev pub Pending : Server F → Type 0
  Pending s = IsPending s

  abbrev pub Armed : Server F → Type 0
  Armed s = IsArmed s

  abbrev pub Accounted : Response → Server F → Type 0
  Accounted r s = IsAccounted r s

  pub arm_evidence_failure-IsArmed :
      (ttfb_ms : Option ℕ) (bytes_out : ℕ)
      → Yields Pending (arm_evidence_failure ttfb_ms bytes_out) (λ _. Armed) Accounted
  unfolding arm_evidence_failure arm_drop_recovery
  arm_evidence_failure-IsArmed ttfb_ms bytes_out s pending = (pending, refl)

  -- What a call that records the request's end leaves.
  abbrev Recorded : ℕ → Bool → Server F → Type 0
  Recorded status recorded s =
      Armed s × (recorded ≡ true → Known s.evidence.request_id status s.store.database)

  -- The call, and where it succeeds the end of the evidence.
  record_then_settle :
      (status : ℕ) (call : Uuid → ℕ → Option Tables → Written)
      → ((id : Uuid) (n : ℕ) (database : Option Tables)
          → (call id n database).1 ≡ true
          → Known id status (call id n database).0)
      → Yields Armed
          (on_request call >>= λ recorded. or_reply evidence_unavailable recorded >> settle around)
          (λ _. IsSettled status)
          Accounted
  record_then_settle status call knows =
      bind-Yields Accounted Armed (on_request call) (Recorded status)
        (λ recorded. or_reply evidence_unavailable recorded >> settle around)
        (λ _. IsSettled status)
        (λ s armed. (armed, knows s.evidence.request_id s.calls s.store.database))
        (λ recorded.
          then-Yields Accounted (Recorded status recorded) (or_reply evidence_unavailable recorded)
            (λ s. Known s.evidence.request_id status s.store.database) (settle around)
            (λ _. IsSettled status)
            (or_reply-Yields Accounted (Recorded status recorded) evidence_unavailable recorded
              (λ s. Known s.evidence.request_id status s.store.database) (λ s is h. h.1 is)
              (λ s h. inr h.0))
            (settle-IsSettled status Accounted))

  -- The final attempt and the request: closed, or the client is told that the evidence is unavailable.
  pub finish_with_attempt-IsSettled :
      (key_id : Uuid) (attempt : AttemptTerminal) (request : RequestTerminal) (status : ℕ)
      → Ends request status
      → Yields Pending
          (finish_with_attempt around key_id attempt request)
          (λ _. IsSettled status)
          Accounted
  unfolding finish_with_attempt
  finish_with_attempt-IsSettled key_id attempt request status ends =
      then-Yields Accounted Pending
        (arm_evidence_failure request.ttfb_ms (terminal_bytes_out attempt)) Armed
        (on_request (finish_call around key_id attempt request) >>= λ recorded.
          or_reply evidence_unavailable recorded >> settle around)
        (λ _. IsSettled status)
        (arm_evidence_failure-IsArmed request.ttfb_ms (terminal_bytes_out attempt))
        (record_then_settle status (finish_call around key_id attempt request) (λ id n database.
          request_and_attempt_finished-Known id status around.owner_id key_id (around.engine n 0)
            attempt request database ends))

  -- The request with whatever attempts are open: closed where the answer is `true`.
  pub finish_with_open_attempts-IsSettled :
      (recovery : Recovery) (status : ℕ)
      → Ends (request_of recovery) status
      → str_eq recovery.error_class "handler_abandoned" ≡ false
      → Yields Pending
          (finish_with_open_attempts_silently around recovery)
          (λ recorded s. if recorded then IsSettled status s else Armed s)
          Accounted
  unfolding finish_with_open_attempts_silently arm_drop_recovery
  finish_with_open_attempts-IsSettled recovery status ends named =
      then-Yields Accounted Pending (arm_drop_recovery recovery) Armed
        (on_request (close_call around recovery) >>= settle_if around) Ends_as
        (λ s pending. (pending, named))
        (bind-Yields Accounted Armed (on_request (close_call around recovery)) (Recorded status)
          (settle_if around) Ends_as
          (λ s armed. (
            armed,
            open_attempts_finished-Known s.evidence.request_id status (around.engine s.calls 0)
                around.owner_id recovery s.store.database ends,
          ))
          settled)
    where
      Ends_as : Bool → Server F → Type 0
      Ends_as recorded s = if recorded then IsSettled status s else Armed s

      settled :
          (recorded : Bool)
          → Yields (Recorded status recorded) (settle_if around recorded) Ends_as Accounted
      settled true =
          then-Yields Accounted (Recorded status true) (settle around) (IsSettled status)
            (return true) Ends_as (λ s h. settle-IsSettled status Accounted s (h.1 refl)) (λ s h. h)
      settled false = λ s h. h.0
