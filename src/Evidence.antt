-- ===== src/Evidence.antt =====
-- `RequestEvidence` of crates/gateway/src/evidence.rs: the owner of a request's row in the ledger, from its
-- admission to its terminal state, and of its permit. A handler runs to its end: it is not cancelled.
pub mod Rules
pub mod Settled
pub mod Admission
use nvidia_build_lb.Prelude.{
  ℕ, ◌+◌, String, Bytes, Bool, true, false, not, ◌&&◌, ◌||◌, List, [], ◌∷◌, ◌++◌, Option, none,
  some, str_eq, if◌then◌else◌,
}
use nvidia_build_lb.Vault.State.{Uuid, Time}
use nvidia_build_lb.Vault.Custody.{Primitives}
use nvidia_build_lb.Database.Tables.{Tables}
use nvidia_build_lb.Database.Transactions.{Engine}
use nvidia_build_lb.Database.Permits
use nvidia_build_lb.Database.Permits.{
  PermitError, expired, model_forbidden, rate_limited, daily_limit, concurrency_limit,
  store_unavailable, acquire_downstream_permit, release_downstream_permit,
}
use nvidia_build_lb.Store.{VaultStore, Setting, Answer, Operation, mutate}
use nvidia_build_lb.Selection.{Operations, Routers, Gateway, select_from_vault}
use nvidia_build_lb.Ledger.{AttemptTerminal, RequestTerminal, Arrival, as_i64}
use nvidia_build_lb.Ledger.Operations.{
  Written, Recovery, attempt_started, attempt_finished, request_and_attempt_finished,
  proxy_request_started, proxy_request_finished, proxy_request_and_open_attempts_finished, Started,
  select_and_start_request,
}

-- What a client gets, without the wording of a message.
pub data Response : Type 0 where
  openai_error : (status : ℕ) (kind code : String) (retry_after : Option ℕ) → Response
  provided : (status : ℕ) (content_type : Bytes) (body : Bytes) → Response

pub record RequestEvidence : Type 0 where
  pub request_id : Uuid
  pub terminal : Bool
  pub permit_acquired : Bool
  pub drop_recovery : Recovery

-- What a handler works on: the vault with its database, the evidence of the request, the requests whose
-- permit a retry task releases, the keys with which the provider was called, and the number of calls of
-- the surroundings so far.
pub record Server (File : Type 0) : Type 0 where
  pub store : VaultStore File
  pub evidence : RequestEvidence
  pub retried : List Uuid
  pub posts : List Uuid
  pub calls : ℕ

-- The surroundings, by the number of the call.
pub record Surroundings : Type 0 where
  pub owner_id : Option Uuid
  pub engine : ℕ → ℕ → Engine
  pub setting : ℕ → Setting
  pub operations : ℕ → Operations
  pub clock : ℕ → Time

-- A handler goes on with a value or returns a response.
pub data Step {ℓ} (A : Type ℓ) : Type ℓ where
  go_on : A → Step A
  respond : Response → Step A

abbrev pub Handler {ℓ} : Type 0 → Type ℓ → Type ℓ
Handler File A = Server File → Server File × Step A

abbrev pub and_so_on {ℓ κ} :
    {F : Type 0} {A : Type ℓ} {B : Type κ}
    → (A → Handler F B)
    → Server F × Step A
    → Server F × Step B
and_so_on k (s, go_on a) = k a s
and_so_on k (s, respond r) = (s, respond r)

infixl 5 ◌>>=◌ ◌>>◌
abbrev pub ◌>>=◌ {ℓ κ} :
    {F : Type 0} {A : Type ℓ} {B : Type κ} → Handler F A → (A → Handler F B) → Handler F B
◌>>=◌ m k s = and_so_on k (m s)

abbrev pub ◌>>◌ {ℓ κ} :
    {F : Type 0} {A : Type ℓ} {B : Type κ} → Handler F A → Handler F B → Handler F B
m >> k = m >>= λ _. k

abbrev pub return {ℓ} : {F : Type 0} {A : Type ℓ} → A → Handler F A
return a s = (s, go_on a)

abbrev pub reply {ℓ} : {F : Type 0} {A : Type ℓ} → Response → Handler F A
reply r s = (s, respond r)

-- `map_err(|_| response)?` on a call that answered whether it succeeded.
abbrev pub or_reply : {F : Type 0} → Response → Bool → Handler F (Unit {0})
or_reply r succeeded = if succeeded then return tt else reply r

abbrev pub on_evidence : {F : Type 0} → (RequestEvidence → RequestEvidence) → Handler F (Unit {0})
on_evidence change s = (record s { evidence = change s.evidence }, go_on tt)

abbrev with_database : {F : Type 0} → Server F → Written → Server F × Step Bool
with_database s (database, succeeded) = (
  record s { store = record s.store { database = database }; calls = s.calls + 1 },
  go_on succeeded,
)

-- A call of the database.
abbrev pub on_database : {F : Type 0} → (ℕ → Option Tables → Written) → Handler F Bool
on_database call s = with_database s (call s.calls s.store.database)

abbrev pub evidence_unavailable : Response
evidence_unavailable = openai_error 500 "service_unavailable_error" "evidence_unavailable" none

abbrev pub default_recovery : Recovery
default_recovery = record {
  outcome = "failed";
  status_code = none;
  error_class = "handler_abandoned";
  ttfb_ms = none;
  bytes_out = 0;
}

abbrev pub permit_error_response : PermitError → Response
permit_error_response expired =
    openai_error 401 "authentication_error" "invalid_downstream_token" none
permit_error_response model_forbidden = openai_error 403 "permission_error" "model_not_allowed" none
permit_error_response (rate_limited seconds) =
    openai_error 429 "rate_limit_error" "rpm_limit_exceeded" (some seconds)
permit_error_response daily_limit = openai_error 429 "rate_limit_error" "daily_limit_exceeded" none
permit_error_response concurrency_limit =
    openai_error 429 "rate_limit_error" "concurrency_limit_exceeded" none
permit_error_response store_unavailable = evidence_unavailable

abbrev pub terminal_bytes_out : AttemptTerminal → ℕ
terminal_bytes_out terminal = elim terminal.bytes_out [ none ↦ 0 | some bytes ↦ bytes ]

unfoldable pub arm_drop_recovery : {F : Type 0} → Recovery → Handler F (Unit {0})
arm_drop_recovery recovery = on_evidence (λ v. record v { drop_recovery = recovery })

unfoldable pub arm_evidence_failure : {F : Type 0} → Option ℕ → ℕ → Handler F (Unit {0})
unfolding arm_drop_recovery
arm_evidence_failure ttfb_ms bytes_out = arm_drop_recovery (record {
  outcome = "failed";
  status_code = some 500;
  error_class = "evidence_unavailable";
  ttfb_ms = ttfb_ms;
  bytes_out = bytes_out;
})

unfoldable pub reset_drop_recovery : {F : Type 0} → Handler F (Unit {0})
unfolding arm_drop_recovery
reset_drop_recovery = arm_drop_recovery default_recovery

-- A release that fails is handed to a task that tries again.
abbrev pub handed_over : {F : Type 0} → Bool → Handler F (Unit {0})
handed_over released s = (
  record s {
    retried = if released then s.retried else s.evidence.request_id ∷ s.retried;
    evidence = record s.evidence { permit_acquired = false };
  },
  go_on tt,
)

abbrev pub release_call : Surroundings → Uuid → ℕ → Option Tables → Written
release_call around request_id n = release_downstream_permit (around.engine n 0) request_id

abbrev pub finish_call :
    Surroundings → Uuid → AttemptTerminal → RequestTerminal → Uuid → ℕ → Option Tables → Written
finish_call around key_id attempt request request_id n =
    request_and_attempt_finished around.owner_id request_id key_id (around.engine n 0) attempt
      request

abbrev pub on_request : {F : Type 0} → (Uuid → ℕ → Option Tables → Written) → Handler F Bool
on_request call s = on_database (call s.evidence.request_id) s

abbrev pub close_call : Surroundings → Recovery → Uuid → ℕ → Option Tables → Written
close_call around recovery request_id n =
    proxy_request_and_open_attempts_finished (around.engine n 0) around.owner_id request_id recovery

abbrev pub request_call : Surroundings → RequestTerminal → Uuid → ℕ → Option Tables → Written
request_call around request request_id n =
    proxy_request_finished (around.engine n 0) request_id request

module _ {F : Type 0} (around : Surroundings) where
  unfoldable pub release_permit_now : Handler F (Unit {0})
  release_permit_now s =
      if not s.evidence.permit_acquired
      then (s, go_on tt)
      else (do
        released ← on_database (release_call around s.evidence.request_id)
        handed_over released)
          s

  -- The terminal state is recorded: the permit goes.
  unfoldable pub settle : Handler F (Unit {0})
  unfolding release_permit_now
  settle = do on_evidence (λ v. record v { terminal = true }); release_permit_now

  unfoldable pub finish_with_attempt :
      Uuid → AttemptTerminal → RequestTerminal → Handler F (Unit {0})
  unfolding arm_evidence_failure settle
  finish_with_attempt key_id attempt request = do
    arm_evidence_failure request.ttfb_ms (terminal_bytes_out attempt)
    recorded ← on_request (finish_call around key_id attempt request)
    or_reply evidence_unavailable recorded
    settle

  abbrev pub settle_if : Bool → Handler F Bool
  settle_if recorded = if recorded then (settle >> return true) else return false

  unfoldable pub finish_with_open_attempts_silently : Recovery → Handler F Bool
  unfolding arm_drop_recovery settle
  finish_with_open_attempts_silently recovery = do
    arm_drop_recovery recovery
    recorded ← on_request (close_call around recovery)
    settle_if recorded

  unfoldable pub finish : RequestTerminal → Handler F (Unit {0})
  unfolding arm_evidence_failure settle
  finish request = do
    arm_evidence_failure request.ttfb_ms 0
    recorded ← on_request (request_call around request)
    or_reply evidence_unavailable recorded
    settle

  -- `Drop`: a task closes the request if it is not terminal, and releases the permit until that succeeds.
  abbrev pub abandoned : Server F → Server F
  abandoned s =
      if s.evidence.terminal
      then s
      else (on_request (close_call around s.evidence.drop_recovery) s).0

  unfoldable pub drop : Server F → Server F
  unfolding settle
  drop s =
      if s.evidence.permit_acquired
      then record (abandoned s) { retried = s.evidence.request_id ∷ s.retried }
      else abandoned s
