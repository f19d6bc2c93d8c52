-- ===== src/Ledger/Operations.antt =====
-- The methods of `VaultStore` in crates/gateway/src/main.rs and evidence.rs that write the ledger. Each
-- answers the database with whether it succeeded; a statement outside a transaction commits by itself.
use nvidia_build_lb.Prelude.{
  ℕ, String, Bool, true, false, ◌&&◌, ◌||◌, [], ◌∷◌, ◌++◌, Option, none, some, ◌==◌, str_eq,
  if◌then◌else◌,
}
use nvidia_build_lb.Vault.State.{Uuid}
use nvidia_build_lb.Database.Tables.{Tables, AttemptRow, KeyRow}
use nvidia_build_lb.Database.Transactions.{
  missing_row, Engine, Tx, ◌>>=◌, ◌>>◌, return, raise, only_if, execute, update_where, expect_one,
  Ended, transaction,
}
use nvidia_build_lb.Selection.{Operations, read_slot, candidates, choose, slot_after, write_slot}
use nvidia_build_lb.Ledger.{
  AttemptTerminal, RequestTerminal, Arrival, elapsed_ms, same_owner, is_unfinished, is_open, latest,
  request_row, attempt_row, insert_request, insert_attempt, update_latest, finish_attempt,
  find_profile, renew_receipt, finish_request, as_i64,
}

abbrev pub Written : Type 0
Written = Option Tables × Bool

abbrev pub wrote {ℓ} : {A : Type ℓ} → Ended A → Written
wrote ended = (some ended.tables, elim ended.result [ none ↦ false | some a ↦ true ])

-- A statement that must affect one row, which is checked when it has taken effect.
abbrev pub wrote_one : Ended ℕ → Written
wrote_one ended = (some ended.tables, elim ended.result [ none ↦ false | some n ↦ n == 1 ])

unfoldable pub attempt_started :
    Engine → Option Uuid → Uuid → String → Uuid → Option Tables → Written
unfolding transaction
attempt_started e owner request_id profile key_id none = (none, true)
attempt_started e owner request_id profile key_id (some t) =
    wrote_one (transaction e (execute (insert_attempt request_id profile key_id owner)) t)

abbrev pub need {ℓ} : {A : Type ℓ} → Option A → Tx A
need none = raise missing_row
need (some a) = return a

-- The request itself, which must be started.
abbrev pub end_request : Uuid → RequestTerminal → Tx (Unit {0})
end_request request_id request = execute (finish_request request_id request) >>= expect_one

module _ (owner : Option Uuid) (request_id key_id : Uuid) where
  -- The three statements of `attempt_finished`, each with its own commit.
  abbrev pub receipt_renewed : Engine → AttemptTerminal → AttemptRow → Written → Written
  receipt_renewed e terminal found (some t, true) =
      if str_eq terminal.outcome "succeeded"
      then wrote (transaction e (execute (renew_receipt found.profile_id key_id)) t)
      else (some t, true)
  receipt_renewed e terminal found (database, answer) = (database, answer)

  abbrev pub after_profile :
      Engine
      → Engine
      → AttemptTerminal
      → Ended (Option AttemptRow)
      → Option (Option AttemptRow)
      → Written
  after_profile second third terminal ended (some (some found)) =
      receipt_renewed third terminal found (
        wrote_one (
          transaction second (execute (finish_attempt owner request_id key_id terminal))
            ended.tables))
  after_profile second third terminal ended _ = (some ended.tables, false)

  unfoldable pub attempt_finished :
      Engine → Engine → Engine → AttemptTerminal → Option Tables → Written
  unfolding transaction
  attempt_finished first second third terminal none = (none, true)
  attempt_finished first second third terminal (some t) =
      let ended = transaction first (execute (find_profile owner request_id key_id)) t in
      after_profile second third terminal ended ended.result

  -- The final attempt and its request in one transaction, from its last statement to its first.
  abbrev pub renew_if : AttemptTerminal → String → Tx (Unit {0})
  renew_if attempt profile =
      only_if (str_eq attempt.outcome "succeeded") (execute (renew_receipt profile key_id))

  abbrev pub after_attempt : AttemptTerminal → RequestTerminal → AttemptRow → ℕ → Tx (Unit {0})
  after_attempt attempt request found attempts = do
    expect_one attempts
    renew_if attempt found.profile_id
    end_request request_id request

  abbrev pub after_row : AttemptTerminal → RequestTerminal → AttemptRow → Tx (Unit {0})
  after_row attempt request found =
      execute (finish_attempt owner request_id key_id attempt)
      >>= after_attempt attempt request found

  abbrev pub after_read : AttemptTerminal → RequestTerminal → Option AttemptRow → Tx (Unit {0})
  after_read attempt request row = need row >>= after_row attempt request

  unfoldable pub terminal_steps : AttemptTerminal → RequestTerminal → Tx (Unit {0})
  terminal_steps attempt request =
      execute (find_profile owner request_id key_id) >>= after_read attempt request

  unfoldable pub request_and_attempt_finished :
      Engine → AttemptTerminal → RequestTerminal → Option Tables → Written
  unfolding transaction terminal_steps
  request_and_attempt_finished e attempt request none = (none, true)
  request_and_attempt_finished e attempt request (some t) =
      wrote (transaction e (terminal_steps attempt request) t)

  abbrev pub mark_response : ℕ → Engine → Tables → Tables × ℕ
  mark_response ttfb_ms e t =
      update_latest (is_open owner request_id key_id)
        (λ row. record row { response_started = true; ttfb_ms = some ttfb_ms }) t
        (latest (is_open owner request_id key_id) t.request_attempts)

  unfoldable pub attempt_response_started : Engine → ℕ → Option Tables → Written
  unfolding transaction
  attempt_response_started e ttfb_ms none = (none, true)
  attempt_response_started e ttfb_ms (some t) =
      wrote_one (transaction e (execute (mark_response ttfb_ms)) t)

unfoldable pub proxy_request_started : Engine → Option Uuid → Arrival → Option Tables → Written
unfolding transaction
proxy_request_started e owner arrival none = (none, true)
proxy_request_started e none arrival (some t) = (some t, false)
proxy_request_started e (some owner) arrival (some t) =
    wrote (transaction e (execute (insert_request (some owner) arrival)) t)

unfoldable pub proxy_request_finished : Engine → Uuid → RequestTerminal → Option Tables → Written
unfolding transaction
proxy_request_finished e request_id request none = (none, true)
proxy_request_finished e request_id request (some t) =
    wrote_one (transaction e (execute (finish_request request_id request)) t)

-- What a request without an outcome of its own is closed with.
pub record Recovery : Type 0 where
  pub outcome : String
  pub status_code : Option ℕ
  pub error_class : String
  pub ttfb_ms : Option ℕ
  pub bytes_out : ℕ

abbrev or_else {ℓ} : {A : Type ℓ} → Option A → Option A → Option A
or_else none b = b
or_else (some a) b = some a

abbrev is_given {ℓ} : {A : Type ℓ} → Option A → Bool
is_given none = false
is_given (some a) = true

abbrev pub is_open_of : Option Uuid → Uuid → AttemptRow → Bool
is_open_of owner request_id row =
    row.request_id == request_id && same_owner row.owner_id owner && is_unfinished row.finished_at

abbrev pub attempt_closed : Engine → Recovery → AttemptRow → AttemptRow
attempt_closed e recovery row = record row {
  outcome = recovery.outcome;
  status_code = recovery.status_code;
  error_class = some recovery.error_class;
  bytes_out = some (as_i64 recovery.bytes_out);
  ttfb_ms = or_else row.ttfb_ms recovery.ttfb_ms;
  response_started = row.response_started || is_given recovery.ttfb_ms;
  latency_ms = some (elapsed_ms e row.created_at);
  finished_at = some (e.stamp e.now);
}

abbrev pub close_attempts : Option Uuid → Uuid → Recovery → Engine → Tables → Tables × Unit {0}
close_attempts owner request_id recovery e t = (
  record t {
    request_attempts =
        update_where (is_open_of owner request_id) (attempt_closed e recovery) t.request_attempts;
  },
  tt,
)

abbrev pub request_of : Recovery → RequestTerminal
request_of recovery = record {
  outcome = recovery.outcome;
  status_code = recovery.status_code;
  error_class = some recovery.error_class;
  ttfb_ms = recovery.ttfb_ms;
}

unfoldable pub recovery_steps : Option Uuid → Uuid → Recovery → Tx (Unit {0})
recovery_steps owner request_id recovery = do
  execute (close_attempts owner request_id recovery)
  end_request request_id (request_of recovery)

unfoldable pub proxy_request_and_open_attempts_finished :
    Engine → Option Uuid → Uuid → Recovery → Option Tables → Written
unfolding transaction recovery_steps
proxy_request_and_open_attempts_finished e owner request_id recovery none = (none, true)
proxy_request_and_open_attempts_finished e none request_id recovery (some t) = (some t, false)
proxy_request_and_open_attempts_finished e (some owner) request_id recovery (some t) =
    wrote (transaction e (recovery_steps (some owner) request_id recovery) t)

-- A request for which no key is eligible is recorded as failed at once.
abbrev pub insert_ineligible : Option Uuid → Arrival → Engine → Tables → Tables × Unit {0}
insert_ineligible owner arrival e t = (
  record t {
    proxy_requests =
        t.proxy_requests
        ++ record (request_row e e.fresh owner arrival) {
          outcome = "failed";
          status_code = some 503;
          error_class = some "no_eligible_upstream";
          duration_ms = some 0;
          finished_at = some (e.stamp e.now);
        }
          ∷ [];
  },
  tt,
)

abbrev pub insert_first_attempt :
    Option Uuid → Uuid → Uuid → String → Uuid → Engine → Tables → Tables × Unit {0}
insert_first_attempt owner request_id parent_id profile key_id e t = (
  record t {
    request_attempts =
        t.request_attempts ++ attempt_row e request_id parent_id profile key_id owner 1 ∷ [];
  },
  tt,
)

module _ (operations : Operations) (owner : Option Uuid) (arrival : Arrival) where
  abbrev pub start_with : Option KeyRow → Tx (Option Uuid)
  start_with none = do execute (insert_ineligible owner arrival); return none
  start_with (some key) = do
    execute (write_slot arrival.profile_id (slot_after key.slot_no))
    parent_id ← execute (insert_request owner arrival)
    execute (insert_first_attempt owner arrival.request_id parent_id arrival.profile_id key.id)
    return (some key.id)

  unfoldable pub selection_steps : Tx (Option Uuid)
  unfolding candidates choose
  selection_steps = do
    row ← execute (read_slot arrival.profile_id)
    slot ← need row
    keys ← execute (candidates operations arrival.profile_id)
    start_with (choose slot.next_slot keys)

-- The tables and the chosen key, or nothing where the method fails.
abbrev pub Started : Type 0
Started = Option Tables × Option (Option Uuid)

unfoldable pub select_and_start_request :
    Operations → Engine → Option Uuid → Arrival → Option Tables → Started
unfolding transaction selection_steps
select_and_start_request operations e owner arrival none = (none, none)
select_and_start_request operations e none arrival (some t) = (some t, none)
select_and_start_request operations e (some owner) arrival (some t) =
    let ended = transaction e (selection_steps operations (some owner) arrival) t in
    (some ended.tables, ended.result)
