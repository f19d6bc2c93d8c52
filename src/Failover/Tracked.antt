-- ===== src/Failover/Tracked.antt =====
-- The steps of `multimodal` in crates/gateway/src/proxy.rs after a call of the provider: none of them calls it
-- again, and the keys that were tried stay.
use nvidia_build_lb.Prelude.{
  ℕ, Bytes, String, Bool, true, false, ◌||◌, List, Option, none, some, any, length, ltb, ◌==◌,
  if◌then◌else◌, ◌≡◌, refl,
}
use nvidia_build_lb.Vault.State.{Uuid, Time, Duration}
use nvidia_build_lb.Vault.Custody.{Primitives}
use nvidia_build_lb.Requests.{retryable_error_class}
use nvidia_build_lb.Ledger.{
  AttemptTerminal, RequestTerminal, attempt_succeeded, attempt_failed, with_bytes_out,
  request_succeeded, request_failed, request_rejected,
}
use nvidia_build_lb.Evidence.{
  Response, provided, Server, Surroundings, Handler, ◌>>=◌, ◌>>◌, return, reply,
  arm_evidence_failure, reset_drop_recovery, arm_drop_recovery, finish_with_attempt,
}
use nvidia_build_lb.Evidence.Rules.{Yields, bind-Yields, then-Yields}
use nvidia_build_lb.Failover.{
  ledger_unavailable, record_request, record_failure, quarantine_key, next_failover_key,
  attempt_finished, end_call, Received, Body, whole, broken, too_large, transport,
  bounded_response_bytes, response_body_limit, RuntimeRoutingPolicy,
}
use nvidia_build_lb.Failover.Silent.{
  Silent, then-Silent, record_failure-Silent, record_request-Silent, quarantine_key-Silent,
  on_request-Silent, finish_with_attempt-Silent, next_failover_key-Silent,
}
use nvidia_build_lb.Failover.Attempts
use nvidia_build_lb.Failover.Attempts.{
  Answered, Provider, Progress, at_first, noted, as_status, is_success, is_auth_failure,
  upstream_error, is_first, key_attempts, answered, answer_request, last_request, last_response,
  last_recovery, content_type_of,
}

abbrev pub Same : Progress → Option Progress → Type 0
Same l none = Unit {0}
Same l (some l') = l'.attempted ≡ l.attempted

pub noted-attempted :
    (answer : Option Answered) (l : Progress) → (noted answer l).attempted ≡ l.attempted
noted-attempted none l = refl
noted-attempted (some a) l = go (a.received.status == 429)
  where
    go :
        (b : Bool)
        → (if b
            then record l { rate_limited = true }
            else record l { all_attempts_rate_limited = false }).attempted
          ≡ l.attempted
    go true = refl
    go false = refl

module _ (p : Primitives) (around : Surroundings) (provider : Provider) (path profile : String)
    (attempts : ℕ) (C : List Uuid → Type 0) (l : Progress) where
  abbrev Holds : Server p.File → Type 0
  Holds s = C s.posts

  abbrev Then : Response → Server p.File → Type 0
  Then r s = C s.posts

  abbrev pub Tracked : Option Progress → Server p.File → Type 0
  Tracked o s = C s.posts × Same l o

  -- A step that calls no provider and keeps the keys that were tried.
  abbrev pub Follows : Handler p.File (Option Progress) → Type 0
  Follows m = Yields Holds m Tracked Then

  ending :
      (id : Uuid) (attempt : AttemptTerminal) (request : RequestTerminal) (r : Response)
      → Follows (finish_with_attempt around id attempt request >> reply r)
  ending id attempt request r =
      then-Yields Then Holds (finish_with_attempt around id attempt request) Holds (reply r) Tracked
        (finish_with_attempt-Silent p around C id attempt request) (λ s h. h)

  charged :
      (bytes : ℕ) (charge : Handler p.File (Option Time))
      (k : Option Time → Handler p.File (Option Progress))
      → Silent p around C charge
      → ((cooldown : Option Time) → Follows (k cooldown))
      → Follows (arm_evidence_failure none bytes >> (charge >>= k))
  unfolding arm_evidence_failure arm_drop_recovery
  charged bytes charge k silent follows =
      then-Yields Then Holds (arm_evidence_failure none bytes) Holds (charge >>= k) Tracked
        (λ s h. h) (bind-Yields Then Holds charge (λ _. Holds) k Tracked silent follows)

  go_to_next-Silent :
      (id : Uuid) (attempt : AttemptTerminal) (all_limited : Bool) (next : Option Uuid)
      → Silent p around C
          (Attempts.go_to_next p around provider path profile attempts id attempt all_limited next)
  unfolding reset_drop_recovery arm_drop_recovery attempt_finished
  go_to_next-Silent id attempt all_limited (some next) =
      then-Silent p around C (attempt_finished p around id attempt)
        (reset_drop_recovery >> return next)
        (on_request-Silent p around C (end_call p around id attempt) (ledger_unavailable 500))
        (λ s h. h)
  go_to_next-Silent id attempt all_limited none = λ s h.
      then-Silent p around C (finish_with_attempt around id attempt (last_request all_limited))
        (reply
          (last_response all_limited (Attempts.wait_of p around provider path profile attempts s)))
        (finish_with_attempt-Silent p around C id attempt (last_request all_limited)) (λ s h. h) s h

  find_next-Silent :
      (attempted : List Uuid)
      → Silent p around C (Attempts.find_next p around provider path profile attempts attempted)
  find_next-Silent attempted = go (ltb (length attempted) attempts)
    where
      go :
          (b : Bool)
          → Silent p around C
              (if b then next_failover_key p around profile attempted else return none)
      go true = next_failover_key-Silent p around C profile attempted
      go false = λ s h. h

  pub retry-Follows :
      (id : Uuid) (attempt : AttemptTerminal) (all_limited : Bool)
      → Follows (Attempts.retry p around provider path profile attempts l id attempt all_limited)
  unfolding Attempts.finish_retryable_or_terminal
  retry-Follows id attempt all_limited =
      bind-Yields Then Holds
        (Attempts.finish_retryable_or_terminal p around provider path profile attempts l.attempted
          id attempt all_limited)
        (λ _. Holds) (λ next. return (some (record l { next_key_id = some next }))) Tracked
        (bind-Yields Then Holds
          (Attempts.find_next p around provider path profile attempts l.attempted) (λ _. Holds)
          (Attempts.go_to_next p around provider path profile attempts id attempt all_limited)
          (λ _. Holds) (find_next-Silent l.attempted) (go_to_next-Silent id attempt all_limited))
        (λ next s h. (h, refl))

  give_up-Follows :
      (id : Uuid) (bytes status : ℕ) (error_class : String)
      (also : AttemptTerminal → AttemptTerminal)
      → Follows (
          Attempts.give_up p around provider path profile attempts id bytes status error_class also)
  give_up-Follows id bytes status error_class also =
      charged bytes (record_failure p around id none)
        (λ cooldown.
          finish_with_attempt around id (also (attempt_failed (some status) error_class cooldown))
            (request_failed 502 error_class)
          >> reply (upstream_error 502 error_class))
        (record_failure-Silent p around C id none)
        (λ cooldown.
          ending id (also (attempt_failed (some status) error_class cooldown))
            (request_failed 502 error_class) (upstream_error 502 error_class))

  retried :
      (id : Uuid) (charge : Handler p.File (Option Time)) (attempt : Option Time → AttemptTerminal)
      (all_limited : Bool)
      → Silent p around C charge
      → Follows (
          arm_evidence_failure none 0
          >> (charge >>= λ cooldown.
              Attempts.retry p around provider path profile attempts l id
                (attempt cooldown)
                all_limited))
  retried id charge attempt all_limited silent =
      charged 0 charge
        (λ cooldown.
          Attempts.retry p around provider path profile attempts l id (attempt cooldown)
            all_limited)
        silent (λ cooldown. retry-Follows id (attempt cooldown) all_limited)

  delivered-Follows :
      (id : Uuid) (received : Received)
      → Follows (Attempts.delivered p around provider path profile attempts l id received)
  unfolding arm_evidence_failure arm_drop_recovery
  delivered-Follows id received = go (bounded_response_bytes received (response_body_limit path))
    where
      served :
          (status size : ℕ) (normalized : Option (Bytes × Bytes))
          → Follows
              (Attempts.served p around provider path profile attempts id status size normalized)
      served status size none =
          give_up-Follows id size status "upstream_protocol_error" (with_bytes_out size)
      served status size (some (bytes, content_type)) =
          then-Yields Then Holds (arm_evidence_failure none (length bytes)) Holds
            (record_request p around id
              >> (finish_with_attempt around id (attempt_succeeded status (some (length bytes)))
                    (request_succeeded status)
                  >> reply (provided status content_type bytes)))
            Tracked (λ s h. h)
            (then-Yields Then Holds (record_request p around id) Holds
              (finish_with_attempt around id (attempt_succeeded status (some (length bytes)))
                  (request_succeeded status)
                >> reply (provided status content_type bytes))
              Tracked (record_request-Silent p around C id)
              (ending id (attempt_succeeded status (some (length bytes))) (request_succeeded status)
                (provided status content_type bytes)))

      go :
          (body : Body)
          → Follows (Attempts.deliver p around provider path profile attempts l id received body)
      go (broken too_large) =
          give_up-Follows id 0 (as_status received.status) "upstream_response_too_large"
            (λ attempt. attempt)
      go (broken transport) =
          retried id (record_failure p around id none)
            (attempt_failed (some (as_status received.status)) "upstream_body_error") false
            (record_failure-Silent p around C id none)
      go (whole bytes) =
          served (as_status received.status) (length bytes)
            (provider.normalize path bytes (content_type_of received.content_type))

  cool_down-Silent :
      (id : Uuid) (status : ℕ) (hint : Option Duration)
      → Silent p around C
          (Attempts.cool_down p around provider path profile attempts id status hint)
  cool_down-Silent id status hint = go (is_auth_failure status)
    where
      go :
          (b : Bool)
          → Silent p around C (
              if b
              then (quarantine_key p around id >> return none)
              else record_failure p around id hint)
      go true =
          then-Silent p around C (quarantine_key p around id) (return none)
            (quarantine_key-Silent p around C id) (λ s h. h)
      go false = record_failure-Silent p around C id hint

  pub handle-Follows :
      (id : Uuid) (policy : RuntimeRoutingPolicy) (answer : Option Answered)
      → Follows (Attempts.handle p around provider path profile attempts l id policy answer)
  unfolding Attempts.handle
  handle-Follows id policy none =
      retried id (record_failure p around id none) (attempt_failed none "upstream_transport_error")
        false (record_failure-Silent p around C id none)
  handle-Follows id policy (some a) =
      branches (is_success a.received.status) (a.received.status == 202) (
        is_auth_failure a.received.status
        || any (λ n. n == a.received.status) policy.retryable_statuses)
    where
      accepted :
          (polled : Option Received)
          → Follows (Attempts.accepted p around provider path profile attempts l id polled)
      accepted none = give_up-Follows id 0 202 "upstream_poll_error" (λ attempt. attempt)
      accepted (some received) = delivered-Follows id received

      branches :
          (succeeded pending fails_over : Bool)
          → Follows (
              if succeeded
              then (if pending
                  then Attempts.accepted p around provider path profile attempts l id a.polled
                  else Attempts.delivered p around provider path profile attempts l id a.received)
              else if fails_over
              then Attempts.fail_over p around provider path profile attempts l id policy a
              else Attempts.reject p around provider path profile attempts id
                  (as_status a.received.status))
      branches true true fails_over = accepted a.polled
      branches true false fails_over = delivered-Follows id a.received
      branches false pending true = λ s h.
          retried id
            (Attempts.cool_down p around provider path profile attempts id a.received.status
              (Attempts.hint_of p around provider path profile attempts policy a s))
            (attempt_failed (some a.received.status) (retryable_error_class a.received.status))
            l.all_attempts_rate_limited
            (cool_down-Silent id a.received.status
              (Attempts.hint_of p around provider path profile attempts policy a s))
            s h
      branches false pending false =
          ending id
            (attempt_failed (some (as_status a.received.status)) "upstream_request_rejected" none)
            (request_rejected (as_status a.received.status) "upstream_request_rejected")
            (upstream_error (as_status a.received.status) "upstream_request_rejected")
