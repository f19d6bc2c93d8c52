-- ===== src/Failover/Accounted.antt =====
-- The response of `multimodal` in crates/gateway/src/proxy.rs and the ledger of its request.
use nvidia_build_lb.Prelude.{
  ℕ, zero, suc, ◌+◌, Bytes, String, Bool, true, false, not, ◌&&◌, ◌||◌, [], ◌∷◌, ◌++◌, Option, none,
  some, any, length, ◌==◌, str_eq, if◌then◌else◌, ◌≡◌, refl, sym, subst, inl, inr,
}
use nvidia_build_lb.Vault.State.{Uuid, Time, Duration, Result, ok, err}
use nvidia_build_lb.Vault.Custody.{Primitives}
use nvidia_build_lb.Vault.Keys.{list, credential}
use nvidia_build_lb.Readiness.{was_attempted}
use nvidia_build_lb.Requests.{retryable_error_class}
use nvidia_build_lb.Ledger.{
  AttemptTerminal, attempt_succeeded, attempt_failed, with_bytes_out, request_succeeded,
  request_failed, request_rejected,
}
use nvidia_build_lb.Evidence.{
  Response, provided, Server, Surroundings, Handler, Step, go_on, respond, ◌>>=◌, ◌>>◌, return,
  reply, evidence_unavailable, arm_evidence_failure, finish_with_attempt,
  finish_with_open_attempts_silently,
}
use nvidia_build_lb.Ledger.Operations.{request_of}
use nvidia_build_lb.Ledger.Recorded.{Ends}
use nvidia_build_lb.Evidence.Rules.{After, Yields, bind-Yields, then-Yields}
use nvidia_build_lb.Evidence.Settled.{
  IsPending, IsArmed, IsSettled, IsAccounted, status_of, finish_with_open_attempts-IsSettled,
}
use nvidia_build_lb.Failover.{
  record_request, record_failure, quarantine_key, next_failover_key, start_evidenced_attempt,
  Received, Body, whole, broken, too_large, transport, bounded_response_bytes, response_body_limit,
  RuntimeRoutingPolicy, load_routing_policy,
}
use nvidia_build_lb.Failover.Attempts
use nvidia_build_lb.Failover.Attempts.{
  Answered, Provider, Progress, at_first, noted, as_status, is_success, is_auth_failure,
  upstream_error, is_first, key_attempts, answered, answer_request, last_request, last_response,
  last_recovery, content_type_of,
}
use nvidia_build_lb.Failover.Recorded.{
  Keeps, record_failure-Keeps, record_request-Keeps, quarantine_key-Keeps,
  start_evidenced_attempt-Pending, next_failover_key-Pending, Armed-then, finish_then_reply,
  retry-Pending,
}

module _ (p : Primitives) (around : Surroundings) where
  abbrev Pending : Server p.File → Type 0
  Pending s = IsPending s

  abbrev Armed : Server p.File → Type 0
  Armed s = IsArmed s

  abbrev Accounted : Response → Server p.File → Type 0
  Accounted r s = IsAccounted r s

  module _ (provider : Provider) (path profile : String) (attempts : ℕ) where
    abbrev Goes : Handler p.File (Option Progress) → Type 0
    Goes m = Yields Pending m (λ _. Pending) Accounted

    give_up-Pending :
        (id : Uuid) (bytes status : ℕ) (error_class : String)
        (also : AttemptTerminal → AttemptTerminal)
        → Goes (
            Attempts.give_up p around provider path profile attempts id bytes status error_class
              also)
    give_up-Pending id bytes status error_class also =
        Armed-then p around bytes (record_failure p around id none >>= finished) (λ _. Pending)
          (bind-Yields Accounted Armed (record_failure p around id none) (λ _. Armed) finished
            (λ _. Pending) (record_failure-Keeps p around id none)
            (λ cooldown s armed.
              finish_then_reply p around provider path profile attempts id
                (also (attempt_failed (some status) error_class cooldown))
                (request_failed 502 error_class) (upstream_error 502 error_class)
                (λ (_ : Option Progress). Pending) (refl, refl) s armed.0))
      where
        finished : Option Time → Handler p.File (Option Progress)
        finished cooldown =
            finish_with_attempt around id (also (attempt_failed (some status) error_class cooldown))
              (request_failed 502 error_class)
            >> reply (upstream_error 502 error_class)

    -- The attempt failed at the provider, and its key is charged.
    retried-Goes :
        (l : Progress) (id : Uuid) (charge : Handler p.File (Option Time))
        (attempt : Option Time → AttemptTerminal) (all_limited : Bool)
        → Keeps p around charge
        → Goes (
            arm_evidence_failure none 0
            >> (charge >>= λ cooldown.
                Attempts.retry p around provider path profile attempts l id
                  (attempt cooldown)
                  all_limited))
    retried-Goes l id charge attempt all_limited keeps =
        Armed-then p around 0
          (charge >>= λ cooldown.
            Attempts.retry p around provider path profile attempts l id (attempt cooldown)
              all_limited)
          (λ _. Pending)
          (bind-Yields Accounted Armed charge (λ _. Armed)
            (λ cooldown.
              Attempts.retry p around provider path profile attempts l id (attempt cooldown)
                all_limited)
            (λ _. Pending) keeps
            (λ cooldown.
              retry-Pending p around provider path profile attempts l id (attempt cooldown)
                all_limited))

    served-Goes :
        (id : Uuid) (status size : ℕ) (normalized : Option (Bytes × Bytes))
        → Goes (Attempts.served p around provider path profile attempts id status size normalized)
    served-Goes id status size none =
        give_up-Pending id size status "upstream_protocol_error" (with_bytes_out size)
    served-Goes id status size (some (bytes, content_type)) =
        Armed-then p around (length bytes) (record_request p around id >> finished) (λ _. Pending)
          (then-Yields Accounted Armed (record_request p around id) Armed finished (λ _. Pending)
            (record_request-Keeps p around id)
            (λ s armed.
              finish_then_reply p around provider path profile attempts id
                (attempt_succeeded status (some (length bytes))) (request_succeeded status)
                (provided status content_type bytes) (λ (_ : Option Progress). Pending) (refl, refl)
                s armed.0))
      where
        finished : Handler p.File (Option Progress)
        finished =
            finish_with_attempt around id (attempt_succeeded status (some (length bytes)))
              (request_succeeded status)
            >> reply (provided status content_type bytes)

    delivered-Goes :
        (l : Progress) (id : Uuid) (received : Received)
        → Goes (Attempts.delivered p around provider path profile attempts l id received)
    delivered-Goes l id received = go (bounded_response_bytes received (response_body_limit path))
      where
        go :
            (body : Body)
            → Goes (Attempts.deliver p around provider path profile attempts l id received body)
        go (broken too_large) =
            give_up-Pending id 0 (as_status received.status) "upstream_response_too_large"
              (λ attempt. attempt)
        go (broken transport) =
            retried-Goes l id (record_failure p around id none)
              (attempt_failed (some (as_status received.status)) "upstream_body_error") false
              (record_failure-Keeps p around id none)
        go (whole bytes) =
            served-Goes id (as_status received.status) (length bytes)
              (provider.normalize path bytes (content_type_of received.content_type))

    accepted-Goes :
        (l : Progress) (id : Uuid) (polled : Option Received)
        → Goes (Attempts.accepted p around provider path profile attempts l id polled)
    accepted-Goes l id none = give_up-Pending id 0 202 "upstream_poll_error" (λ attempt. attempt)
    accepted-Goes l id (some received) = delivered-Goes l id received

    cool_down-Keeps :
        (id : Uuid) (status : ℕ) (hint : Option Duration)
        → Keeps p around (Attempts.cool_down p around provider path profile attempts id status hint)
    cool_down-Keeps id status hint = go (is_auth_failure status)
      where
        go :
            (b : Bool)
            → Keeps p around (
                if b
                then (quarantine_key p around id >> return none)
                else record_failure p around id hint)
        go true =
            then-Yields Accounted Armed (quarantine_key p around id) Armed (return none)
              (λ _. Armed) (quarantine_key-Keeps p around id) (λ s armed. armed)
        go false = record_failure-Keeps p around id hint

    handle-Goes :
        (l : Progress) (id : Uuid) (policy : RuntimeRoutingPolicy) (answer : Option Answered)
        → Goes (Attempts.handle p around provider path profile attempts l id policy answer)
    unfolding Attempts.handle
    handle-Goes l id policy none =
        retried-Goes l id (record_failure p around id none)
          (attempt_failed none "upstream_transport_error") false
          (record_failure-Keeps p around id none)
    handle-Goes l id policy (some a) =
        branches (is_success a.received.status) (a.received.status == 202) (
          is_auth_failure a.received.status
          || any (λ n. n == a.received.status) policy.retryable_statuses)
      where
        branches :
            (succeeded pending fails_over : Bool)
            → Goes (
                if succeeded
                then (if pending
                    then Attempts.accepted p around provider path profile attempts l id a.polled
                    else Attempts.delivered p around provider path profile attempts l id a.received)
                else if fails_over
                then Attempts.fail_over p around provider path profile attempts l id policy a
                else Attempts.reject p around provider path profile attempts id
                    (as_status a.received.status))
        branches true true fails_over = accepted-Goes l id a.polled
        branches true false fails_over = delivered-Goes l id a.received
        branches false pending true = λ s h.
            retried-Goes l id
              (Attempts.cool_down p around provider path profile attempts id a.received.status
                (Attempts.hint_of p around provider path profile attempts policy a s))
              (attempt_failed (some a.received.status) (retryable_error_class a.received.status))
              l.all_attempts_rate_limited
              (cool_down-Keeps id a.received.status
                (Attempts.hint_of p around provider path profile attempts policy a s))
              s h
        branches false pending false =
            finish_then_reply p around provider path profile attempts id
              (attempt_failed (some (as_status a.received.status)) "upstream_request_rejected" none)
              (request_rejected (as_status a.received.status) "upstream_request_rejected")
              (upstream_error (as_status a.received.status) "upstream_request_rejected")
              (λ (_ : Option Progress). Pending) (refl, refl)

    call_with-Goes :
        (l : Progress) (id : Uuid) (secret : Result Bytes)
        → Goes (Attempts.call_with p around provider path profile attempts l id secret)
    unfolding Attempts.post Attempts.routing_policy
    call_with-Goes l id (err x) =
        Armed-then p around 0
          (Attempts.retry p around provider path profile attempts
            (record l { all_attempts_rate_limited = false }) id
            (attempt_failed none "credential_unavailable" none) false)
          (λ _. Pending)
          (retry-Pending p around provider path profile attempts
            (record l { all_attempts_rate_limited = false }) id
            (attempt_failed none "credential_unavailable" none) false)
    call_with-Goes l id (ok secret) = λ s h.
        handle-Goes (noted (provider.answers s.calls) l) id
          (load_routing_policy s.store.database (provider.routing_document (s.calls + 1)))
          (provider.answers s.calls)
          (record s { posts = s.posts ++ id ∷ []; calls = s.calls + 1 + 1 }) h

    attempt_with-Goes :
        (l : Progress) (selected : Option Uuid)
        → Goes (Attempts.attempt_with p around provider path profile attempts l selected)
    attempt_with-Goes l none = λ s h. h
    attempt_with-Goes l (some id) = go (was_attempted l.attempted id) (is_first l)
      where
        next : Progress
        next = record l { attempted = l.attempted ++ id ∷ []; next_key_id = none }

        go :
            (tried first : Bool)
            → Goes (
                if tried
                then return none
                else (Attempts.started p around provider path profile attempts first id
                    >> Attempts.call_provider p around provider path profile attempts next id))
        go true first = λ s h. h
        go false true = λ s h. call_with-Goes next id (credential p s.store.world.vault id) s h
        go false false =
            then-Yields Accounted Pending (start_evidenced_attempt p around profile id) Pending
              (Attempts.call_provider p around provider path profile attempts next id)
              (λ _. Pending) (start_evidenced_attempt-Pending p around profile id)
              (λ s h. call_with-Goes next id (credential p s.store.world.vault id) s h)

    pick-Pending :
        (first_key_id : Uuid) (l : Progress)
        → Yields Pending
            (Attempts.pick p around provider path profile attempts first_key_id l)
            (λ _. Pending)
            Accounted
    pick-Pending first_key_id l = go (is_first l) l.next_key_id
      where
        go :
            (first : Bool) (next : Option Uuid)
            → Yields Pending
                (if first then return (some first_key_id) else elim next [
                  | some id ↦ return (some id)
                  | none ↦ next_failover_key p around profile l.attempted
                ])
                (λ _. Pending)
                Accounted
        go true next = λ s h. h
        go false (some id) = λ s h. h
        go false none = next_failover_key-Pending p around profile l.attempted

    round-Goes :
        (first_key_id : Uuid) (l : Progress)
        → Goes (Attempts.round p around provider path profile attempts first_key_id l)
    unfolding Attempts.round
    round-Goes first_key_id l =
        bind-Yields Accounted Pending
          (Attempts.pick p around provider path profile attempts first_key_id l) (λ _. Pending)
          (Attempts.attempt_with p around provider path profile attempts l) (λ _. Pending)
          (pick-Pending first_key_id l) (attempt_with-Goes l)

    closed :
        (all_limited : Bool) (seconds : Option ℕ) (status : ℕ)
        → Ends (request_of (last_recovery all_limited)) status
        → str_eq (last_recovery all_limited).error_class "handler_abandoned" ≡ false
        → status_of (last_response all_limited seconds) ≡ status
        → Yields Pending
            (Attempts.ended_with p around provider path profile attempts all_limited seconds)
            Accounted
            Accounted
    closed all_limited seconds status ends named is =
        bind-Yields Accounted Pending
          (finish_with_open_attempts_silently around (last_recovery all_limited))
          (λ recorded s. if recorded then IsSettled status s else Armed s)
          (λ recorded.
            return (if recorded then last_response all_limited seconds else evidence_unavailable))
          Accounted
          (finish_with_open_attempts-IsSettled around (last_recovery all_limited) status ends named)
          told
      where
        told :
            (recorded : Bool)
            → Yields
                (λ s. if recorded then IsSettled status s else Armed s)
                (return
                  (if recorded then last_response all_limited seconds else evidence_unavailable))
                Accounted
                Accounted
        told true s h = inl (subst (λ n. IsSettled n s) (sym is) h)
        told false s h = inr h

    ended_with-Accounted :
        (all_limited : Bool) (seconds : Option ℕ)
        → Yields Pending
            (Attempts.ended_with p around provider path profile attempts all_limited seconds)
            Accounted
            Accounted
    ended_with-Accounted true seconds = closed true seconds 429 (refl, refl) refl refl
    ended_with-Accounted false seconds = closed false seconds 503 (refl, refl) refl refl

    after_loop-Accounted :
        (l : Progress)
        → Yields Pending
            (Attempts.after_loop p around provider path profile attempts l)
            Accounted
            Accounted
    unfolding Attempts.after_loop
    after_loop-Accounted l s h =
        go (l.rate_limited && l.all_attempts_rate_limited && not (is_first l))
          (Attempts.wait_of p around provider path profile attempts s) s h
      where
        go :
            (limited : Bool) (seconds : Option ℕ)
            → Yields Pending
                (Attempts.exhausted p around provider path profile attempts limited seconds)
                Accounted
                Accounted
        go true (some seconds) = ended_with-Accounted true (some seconds)
        go true none = ended_with-Accounted false none
        go false seconds = ended_with-Accounted false none

    continued-Accounted :
        (l : Progress) (again : Progress → Handler p.File Response)
        → ((l' : Progress) → Yields Pending (again l') Accounted Accounted)
        → (next : Option Progress)
        → Yields Pending
            (Attempts.continued p around provider path profile attempts l again next)
            Accounted
            Accounted
    continued-Accounted l again more none = after_loop-Accounted l
    continued-Accounted l again more (some l') = more l'

    try_keys-Accounted :
        (n : ℕ) (first_key_id : Uuid) (l : Progress)
        → Yields Pending
            (Attempts.try_keys p around provider path profile attempts n first_key_id l)
            Accounted
            Accounted
    unfolding Attempts.try_keys
    try_keys-Accounted zero first_key_id l = after_loop-Accounted l
    try_keys-Accounted (suc n) first_key_id l =
        bind-Yields Accounted Pending
          (Attempts.round p around provider path profile attempts first_key_id l) (λ _. Pending)
          (Attempts.continued p around provider path profile attempts l again) Accounted
          (round-Goes first_key_id l)
          (continued-Accounted l again (try_keys-Accounted n first_key_id))
      where
        again : Progress → Handler p.File Response
        again = Attempts.try_keys p around provider path profile attempts n first_key_id

-- Every response of the loop over keys, for a request whose evidence is pending, leaves it accounted for: it
-- is closed, holds no permit and, with a database, the ledger has a row of the request with an end and the
-- status of the response; or it is not closed, and the error class that it is closed with when the handler
-- is dropped is not that of an abandoned handler.
pub answer_request-IsAccounted :
    (p : Primitives) (around : Surroundings) (provider : Provider) (path profile : String)
    (first_key_id : Uuid) (s : Server p.File)
    → s.evidence.terminal ≡ false
    → IsAccounted
        (answer_request p around provider path profile first_key_id s).1
        (answer_request p around provider path profile first_key_id s).0
unfolding answer_request
answer_request-IsAccounted p around provider path profile first_key_id s pending =
    go (Attempts.try_keys p around provider path profile attempts attempts first_key_id at_first s)
      (try_keys-Accounted p around provider path profile attempts attempts first_key_id at_first s
        pending)
  where
    attempts : ℕ
    attempts = key_attempts path (length (list s.store.world.vault))

    go :
        (x : Server p.File × Step Response)
        → After (Accounted p around) (Accounted p around) x
        → IsAccounted (answered x).1 (answered x).0
    go (s', go_on r) h = h
    go (s', respond r) h = h
