-- ===== src/Failover/Attempts.antt =====
-- The loop over keys of the handler `multimodal` in crates/gateway/src/proxy.rs, from its first selected key
-- to its response, with a provider that is not the mock one; and `finish_retryable_or_terminal`.
-- `poll_nvcf` and `normalize_modality_response` are parameters: what they answer is an input.
use nvidia_build_lb.Prelude.{
  ℕ, zero, suc, ◌+◌, max, Bytes, String, Bool, true, false, not, ◌&&◌, ◌||◌, List, [], ◌∷◌, ◌++◌,
  Option, none, some, any, length, leb, ltb, ◌==◌, str_eq, codes, if◌then◌else◌,
}
use nvidia_build_lb.Json.{Value}
use nvidia_build_lb.Requests.{retryable_error_class}
use nvidia_build_lb.Vault.State.{Uuid, Time, Duration, Result, ok, err}
use nvidia_build_lb.Vault.Custody.{Primitives}
use nvidia_build_lb.Vault.Keys.{list, credential}
use nvidia_build_lb.Readiness.{retry_after_for_keys, was_attempted}
use nvidia_build_lb.Ledger.{
  AttemptTerminal, RequestTerminal, attempt_succeeded, attempt_failed, with_bytes_out,
  request_succeeded, request_failed, request_rejected,
}
use nvidia_build_lb.Ledger.Operations.{Recovery}
use nvidia_build_lb.Evidence.{
  Response, openai_error, provided, Server, Surroundings, Handler, Step, go_on, respond, ◌>>=◌,
  ◌>>◌, return, reply, evidence_unavailable, arm_evidence_failure, reset_drop_recovery,
  finish_with_attempt, finish_with_open_attempts_silently,
}
use nvidia_build_lb.Failover.{
  response_body_limit, too_large, transport, Body, whole, broken, Received, bounded_response_bytes,
  RuntimeRoutingPolicy, load_routing_policy, retry_after_duration, next_failover_key,
  record_request, record_failure, quarantine_key, attempt_finished, start_evidenced_attempt,
}

-- What comes back from one POST. The last field is what polling an accepted job ends with.
pub record Answered : Type 0 where
  pub received : Received
  pub retry_after : Option Bytes
  pub polled : Option Received

-- The network and the parsers, by the number of the call.
pub record Provider : Type 0 where
  pub answers : ℕ → Option Answered
  pub routing_document : ℕ → Option Value
  pub http_date : Bytes → Option Time
  pub normalize : String → Bytes → Bytes → Option (Bytes × Bytes)

-- What the loop carries from one key to the next.
pub record Progress : Type 0 where
  pub attempted : List Uuid
  pub next_key_id : Option Uuid
  pub rate_limited : Bool
  pub all_attempts_rate_limited : Bool

abbrev pub at_first : Progress
at_first = record {
  attempted = [];
  next_key_id = none;
  rate_limited = false;
  all_attempts_rate_limited = true;
}

-- `StatusCode::from_u16(..).unwrap_or(BAD_GATEWAY)`
abbrev pub as_status : ℕ → ℕ
as_status n = if leb 100 n && leb n 999 then n else 502

abbrev pub is_success : ℕ → Bool
is_success n = leb 200 n && leb n 299

abbrev pub is_auth_failure : ℕ → Bool
is_auth_failure n = n == 401 || n == 403

abbrev pub upstream_error : ℕ → String → Response
upstream_error status code = openai_error status "upstream_error" code none

abbrev pub rate_limited_response : Option ℕ → Response
rate_limited_response seconds = openai_error 429 "rate_limit_error" "upstream_rate_limited" seconds

abbrev pub no_eligible_upstream : Response
no_eligible_upstream = openai_error 503 "service_unavailable_error" "no_eligible_upstream" none

abbrev pub is_first : Progress → Bool
is_first l = elim l.attempted [ [] ↦ true | id ∷ ids ↦ false ]

-- The flags after one answer.
abbrev pub noted : Option Answered → Progress → Progress
noted none l = record l { all_attempts_rate_limited = false }
noted (some a) l =
    if a.received.status == 429
    then record l { rate_limited = true }
    else record l { all_attempts_rate_limited = false }

abbrev pub hint_or : Option Duration → Duration → Option Duration
hint_or none d = some d
hint_or (some hint) d = some hint

abbrev pub last_response : Bool → Option ℕ → Response
last_response true seconds = rate_limited_response seconds
last_response false seconds = no_eligible_upstream

abbrev pub last_request : Bool → RequestTerminal
last_request true = request_failed 429 "upstream_rate_limited"
last_request false = request_failed 503 "no_eligible_upstream"

-- After the loop.
abbrev pub last_recovery : Bool → Recovery
last_recovery all_limited = record {
  outcome = "failed";
  status_code = some (if all_limited then 429 else 503);
  error_class = if all_limited then "upstream_rate_limited" else "no_eligible_upstream";
  ttfb_ms = none;
  bytes_out = 0;
}

abbrev pub content_type_of : Option Bytes → Bytes
content_type_of none = codes "application/json"
content_type_of (some content_type) = content_type

-- The attempts that the loop may make: one where the call has a side effect at the provider.
unfoldable pub key_attempts : String → ℕ → ℕ
key_attempts path keys =
    if str_eq path "/v1/images/generations" || str_eq path "/v1/videos/generations"
    then 1
    else max keys 1

module _ (p : Primitives) (around : Surroundings) (provider : Provider) (path profile : String)
    (attempts : ℕ) where
  abbrev pub wait_of : Server p.File → Option ℕ
  wait_of s = retry_after_for_keys (around.clock s.calls) (list s.store.world.vault)

  abbrev pub go_to_next : Uuid → AttemptTerminal → Bool → Option Uuid → Handler p.File Uuid
  go_to_next key_id attempt all_limited (some next) = do
    attempt_finished p around key_id attempt
    reset_drop_recovery
    return next
  go_to_next key_id attempt all_limited none = λ s.
      (finish_with_attempt around key_id attempt (last_request all_limited)
          >> reply (last_response all_limited (wait_of s)))
        s

  abbrev pub find_next : List Uuid → Handler p.File (Option Uuid)
  find_next attempted =
      if ltb (length attempted) attempts
      then next_failover_key p around profile attempted
      else return none

  unfoldable pub finish_retryable_or_terminal :
      List Uuid → Uuid → AttemptTerminal → Bool → Handler p.File Uuid
  unfolding attempt_finished finish_with_attempt next_failover_key reset_drop_recovery
  finish_retryable_or_terminal attempted key_id attempt all_limited = do
    next ← find_next attempted
    go_to_next key_id attempt all_limited next

  -- The attempt failed and the loop goes on with another key, if there is one.
  abbrev pub retry : Progress → Uuid → AttemptTerminal → Bool → Handler p.File (Option Progress)
  retry l id attempt all_limited = do
    next ← finish_retryable_or_terminal l.attempted id attempt all_limited
    return (some (record l { next_key_id = some next }))

  -- The attempt failed and so does the request.
  abbrev pub give_up :
      Uuid → ℕ → ℕ → String → (AttemptTerminal → AttemptTerminal) → Handler p.File (Option Progress)
  give_up id bytes status error_class also = do
    arm_evidence_failure none bytes
    cooldown ← record_failure p around id none
    finish_with_attempt around id (also (attempt_failed (some status) error_class cooldown))
        (request_failed 502 error_class)
    reply (upstream_error 502 error_class)

  abbrev pub served : Uuid → ℕ → ℕ → Option (Bytes × Bytes) → Handler p.File (Option Progress)
  served id status size none =
      give_up id size status "upstream_protocol_error" (with_bytes_out size)
  served id status size (some (bytes, content_type)) = do
    arm_evidence_failure none (length bytes)
    record_request p around id
    finish_with_attempt around id (attempt_succeeded status (some (length bytes)))
        (request_succeeded status)
    reply (provided status content_type bytes)

  abbrev pub deliver : Progress → Uuid → Received → Body → Handler p.File (Option Progress)
  deliver l id received (broken too_large) =
      give_up id 0 (as_status received.status) "upstream_response_too_large" (λ attempt. attempt)
  deliver l id received (broken transport) = do
    arm_evidence_failure none 0
    cooldown ← record_failure p around id none
    retry l id (attempt_failed (some (as_status received.status)) "upstream_body_error" cooldown)
        false
  deliver l id received (whole bytes) =
      served id (as_status received.status) (length bytes)
        (provider.normalize path bytes (content_type_of received.content_type))

  abbrev pub delivered : Progress → Uuid → Received → Handler p.File (Option Progress)
  delivered l id received =
      deliver l id received (bounded_response_bytes received (response_body_limit path))

  -- A job that was accepted is polled, and never sent again on another key.
  abbrev pub accepted : Progress → Uuid → Option Received → Handler p.File (Option Progress)
  accepted l id none = give_up id 0 202 "upstream_poll_error" (λ attempt. attempt)
  accepted l id (some received) = delivered l id received

  abbrev pub cool_down : Uuid → ℕ → Option Duration → Handler p.File (Option Time)
  cool_down id status hint =
      if is_auth_failure status
      then (quarantine_key p around id >> return none)
      else record_failure p around id hint

  abbrev pub hint_of : RuntimeRoutingPolicy → Answered → Server p.File → Option Duration
  hint_of policy a s =
      hint_or (retry_after_duration provider.http_date (around.clock s.calls) a.retry_after)
        policy.default_cooldown

  abbrev pub fail_over :
      Progress → Uuid → RuntimeRoutingPolicy → Answered → Handler p.File (Option Progress)
  fail_over l id policy a s =
      (do
        arm_evidence_failure none 0
        cooldown ← cool_down id a.received.status (hint_of policy a s)
        retry l id
            (attempt_failed (some a.received.status) (retryable_error_class a.received.status)
              cooldown)
            l.all_attempts_rate_limited)
        s

  abbrev pub reject : Uuid → ℕ → Handler p.File (Option Progress)
  reject id status = do
    finish_with_attempt around id (attempt_failed (some status) "upstream_request_rejected" none)
        (request_rejected status "upstream_request_rejected")
    reply (upstream_error status "upstream_request_rejected")

  abbrev pub lost : Progress → Uuid → Handler p.File (Option Progress)
  lost l id = do
    arm_evidence_failure none 0
    cooldown ← record_failure p around id none
    retry l id (attempt_failed none "upstream_transport_error" cooldown) false

  unfoldable pub handle :
      Progress → Uuid → RuntimeRoutingPolicy → Option Answered → Handler p.File (Option Progress)
  unfolding finish_retryable_or_terminal
  handle l id policy none = lost l id
  handle l id policy (some a) =
      if is_success a.received.status
      then (if a.received.status == 202 then accepted l id a.polled else delivered l id a.received)
      else if is_auth_failure a.received.status
          || any (λ n. n == a.received.status) policy.retryable_statuses
      then fail_over l id policy a
      else reject id (as_status a.received.status)

  -- The POST, which is noted, and the policy that is loaded after it.
  unfoldable pub post : Uuid → Handler p.File (Option Answered)
  post id s = (
    record s { posts = s.posts ++ id ∷ []; calls = s.calls + 1 },
    go_on (provider.answers s.calls),
  )

  unfoldable pub routing_policy : Handler p.File RuntimeRoutingPolicy
  unfolding load_routing_policy
  routing_policy s = (
    record s { calls = s.calls + 1 },
    go_on (load_routing_policy s.store.database (provider.routing_document s.calls)),
  )

  abbrev pub unavailable : Progress → Uuid → Handler p.File (Option Progress)
  unavailable l id = do
    arm_evidence_failure none 0
    retry l id (attempt_failed none "credential_unavailable" none) false

  abbrev pub call_with : Progress → Uuid → Result Bytes → Handler p.File (Option Progress)
  call_with l id (err x) = unavailable (record l { all_attempts_rate_limited = false }) id
  call_with l id (ok secret) = do
    answer ← post id
    policy ← routing_policy
    handle (noted answer l) id policy answer

  abbrev pub call_provider : Progress → Uuid → Handler p.File (Option Progress)
  call_provider l id s = call_with l id (credential p s.store.world.vault id) s

  abbrev pub started : Bool → Uuid → Handler p.File (Unit {0})
  started first id = if first then return tt else start_evidenced_attempt p around profile id

  -- One round for a key, which breaks off where the key was tried before.
  abbrev pub attempt_with : Progress → Option Uuid → Handler p.File (Option Progress)
  attempt_with l none = return none
  attempt_with l (some id) = if was_attempted l.attempted id then return none else do
    started (is_first l) id
    call_provider (record l { attempted = l.attempted ++ id ∷ []; next_key_id = none }) id

  abbrev pub pick : Uuid → Progress → Handler p.File (Option Uuid)
  pick first_key_id l = if is_first l then return (some first_key_id) else elim l.next_key_id [
    | some id ↦ return (some id)
    | none ↦ next_failover_key p around profile l.attempted
  ]

  unfoldable pub round : Uuid → Progress → Handler p.File (Option Progress)
  unfolding handle post routing_policy start_evidenced_attempt
  round first_key_id l = do selected ← pick first_key_id l; attempt_with l selected

  abbrev pub ended_with : Bool → Option ℕ → Handler p.File Response
  ended_with all_limited seconds = do
    recorded ← finish_with_open_attempts_silently around (last_recovery all_limited)
    return (if recorded then last_response all_limited seconds else evidence_unavailable)

  abbrev pub exhausted : Bool → Option ℕ → Handler p.File Response
  exhausted true (some seconds) = ended_with true (some seconds)
  exhausted true none = ended_with false none
  exhausted false seconds = ended_with false none

  unfoldable pub after_loop : Progress → Handler p.File Response
  unfolding finish_with_open_attempts_silently
  after_loop l s =
      exhausted (l.rate_limited && l.all_attempts_rate_limited && not (is_first l)) (wait_of s) s

  -- `break` or another round.
  abbrev pub continued :
      Progress → (Progress → Handler p.File Response) → Option Progress → Handler p.File Response
  continued l again none = after_loop l
  continued l again (some l') = again l'

  unfoldable pub try_keys : ℕ → Uuid → Progress → Handler p.File Response
  unfolding round after_loop
  try_keys zero first_key_id l = after_loop l
  try_keys (suc n) first_key_id l = do
    next ← round first_key_id l
    continued l (try_keys n first_key_id) next

abbrev pub answered : {F : Type 0} → Server F × Step Response → Server F × Response
answered (s, go_on r) = (s, r)
answered (s, respond r) = (s, r)

-- The part of the handler from the loop on.
unfoldable pub answer_request :
    (p : Primitives)
    → Surroundings
    → Provider
    → (path profile : String) → Uuid
    → Server p.File
    → Server p.File × Response
unfolding try_keys
answer_request p around provider path profile first_key_id s =
    let attempts = key_attempts path (length (list s.store.world.vault)) in
    answered (try_keys p around provider path profile attempts attempts first_key_id at_first s)
