-- ===== src/Failover/Posts.antt =====
-- With which keys `multimodal` in crates/gateway/src/proxy.rs calls the provider.
use nvidia_build_lb.Prelude.{
  ℕ, zero, suc, arith, ap, ◌∙◌, ◌≤◌, ◌+◌, Bytes, String, Bool, true, false, not, ◌&&◌, ◌||◌, List,
  [], ◌∷◌, ◌++◌, Option, none, some, length, ◌==◌, max, str_eq, if◌then◌else◌, ◌≡◌, refl, sym,
  subst,
}
use nvidia_build_lb.Vault.State.{Uuid, Result, ok, err}
use nvidia_build_lb.Vault.Custody.{Primitives}
use nvidia_build_lb.Vault.Keys.{list, credential}
use nvidia_build_lb.Readiness.{was_attempted}
use nvidia_build_lb.Ledger.{attempt_failed}
use nvidia_build_lb.Evidence.{
  Response, Server, Surroundings, Handler, Step, go_on, respond, ◌>>◌, return, evidence_unavailable,
  arm_evidence_failure, arm_drop_recovery, finish_with_open_attempts_silently,
}
use nvidia_build_lb.Evidence.Rules.{After, Yields, bind-Yields, then-Yields}
use nvidia_build_lb.Failover.{next_failover_key, start_evidenced_attempt, load_routing_policy}
use nvidia_build_lb.Failover.Silent.{
  finish_with_open_attempts-Silent, start_evidenced_attempt-Silent,
}
use nvidia_build_lb.Failover.Attempts
use nvidia_build_lb.Failover.Attempts.{
  Answered, Provider, Progress, at_first, noted, as_status, is_success, is_auth_failure,
  upstream_error, is_first, key_attempts, answered, answer_request, last_request, last_response,
  last_recovery, content_type_of,
}
use nvidia_build_lb.Failover.Tracked.{
  noted-attempted, Tracked, Follows, retry-Follows, handle-Follows,
}

-- No key stands twice.
unfoldable pub distinct : List Uuid → Bool
distinct [] = true
distinct (key ∷ keys) = not (was_attempted keys key) && distinct keys

unfoldable pub within : List Uuid → List Uuid → Bool
within attempted [] = true
within attempted (key ∷ keys) = was_attempted attempted key && within attempted keys

was_attempted-append :
    (keys : List Uuid) (id key : Uuid)
    → was_attempted (keys ++ id ∷ []) key ≡ was_attempted keys key || id == key
was_attempted-append [] id key = ground arith
was_attempted-append (k ∷ keys) id key = ground (arith, was_attempted-append keys id key)

within-append :
    (attempted keys : List Uuid) (id : Uuid)
    → within attempted keys ≡ true
    → within (attempted ++ id ∷ []) keys ≡ true
unfolding within
within-append attempted [] id h = refl
within-append attempted (key ∷ keys) id h =
    ground (arith, was_attempted-append attempted id key, within-append attempted keys id)

within-push :
    (attempted keys : List Uuid) (id : Uuid)
    → within attempted keys ≡ true
    → within (attempted ++ id ∷ []) (keys ++ id ∷ []) ≡ true
unfolding within
within-push attempted [] id h = ground (arith, was_attempted-append attempted id id)
within-push attempted (key ∷ keys) id h =
    ground (arith, was_attempted-append attempted id key, within-push attempted keys id)

distinct-push :
    (attempted keys : List Uuid) (id : Uuid)
    → distinct keys ≡ true
    → within attempted keys ≡ true
    → was_attempted attempted id ≡ false
    → distinct (keys ++ id ∷ []) ≡ true
unfolding distinct within
distinct-push attempted [] id h k new = refl
distinct-push attempted (key ∷ keys) id h k new =
    ground (arith, was_attempted-append keys id key, distinct-push attempted keys id)

-- The calls of the provider since a list of them: one for each key at most, with keys that were tried, and so
-- many that the rounds left do not exceed the attempts.
record IsWithin (base attempted : List Uuid) (n attempts : ℕ) (posts : List Uuid) : Type 0 where
  keys : List Uuid
  sent : posts ≡ base ++ keys
  once : distinct keys ≡ true
  tried : within attempted keys ≡ true
  few : length keys + n ≤ attempts

-- The calls of the provider since a list of them: no key twice, and no more than the attempts.
record IsFew (base : List Uuid) (attempts : ℕ) (posts : List Uuid) : Type 0 where
  keys : List Uuid
  sent : posts ≡ base ++ keys
  once : distinct keys ≡ true
  few : length keys ≤ attempts

-- The calls of the provider for a path since a list of them, with so many keys in the vault: no key twice, one
-- call at most for the paths of images and videos, and no more than the keys for any other, or one.
pub record IsOnce (path : String) (vault_keys : ℕ) (base posts : List Uuid) : Type 0 where
  pub keys : List Uuid
  pub sent : posts ≡ base ++ keys
  pub once : distinct keys ≡ true
  pub for_images :
      length keys ≤ (if str_eq path "/v1/images/generations" then 1 else max vault_keys 1)
  pub for_videos :
      length keys ≤ (if str_eq path "/v1/videos/generations" then 1 else max vault_keys 1)

IsFew-IsOnce :
    (path : String) (vault_keys : ℕ) (base posts : List Uuid)
    → IsFew base (key_attempts path vault_keys) posts
    → IsOnce path vault_keys base posts
unfolding key_attempts
IsFew-IsOnce path vault_keys base posts h = record {
  keys = h.keys;
  sent = h.sent;
  once = h.once;
  for_images = ground (arith, h.few);
  for_videos = ground (arith, h.few);
}

After-wider {ℓ} :
    {F : Type 0} {A : Type ℓ} (Q Q' : A → Server F → Type 0) (R R' : Response → Server F → Type 0)
    → ((a : A) (s : Server F) → Q a s → Q' a s)
    → ((r : Response) (s : Server F) → R r s → R' r s)
    → (x : Server F × Step A) → After Q R x
    → After Q' R' x
After-wider Q Q' R R' f g (s, go_on a) h = f a s h
After-wider Q Q' R R' f g (s, respond r) h = g r s h

length-push : (keys : List Uuid) (id : Uuid) → length (keys ++ id ∷ []) ≡ length keys + 1
length-push [] id = refl
length-push (k ∷ keys) id = omega (arith, length-push keys id)

append_assoc : (xs ys zs : List Uuid) → (xs ++ ys) ++ zs ≡ xs ++ (ys ++ zs)
append_assoc [] ys zs = refl
append_assoc (x ∷ xs) ys zs = ap (λ l. x ∷ l) (append_assoc xs ys zs)

module _ (p : Primitives) (around : Surroundings) (provider : Provider) (path profile : String)
    (attempts : ℕ) (base : List Uuid) where
  abbrev Within : List Uuid → ℕ → List Uuid → Type 0
  Within attempted n posts = IsWithin base attempted n attempts posts

  abbrev Once : List Uuid → Type 0
  Once posts = IsFew base attempts posts

  Within-Once :
      (attempted : List Uuid) (n : ℕ) (posts : List Uuid) → Within attempted n posts → Once posts
  Within-Once attempted n posts h = record {
    keys = h.keys;
    sent = h.sent;
    once = h.once;
    few = omega (arith, h.few);
  }

  -- A key is tried and not called.
  Within-tried :
      (attempted : List Uuid) (id : Uuid) (n : ℕ) (posts : List Uuid)
      → Within attempted (suc n) posts
      → Within (attempted ++ id ∷ []) n posts
  Within-tried attempted id n posts h = record {
    keys = h.keys;
    sent = h.sent;
    once = h.once;
    tried = within-append attempted h.keys id h.tried;
    few = omega (arith, h.few);
  }

  -- A key is tried and called.
  Within-push :
      (attempted : List Uuid) (id : Uuid) (n : ℕ) (posts : List Uuid)
      → was_attempted attempted id ≡ false
      → Within attempted (suc n) posts
      → Within (attempted ++ id ∷ []) n (posts ++ id ∷ [])
  Within-push attempted id n posts new h = record {
    keys = h.keys ++ id ∷ [];
    sent = ap (λ l. l ++ id ∷ []) h.sent ∙ append_assoc base h.keys (id ∷ []);
    once = distinct-push attempted h.keys id h.once h.tried new;
    tried = within-push attempted h.keys id h.tried;
    few = omega (arith, h.few, length-push h.keys id);
  }

  abbrev Ended : Response → Server p.File → Type 0
  Ended r s = Once s.posts

  -- After a round with so many rounds left.
  abbrev Rounded : ℕ → Option Progress → Server p.File → Type 0
  Rounded n none s = Once s.posts
  Rounded n (some l) s = Within l.attempted n s.posts

  Tracked-Rounded :
      (n : ℕ) (l : Progress) (o : Option Progress) (s : Server p.File)
      → Tracked p around provider path profile attempts (Within l.attempted n) l o s
      → Rounded n o s
  Tracked-Rounded n l none s h = Within-Once l.attempted n s.posts h.0
  Tracked-Rounded n l (some l') s h = subst (λ (a : List Uuid). Within a n s.posts) (sym h.1) h.0

  following :
      (n : ℕ) (l : Progress) (m : Handler p.File (Option Progress))
      → Follows p around provider path profile attempts (Within l.attempted n) l m
      → Yields (λ s. Within l.attempted n s.posts) m (Rounded n) Ended
  following n l m follows s h =
      After-wider (Tracked p around provider path profile attempts (Within l.attempted n) l)
        (Rounded n) (λ r s'. Within l.attempted n s'.posts) Ended
        (λ o s' k. Tracked-Rounded n l o s' k) (λ r s' k. Within-Once l.attempted n s'.posts k)
        (m s) (follows s h)

  call_with-Rounded :
      (n : ℕ) (l : Progress) (attempted : List Uuid) (id : Uuid) (secret : Result Bytes)
      → was_attempted attempted id ≡ false
      → l.attempted ≡ attempted ++ id ∷ []
      → Yields
          (λ s. Within attempted (suc n) s.posts)
          (Attempts.call_with p around provider path profile attempts l id secret)
          (Rounded n)
          Ended
  unfolding Attempts.post Attempts.routing_policy arm_evidence_failure arm_drop_recovery
  call_with-Rounded n l attempted id (err x) new is = λ s h.
      following n l'
        (Attempts.retry p around provider path profile attempts l' id
          (attempt_failed none "credential_unavailable" none) false)
        (retry-Follows p around provider path profile attempts (Within l'.attempted n) l' id
          (attempt_failed none "credential_unavailable" none) false)
        (arm_evidence_failure none 0 s).0
        (subst (λ (a : List Uuid). Within a n s.posts) (sym is)
          (Within-tried attempted id n s.posts h))
    where
      l' : Progress
      l' = record l { all_attempts_rate_limited = false }
  call_with-Rounded n l attempted id (ok secret) new is = λ s h.
      following n (noted (provider.answers s.calls) l)
        (Attempts.handle p around provider path profile attempts
          (noted (provider.answers s.calls) l) id
          (load_routing_policy s.store.database (provider.routing_document (s.calls + 1)))
          (provider.answers s.calls))
        (handle-Follows p around provider path profile attempts
          (Within (noted (provider.answers s.calls) l).attempted n)
          (noted (provider.answers s.calls) l) id
          (load_routing_policy s.store.database (provider.routing_document (s.calls + 1)))
          (provider.answers s.calls))
        (record s { posts = s.posts ++ id ∷ []; calls = s.calls + 1 + 1 })
        (subst (λ (a : List Uuid). Within a n (s.posts ++ id ∷ []))
          (sym (noted-attempted (provider.answers s.calls) l ∙ is))
          (Within-push attempted id n s.posts new h))

  attempt_with-Rounded :
      (n : ℕ) (l : Progress) (selected : Option Uuid)
      → Yields
          (λ s. Within l.attempted (suc n) s.posts)
          (Attempts.attempt_with p around provider path profile attempts l selected)
          (Rounded n)
          Ended
  attempt_with-Rounded n l none = λ s h. Within-Once l.attempted (suc n) s.posts h
  attempt_with-Rounded n l (some id) = go (was_attempted l.attempted id) refl (is_first l)
    where
      next : Progress
      next = record l { attempted = l.attempted ++ id ∷ []; next_key_id = none }

      Before : Server p.File → Type 0
      Before s = Within l.attempted (suc n) s.posts

      call :
          was_attempted l.attempted id ≡ false
          → Yields Before
              (Attempts.call_provider p around provider path profile attempts next id)
              (Rounded n)
              Ended
      call new s h =
          call_with-Rounded n next l.attempted id (credential p s.store.world.vault id) new refl s h

      go :
          (tried : Bool)
          → was_attempted l.attempted id ≡ tried
          → (first : Bool)
          → Yields Before
              (if tried
                then return none
                else (Attempts.started p around provider path profile attempts first id
                    >> Attempts.call_provider p around provider path profile attempts next id))
              (Rounded n)
              Ended
      go true at first = λ s h. Within-Once l.attempted (suc n) s.posts h
      go false at true = λ s h. call at s h
      go false at false =
          then-Yields Ended Before (start_evidenced_attempt p around profile id) Before
            (Attempts.call_provider p around provider path profile attempts next id) (Rounded n)
            (λ s h.
              After-wider (λ (_ : Unit {0}). Before) (λ _. Before) (λ r. Before) Ended (λ a s' k. k)
                (λ r s' k. Within-Once l.attempted (suc n) s'.posts k)
                (start_evidenced_attempt p around profile id s)
                (start_evidenced_attempt-Silent p around (Within l.attempted (suc n)) profile id s
                  h))
            (call at)

  round-Rounded :
      (n : ℕ) (first_key_id : Uuid) (l : Progress)
      → Yields
          (λ s. Within l.attempted (suc n) s.posts)
          (Attempts.round p around provider path profile attempts first_key_id l)
          (Rounded n)
          Ended
  unfolding Attempts.round next_failover_key
  round-Rounded n first_key_id l =
      bind-Yields Ended Before
        (Attempts.pick p around provider path profile attempts first_key_id l) (λ _. Before)
        (Attempts.attempt_with p around provider path profile attempts l) (Rounded n)
        (pick (is_first l) l.next_key_id) (attempt_with-Rounded n l)
    where
      Before : Server p.File → Type 0
      Before s = Within l.attempted (suc n) s.posts

      pick :
          (first : Bool) (next : Option Uuid)
          → Yields Before
              (if first then return (some first_key_id) else elim next [
                | some id ↦ return (some id)
                | none ↦ next_failover_key p around profile l.attempted
              ])
              (λ _. Before)
              Ended
      pick true next = λ s h. h
      pick false (some id) = λ s h. h
      pick false none = λ s h. h

  after_loop-Once :
      (l : Progress)
      → Yields
          (λ s. Once s.posts)
          (Attempts.after_loop p around provider path profile attempts l)
          Ended
          Ended
  unfolding Attempts.after_loop
  after_loop-Once l s h =
      go (l.rate_limited && l.all_attempts_rate_limited && not (is_first l))
        (Attempts.wait_of p around provider path profile attempts s) s h
    where
      closed :
          (all_limited : Bool) (seconds : Option ℕ)
          → Yields
              (λ s. Once s.posts)
              (Attempts.ended_with p around provider path profile attempts all_limited seconds)
              Ended
              Ended
      closed all_limited seconds =
          bind-Yields Ended (λ s. Once s.posts)
            (finish_with_open_attempts_silently around (last_recovery all_limited))
            (λ _ s. Once s.posts)
            (λ recorded.
              return (if recorded then last_response all_limited seconds else evidence_unavailable))
            Ended (finish_with_open_attempts-Silent p around Once (last_recovery all_limited))
            (λ recorded s h. h)

      go :
          (limited : Bool) (seconds : Option ℕ)
          → Yields
              (λ s. Once s.posts)
              (Attempts.exhausted p around provider path profile attempts limited seconds)
              Ended
              Ended
      go true (some seconds) = closed true (some seconds)
      go true none = closed false none
      go false seconds = closed false none

  try_keys-Once :
      (n : ℕ) (first_key_id : Uuid) (l : Progress)
      → Yields
          (λ s. Within l.attempted n s.posts)
          (Attempts.try_keys p around provider path profile attempts n first_key_id l)
          Ended
          Ended
  unfolding Attempts.try_keys
  try_keys-Once zero first_key_id l =
      λ s h. after_loop-Once l s (Within-Once l.attempted zero s.posts h)
  try_keys-Once (suc n) first_key_id l =
      bind-Yields Ended (λ s. Within l.attempted (suc n) s.posts)
        (Attempts.round p around provider path profile attempts first_key_id l) (Rounded n)
        (Attempts.continued p around provider path profile attempts l
          (Attempts.try_keys p around provider path profile attempts n first_key_id))
        Ended (round-Rounded n first_key_id l) (continued (try_keys-Once n first_key_id))
    where
      again : Progress → Handler p.File Response
      again = Attempts.try_keys p around provider path profile attempts n first_key_id

      continued :
          ((l' : Progress) → Yields (λ s. Within l'.attempted n s.posts) (again l') Ended Ended)
          → (next : Option Progress)
          → Yields
              (Rounded n next)
              (Attempts.continued p around provider path profile attempts l again next)
              Ended
              Ended
      continued more none = after_loop-Once l
      continued more (some l') = more l'

none_twice : distinct [] ≡ true
unfolding distinct
none_twice = refl

all_tried : within [] [] ≡ true
unfolding within
all_tried = refl

append-nil : (xs : List Uuid) → xs ≡ xs ++ []
append-nil [] = refl
append-nil (x ∷ xs) = ap (λ l. x ∷ l) (append-nil xs)

-- The loop over keys calls the provider with no key twice: at most once for the paths of images and videos, and
-- for any other path no more often than the vault has keys, or once where it has none.
pub answer_request-IsOnce :
    (p : Primitives) (around : Surroundings) (provider : Provider) (path profile : String)
    (first_key_id : Uuid) (s : Server p.File)
    → IsOnce path
        (length (list s.store.world.vault))
        s.posts
        (answer_request p around provider path profile first_key_id s).0.posts
unfolding answer_request
answer_request-IsOnce p around provider path profile first_key_id s =
    IsFew-IsOnce path (length (list s.store.world.vault)) s.posts _ (
      go
        (Attempts.try_keys p around provider path profile attempts attempts first_key_id at_first s)
        (try_keys-Once p around provider path profile attempts s.posts attempts first_key_id
          at_first s
          (record {
            keys = [];
            sent = append-nil s.posts;
            once = none_twice;
            tried = all_tried;
            few = omega arith;
          })))
  where
    attempts : ℕ
    attempts = key_attempts path (length (list s.store.world.vault))

    go :
        (x : Server p.File × Step Response)
        → After
            (λ r s'. IsFew s.posts attempts s'.posts)
            (λ r s'. IsFew s.posts attempts s'.posts)
            x
        → IsFew s.posts attempts (answered x).0.posts
    go (s', go_on r) h = h
    go (s', respond r) h = h
