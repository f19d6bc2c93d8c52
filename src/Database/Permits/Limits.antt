-- ===== src/Database/Permits/Limits.antt =====
-- The limits that `acquire_downstream_permit` of crates/gateway/src/main.rs enforces, in one transaction under
-- the lock of the bearer.
use nvidia_build_lb.Prelude.{
  ℕ, ◌+◌, ◌≤◌, String, Bool, true, false, List, [], ◌∷◌, ◌++◌, Option, none, some, find_by,
  count_by, count_by-append, ◌==◌, if◌then◌else◌, ◌≡◌, refl, sym, ap, subst, arith,
}
use nvidia_build_lb.Vault.State.{Uuid, Time}
use nvidia_build_lb.Database.Tables.{Tables, DownstreamRow, PermitRow}
use nvidia_build_lb.Database.Transactions.{
  Engine, Session, Outcome, done, failed, Tx, ◌>>=◌, return, execute,
}
use nvidia_build_lb.Database.Transactions.Rules.{
  Ensures, bind-Ensures, then-Ensures, return-Ensures, execute-Ensures,
}
use nvidia_build_lb.Database.Permits.{
  PermitError, Decision, granted, refused, permitted, minute, day, acquired_within, is_unreleased,
  count_permits, reaches, retry_after, find_bearer, is_expired, forbids_model, permit_row,
  insert_permit, grant, check_active, check_day, refuse_rate, check_minute, check_policy,
  permit_steps, permit_ended, permit_committed, acquire_from, acquire_downstream_permit,
}

-- A count within a limit, if there is one.
abbrev pub AtMost : ℕ → Option ℕ → Type 0
AtMost count none = Unit
AtMost count (some n) = count ≤ n

reaches-AtMost :
    (count count' : ℕ) (limit : Option ℕ)
    → reaches count limit ≡ false
    → count' ≤ count + 1
    → AtMost count' limit
reaches-AtMost count count' none h k = tt
reaches-AtMost count count' (some n) h k = ground arith

-- The bearer of a permit that was granted: its policy lets this request in, the permit is the one new row,
-- and no limit is exceeded with it.
pub record IsPermitted (e : Engine) (clock : Time) (request_id id owner_id : Uuid)
    (profile : String) (t t' : Tables) : Type 0 where
  pub policy : DownstreamRow
  pub found : find_by (λ row. row.id == id) t.downstream_credentials ≡ some policy
  pub in_force : is_expired clock policy ≡ false
  pub model : forbids_model profile policy ≡ false
  pub added :
      t'.downstream_request_permits
      ≡ t.downstream_request_permits ++ permit_row e request_id id owner_id profile ∷ []
  pub per_minute :
      AtMost
        (count_by (acquired_within minute e.now id) t'.downstream_request_permits)
        policy.rpm_limit
  pub per_day :
      AtMost
        (count_by (acquired_within day e.now id) t'.downstream_request_permits)
        policy.request_limit_day
  pub at_once :
      AtMost (count_by (is_unreleased id) t'.downstream_request_permits) policy.max_concurrency

one_more :
    (test : PermitRow → Bool) (rows rows' : List PermitRow) (row : PermitRow)
    → rows' ≡ rows ++ row ∷ []
    → count_by test rows' ≤ count_by test rows + 1
one_more test rows rows' row is =
    subst (λ (l : List PermitRow). count_by test l ≤ count_by test rows + 1) (sym is)
      (ground (arith, count_by-append test rows (row ∷ [])))

module _ (e : Engine) (clock : Time) (request_id id owner_id : Uuid) (profile : String)
    (t : Tables) where
  abbrev Same : Tables → Type 0
  Same u = u ≡ t

  abbrev Decided : Decision → Tables → Type 0
  Decided (refused x) u = Unit
  Decided granted u = IsPermitted e clock request_id id owner_id profile t u

  -- A count reads the tables alone.
  count-Ensures :
      (test : Engine → PermitRow → Bool)
      → Ensures e Same
          (execute (count_permits test))
          (λ count u. Same u × (count ≡ count_by (test e) t.downstream_request_permits))
  count-Ensures test =
      execute-Ensures e Same (count_permits test)
        (λ count u. Same u × (count ≡ count_by (test e) t.downstream_request_permits))
        (λ u h. (h, ap (λ (v : Tables). count_by (test e) v.downstream_request_permits) h))

  module _ (policy : DownstreamRow)
      (found : find_by (λ row. row.id == id) t.downstream_credentials ≡ some policy)
      (in_force : is_expired clock policy ≡ false)
      (model : forbids_model profile policy ≡ false) where
    abbrev minutes : ℕ
    minutes = count_by (acquired_within minute e.now id) t.downstream_request_permits

    abbrev days : ℕ
    days = count_by (acquired_within day e.now id) t.downstream_request_permits

    abbrev unreleased : ℕ
    unreleased = count_by (is_unreleased id) t.downstream_request_permits

    grant-Decided :
        reaches minutes policy.rpm_limit ≡ false
        → reaches days policy.request_limit_day ≡ false
        → reaches unreleased policy.max_concurrency ≡ false
        → Ensures e Same (grant clock request_id id owner_id profile) Decided
    grant-Decided minute_free day_free slot_free =
        then-Ensures e Same (execute (insert_permit request_id id owner_id profile))
          (Decided granted) (return granted) Decided
          (execute-Ensures e Same (insert_permit request_id id owner_id profile)
            (λ _. Decided granted) inserted)
          (return-Ensures e (Decided granted) granted Decided (λ u h. h))
      where
        inserted :
            (u : Tables)
            → Same u
            → Decided granted (insert_permit request_id id owner_id profile e u).0
        inserted u same =
            let added =
              ap
                (λ (v : Tables).
                  v.downstream_request_permits ++ permit_row e request_id id owner_id profile ∷ [])
                same in
            record {
              policy = policy;
              found = found;
              in_force = in_force;
              model = model;
              added = added;
              per_minute = reaches-AtMost minutes _ policy.rpm_limit minute_free (
                  one_more (acquired_within minute e.now id) t.downstream_request_permits _ _
                    added);
              per_day =
                  reaches-AtMost days _ policy.request_limit_day day_free (
                    one_more (acquired_within day e.now id) t.downstream_request_permits _ _ added);
              at_once =
                  reaches-AtMost unreleased _ policy.max_concurrency slot_free
                    (one_more (is_unreleased id) t.downstream_request_permits _ _ added);
            }

    -- A test on a count, with the count named.
    limited-Decided :
        (test : Engine → PermitRow → Bool) (limit : Option ℕ) (stop go : Tx Decision)
        → Ensures e Same stop Decided
        → (reaches (count_by (test e) t.downstream_request_permits) limit ≡ false
            → Ensures e Same go Decided)
        → Ensures e Same
            (execute (count_permits test) >>= λ count. if reaches count limit then stop else go)
            Decided
    limited-Decided test limit stop go stopped goes =
        bind-Ensures e Same (execute (count_permits test))
          (λ count u. Same u × (count ≡ count_by (test e) t.downstream_request_permits))
          (λ count. if reaches count limit then stop else go) Decided (count-Ensures test)
          (λ count s s' a h is.
            branch (reaches count limit) (ap (λ (n : ℕ). reaches n limit) (sym h.1)) s s' a h.0 is)
      where
        branch :
            (b : Bool)
            → reaches (count_by (test e) t.downstream_request_permits) limit ≡ b
            → Ensures e Same (if b then stop else go) Decided
        branch true at = stopped
        branch false at = goes at

    check_active-Decided :
        reaches minutes policy.rpm_limit ≡ false
        → reaches days policy.request_limit_day ≡ false
        → Ensures e Same (check_active clock request_id id owner_id profile policy) Decided
    check_active-Decided minute_free day_free =
        limited-Decided (λ e. is_unreleased id) policy.max_concurrency
          (return (refused PermitError.concurrency_limit))
          (grant clock request_id id owner_id profile)
          (return-Ensures e Same (refused PermitError.concurrency_limit) Decided (λ u h. tt))
          (grant-Decided minute_free day_free)

    check_day-Decided :
        reaches minutes policy.rpm_limit ≡ false
        → Ensures e Same (check_day clock request_id id owner_id profile policy) Decided
    check_day-Decided minute_free =
        limited-Decided (λ e. acquired_within day e.now id) policy.request_limit_day
          (return (refused PermitError.daily_limit))
          (check_active clock request_id id owner_id profile policy)
          (return-Ensures e Same (refused PermitError.daily_limit) Decided (λ u h. tt))
          (check_active-Decided minute_free)

    refuse_rate-Decided : Ensures e Same (refuse_rate clock request_id id owner_id profile) Decided
    refuse_rate-Decided =
        bind-Ensures e Same retry_after (λ _ _. Unit {0})
          (λ seconds. return (refused (PermitError.rate_limited seconds))) Decided
          (λ s s' a h is. tt)
          (λ seconds.
            return-Ensures e (λ _. Unit {0}) (refused (PermitError.rate_limited seconds)) Decided
              (λ u h. tt))

    check_minute-Decided :
        Ensures e Same (check_minute clock request_id id owner_id profile policy) Decided
    check_minute-Decided =
        limited-Decided (λ e. acquired_within minute e.now id) policy.rpm_limit
          (refuse_rate clock request_id id owner_id profile)
          (check_day clock request_id id owner_id profile policy) refuse_rate-Decided
          check_day-Decided

  check_policy-Decided :
      (o : Option DownstreamRow)
      → find_by (λ row. row.id == id) t.downstream_credentials ≡ o
      → Ensures e Same (check_policy clock request_id id owner_id profile o) Decided
  unfolding check_policy
  check_policy-Decided none at =
      return-Ensures e Same (refused PermitError.expired) Decided (λ u h. tt)
  check_policy-Decided (some policy) at =
      branch (is_expired clock policy) (forbids_model profile policy) refl refl
    where
      branch :
          (expired forbidden : Bool)
          → is_expired clock policy ≡ expired
          → forbids_model profile policy ≡ forbidden
          → Ensures e Same
              (if expired
                then return (refused PermitError.expired)
                else if forbidden
                then return (refused PermitError.model_forbidden)
                else check_minute clock request_id id owner_id profile policy)
              Decided
      branch true forbidden x y =
          return-Ensures e Same (refused PermitError.expired) Decided (λ u h. tt)
      branch false true x y =
          return-Ensures e Same (refused PermitError.model_forbidden) Decided (λ u h. tt)
      branch false false x y = check_minute-Decided policy at x y

  steps-Decided : Ensures e Same (permit_steps clock request_id id owner_id profile) Decided
  unfolding permit_steps
  steps-Decided =
      then-Ensures e Same (execute (λ e t. (t, tt))) Same
        (execute (find_bearer id) >>= check_policy clock request_id id owner_id profile) Decided
        (execute-Ensures e Same (λ e t. (t, tt)) (λ _. Same) (λ u h. h))
        (bind-Ensures e Same (execute (find_bearer id))
          (λ o u. Same u × (o ≡ find_by (λ row. row.id == id) t.downstream_credentials))
          (check_policy clock request_id id owner_id profile) Decided
          (execute-Ensures e Same (find_bearer id)
            (λ o u. Same u × (o ≡ find_by (λ row. row.id == id) t.downstream_credentials))
            (λ u h.
              (h, ap (λ (v : Tables). find_by (λ row. row.id == id) v.downstream_credentials) h)))
          (λ o s s' a h is. check_policy-Decided o (sym h.1) s s' a h.0 is))

  acquired-IsPermitted :
      (acquire_from e clock request_id id owner_id profile t).1 ≡ permitted true
      → IsPermitted e clock request_id id owner_id profile t
          (acquire_from e clock request_id id owner_id profile t).0
  unfolding acquire_from
  acquired-IsPermitted is = go (permit_steps clock request_id id owner_id profile e start) refl is
    where
      start : Session
      start = record { tables = t; sent = 0 }

      finish :
          (s : Session) (commits acknowledges : Bool)
          → IsPermitted e clock request_id id owner_id profile t s.tables
          → (permit_committed t s commits acknowledges).1 ≡ permitted true
          → IsPermitted e clock request_id id owner_id profile t
              (permit_committed t s commits acknowledges).0
      finish s true true h is = h
      finish s true false h is = cc
      finish s false acknowledges h is = cc

      go :
          (o : Outcome Decision)
          → permit_steps clock request_id id owner_id profile e start ≡ o
          → (permit_ended e t o).1 ≡ permitted true
          → IsPermitted e clock request_id id owner_id profile t (permit_ended e t o).0
      go (failed x) at is = cc
      go (done (refused x) s) at is = cc
      go (done granted s) at is =
          finish s e.commits e.acknowledges (steps-Decided start s granted refl at) is

-- A permit is granted only within the limits: where the answer is a permit, the bearer's row allowed the
-- request (active, not expired, the model on its list if it has one), the permit is the one new row of
-- the tables, and with it the permits of the bearer in this minute, on this day and not yet released do
-- not exceed its limits.
pub acquire_downstream_permit-IsPermitted :
    (e : Engine) (clock : Time) (owner_id request_id id : Uuid) (profile : String) (t : Tables)
    → (acquire_downstream_permit e clock (some owner_id) request_id (some id) profile (some t)).1
      ≡ permitted true
    → (t' : Tables) × ((acquire_downstream_permit e clock
          (some owner_id)
          request_id
          (some id)
          profile
          (some t)).0
        ≡ some t')
      × IsPermitted e clock request_id id owner_id profile t t'
unfolding acquire_downstream_permit
acquire_downstream_permit-IsPermitted e clock owner_id request_id id profile t is = (
  (acquire_from e clock request_id id owner_id profile t).0,
  refl,
  acquired-IsPermitted e clock request_id id owner_id profile t is,
)
