-- ===== src/Database/Delta/Synced.antt =====
-- What a run of `sync_database_delta` in crates/gateway/src/main.rs leaves: where the tables held the vault
-- from before one mutation, they hold the vault from after it, and the audit event.
use nvidia_build_lb.Prelude.{
  String, Bool, true, false, not, List, [], ◌∷◌, ◌++◌, All, Option, none, some, ◌==◌, ◌≡◌, refl,
  sym, ap, ◌∙◌, subst, Bool-cases, ◌⊎◌, inl, inr, if◌then◌else◌,
}
use nvidia_build_lb.Vault.State.{Uuid, VaultKeyRecord, VaultDownstreamRecord}
use nvidia_build_lb.Requests.{profiles}
use nvidia_build_lb.Database.Tables.{
  Tables, KeyRow, DownstreamRow, ClientPolicyMutation, ProbeAuditMutation, VaultAuditMutation,
  AuditRow,
}
use nvidia_build_lb.Database.Transactions.{
  Engine, Session, Tx, Outcome, done, failed, ◌>>◌, execute, transaction, update_where,
  policy_target_is_unavailable, committed, commit_done,
}
use nvidia_build_lb.Database.Transactions.Rules.{
  Ensures, bind-Ensures, then-Ensures, return-Ensures, execute-Ensures, raise_if-Ensures,
}
use nvidia_build_lb.Database.Transactions.Rows.{row_of, row_of-update_where, rewritten}
use nvidia_build_lb.Database.Transactions.Loops
use nvidia_build_lb.Database.Keys.{sync_keys}
use nvidia_build_lb.Database.Keys.Synced.{keys_in_table, sync_keys-Synced}
use nvidia_build_lb.Database.Bearers.{bearer_table, sync_bearers}
use nvidia_build_lb.Database.Bearers.Mirrors.{Mirrors}
use nvidia_build_lb.Database.Bearers.Synced.{bearers_in_table, sync_bearers-Synced}
use nvidia_build_lb.Database.Delta.{
  VaultSyncSnapshot, lock, sync_cursors, is_target, policy_set, write_policy, expect_target,
  apply_policy, insert_probe, settle_receipt, record_probe, probe_passed, store_receipt,
  refuse_receipts, audit_row, insert_audit, write_audit, delta,
}
use nvidia_build_lb.Database.Delta.Frames.{
  Keeps, then-Keeps, return-Keeps, only_if-Keeps, execute-Keeps, sync_keys-Keeps,
  sync_bearers-Keeps, sync_cursors-Keeps,
}

-- The tables hold every key and every downstream credential of a snapshot.
abbrev pub HoldsKeys : Engine → List VaultKeyRecord → Tables → Type 0
HoldsKeys e keys t = All (Loops.Holds keys_in_table e t.upstream_keys) keys

abbrev pub HoldsBearers : Engine → List VaultDownstreamRecord → Tables → Type 0
HoldsBearers e items t = All (Loops.Holds bearers_in_table e t.downstream_credentials) items

pub record HoldsVault (e : Engine) (s : VaultSyncSnapshot) (t : Tables) : Type 0 where
  pub keys : HoldsKeys e s.keys t
  pub bearers : HoldsBearers e s.downstream t

-- With an audit mutation the answer is the identifier of its event, which is the last one; with none
-- there is no answer.
abbrev pub Audited : Engine → Option VaultAuditMutation → Option Uuid → Tables → Type 0
Audited e none answer t = answer ≡ none
Audited e (some audit) answer t =
    (answer ≡ some e.fresh)
    × ((earlier : List AuditRow) × (t.audit_events ≡ earlier ++ audit_row e audit ∷ []))

module _ (e : Engine) where
  -- A part that is kept keeps whatever is said of it.
  kept-Ensures :
      {X : Type 0} {A : Type 0} (part : Tables → X) (m : Tx A) (P : X → Type 0)
      → Keeps e part m
      → Ensures e (λ t. P (part t)) m (λ _ t. P (part t))
  kept-Ensures part m P keeps s s' a h is =
      subst P (sym (keeps.at (part s.tables) s s' a refl is)) h

  both-Ensures :
      {A : Type 0} (P P' : Tables → Type 0) (m : Tx A) (Q Q' : A → Tables → Type 0)
      → Ensures e P m Q
      → Ensures e P' m Q'
      → Ensures e (λ t. P t × P' t) m (λ a t. Q a t × Q' a t)
  both-Ensures P P' m Q Q' first second s s' a h is = (first s s' a h.0 is, second s s' a h.1 is)

  policy-Mirrors :
      (policy : ClientPolicyMutation) (item : VaultDownstreamRecord) (row : DownstreamRow)
      → Mirrors e item row
      → Mirrors e item (policy_set policy e row)
  policy-Mirrors policy item row h = record {
    label = h.label;
    digest = h.digest;
    scopes = h.scopes;
    active = h.active;
    request_count = h.request_count;
    last_used_at = h.last_used_at;
    created_at = h.created_at;
    revoked_at = h.revoked_at;
  }

  policy-Holds :
      (policy : ClientPolicyMutation) (items : List VaultDownstreamRecord)
      (rows : List DownstreamRow)
      → All (Loops.Holds bearers_in_table e rows) items
      → All
          (Loops.Holds bearers_in_table e
            (update_where (is_target policy) (policy_set policy e) rows))
          items
  policy-Holds policy [] rows h = tt
  policy-Holds policy (item ∷ items) rows (h, later) = (
    elim (Bool-cases (is_target policy h.row)) [
      | inl hit ↦ record {
        row = policy_set policy e h.row;
        found = moved ∙ rw hit refl;
        mirrors = policy-Mirrors policy item h.row h.mirrors;
      }
      | inr miss ↦ record { row = h.row; found = moved ∙ rw miss refl; mirrors = h.mirrors }
    ],
    policy-Holds policy items rows later,
  )
    where
      moved :
          row_of bearer_table item.id (update_where (is_target policy) (policy_set policy e) rows)
          ≡ some (if is_target policy h.row then policy_set policy e h.row else h.row)
      moved =
          row_of-update_where bearer_table (is_target policy) (policy_set policy e) (λ r. refl)
            item.id rows
          ∙ ap (rewritten bearer_table (is_target policy) (policy_set policy e)) h.found

  module _ (s : VaultSyncSnapshot) where
    abbrev Held : Tables → Type 0
    Held t = HoldsKeys e s.keys t × HoldsBearers e s.downstream t

    policy-Held :
        (policy : Option ClientPolicyMutation) → Ensures e Held (apply_policy policy) (λ _. Held)
    unfolding apply_policy
    policy-Held none = return-Ensures e Held tt (λ _. Held) (λ t h. h)
    policy-Held (some policy) =
        bind-Ensures e Held (execute (write_policy policy)) (λ _. Held) expect_target (λ _. Held)
          (execute-Ensures e Held (write_policy policy) (λ _. Held)
            (λ t h. (h.0, policy-Holds policy s.downstream t.downstream_credentials h.1)))
          (λ affected s s' a h is.
            (raise_if-Ensures e Held (not (affected == 1)) policy_target_is_unavailable s s' a h
              is).0)

    abbrev both : Tables → List KeyRow × List DownstreamRow
    both t = (t.upstream_keys, t.downstream_credentials)

    insert_probe-Keeps : (probe : ProbeAuditMutation) → Keeps e both (execute (insert_probe probe))
    insert_probe-Keeps probe = execute-Keeps e both (insert_probe probe) (λ t. refl)

    settle_receipt-Keeps :
        (probe : ProbeAuditMutation) (passed : Bool) (profile : Option String)
        → Keeps e both (settle_receipt probe passed profile)
    unfolding settle_receipt
    settle_receipt-Keeps probe true none = return-Keeps e both tt
    settle_receipt-Keeps probe true (some profile) =
        execute-Keeps e both (store_receipt profile probe) (λ t. refl)
    settle_receipt-Keeps probe false profile =
        only_if-Keeps e both _ (execute (refuse_receipts probe))
          (execute-Keeps e both (refuse_receipts probe) (λ t. refl))

    record_probe-Keeps : (probe : Option ProbeAuditMutation) → Keeps e both (record_probe probe)
    unfolding record_probe
    record_probe-Keeps none = return-Keeps e both tt
    record_probe-Keeps (some probe) =
        then-Keeps e both (execute (insert_probe probe))
          (settle_receipt probe (probe_passed probe) probe.receipt_profile)
          (insert_probe-Keeps probe)
          (settle_receipt-Keeps probe (probe_passed probe) probe.receipt_profile)

    abbrev HeldRows : List KeyRow × List DownstreamRow → Type 0
    HeldRows (keys, bearers) =
        All (Loops.Holds keys_in_table e keys) s.keys
        × All (Loops.Holds bearers_in_table e bearers) s.downstream

    -- The policy, the probe and the event leave the vault's columns alone.
    write_audit-Held :
        (audit : Option VaultAuditMutation)
        → Ensures e Held (write_audit audit) (λ a t. HoldsVault e s t × Audited e audit a t)
    unfolding write_audit
    write_audit-Held none =
        return-Ensures e Held none (λ a t. HoldsVault e s t × Audited e none a t)
          (λ t h. (record { keys = h.0; bearers = h.1 }, refl))
    write_audit-Held (some audit) =
        then-Ensures e Held (apply_policy audit.client_policy) Held
          (record_probe audit.probe_result >> execute (insert_audit audit))
          (λ a t. HoldsVault e s t × Audited e (some audit) a t) (policy-Held audit.client_policy)
          (then-Ensures e Held (record_probe audit.probe_result) Held (execute (insert_audit audit))
            (λ a t. HoldsVault e s t × Audited e (some audit) a t)
            (kept-Ensures both (record_probe audit.probe_result) HeldRows
              (record_probe-Keeps audit.probe_result))
            (execute-Ensures e Held (insert_audit audit)
              (λ a t. HoldsVault e s t × Audited e (some audit) a t)
              (λ t h. (record { keys = h.0; bearers = h.1 }, (refl, (t.audit_events, refl))))))

  -- What must stand between the vault before a mutation and the vault after it, and in the tables before.
  pub record IsReady (previous current : VaultSyncSnapshot) (t : Tables) : Type 0 where
    pub distinct_keys : Loops.DistinctIds keys_in_table current.keys
    pub distinct_bearers : Loops.DistinctIds bearers_in_table current.downstream
    pub keys : Loops.AllPrepared keys_in_table e t.upstream_keys previous.keys current.keys
    pub bearers :
        Loops.AllPrepared bearers_in_table e t.downstream_credentials previous.downstream
          current.downstream

  pub delta-HoldsVault :
      (previous current : VaultSyncSnapshot) (audit : Option VaultAuditMutation) (t : Tables)
      → IsReady previous current t
      → Ensures e
          (λ u. u ≡ t)
          (delta previous current audit)
          (λ a u. HoldsVault e current u × Audited e audit a u)
  unfolding delta
  delta-HoldsVault previous current audit t ready =
      then-Ensures e (λ u. u ≡ t) lock Begun after_lock Goal
        (execute-Ensures e (λ u. u ≡ t) _ (λ _. Begun)
          (λ u h. (
            ap (λ (v : Tables). v.upstream_keys) h,
            ap (λ (v : Tables). v.downstream_credentials) h,
          )))
        (then-Ensures e Begun (sync_keys previous.keys current.keys) KeysDone after_keys Goal
          (both-Ensures (λ u. u.upstream_keys ≡ t.upstream_keys)
            (λ u. u.downstream_credentials ≡ t.downstream_credentials)
            (sync_keys previous.keys current.keys) (λ _. HoldsKeys e current.keys)
            (λ _ u. u.downstream_credentials ≡ t.downstream_credentials)
            (λ s s' a h is.
              (sync_keys-Synced e previous.keys current.keys t.upstream_keys ready.distinct_keys
                ready.keys s s' a h is).held)
            ((sync_keys-Keeps e previous.keys current.keys).at t.downstream_credentials))
          (then-Ensures e KeysDone (sync_bearers previous.downstream current.downstream)
            (Held current) after_bearers Goal
            (both-Ensures (HoldsKeys e current.keys)
              (λ u. u.downstream_credentials ≡ t.downstream_credentials)
              (sync_bearers previous.downstream current.downstream) (λ _. HoldsKeys e current.keys)
              (λ _. HoldsBearers e current.downstream)
              (kept-Ensures (λ u. u.upstream_keys)
                (sync_bearers previous.downstream current.downstream)
                (λ rows. All (Loops.Holds keys_in_table e rows) current.keys)
                (sync_bearers-Keeps e previous.downstream current.downstream))
              (λ s s' a h is.
                (sync_bearers-Synced e previous.downstream current.downstream
                  t.downstream_credentials ready.distinct_bearers ready.bearers s s' a h is).held))
            (then-Ensures e (Held current) (sync_cursors previous.cursors current.cursors profiles)
              (Held current) (write_audit audit) Goal
              (kept-Ensures (both current) (sync_cursors previous.cursors current.cursors profiles)
                (HeldRows current)
                (sync_cursors-Keeps e (both current) (λ t rows. refl) previous.cursors
                  current.cursors profiles))
              (write_audit-Held current audit))))
    where
      Goal : Option Uuid → Tables → Type 0
      Goal a u = HoldsVault e current u × Audited e audit a u

      Begun : Tables → Type 0
      Begun u =
          (u.upstream_keys ≡ t.upstream_keys)
          × (u.downstream_credentials ≡ t.downstream_credentials)

      KeysDone : Tables → Type 0
      KeysDone u =
          HoldsKeys e current.keys u × (u.downstream_credentials ≡ t.downstream_credentials)

      after_bearers : Tx (Option Uuid)
      after_bearers = sync_cursors previous.cursors current.cursors profiles >> write_audit audit

      after_keys : Tx (Option Uuid)
      after_keys = sync_bearers previous.downstream current.downstream >> after_bearers

      after_lock : Tx (Option Uuid)
      after_lock = sync_keys previous.keys current.keys >> after_keys

-- A transaction that is acknowledged has run to its end.
pub transaction-done :
    {A : Type 0} (e : Engine) (m : Tx A) (t : Tables) (Q : A → Tables → Type 0)
    → Ensures e (λ u. u ≡ t) m Q
    → (a : A) → (transaction e m t).result ≡ some a
    → Q a (transaction e m t).tables
unfolding transaction
transaction-done {A} e m t Q ensures a is = go (m e start) refl is
  where
    start : Session
    start = record { tables = t; sent = 0 }

    finish :
        (b : A) (s : Session) (commits acknowledges : Bool)
        → Q b s.tables
        → (committed t b s commits acknowledges).result ≡ some a
        → Q a (committed t b s commits acknowledges).tables
    finish b s true true h is =
        subst (λ (o : Option A). elim o [ none ↦ Unit {0} | some x ↦ Q x s.tables ]) is h
    finish b s true false h is = cc
    finish b s false acknowledges h is = cc

    go :
        (o : Outcome A)
        → m e start ≡ o
        → (commit_done e t o).result ≡ some a
        → Q a (commit_done e t o).tables
    go (failed x) at is = cc
    go (done b s) at is = finish b s e.commits e.acknowledges (ensures start s b refl at) is

-- One that is reported as an error has changed nothing, unless only the acknowledgement was lost.
pub transaction-failed :
    {A : Type 0} (e : Engine) (m : Tx A) (t : Tables)
    → (transaction e m t).result ≡ none
    → ((transaction e m t).tables ≡ t) ⊎ ((e.commits ≡ true) × (e.acknowledges ≡ false))
unfolding transaction
transaction-failed {A} e m t is = go (m e (record { tables = t; sent = 0 })) is
  where
    finish :
        (b : A) (s : Session) (commits acknowledges : Bool)
        → (committed t b s commits acknowledges).result ≡ none
        → ((committed t b s commits acknowledges).tables ≡ t)
          ⊎ ((commits ≡ true) × (acknowledges ≡ false))
    finish b s true true is = cc
    finish b s true false is = inr (refl, refl)
    finish b s false acknowledges is = inl refl

    go :
        (o : Outcome A)
        → (commit_done e t o).result ≡ none
        → ((commit_done e t o).tables ≡ t) ⊎ ((e.commits ≡ true) × (e.acknowledges ≡ false))
    go (failed x) is = inl refl
    go (done b s) is = finish b s e.commits e.acknowledges is
