-- ===== src/Database/Bearers/Mirrors.antt =====
-- The incremental synchronisation of crates/gateway/src/main.rs writes what one mutation has changed of a
-- downstream credential.
use nvidia_build_lb.Prelude.{
  ℕ, ◌≤◌, Bytes, String, Bool, true, false, not, List, Option, none, some, ◌==◌, same, same_iff,
  same_refl, not-eq-true, ◌≡◌, refl, sym, ap, ◌∙◌, subst, arith, if◌then◌else◌,
}
use nvidia_build_lb.Vault.State.{Time, VaultDownstreamRecord}
use nvidia_build_lb.Database.Tables.{Tables, DownstreamRow}
use nvidia_build_lb.Database.Columns.{
  same_bool, same_time, same_texts, same_bool-eq, same_bool_refl, same_time-eq, same_time_refl,
  same_texts-eq, same_texts_refl,
}
use nvidia_build_lb.Database.Transactions.{Engine, Tx, ◌>>◌, stamped, update_row}
use nvidia_build_lb.Database.Transactions.Rules.{Ensures, then-Ensures, only_if-Ensures}
use nvidia_build_lb.Database.Transactions.Rows.{
  Tracks, update_row-Ensures, maybe_update-Ensures, maybe_count-Ensures,
}
use nvidia_build_lb.Database.Bearers.{
  bearer_table, sync_active, sync_digest, sync_scopes, sync_revoked_at, sync_request_count,
  later_use, sync_last_used_at, update_changed,
}

-- A row holds a downstream credential of the vault.
pub record Mirrors (e : Engine) (item : VaultDownstreamRecord) (row : DownstreamRow) : Type 0 where
  pub label : row.label ≡ item.label
  pub digest : row.digest ≡ item.token_digest
  pub scopes : row.scopes ≡ item.scopes
  pub active : row.active ≡ item.active
  pub request_count : row.request_count ≡ item.request_count
  pub last_used_at : row.last_used_at ≡ stamped e item.last_used_at
  pub created_at : row.created_at ≡ e.stamp item.created_at
  pub revoked_at : row.revoked_at ≡ stamped e item.revoked_at

-- A use that is not before the last one, as the column holds the times.
abbrev pub NotBefore : Option Time → Option Time → Type 0
NotBefore none t = Unit
NotBefore (some u) none = ⊥
NotBefore (some u) (some t) = u ≤ t

-- One credential before and after a mutation: the label and the date stay, and it is not used earlier.
pub record SameIssue (e : Engine) (before item : VaultDownstreamRecord) : Type 0 where
  pub id : before.id ≡ item.id
  pub label : before.label ≡ item.label
  pub created_at : before.created_at ≡ item.created_at
  pub used_later : NotBefore (stamped e before.last_used_at) (stamped e item.last_used_at)

not-false : (b : Bool) → not b ≡ false → b ≡ true
not-false true h = refl
not-false false h = cc

later_use_lem : (u t : Option Time) → NotBefore u t → later_use u t ≡ t
later_use_lem none none h = refl
later_use_lem none (some t) h = refl
later_use_lem (some u) none h = absurd h
later_use_lem (some u) (some t) h = ap some (ground arith)

module _ (e : Engine) (start : List DownstreamRow) (before item : VaultDownstreamRecord) where
  abbrev AtRow : DownstreamRow → Tables → Type 0
  AtRow row = Tracks bearer_table start item.id row

  sync_active-Ensures :
      (row : DownstreamRow)
      → row.active ≡ before.active
      → Ensures e
          (AtRow row)
          (sync_active before item)
          (λ _. AtRow (record row { active = item.active }))
  unfolding sync_active
  sync_active-Ensures row old =
      maybe_update-Ensures bearer_table (λ t rows. refl) e start item.id
        (not (same_bool item.active before.active)) (λ e r. same_bool r.active before.active)
        (λ e r. record r { active = item.active }) (λ r. refl) row
        (record row { active = item.active })
        (subst (λ (x : Bool). same_bool x before.active ≡ true) (sym old)
          (same_bool_refl before.active))
        refl
        (λ off.
          ap (λ (x : Bool). record row { active = x })
            (old ∙ sym (same_bool-eq item.active before.active (not-false _ off))))

  sync_scopes-Ensures :
      (row : DownstreamRow)
      → row.scopes ≡ before.scopes
      → Ensures e
          (AtRow row)
          (sync_scopes before item)
          (λ _. AtRow (record row { scopes = item.scopes }))
  unfolding sync_scopes
  sync_scopes-Ensures row old =
      maybe_update-Ensures bearer_table (λ t rows. refl) e start item.id
        (not (same_texts item.scopes before.scopes)) (λ e r. same_texts r.scopes before.scopes)
        (λ e r. record r { scopes = item.scopes }) (λ r. refl) row
        (record row { scopes = item.scopes })
        (subst (λ (x : List String). same_texts x before.scopes ≡ true) (sym old)
          (same_texts_refl before.scopes))
        refl
        (λ off.
          ap (λ (x : List String). record row { scopes = x })
            (old ∙ sym (same_texts-eq item.scopes before.scopes (not-false _ off))))

  sync_revoked_at-Ensures :
      (row : DownstreamRow)
      → row.revoked_at ≡ stamped e before.revoked_at
      → Ensures e
          (AtRow row)
          (sync_revoked_at before item)
          (λ _. AtRow (record row { revoked_at = stamped e item.revoked_at }))
  unfolding sync_revoked_at
  sync_revoked_at-Ensures row old =
      maybe_update-Ensures bearer_table (λ t rows. refl) e start item.id
        (not (same_time item.revoked_at before.revoked_at))
        (λ e r. same_time r.revoked_at (stamped e before.revoked_at))
        (λ e r. record r { revoked_at = stamped e item.revoked_at }) (λ r. refl) row
        (record row { revoked_at = stamped e item.revoked_at })
        (subst (λ (x : Option Time). same_time x (stamped e before.revoked_at) ≡ true) (sym old)
          (same_time_refl (stamped e before.revoked_at)))
        refl
        (λ off.
          ap (λ (x : Option Time). record row { revoked_at = x })
            (old
              ∙ ap (stamped e)
                  (sym (same_time-eq item.revoked_at before.revoked_at (not-false _ off)))))

  sync_request_count-Ensures :
      (row : DownstreamRow)
      → row.request_count ≡ before.request_count
      → Ensures e
          (AtRow row)
          (sync_request_count before item)
          (λ _. AtRow (record row { request_count = item.request_count }))
  unfolding sync_request_count
  sync_request_count-Ensures row old =
      maybe_count-Ensures bearer_table (λ t rows. refl) e start item.id
        (not (item.request_count == before.request_count)) item.request_count before.request_count
        (λ r. r.request_count) (λ r n. record r { request_count = n }) (λ r n. refl) row
        (record row { request_count = item.request_count })
        (ap (λ (n : ℕ). record row { request_count = n }) (omega arith))
        (λ off. ap (λ (n : ℕ). record row { request_count = n }) (ground arith))

  -- The row after a possible rotation.
  abbrev pub rotated : DownstreamRow → DownstreamRow
  rotated row = record row {
    digest = item.token_digest;
    rotated_at = if same item.token_digest before.token_digest then row.rotated_at else some e.now;
  }

  sync_digest-Ensures :
      (row : DownstreamRow)
      → row.digest ≡ before.token_digest
      → Ensures e (AtRow row) (sync_digest before item) (λ _. AtRow (rotated row))
  unfolding sync_digest
  sync_digest-Ensures row old =
      only_if-Ensures e (AtRow row) (not (same item.token_digest before.token_digest))
        (update_row bearer_table item.id guard set) (AtRow (rotated row))
        (λ on.
          update_row-Ensures bearer_table (λ t rows. refl) e start item.id guard set (λ r. refl) row
            (rotated row)
            (subst (λ (d : Bytes). same d before.token_digest ≡ true) (sym old)
              (same_refl before.token_digest))
            (ap (λ (b : Bool). digested item.token_digest b)
              (sym (not-eq-true (same item.token_digest before.token_digest) on))))
        (λ off t h.
          subst (λ (r : DownstreamRow). AtRow r t)
            (ap (λ (d : Bytes). digested d true)
                (old ∙ sym ((same_iff item.token_digest before.token_digest).0 (not-false _ off)))
              ∙ ap (digested item.token_digest) (sym (not-false _ off)))
            h)
    where
      guard : Engine → DownstreamRow → Bool
      guard e r = same r.digest before.token_digest

      set : Engine → DownstreamRow → DownstreamRow
      set e r = record r { digest = item.token_digest; rotated_at = some e.now }

      digested : Bytes → Bool → DownstreamRow
      digested d b = record row {
        digest = d;
        rotated_at = if b then row.rotated_at else some e.now;
      }

  sync_last_used_at-Ensures :
      (row : DownstreamRow)
      → row.last_used_at ≡ stamped e before.last_used_at
      → NotBefore (stamped e before.last_used_at) (stamped e item.last_used_at)
      → Ensures e
          (AtRow row)
          (sync_last_used_at before item)
          (λ _. AtRow (record row { last_used_at = stamped e item.last_used_at }))
  unfolding sync_last_used_at
  sync_last_used_at-Ensures row old later =
      maybe_update-Ensures bearer_table (λ t rows. refl) e start item.id
        (not (same_time item.last_used_at before.last_used_at)) (λ e r. true)
        (λ e r. record r { last_used_at = later_use r.last_used_at (stamped e item.last_used_at) })
        (λ r. refl) row (record row { last_used_at = stamped e item.last_used_at }) refl
        (ap (λ (t : Option Time). record row { last_used_at = t })
          (ap (λ (t : Option Time). later_use t (stamped e item.last_used_at)) old
            ∙ later_use_lem (stamped e before.last_used_at) (stamped e item.last_used_at) later))
        (λ off.
          ap (λ (t : Option Time). record row { last_used_at = t })
            (old
              ∙ ap (stamped e)
                  (sym (same_time-eq item.last_used_at before.last_used_at (not-false _ off)))))

  -- The row with all fields that a mutation can change.
  abbrev pub written : DownstreamRow → DownstreamRow
  written row = record (rotated row) {
    active = item.active;
    scopes = item.scopes;
    revoked_at = stamped e item.revoked_at;
    request_count = item.request_count;
    last_used_at = stamped e item.last_used_at;
  }

  -- The statements on a credential that has changed write its row, field by field.
  pub update_changed-Ensures :
      (row : DownstreamRow)
      → Mirrors e before row
      → NotBefore (stamped e before.last_used_at) (stamped e item.last_used_at)
      → Ensures e (AtRow row) (update_changed before item) (λ _. AtRow (written row))
  unfolding update_changed
  update_changed-Ensures row old later =
      then-Ensures e (AtRow row) (sync_active before item) (AtRow r1) m2 goal
        (sync_active-Ensures row old.active)
        (then-Ensures e (AtRow r1) (sync_digest before item) (AtRow r2) m3 goal
          (sync_digest-Ensures r1 old.digest)
          (then-Ensures e (AtRow r2) (sync_scopes before item) (AtRow r3) m4 goal
            (sync_scopes-Ensures r2 old.scopes)
            (then-Ensures e (AtRow r3) (sync_revoked_at before item) (AtRow r4) m5 goal
              (sync_revoked_at-Ensures r3 old.revoked_at)
              (then-Ensures e (AtRow r4) (sync_request_count before item) (AtRow r5) m6 goal
                (sync_request_count-Ensures r4 old.request_count)
                (sync_last_used_at-Ensures r5 old.last_used_at later)))))
    where
      goal : Unit {0} → Tables → Type 0
      goal _ = AtRow (written row)

      r1 : DownstreamRow
      r1 = record row { active = item.active }

      r2 : DownstreamRow
      r2 = rotated r1

      r3 : DownstreamRow
      r3 = record r2 { scopes = item.scopes }

      r4 : DownstreamRow
      r4 = record r3 { revoked_at = stamped e item.revoked_at }

      r5 : DownstreamRow
      r5 = record r4 { request_count = item.request_count }

      m6 : Tx (Unit {0})
      m6 = sync_last_used_at before item

      m5 : Tx (Unit {0})
      m5 = sync_request_count before item >> m6

      m4 : Tx (Unit {0})
      m4 = sync_revoked_at before item >> m5

      m3 : Tx (Unit {0})
      m3 = sync_scopes before item >> m4

      m2 : Tx (Unit {0})
      m2 = sync_digest before item >> m3
