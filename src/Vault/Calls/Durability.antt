-- ===== src/Vault/Calls/Durability.antt =====
-- What a crash or a failed write of crates/core/src/lib.rs can leave behind.
use nvidia_build_lb.Prelude.{
  Bool-cases, Bytes, Bool, true, false, List, [], ◌∷◌, some, ◌≡◌, refl, sym, ap, ◌∙◌, ◌⊎◌, inl, inr,
  arith, Bool-cases, String,
}
use nvidia_build_lb.Vault.State.{
  StoredDownstream, DownstreamSummary, VaultFile, Vault, Error, Result, ok, err, Uuid, Time,
}
use nvidia_build_lb.Vault.Custody.{
  Primitives, Env, World, Change, commit, with_state, modify_first, persist_for_rollback,
}
use nvidia_build_lb.Vault.Custody.Writes.{
  IsWritten, persist-IsWritten, IsCommitted, commit-IsCommitted,
}
use nvidia_build_lb.Vault.Keys.{
  add, set_enabled, mark_verified, delete, quarantine, record_request, record_failure,
}
use nvidia_build_lb.Vault.Downstream.{
  issue_downstream, revoke_downstream, rotate_downstream, update_downstream_scopes, finish_revoke,
  has_downstream_id, revoke_item, on_downstream, record_downstream_use, authenticate_downstream,
  authorize,
}
use nvidia_build_lb.Vault.Opening.{set_router_cursor, set_router_cursor_for}
use nvidia_build_lb.Vault.Calls.{
  Call, adds, sets_enabled, marks_verified, deletes, quarantines, records_request, records_failure,
  sets_cursor, sets_cursor_for, issues, revokes, rotates, rescopes, records_use, authenticates,
  persists, step, outcome,
}

-- After a call the file is as it was or holds the state in memory; after a successful call it holds
-- the state in memory, unless the call changed no state at all. The master key stays.
pub record IsDurable (p : Primitives) (w : World p.File) (r : (World p.File) × Bool) : Type 0 where
  pub kept : r.0.vault.master_key ≡ w.vault.master_key
  pub written : IsWritten p w r.0
  pub durable :
      r.1 ≡ true
      → (r.0.file ≡ some (p.to_json r.0.vault.state))
        ⊎ ((r.0.vault.state ≡ w.vault.state) × (r.0.file ≡ w.file))

IsDurable-of_IsCommitted {ℓ} :
    {A : Type ℓ} (p : Primitives) (change : Change A) (w : World p.File)
    (r : (World p.File) × Result A)
    → IsCommitted p change w r
    → IsDurable p w (outcome r)
IsDurable-of_IsCommitted p change w r c = record {
  kept = c.kept;
  written = c.written;
  durable = λ e. inl (c.durable e);
}

module _ (p : Primitives) (env : Env) (w : World p.File) where
  commit-IsDurable {ℓ} :
      {A : Type ℓ} (change : Change A) → IsDurable p w (outcome (commit p env change w))
  commit-IsDurable change =
      IsDurable-of_IsCommitted p change w (commit p env change w)
        (commit-IsCommitted p env change w)

  persist-IsDurable : IsDurable p w (outcome (persist_for_rollback p env w))
  unfolding persist_for_rollback
  persist-IsDurable =
      let (same_vault, written, durable) = persist-IsWritten p env w in
      record {
        kept = ap (λ (v : Vault). v.master_key) same_vault;
        written = written;
        durable =
            λ e. inl (durable e ∙ ap (λ (v : Vault). some (p.to_json v.state)) (sym same_vault));
      }

  -- A revocation that reports no change has made none.
  revoke-unchanged :
      (id : Uuid) (missing : Error) (items : List StoredDownstream) (s : DownstreamSummary)
      → (modify_first (has_downstream_id id) (revoke_item env.now) missing items).1 ≡ ok (s, false)
      → (modify_first (has_downstream_id id) (revoke_item env.now) missing items).0 ≡ items
  unfolding modify_first revoke_item
  revoke-unchanged id missing [] s e = refl
  revoke-unchanged id missing (item ∷ items) s e =
      ground (arith, revoke-unchanged id missing items s)

  finish_revoke-IsDurable :
      (r : VaultFile × Result (DownstreamSummary × Bool))
      → ((s : DownstreamSummary) → r.1 ≡ ok (s, false) → r.0 ≡ w.vault.state)
      → IsDurable p w (outcome (finish_revoke p env w r))
  unfolding finish_revoke
  finish_revoke-IsDurable (s, err e) h = record {
    kept = refl;
    written = inl refl;
    durable = λ e. cc;
  }
  finish_revoke-IsDurable (s, ok (summary, true)) h =
      let c = commit-IsCommitted p env (λ t. (t, ok summary)) (with_state w s) in
      record { kept = c.kept; written = c.written; durable = λ e. inl (c.durable e) }
  finish_revoke-IsDurable (s, ok (summary, false)) h = record {
    kept = refl;
    written = inl refl;
    durable = λ e. inr (h summary refl, refl);
  }

  revoke-IsDurable : (id : Uuid) → IsDurable p w (outcome (revoke_downstream p env id w))
  unfolding revoke_downstream on_downstream
  revoke-IsDurable id = finish_revoke-IsDurable _ (λ s e.
      ap (λ (items : List StoredDownstream). record w.vault.state { downstream = items })
        (revoke-unchanged id _ w.vault.state.downstream s e))

  record_use-IsDurable :
      (id : Uuid) (used_at : Time)
      → IsDurable p w (outcome (record_downstream_use p env id used_at w))
  unfolding record_downstream_use
  record_use-IsDurable id used_at = commit-IsDurable _

  authenticate-IsDurable :
      (token : Bytes) (scope : String)
      → IsDurable p w (outcome (authenticate_downstream p env token scope w))
  authenticate-IsDurable token scope = go (authorize p w.vault token scope) refl
    where
      go :
          (r : Result Uuid)
          → authorize p w.vault token scope ≡ r
          → IsDurable p w (outcome (authenticate_downstream p env token scope w))
      go (err e) is =
          unfold authenticate_downstream in
          rw (is, authenticate_downstream)
            (record { kept = refl; written = inl refl; durable = λ e. cc })
      go (ok id) is =
          unfold authenticate_downstream in
          rw (is, authenticate_downstream) (record_use-IsDurable id env.now)

-- Every call, on every branch.
pub step-IsDurable :
    (p : Primitives) (env : Env) (call : Call) (w : World p.File)
    → IsDurable p w (step p env call w)
unfolding step add set_enabled mark_verified delete quarantine record_request record_failure
    set_router_cursor set_router_cursor_for issue_downstream rotate_downstream
    update_downstream_scopes record_downstream_use
step-IsDurable p env (adds label credential) w = commit-IsDurable p env w _
step-IsDurable p env (sets_enabled id enabled) w = commit-IsDurable p env w _
step-IsDurable p env (marks_verified id) w = commit-IsDurable p env w _
step-IsDurable p env (deletes id) w = commit-IsDurable p env w _
step-IsDurable p env (quarantines id) w = commit-IsDurable p env w _
step-IsDurable p env (records_request id) w = commit-IsDurable p env w _
step-IsDurable p env (records_failure id hint) w = commit-IsDurable p env w _
step-IsDurable p env (sets_cursor cursor) w = commit-IsDurable p env w _
step-IsDurable p env (sets_cursor_for profile cursor) w = commit-IsDurable p env w _
step-IsDurable p env (issues label scopes) w = commit-IsDurable p env w _
step-IsDurable p env (revokes id) w = revoke-IsDurable p env w id
step-IsDurable p env (rotates id) w = commit-IsDurable p env w _
step-IsDurable p env (rescopes id scopes) w = commit-IsDurable p env w _
step-IsDurable p env (records_use id used_at) w = commit-IsDurable p env w _
step-IsDurable p env (authenticates token scope) w = authenticate-IsDurable p env w token scope
step-IsDurable p env persists w = persist-IsDurable p env w

-- What a call leaves on disk, whatever step of the write fails: the file holds the state that is now in
-- memory, or it is untouched and the call failed, or it is untouched and the state has not changed. The
-- master key stays.
pub step-file :
    (p : Primitives) (env : Env) (call : Call) (w : World p.File)
    → ((step p env call w).0.vault.master_key ≡ w.vault.master_key)
      × (((step p env call w).0.file ≡ some (p.to_json (step p env call w).0.vault.state))
          ⊎ (((step p env call w).0.file ≡ w.file)
              × (((step p env call w).1 ≡ false)
                  ⊎ ((step p env call w).0.vault.state ≡ w.vault.state))))
step-file p env call w = (
  d.kept,
  elim d.written [
    | inr new ↦ inl new
    | inl same_file ↦ elim (Bool-cases (step p env call w).1) [
      | inl done ↦ elim (d.durable done) [
        | inl new ↦ inl new
        | inr (same_state, _) ↦ inr (same_file, inr same_state)
      ]
      | inr failed ↦ inr (same_file, inl failed)
    ]
  ],
)
  where
    d : IsDurable p w (step p env call w)
    d = step-IsDurable p env call w
