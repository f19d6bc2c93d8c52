-- ===== src/Vault/Downstream/Lifetime.antt =====
-- A bearer's life in crates/core/src/lib.rs: what it may do once issued, and that revocation and rotation
-- end it.
use nvidia_build_lb.Prelude.{
  ℕ, Bytes, String, Bool, true, false, ==_iff, ◌≡◌, ◌≢◌, refl, sym, ap, ◌∙◌, List, [], ◌∷◌, arith,
  Bool-cases, inl, inr, any, All, same, subst,
}
use nvidia_build_lb.Vault.State.{
  Uuid, Time, StoredDownstream, DownstreamSummary, IssuedDownstream, VaultFile, Vault, Result, ok,
  err, downstream_credential_not_found,
}
use nvidia_build_lb.Vault.Custody.{
  Primitives, Env, World, fingerprint, commit, modify_first, with_state,
}
use nvidia_build_lb.Vault.Custody.Writes.{commit-IsCommitted}
use nvidia_build_lb.Vault.Keys.Lifecycle.{commit-ok}
use nvidia_build_lb.Vault.Downstream.{
  has_downstream_id, is_active_with, Selected, select_round, select_digest, identify_downstream,
  authorize, on_downstream, new_token, revoke_item, finish_revoke, revoke_downstream, rotate_item,
  rotate_downstream,
}
use nvidia_build_lb.Vault.Downstream.Identity.{has_digest, HasUniqueIds}

-- The loop never ends on an inactive-only identifier as active.
module _ (id : Uuid) (digest : Bytes) where
  select-inactive :
      (sel : Selected) (items : List StoredDownstream)
      → (sel.id ≡ id → sel.active ≡ false)
      → All (λ item. item.id ≡ id → item.active ≡ false) items
      → (select_digest digest sel items).id ≡ id
      → (select_digest digest sel items).active ≡ false
  unfolding select_digest
  select-inactive sel [] h a e = h e
  select-inactive sel (item ∷ items) h a e =
      select-inactive (select_round digest sel item) items (unfold select_round in ground arith) a.1
        e

  -- Nor does it find an identifier as active if no active item of it has the digest.
  select-unfound :
      (sel : Selected) (items : List StoredDownstream)
      → (sel.found ≡ true → sel.active ≡ true → sel.id ≢ id)
      → All (λ item. item.id ≡ id → item.active ≡ true → has_digest digest item ≡ false) items
      → (select_digest digest sel items).found ≡ true
      → (select_digest digest sel items).active ≡ true
      → (select_digest digest sel items).id ≢ id
  unfolding select_digest
  select-unfound sel [] h a = h
  select-unfound sel (item ∷ items) h a =
      select-unfound (select_round digest sel item) items
        (unfold select_round in λ f act i. ground (arith, a.0)) a.1

-- One rewriting of the bearer with an identifier decides for all bearers with it, if it is unique.
others-absent :
    (P : StoredDownstream → Type 0) (id : Uuid) (items : List StoredDownstream)
    → any (has_downstream_id id) items ≡ false
    → All (λ item. item.id ≡ id → P item) items
others-absent P id [] h = tt
others-absent P id (item ∷ items) h =
    (λ e. absurd (ground arith), others-absent P id items (ground arith))

module _ (id : Uuid) where
  revoked-inactive :
      (now : Time) (items : List StoredDownstream) (r : DownstreamSummary × Bool)
      → HasUniqueIds items
      → (modify_first
          (has_downstream_id id)
          (revoke_item now)
          downstream_credential_not_found
          items).1
        ≡ ok r
      → All
          (λ item. item.id ≡ id → item.active ≡ false)
          (modify_first
            (has_downstream_id id)
            (revoke_item now)
            downstream_credential_not_found
            items).0
  unfolding modify_first revoke_item
  revoked-inactive now [] r u e = tt
  revoked-inactive now (item ∷ items) r u e = elim (Bool-cases (has_downstream_id id item)) [
    | inl hit ↦
        let same : item.id ≡ id = (==_iff item.id id).0 hit in
        rw hit (
          λ _. ground arith,
          others-absent (λ i. i.active ≡ false) id items
              (subst (λ (n : ℕ). any (has_downstream_id n) items ≡ false) same u.0),
        )
    | inr miss ↦
        rw miss (λ same. absurd (ground arith), revoked-inactive now items r u.1 (rw miss at e))
  ]

  rotated-undigested :
      (p : Primitives) (env : Env) (digest : Bytes) (items : List StoredDownstream)
      (r : IssuedDownstream)
      → HasUniqueIds items
      → same (fingerprint p (new_token p env)) digest ≡ false
      → (modify_first
          (is_active_with id)
          (rotate_item p env)
          downstream_credential_not_found
          items).1
        ≡ ok r
      → All
          (λ item. item.id ≡ id → item.active ≡ true → has_digest digest item ≡ false)
          (modify_first
            (is_active_with id)
            (rotate_item p env)
            downstream_credential_not_found
            items).0
  unfolding modify_first rotate_item
  rotated-undigested p env digest [] r u other e = tt
  rotated-undigested p env digest (item ∷ items) r u other e =
      elim (Bool-cases (is_active_with id item)) [
        | inl hit ↦
            let same_id : item.id ≡ id = ground arith in
            rw hit (
              λ _ _. other,
              others-absent (λ i. i.active ≡ true → has_digest digest i ≡ false) id items
                  (subst (λ (n : ℕ). any (has_downstream_id n) items ≡ false) same_id u.0),
            )
        | inr miss ↦ rw miss (
          λ same_id act. absurd (ground arith),
          rotated-undigested p env digest items r u.1 other (rw miss at e),
        )
      ]

-- The state that a revocation leaves.
finish_revoke-state :
    (p : Primitives) (env : Env) (w : World p.File)
    (r : VaultFile × Result (DownstreamSummary × Bool))
    → (finish_revoke p env w r).0.vault.state ≡ r.0
unfolding finish_revoke
finish_revoke-state p env w (s, err e) = refl
finish_revoke-state p env w (s, ok (summary, true)) =
    (commit-IsCommitted p env (λ t. (t, ok summary)) (with_state w s)).changed
finish_revoke-state p env w (s, ok (summary, false)) = refl

finish_revoke-ok :
    (p : Primitives) (env : Env) (w : World p.File)
    (r : VaultFile × Result (DownstreamSummary × Bool)) (s : DownstreamSummary)
    → (finish_revoke p env w r).1 ≡ ok s
    → (changed : Bool) × (r.1 ≡ ok (s, changed))
unfolding finish_revoke
finish_revoke-ok p env w (t, err e) s h = cc
finish_revoke-ok p env w (t, ok (summary, true)) s h = (
  true,
  ap (λ (x : Result DownstreamSummary). pair_true x)
      (commit-ok p env (λ u. (u, ok summary)) (with_state w t) s h),
)
  where
    pair_true : Result DownstreamSummary → Result (DownstreamSummary × Bool)
    pair_true (err e) = err e
    pair_true (ok x) = ok (x, true)
finish_revoke-ok p env w (t, ok (summary, false)) s h = (false, ground arith)

-- What an accepted token proves of the registers of the loop.
authorize-registers :
    (p : Primitives) (v : Vault) (token : Bytes) (scope : String) (id : Uuid)
    → authorize p v token scope ≡ ok id
    → (sel : Selected) × (sel
        ≡ select_digest
            (fingerprint p token)
            (record { id = 0; active = false; found = false })
            v.state.downstream)
      × (sel.found ≡ true)
      × (sel.active ≡ true)
      × (sel.id ≡ id)
unfolding authorize identify_downstream
authorize-registers p v token scope id e = (
  select_digest (fingerprint p token) (record { id = 0; active = false; found = false })
      v.state.downstream,
  refl,
  ground arith,
  ground arith,
  ground arith,
)

-- Two reasons for which no token, or not this one, passes as a bearer.
inactive-refused :
    (p : Primitives) (v : Vault) (token : Bytes) (scope : String) (id : Uuid)
    → All (λ item. item.id ≡ id → item.active ≡ false) v.state.downstream
    → authorize p v token scope ≢ ok id
inactive-refused p v token scope id inactive passed =
    let (sel, is, found, active, same_id) = authorize-registers p v token scope id passed in
    let off =
      select-inactive id (fingerprint p token) (record { id = 0; active = false; found = false })
        v.state.downstream (λ _. refl) inactive (ap (λ (x : Selected). x.id) (sym is) ∙ same_id) in
    cc (off, ap (λ (x : Selected). x.active) is, active)

undigested-refused :
    (p : Primitives) (v : Vault) (token : Bytes) (scope : String) (id : Uuid)
    → All
        (λ item. item.id ≡ id → item.active ≡ true → has_digest (fingerprint p token) item ≡ false)
        v.state.downstream
    → authorize p v token scope ≢ ok id
undigested-refused p v token scope id undigested passed =
    let (sel, is, found, active, same_id) = authorize-registers p v token scope id passed in
    select-unfound id (fingerprint p token) (record { id = 0; active = false; found = false })
      v.state.downstream (λ f. cc) undigested (ap (λ (x : Selected). x.found) (sym is) ∙ found)
      (ap (λ (x : Selected). x.active) (sym is) ∙ active)
      (ap (λ (x : Selected). x.id) (sym is) ∙ same_id)

-- Where no two bearers have one identifier, no token at all passes as a bearer after its successful revocation,
-- for any scope.
pub revoke-authorize :
    (p : Primitives) (env : Env) (id : Uuid) (w : World p.File) (s : DownstreamSummary)
    (token : Bytes) (scope : String)
    → HasUniqueIds w.vault.state.downstream
    → (revoke_downstream p env id w).1 ≡ ok s
    → authorize p (revoke_downstream p env id w).0.vault token scope ≢ ok id
unfolding revoke_downstream
revoke-authorize p env id w s token scope unique done =
    let change =
      on_downstream (
        modify_first (has_downstream_id id) (revoke_item env.now)
          downstream_credential_not_found) in
    let (flag, hit) = finish_revoke-ok p env w (change w.vault.state) s done in
    let inactive =
      revoked-inactive id env.now w.vault.state.downstream (s, flag) unique
        (unfold on_downstream in hit) in
    let there : (change w.vault.state).0.downstream
        ≡ (modify_first (has_downstream_id id) (revoke_item env.now) downstream_credential_not_found
            w.vault.state.downstream).0 =
      unfold on_downstream in refl in
    let items_are =
      ap (λ (t : VaultFile). t.downstream) (finish_revoke-state p env w (change w.vault.state))
      ∙ there in
    inactive-refused p (finish_revoke p env w (change w.vault.state)).0.vault token scope id
      (rw items_are inactive)

-- Where no two bearers have one identifier, a token whose digest is not the new one no longer passes as a bearer
-- after its successful rotation, for any scope: the old token is dead.
pub rotate-authorize :
    (p : Primitives) (env : Env) (id : Uuid) (w : World p.File) (r : IssuedDownstream)
    (token : Bytes) (scope : String)
    → HasUniqueIds w.vault.state.downstream
    → same (fingerprint p (new_token p env)) (fingerprint p token) ≡ false
    → (rotate_downstream p env id w).1 ≡ ok r
    → authorize p (rotate_downstream p env id w).0.vault token scope ≢ ok id
unfolding rotate_downstream
rotate-authorize p env id w r token scope unique other done =
    let change =
      on_downstream
        (modify_first (is_active_with id) (rotate_item p env) downstream_credential_not_found) in
    let hit = commit-ok p env change w r done in
    let undigested =
      rotated-undigested id p env (fingerprint p token) w.vault.state.downstream r unique other
        (unfold on_downstream in hit) in
    let there : (change w.vault.state).0.downstream
        ≡ (modify_first (is_active_with id) (rotate_item p env) downstream_credential_not_found
            w.vault.state.downstream).0 =
      unfold on_downstream in refl in
    let items_are =
      ap (λ (t : VaultFile). t.downstream) (commit-IsCommitted p env change w).changed ∙ there in
    undigested-refused p (commit p env change w).0.vault token scope id (rw items_are undigested)
