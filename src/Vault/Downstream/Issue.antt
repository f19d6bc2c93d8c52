-- ===== src/Vault/Downstream/Issue.antt =====
-- What a bearer that crates/core/src/lib.rs has just issued may do.
use nvidia_build_lb.Prelude.{
  Bytes, String, true, false, ◌≡◌, refl, ap, ◌∙◌, List, [], ◌∷◌, ◌++◌, arith, if◌then◌else◌, any,
  find_by, same_refl, codes, starts_with, starts_with-append, find_by-append_none,
}
use nvidia_build_lb.Vault.State.{
  Text, StoredDownstream, IssuedDownstream, insufficient_scope, VaultFile, Vault, unauthorized,
  Result, ok, err,
}
use nvidia_build_lb.Vault.Scopes.{contains, canonical_scopes}
use nvidia_build_lb.Vault.Scopes.Canonical.{canonical_scopes-IsIncreasing}
use nvidia_build_lb.Vault.Custody.{Primitives, Env, World, fingerprint, commit}
use nvidia_build_lb.Vault.Custody.Writes.{commit-IsCommitted}
use nvidia_build_lb.Vault.Keys.Lifecycle.{commit-ok}
use nvidia_build_lb.Vault.Downstream.{
  has_downstream_id, is_empty, Selected, select_round, select_digest, identify_downstream,
  require_downstream_scope, authorize, on_downstream, new_token, new_downstream, check_issue,
  issue_to, issue_downstream,
}
use nvidia_build_lb.Vault.Downstream.Identity.{has_digest}

select-last :
    (digest : Bytes) (sel : Selected) (items : List StoredDownstream) (item : StoredDownstream)
    → any (has_digest digest) items ≡ false
    → has_digest digest item ≡ true
    → sel.found ≡ false
    → select_digest digest sel (items ++ item ∷ [])
      ≡ record { id = item.id; active = item.active; found = true }
unfolding select_digest select_round
select-last digest sel [] item h hit f = ground arith
select-last digest sel (i ∷ items) item h hit f =
    let round : select_round digest sel i ≡ sel = ground arith in
    ap (λ (s : Selected). select_digest digest s (items ++ item ∷ [])) round
    ∙ select-last digest sel items item (ground arith) hit f

module _ (p : Primitives) (env : Env) (label : Text) (requested : List String) where
  issue_to-ok :
      (items : List StoredDownstream) (r : IssuedDownstream)
      → (issue_to p env label requested items).1 ≡ ok r
      → (scopes : List String) × (canonical_scopes requested ≡ ok scopes)
        × (r.token ≡ new_token p env)
        × ((issue_to p env label requested items).0
            ≡ items ++ new_downstream p env label scopes ∷ [])
  issue_to-ok items r e = go (check_issue items label requested) refl
    where
      go :
          (c : Result (List String))
          → check_issue items label requested ≡ c
          → (scopes : List String) × (canonical_scopes requested ≡ ok scopes)
            × (r.token ≡ new_token p env)
            × ((issue_to p env label requested items).0
                ≡ items ++ new_downstream p env label scopes ∷ [])
      go (err x) is = unfold issue_to in cc (rw (is, issue_to) at e)
      go (ok scopes) is = (
        scopes,
        unfold check_issue in ground arith,
        unfold issue_to in ground (arith, rw (is, issue_to) at e),
        unfold issue_to in rw (is, issue_to),
      )

new_token-shaped :
    (p : Primitives) (env : Env)
    → (is_empty (new_token p env) ≡ false)
      × (starts_with (codes "nblb_ds_") (new_token p env) ≡ true)
unfolding new_token
new_token-shaped p env = (refl, starts_with-append (codes "nblb_ds_") (p.hex_encode env.random))

-- Over bearers whose last one is new.
authorize-new :
    (p : Primitives) (env : Env) (label : Text) (scopes : List String) (v : Vault)
    (items : List StoredDownstream) (scope : String)
    → any (has_digest (fingerprint p (new_token p env))) items ≡ false
    → any (has_downstream_id env.uuid) items ≡ false
    → v.state.downstream ≡ items ++ new_downstream p env label scopes ∷ []
    → authorize p v (new_token p env) scope
      ≡ (if contains scopes scope then ok env.uuid else err (unauthorized insufficient_scope))
unfolding authorize identify_downstream require_downstream_scope
authorize-new p env label scopes v items scope new_digest new_id items_are =
    let item = new_downstream p env label scopes in
    let digest = fingerprint p (new_token p env) in
    let start : Selected = record { id = 0; active = false; found = false } in
    let registers =
      ap (select_digest digest start) items_are
      ∙ select-last digest start items item new_digest (unfold new_downstream in same_refl digest)
          refl in
    let found =
      ap (find_by (has_downstream_id env.uuid)) items_are
      ∙ find_by-append_none (has_downstream_id env.uuid) items (item ∷ []) new_id in
    let shape = new_token-shaped p env in
    unfold new_downstream in ground (arith, registers, found, shape.0, shape.1)

-- A token that has just been issued, for an identifier and a digest that are new to the vault, passes as
-- the new bearer for every scope that was requested and is refused for every other scope.
pub issue-authorize :
    (p : Primitives) (env : Env) (label : Text) (requested : List String) (w : World p.File)
    (r : IssuedDownstream) (scope : String)
    → any (has_digest (fingerprint p (new_token p env))) w.vault.state.downstream ≡ false
    → any (has_downstream_id env.uuid) w.vault.state.downstream ≡ false
    → (issue_downstream p env label requested w).1 ≡ ok r
    → authorize p (issue_downstream p env label requested w).0.vault r.token scope
      ≡ (if contains requested scope then ok env.uuid else err (unauthorized insufficient_scope))
unfolding issue_downstream
issue-authorize p env label requested w r scope new_digest new_id e =
    let change = on_downstream (issue_to p env label requested) in
    let done = commit-ok p env change w r e in
    let (scopes, canonical, token_is, items_are) =
      issue_to-ok p env label requested w.vault.state.downstream r (unfold on_downstream in done) in
    let there : (change w.vault.state).0.downstream
        ≡ w.vault.state.downstream ++ new_downstream p env label scopes ∷ [] =
      unfold on_downstream in items_are in
    let all_are =
      ap (λ (t : VaultFile). t.downstream) (commit-IsCommitted p env change w).changed ∙ there in
    let scope_is = (canonical_scopes-IsIncreasing requested scopes canonical).3 scope in
    rw token_is (
      authorize-new p env label scopes (commit p env change w).0.vault w.vault.state.downstream
        scope new_digest new_id all_are
      ∙ rw scope_is)
