-- ===== src/Tests/Bearers.antt =====
-- Downstream bearers of crates/core/src/lib.rs: runs, and the theorems on them at concrete inputs.
use nvidia_build_lb.Prelude.{
  String, false, not, ◌||◌, List, [], ◌∷◌, some, any, ◌≡◌, ◌≢◌, ◌↔◌, refl, codes, starts_with,
  find_by, if◌then◌else◌, same,
}
use nvidia_build_lb.Vault.State.{
  Uuid, DownstreamSummary, IssuedDownstream, DownstreamIdentity, Error, unauthorized,
  invalid_credential, insufficient_scope, Result, ok, err, downstream_summary,
}
use nvidia_build_lb.Vault.Custody.{fingerprint, persist, finish, commit, modify_first}
use nvidia_build_lb.Vault.Scopes.{canonical_scopes, contains}
use nvidia_build_lb.Vault.Scopes.Canonical.{IsRequest, canonical_scopes_iff}
use nvidia_build_lb.Vault.Downstream.{
  on_downstream, new_token, new_downstream, issue_to, issue_downstream, revoke_item, finish_revoke,
  revoke_downstream, rotate_item, rotate_downstream, identify_downstream, authorize, is_empty,
}
use nvidia_build_lb.Vault.Downstream.Identity.{
  HasDistinctDigests, has_digest, identity_of, identify_downstream-find_by,
}
use nvidia_build_lb.Vault.Downstream.Access.{Grants, authorize_iff}
use nvidia_build_lb.Vault.Downstream.Lifetime.{revoke-authorize, rotate-authorize}
use nvidia_build_lb.Vault.Downstream.Issue.{issue-authorize}
use nvidia_build_lb.Tests.Fixtures.{toy, calm, bearer, bearer_token, two_keys, house, here_and_now}

abbrev asked : List String
asked = "audio:write" ∷ "chat:write" ∷ []

abbrev granted : List String
granted = "chat:write" ∷ "audio:write" ∷ []

accepted : canonical_scopes asked ≡ ok granted
unfolding canonical_scopes nvidia_build_lb.Vault.Scopes.is_scope
    nvidia_build_lb.Vault.Scopes.sort_key
accepted = refl

-- A repeated scope is refused.
repeated :
    canonical_scopes ("chat:write" ∷ "chat:write" ∷ [])
    ≡ err nvidia_build_lb.Vault.State.scopes_must_be_unique
unfolding canonical_scopes nvidia_build_lb.Vault.Scopes.is_scope
    nvidia_build_lb.Vault.Scopes.sort_key
repeated = refl

canonical_scopes_iff_example :
    ((r : List String) × (canonical_scopes asked ≡ ok r)) ↔ IsRequest asked
canonical_scopes_iff_example = canonical_scopes_iff asked

-- The token of the first bearer passes.
passes : authorize toy house bearer_token "chat:write" ≡ ok 5
unfolding authorize identify_downstream starts_with nvidia_build_lb.Vault.Downstream.select_digest
    same fingerprint nvidia_build_lb.Vault.Downstream.require_downstream_scope contains
passes = refl

distinct : HasDistinctDigests two_keys.downstream
unfolding same
distinct = (refl, (refl, tt))

identify_downstream-find_by_example : identify_downstream toy house bearer_token ≡ (
    if is_empty bearer_token || not (starts_with (codes "nblb_ds_") bearer_token)
    then err (unauthorized invalid_credential)
    else identity_of (find_by (has_digest (fingerprint toy bearer_token)) two_keys.downstream))
identify_downstream-find_by_example = identify_downstream-find_by toy house bearer_token distinct

authorize_iff_example :
    (authorize toy house bearer_token "chat:write" ≡ ok 5)
    ↔ Grants toy two_keys.downstream bearer_token "chat:write" 5
authorize_iff_example =
    authorize_iff toy house bearer_token "chat:write" 5 distinct (refl, (refl, tt))

revoked :
    (revoke_downstream toy calm 5 here_and_now).1
    ≡ ok (downstream_summary (record bearer { active = false; revoked_at = some 1000 }))
unfolding revoke_downstream finish_revoke commit finish persist on_downstream modify_first
    revoke_item
revoked = refl

revoke-authorize_example :
    authorize toy (revoke_downstream toy calm 5 here_and_now).0.vault bearer_token "chat:write"
    ≢ ok 5
revoke-authorize_example =
    revoke-authorize toy calm 5 here_and_now
      (downstream_summary (record bearer { active = false; revoked_at = some 1000 })) bearer_token
      "chat:write" (refl, (refl, tt)) revoked

other_digest : same (fingerprint toy (new_token toy calm)) (fingerprint toy bearer_token) ≡ false
unfolding same fingerprint new_token
other_digest = refl

rotated :
    (rotate_downstream toy calm 5 here_and_now).1
    ≡ ok (record { summary = downstream_summary bearer; token = new_token toy calm })
unfolding rotate_downstream commit finish persist on_downstream modify_first rotate_item
    downstream_summary
rotated = refl

rotate-authorize_example :
    authorize toy (rotate_downstream toy calm 5 here_and_now).0.vault bearer_token "chat:write"
    ≢ ok 5
rotate-authorize_example =
    rotate-authorize toy calm 5 here_and_now
      (record { summary = downstream_summary bearer; token = new_token toy calm }) bearer_token
      "chat:write" (refl, (refl, tt)) other_digest rotated

abbrev new_bearer : IssuedDownstream
new_bearer = record {
  summary = downstream_summary (new_downstream toy calm (codes "app2") granted);
  token = new_token toy calm;
}

issued : (issue_downstream toy calm (codes "app2") asked here_and_now).1 ≡ ok new_bearer
unfolding issue_downstream commit finish persist on_downstream issue_to
    nvidia_build_lb.Vault.Downstream.check_issue
    nvidia_build_lb.Vault.Shapes.validate_downstream_label same
    nvidia_build_lb.Vault.Shapes.is_whitespace canonical_scopes
    nvidia_build_lb.Vault.Scopes.is_scope nvidia_build_lb.Vault.Scopes.sort_key
issued = refl

new_digest : any (has_digest (fingerprint toy (new_token toy calm))) two_keys.downstream ≡ false
unfolding same fingerprint new_token
new_digest = refl

issue-authorize_example :
    authorize toy
      (issue_downstream toy calm (codes "app2") asked here_and_now).0.vault
      (new_token toy calm)
      "audio:write"
    ≡ (if contains asked "audio:write" then ok 9 else err (unauthorized insufficient_scope))
issue-authorize_example =
    issue-authorize toy calm (codes "app2") asked here_and_now new_bearer "audio:write" new_digest
      refl issued
