-- ===== src/Vault/Downstream.antt =====
-- The methods of the vault of crates/core/src/lib.rs on downstream bearers.
pub mod Identity
pub mod Access
pub mod Lifetime
pub mod Issue
use nvidia_build_lb.Prelude.{
  ℕ, Bytes, String, str_eq, Bool, true, false, not, ◌&&◌, ◌||◌, List, [], ◌∷◌, ◌++◌, map, Option,
  none, some, any, find_by, ◌==◌, same, codes, starts_with, if◌then◌else◌,
}
use nvidia_build_lb.Vault.State.{
  Uuid, Text, Time, saturating_suc, StoredDownstream, DownstreamSummary, DownstreamIdentity,
  IssuedDownstream, DownstreamAuthError, invalid_credential, insufficient_scope, VaultFile, Vault,
  Error, unauthorized, Result, ok, err, ◌>>=◌, ◌>>◌, bail_if, ok_or, downstream_summary,
  downstream_label_already_exists, downstream_credential_not_found, invalid_downstream_credential,
}
use nvidia_build_lb.Vault.Shapes.{validate_downstream_label}
use nvidia_build_lb.Vault.Scopes.{canonical_scopes, contains}
use nvidia_build_lb.Vault.Custody.{
  Primitives, Env, World, Change, fingerprint, persist, commit, with_state, modify_first,
}

abbrev pub has_downstream_id : Uuid → StoredDownstream → Bool
has_downstream_id id item = item.id == id

abbrev pub is_active_with : Uuid → StoredDownstream → Bool
is_active_with id item = item.id == id && item.active

-- A change to the list of bearers.
unfoldable pub on_downstream {ℓ} :
    {A : Type ℓ} → (List StoredDownstream → List StoredDownstream × Result A) → Change A
on_downstream f s = let r = f s.downstream in (record s { downstream = r.0 }, r.1)

-- `format!("nblb_ds_{}", hex::encode(bytes))`
unfoldable pub new_token : (p : Primitives) → Env → Bytes
new_token p env = codes "nblb_ds_" ++ p.hex_encode env.random

unfoldable pub new_downstream : (p : Primitives) → Env → Text → List String → StoredDownstream
new_downstream p env label scopes = record {
  id = env.uuid;
  label = label;
  scopes = scopes;
  token_digest = fingerprint p (new_token p env);
  active = true;
  request_count = 0;
  last_used_at = none;
  created_at = env.now;
  revoked_at = none;
}

-- The checks of `issue_downstream`, with the canonical scopes.
unfoldable pub check_issue : List StoredDownstream → Text → List String → Result (List String)
check_issue items label requested = do
  validate_downstream_label label
  scopes ← canonical_scopes requested
  bail_if (any (λ item. item.active && same item.label label) items) downstream_label_already_exists
  ok scopes

unfoldable pub issue_to :
    (p : Primitives)
    → Env
    → Text
    → List String
    → List StoredDownstream
    → List StoredDownstream × Result IssuedDownstream
issue_to p env label requested items = elim (check_issue items label requested) [
  | err e ↦ (items, err e)
  | ok scopes ↦ (
    items ++ new_downstream p env label scopes ∷ [],
    ok (record {
      summary = downstream_summary (new_downstream p env label scopes);
      token = new_token p env;
    }),
  )
]

unfoldable pub issue_downstream :
    (p : Primitives)
    → Env
    → Text
    → List String
    → World p.File
    → World p.File × Result IssuedDownstream
issue_downstream p env label requested =
    commit p env (on_downstream (issue_to p env label requested))

unfoldable pub list_downstream : Vault → List DownstreamSummary
unfolding downstream_summary
list_downstream v = map downstream_summary v.state.downstream

-- The summary after the revocation, and whether anything changed.
unfoldable pub revoke_item :
    Time → StoredDownstream → Result (StoredDownstream × (DownstreamSummary × Bool))
unfolding downstream_summary
revoke_item now item =
    let item' : StoredDownstream =
      if item.active then record item { active = false; revoked_at = some now } else item in
    ok (item', (downstream_summary item', item.active))

-- The file is written only if something changed.
unfoldable pub finish_revoke :
    (p : Primitives)
    → Env
    → World p.File
    → VaultFile × Result (DownstreamSummary × Bool)
    → World p.File × Result DownstreamSummary
finish_revoke p env w (s, err e) = (with_state w s, err e)
finish_revoke p env w (s, ok (summary, true)) = commit p env (λ t. (t, ok summary)) (with_state w s)
finish_revoke p env w (s, ok (summary, false)) = (with_state w s, ok summary)

unfoldable pub revoke_downstream :
    (p : Primitives) → Env → Uuid → World p.File → World p.File × Result DownstreamSummary
revoke_downstream p env id w = finish_revoke p env w (
    on_downstream
      (modify_first (has_downstream_id id) (revoke_item env.now) downstream_credential_not_found)
      w.vault.state)

unfoldable pub rotate_item :
    (p : Primitives) → Env → StoredDownstream → Result (StoredDownstream × IssuedDownstream)
unfolding downstream_summary
rotate_item p env item =
    let item' : StoredDownstream = record item { token_digest = fingerprint p (new_token p env) } in
    ok (item', record { summary = downstream_summary item'; token = new_token p env })

unfoldable pub rotate_downstream :
    (p : Primitives) → Env → Uuid → World p.File → World p.File × Result IssuedDownstream
rotate_downstream p env id = commit p env (
    on_downstream
      (modify_first (is_active_with id) (rotate_item p env) downstream_credential_not_found))

unfoldable pub rescope_item :
    List String → StoredDownstream → Result (StoredDownstream × DownstreamSummary)
unfolding downstream_summary
rescope_item scopes item =
    let item' : StoredDownstream = record item { scopes = scopes } in
    ok (item', downstream_summary item')

unfoldable pub update_scopes_in :
    Uuid → List String → List StoredDownstream → List StoredDownstream × Result DownstreamSummary
update_scopes_in id requested items = elim (canonical_scopes requested) [
  | err e ↦ (items, err e)
  | ok scopes ↦
      modify_first (is_active_with id) (rescope_item scopes) downstream_credential_not_found items
]

unfoldable pub update_downstream_scopes :
    (p : Primitives)
    → Env
    → Uuid
    → List String
    → World p.File
    → World p.File × Result DownstreamSummary
update_downstream_scopes p env id requested =
    commit p env (on_downstream (update_scopes_in id requested))

-- The registers of the constant-time loop: the selected identifier, its activity, and whether a
-- digest has matched.
pub record Selected : Type 0 where
  pub id : Uuid
  pub active : Bool
  pub found : Bool

-- One round: `conditional_select` keeps the old values or takes the item's.
unfoldable pub select_round : Bytes → Selected → StoredDownstream → Selected
select_round digest sel item =
    let matches = same item.token_digest digest in
    record {
      id = if matches then item.id else sel.id;
      active = if matches then item.active else sel.active;
      found = sel.found || matches;
    }

unfoldable pub select_digest : Bytes → Selected → List StoredDownstream → Selected
unfolding select_round
select_digest digest sel [] = sel
select_digest digest sel (item ∷ items) = select_digest digest (select_round digest sel item) items

abbrev pub is_empty : Bytes → Bool
is_empty [] = true
is_empty (_ ∷ _) = false

unfoldable pub identify_downstream : (p : Primitives) → Vault → Bytes → Result DownstreamIdentity
identify_downstream p v token =
    let sel =
      select_digest (fingerprint p token) (record { id = 0; active = false; found = false })
        v.state.downstream in
    if is_empty token || not (starts_with (codes "nblb_ds_") token) || not sel.found
    then err (unauthorized invalid_credential)
    else ok (record { id = sel.id; active = sel.active })

unfoldable pub require_downstream_scope : Vault → Uuid → String → Result (Unit {0})
require_downstream_scope v id required = do
  item ← ok_or (find_by (has_downstream_id id) v.state.downstream) (unauthorized invalid_credential)
  bail_if (not (contains item.scopes required)) (unauthorized insufficient_scope)

unfoldable pub use_item : Time → StoredDownstream → Result (StoredDownstream × DownstreamSummary)
unfolding downstream_summary
use_item used_at item =
    let item' : StoredDownstream = record item {
      request_count = saturating_suc item.request_count;
      last_used_at = some used_at;
    } in
    ok (item', downstream_summary item')

unfoldable pub record_downstream_use :
    (p : Primitives) → Env → Uuid → Time → World p.File → World p.File × Result DownstreamSummary
record_downstream_use p env id used_at = commit p env (
    on_downstream
      (modify_first (is_active_with id) (use_item used_at) invalid_downstream_credential))

-- The checks of `authenticate_downstream`, with the identifier.
unfoldable pub authorize : (p : Primitives) → Vault → Bytes → String → Result Uuid
authorize p v token required = do
  identity ← identify_downstream p v token
  bail_if (not identity.active) (unauthorized invalid_credential)
  require_downstream_scope v identity.id required
  ok identity.id

unfoldable pub authenticate_downstream :
    (p : Primitives) → Env → Bytes → String → World p.File → World p.File × Result DownstreamSummary
authenticate_downstream p env token required w = elim (authorize p w.vault token required) [
  | err e ↦ (w, err e)
  | ok id ↦ record_downstream_use p env id env.now w
]
