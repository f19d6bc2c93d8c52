-- ===== src/Vault/Downstream/Access.antt =====
-- Which bearers crates/core/src/lib.rs lets through: `authenticate_downstream` before it records the use.
use nvidia_build_lb.Prelude.{
  found_at, ℕ, Bytes, String, Bool, true, not, ◌&&◌, ◌||◌, ◌≡◌, refl, List, [], ◌∷◌, Option, none,
  some, arith, if◌then◌else◌, ◌↔◌, any, find_by, get_elem?, same_iff, codes, starts_with, zero, suc,
}
use nvidia_build_lb.Vault.State.{
  Uuid, StoredDownstream, invalid_credential, Vault, unauthorized, ok, err,
}
use nvidia_build_lb.Vault.Scopes.{contains}
use nvidia_build_lb.Vault.Custody.{Primitives, fingerprint}
use nvidia_build_lb.Vault.Downstream.{
  has_downstream_id, is_empty, identify_downstream, require_downstream_scope, authorize,
}
use nvidia_build_lb.Vault.Downstream.Identity.{
  has_digest, HasDistinctDigests, HasUniqueIds, identity_of, identify_downstream-find_by,
}

-- The shape that every issued token has.
abbrev pub is_token : Bytes → Bool
is_token token = not (is_empty token) && starts_with (codes "nblb_ds_") token

-- A bearer that may use a scope with a token.
pub record Grants (p : Primitives) (items : List StoredDownstream) (token : Bytes) (scope : String)
    (id : Uuid) : Type 0 where
  pub place : ℕ
  pub item : StoredDownstream
  pub held : get_elem? items place ≡ some item
  pub named : item.id ≡ id
  pub shaped : is_token token ≡ true
  pub digested : item.token_digest ≡ fingerprint p token
  pub active : item.active ≡ true
  pub scoped : contains item.scopes scope ≡ true

any_at {ℓ} :
    {A : Type ℓ} (test : A → Bool) (xs : List A) (i : ℕ) (a : A)
    → get_elem? xs i ≡ some a
    → test a ≡ true
    → any test xs ≡ true
any_at test [] i a e t = cc
any_at test (x ∷ xs) zero a e t = ground arith
any_at test (x ∷ xs) (suc i) a e t = ground (arith, any_at test xs i a e t)

unique-digest :
    (items : List StoredDownstream) (i : ℕ) (item : StoredDownstream) (digest : Bytes)
    → HasDistinctDigests items
    → get_elem? items i ≡ some item
    → item.token_digest ≡ digest
    → find_by (has_digest digest) items ≡ some item
unique-digest [] i item digest d e t = cc
unique-digest (x ∷ xs) zero item digest d e t = ground (arith, same_iff item.token_digest digest)
unique-digest (x ∷ xs) (suc i) item digest d e t = ground (
  arith,
  unique-digest xs i item digest d.1 e t,
  any_at (has_digest x.token_digest) xs i item e,
  same_iff item.token_digest x.token_digest,
  same_iff x.token_digest digest,
)

unique-id :
    (items : List StoredDownstream) (i : ℕ) (item : StoredDownstream)
    → HasUniqueIds items
    → get_elem? items i ≡ some item
    → find_by (has_downstream_id item.id) items ≡ some item
unique-id [] i item d e = cc
unique-id (x ∷ xs) zero item d e = ground arith
unique-id (x ∷ xs) (suc i) item d e =
    ground (arith, unique-id xs i item d.1 e, any_at (has_downstream_id x.id) xs i item e)

module _ (p : Primitives) (v : Vault) (token : Bytes) (scope : String)
    (digests : HasDistinctDigests v.state.downstream) (ids : HasUniqueIds v.state.downstream) where
  Grants-of_authorize :
      (id : Uuid) → authorize p v token scope ≡ ok id → Grants p v.state.downstream token scope id
  Grants-of_authorize id e = go (find_by (has_digest (fingerprint p token)) v.state.downstream) refl
    where
      identified : identify_downstream p v token ≡ (
          if is_empty token || not (starts_with (codes "nblb_ds_") token)
          then err (unauthorized invalid_credential)
          else identity_of (find_by (has_digest (fingerprint p token)) v.state.downstream))
      identified = identify_downstream-find_by p v token digests

      go :
          (o : Option StoredDownstream)
          → find_by (has_digest (fingerprint p token)) v.state.downstream ≡ o
          → Grants p v.state.downstream token scope id
      go none is = unfold authorize in absurd (ground (arith, identified))
      go (some item) is =
          let (i, at, hit) =
            found_at (has_digest (fingerprint p token)) v.state.downstream item is in
          let by_id = unique-id v.state.downstream i item ids at in
          unfold authorize require_downstream_scope in
          record {
            place = i;
            item = item;
            held = at;
            named = ground (arith, identified, by_id);
            shaped = ground (arith, identified);
            digested = (same_iff item.token_digest (fingerprint p token)).0 hit;
            active = ground (arith, identified);
            scoped = ground (arith, identified, by_id);
          }

  authorize_of_Grants :
      (id : Uuid) → Grants p v.state.downstream token scope id → authorize p v token scope ≡ ok id
  unfolding authorize require_downstream_scope
  authorize_of_Grants id g =
      let identified = identify_downstream-find_by p v token digests in
      let by_digest =
        unique-digest v.state.downstream g.place g.item (fingerprint p token) digests g.held
          g.digested in
      let by_id = unique-id v.state.downstream g.place g.item ids g.held in
      ground (arith, identified, by_digest, by_id)

-- Authentication is sound and complete: where digests and identifiers do not repeat, a token passes for
-- a scope exactly if it has the issued shape and some stored bearer has its digest, is active and holds
-- the scope; the identifier returned is that bearer's.
pub authorize_iff :
    (p : Primitives) (v : Vault) (token : Bytes) (scope : String) (id : Uuid)
    → HasDistinctDigests v.state.downstream
    → HasUniqueIds v.state.downstream
    → (authorize p v token scope ≡ ok id) ↔ Grants p v.state.downstream token scope id
authorize_iff p v token scope id digests ids = (
  Grants-of_authorize p v token scope digests ids id,
  authorize_of_Grants p v token scope digests ids id,
)
