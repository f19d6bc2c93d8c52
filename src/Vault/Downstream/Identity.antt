-- ===== src/Vault/Downstream/Identity.antt =====
-- The constant-time loop of `identify_downstream` in crates/core/src/lib.rs against a plain lookup, and
-- what an accepted bearer proves.
use nvidia_build_lb.Prelude.{
  Bytes, Bool, true, false, not, ◌||◌, ◌≡◌, refl, ap, ◌∙◌, List, [], ◌∷◌, Option, none, some, arith,
  if◌then◌else◌, Bool-cases, inl, inr, any, find_by, same, same_iff, codes, starts_with, subst,
}
use nvidia_build_lb.Vault.State.{
  StoredDownstream, DownstreamIdentity, invalid_credential, Vault, unauthorized, Result, ok, err,
}
use nvidia_build_lb.Vault.Custody.{Primitives, fingerprint}
use nvidia_build_lb.Vault.Downstream.{
  has_downstream_id, Selected, select_round, select_digest, is_empty, identify_downstream,
}

abbrev pub has_digest : Bytes → StoredDownstream → Bool
has_digest digest item = same item.token_digest digest

-- No two bearers have one digest, or one identifier.
abbrev pub HasDistinctDigests : List StoredDownstream → Type 0
HasDistinctDigests [] = Unit {0}
HasDistinctDigests (item ∷ items) =
    (any (has_digest item.token_digest) items ≡ false) × HasDistinctDigests items

abbrev pub HasUniqueIds : List StoredDownstream → Type 0
HasUniqueIds [] = Unit {0}
HasUniqueIds (item ∷ items) = (any (has_downstream_id item.id) items ≡ false) × HasUniqueIds items

-- The registers after the loop over items none of which has the digest.
pub select_digest-absent :
    (digest : Bytes) (sel : Selected) (items : List StoredDownstream)
    → any (has_digest digest) items ≡ false
    → select_digest digest sel items ≡ sel
unfolding select_digest
select_digest-absent digest sel [] h = refl
select_digest-absent digest sel (item ∷ items) h =
    ground (arith, select_digest-absent digest (select_round digest sel item) items)

abbrev registers : Selected → Option StoredDownstream → Selected
registers sel none = sel
registers sel (some item) = record { id = item.id; active = item.active; found = true }

-- A digest that the head has stands nowhere else.
alone :
    (digest : Bytes) (item : StoredDownstream) (items : List StoredDownstream)
    → has_digest digest item ≡ true
    → any (has_digest item.token_digest) items ≡ false
    → any (has_digest digest) items ≡ false
alone digest item items hit h =
    subst (λ (d : Bytes). any (has_digest d) items ≡ false)
      ((same_iff item.token_digest digest).0 hit) h

-- Over distinct digests the loop ends with the item that a plain search finds.
select_digest-find_by :
    (digest : Bytes) (sel : Selected) (items : List StoredDownstream)
    → sel.found ≡ false
    → HasDistinctDigests items
    → select_digest digest sel items ≡ registers sel (find_by (has_digest digest) items)
unfolding select_digest select_round
select_digest-find_by digest sel [] h d = refl
select_digest-find_by digest sel (item ∷ items) h d = elim (Bool-cases (has_digest digest item)) [
  | inl hit ↦
      let rest =
        select_digest-absent digest (select_round digest sel item) items
          (alone digest item items hit d.0) in
      ground (arith, rest)
  | inr miss ↦
      let round : select_round digest sel item ≡ sel = ground arith in
      ap (λ (s : Selected). select_digest digest s items) round
      ∙ select_digest-find_by digest sel items h d.1
      ∙ rw miss
]

abbrev pub identity_of : Option StoredDownstream → Result DownstreamIdentity
identity_of none = err (unauthorized invalid_credential)
identity_of (some item) = ok (record { id = item.id; active = item.active })

-- The constant-time identification is a plain lookup by digest: where no two bearers have one digest, a
-- token of the right shape is identified with the one bearer that has its digest, and every other token
-- is refused as an invalid credential.
pub identify_downstream-find_by :
    (p : Primitives) (v : Vault) (token : Bytes)
    → HasDistinctDigests v.state.downstream
    → identify_downstream p v token ≡ (
        if is_empty token || not (starts_with (codes "nblb_ds_") token)
        then err (unauthorized invalid_credential)
        else identity_of (find_by (has_digest (fingerprint p token)) v.state.downstream))
unfolding identify_downstream
identify_downstream-find_by p v token d =
    let found =
      select_digest-find_by (fingerprint p token) (record { id = 0; active = false; found = false })
        v.state.downstream refl d in
    rw found (go (find_by (has_digest (fingerprint p token)) v.state.downstream))
  where
    go :
        (o : Option StoredDownstream)
        → (if is_empty token
              || not (starts_with (codes "nblb_ds_") token)
              || not (registers (record { id = 0; active = false; found = false }) o).found
            then err (unauthorized invalid_credential)
            else ok (record {
              id = (registers (record { id = 0; active = false; found = false }) o).id;
              active = (registers (record { id = 0; active = false; found = false }) o).active;
            }))
          ≡ (if is_empty token || not (starts_with (codes "nblb_ds_") token)
              then err (unauthorized invalid_credential)
              else identity_of o)
    go none = ground arith
    go (some item) = ground arith
