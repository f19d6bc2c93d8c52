-- ===== src/Vault/Opening/Records.antt =====
-- The exchange with database rows in crates/core/src/lib.rs, and the routing cursors.
use nvidia_build_lb.Prelude.{
  ℕ, ◌≤◌, Bytes, String, str_eq, str_eq_iff, true, ◌≡◌, ◌≢◌, refl, ap, ◌∙◌, List, [], ◌∷◌, some,
  arith, if◌then◌else◌, count_by,
}
use nvidia_build_lb.Vault.State.{
  StoredKey, StoredDownstream, VaultKeyRecord, VaultDownstreamRecord, VaultFile, Vault, Result, ok,
  err, ◌>>=◌,
}
use nvidia_build_lb.Vault.Custody.{Primitives, IsLawful, Env, World}
use nvidia_build_lb.Vault.Custody.Writes.{commit-IsCommitted}
use nvidia_build_lb.Vault.Opening.{
  stored_key, stored_downstream, collect, key_record, downstream_record, key_records,
  downstream_records, is_live_record, all_new_records, from_records_with_cursors, get_cursor,
  insert_cursor, or_else, unwrap_or, router_cursor_for, set_router_cursor_for,
}

module _ (p : Primitives) (lawful : IsLawful p) where
  key_record-stored :
      (r : VaultKeyRecord) (key : StoredKey) → stored_key p r ≡ ok key → key_record p key ≡ ok r
  unfolding stored_key key_record
  key_record-stored r key e = ground (
    arith,
    lawful.hex_round r.fingerprint,
    lawful.base64_round r.nonce,
    lawful.base64_round r.ciphertext,
  )

  downstream_record-stored :
      (r : VaultDownstreamRecord) (item : StoredDownstream)
      → stored_downstream p r ≡ ok item
      → downstream_record p item ≡ ok r
  unfolding stored_downstream downstream_record
  downstream_record-stored r item e = ground (arith, lawful.hex_round r.token_digest)

module _ {ℓ κ} {A : Type ℓ} {B : Type κ} (f : A → Result B) where
  -- A successful round of the collection, taken apart.
  abbrev Round : A → List A → List B → Type κ
  Round x xs ys = (y : B) × (zs : List B) × (f x ≡ ok y) × (collect f xs ≡ ok zs) × (ys ≡ y ∷ zs)

  round :
      (x : A) (xs : List A) (ys : List B) (r : Result B) (rs : Result (List B))
      → f x ≡ r
      → collect f xs ≡ rs
      → (r >>= (λ y. rs >>= (λ zs. ok (y ∷ zs)))) ≡ ok ys
      → Round x xs ys
  round x xs ys (err e) rs is more h = cc
  round x xs ys (ok y) (err e) is more h = cc
  round x xs ys (ok y) (ok zs) is more h = (y, zs, is, more, ground arith)

  collect-cons : (x : A) (xs : List A) (ys : List B) → collect f (x ∷ xs) ≡ ok ys → Round x xs ys
  unfolding collect
  collect-cons x xs ys e = round x xs ys (f x) (collect f xs) refl refl e

collect-inverse {ℓ κ} :
    {A : Type ℓ} {B : Type κ} (f : A → Result B) (g : B → Result A)
    → ((a : A) (b : B) → f a ≡ ok b → g b ≡ ok a)
    → (xs : List A) (ys : List B) → collect f xs ≡ ok ys
    → collect g ys ≡ ok xs
unfolding collect
collect-inverse f g inv [] [] e = refl
collect-inverse f g inv [] (y ∷ ys) e = cc
collect-inverse f g inv (x ∷ xs) ys e =
    let (y, zs, is, more, same_list) = collect-cons f x xs ys e in
    rw same_list (rw (inv x y is) (rw (collect-inverse f g inv xs zs more)))

-- What `from_records_with_cursors` has done when it succeeds.
from_records-inverse :
    (p : Primitives) (master_key : Bytes) (keys : List VaultKeyRecord)
    (downstream : List VaultDownstreamRecord) (cursors : List (String × ℕ)) (v : Vault)
    → from_records_with_cursors p master_key keys downstream cursors ≡ ok v
    → (count_by is_live_record keys ≤ 2)
      × (all_new_records [] keys ≡ true)
      × (collect (stored_key p) keys ≡ ok v.state.keys)
      × (collect (stored_downstream p) downstream ≡ ok v.state.downstream)
      × (v.state.version ≡ 1)
      × (v.state.router_cursors ≡ cursors)
from_records-inverse p master_key keys downstream cursors v e =
    go (collect (stored_key p) keys) refl (collect (stored_downstream p) downstream) refl
  where
    go :
        (ks : Result (List StoredKey))
        → collect (stored_key p) keys ≡ ks
        → (ds : Result (List StoredDownstream)) → collect (stored_downstream p) downstream ≡ ds
        → (count_by is_live_record keys ≤ 2)
          × (all_new_records [] keys ≡ true)
          × (collect (stored_key p) keys ≡ ok v.state.keys)
          × (collect (stored_downstream p) downstream ≡ ok v.state.downstream)
          × (v.state.version ≡ 1)
          × (v.state.router_cursors ≡ cursors)
    go (err x) kis ds dis = unfold from_records_with_cursors in absurd (ground arith)
    go (ok ks) kis (err x) dis = unfold from_records_with_cursors in absurd (ground arith)
    go (ok ks) kis (ok ds) dis =
        unfold from_records_with_cursors in
        (ground arith, ground arith, ground arith, ground arith, ground arith, ground arith)

-- Rows that are accepted come back unchanged: what `key_records` and `downstream_records` export from the
-- vault that `from_records_with_cursors` built are the very rows, in their order.
pub from_records-key_records :
    (p : Primitives) (master_key : Bytes) (keys : List VaultKeyRecord)
    (downstream : List VaultDownstreamRecord) (cursors : List (String × ℕ)) (v : Vault)
    → IsLawful p
    → from_records_with_cursors p master_key keys downstream cursors ≡ ok v
    → (key_records p v ≡ ok keys) × (downstream_records p v ≡ ok downstream)
unfolding key_records downstream_records
from_records-key_records p master_key keys downstream cursors v lawful e =
    let (_, _, ks, ds, _, _) = from_records-inverse p master_key keys downstream cursors v e in
    (
      collect-inverse (stored_key p) (key_record p) (key_record-stored p lawful) keys v.state.keys
          ks,
      collect-inverse (stored_downstream p) (downstream_record p)
          (downstream_record-stored p lawful) downstream v.state.downstream ds,
    )

get_cursor-insert :
    (k q : String) (c : ℕ) (cursors : List (String × ℕ))
    → get_cursor q (insert_cursor k c cursors)
      ≡ (if str_eq k q then some c else get_cursor q cursors)
unfolding get_cursor insert_cursor
get_cursor-insert k q c [] = refl
get_cursor-insert k q c ((j, v) ∷ cursors) =
    ground (arith, str_eq_iff j k, str_eq_iff j q, str_eq_iff k q, get_cursor-insert k q c cursors)

set_cursor-state :
    (p : Primitives) (env : Env) (profile : String) (cursor : ℕ) (w : World p.File)
    → (set_router_cursor_for p env profile cursor w).0.vault.state ≡ record w.vault.state {
      router_cursors = insert_cursor profile cursor w.vault.state.router_cursors;
    }
unfolding set_router_cursor_for
set_cursor-state p env profile cursor w = (commit-IsCommitted p env _ w).changed

abbrev cursor_in : VaultFile → String → ℕ
cursor_in s q =
    unwrap_or (or_else (get_cursor q s.router_cursors) (get_cursor "__legacy__" s.router_cursors))
      s.router_cursor

-- A cursor that is stored for a profile other than the fallback is the one that is read back for it,
-- and the cursor of every other profile stays as it was.
pub router_cursor_for-set :
    (p : Primitives) (env : Env) (profile q : String) (cursor : ℕ) (w : World p.File)
    → profile ≢ "__legacy__"
    → router_cursor_for (set_router_cursor_for p env profile cursor w).0.vault q
      ≡ (if str_eq profile q then cursor else router_cursor_for w.vault q)
unfolding router_cursor_for
router_cursor_for-set p env profile q cursor w other =
    ap (λ (s : VaultFile). cursor_in s q) (set_cursor-state p env profile cursor w)
    ∙ ground (
      arith,
      get_cursor-insert profile q cursor w.vault.state.router_cursors,
      get_cursor-insert profile "__legacy__" cursor w.vault.state.router_cursors,
      str_eq_iff profile "__legacy__",
    )
