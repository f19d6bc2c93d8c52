-- ===== src/Database/Delta/Frames.antt =====
-- What the parts of `sync_database_delta` in crates/gateway/src/main.rs leave alone.
use nvidia_build_lb.Prelude.{
  arith, ℕ, String, Bool, List, [], ◌∷◌, Option, none, some, ◌≡◌, refl, ◌∙◌,
}
use nvidia_build_lb.Vault.State.{Uuid, VaultKeyRecord, VaultDownstreamRecord}
use nvidia_build_lb.Database.Tables.{Tables, RoutingRow, KeyRow, DownstreamRow}
use nvidia_build_lb.Database.Transactions.{
  Engine, DbError, Tx, Table, ◌>>=◌, ◌>>◌, return, raise_if, only_if, execute, expect_one,
  update_rows, update_row, update_count, sync_all, last_with,
}
use nvidia_build_lb.Database.Transactions.Rules.{
  Ensures, bind-Ensures, return-Ensures, execute-Ensures, raise_if-Ensures, only_if-Ensures,
}
use nvidia_build_lb.Database.Keys
use nvidia_build_lb.Database.Keys.{
  key_table, invalidate_receipts, inserted, insert_into, insert_key, free_slot, active_rows,
  add_key, sync_key, sync_keys,
}
use nvidia_build_lb.Database.Bearers
use nvidia_build_lb.Database.Bearers.{bearer_table, add_bearer, sync_bearer, sync_bearers}
use nvidia_build_lb.Database.Delta.{toggle_cursor, sync_cursor, sync_cursors}

-- A run that succeeds leaves this part of the tables as it was.
pub record Keeps {X : Type 0} (e : Engine) (part : Tables → X) {A : Type 0} (m : Tx A)
    : Type 0 where
  pub at : (x : X) → Ensures e (λ t. part t ≡ x) m (λ _ t. part t ≡ x)

module _ {X : Type 0} (e : Engine) (part : Tables → X) where
  pub bind-Keeps :
      {A B : Type 0} (m : Tx A) (f : A → Tx B)
      → Keeps e part m
      → ((a : A) → Keeps e part (f a))
      → Keeps e part (m >>= f)
  bind-Keeps m f first second = record {
    at = λ x.
        bind-Ensures e (λ t. part t ≡ x) m (λ _ t. part t ≡ x) f (λ _ t. part t ≡ x) (first.at x)
          (λ a. (second a).at x);
  }

  pub then-Keeps :
      {B : Type 0} (m : Tx (Unit {0})) (k : Tx B)
      → Keeps e part m
      → Keeps e part k
      → Keeps e part (m >> k)
  then-Keeps m k first second = bind-Keeps m (λ _. k) first (λ _. second)

  pub return-Keeps : {A : Type 0} (a : A) → Keeps e part (return a)
  return-Keeps a = record {
    at = λ x. return-Ensures e (λ t. part t ≡ x) a (λ _ t. part t ≡ x) (λ t h. h);
  }

  pub raise_if-Keeps : (fails : Bool) (x : DbError) → Keeps e part (raise_if fails x)
  raise_if-Keeps fails x = record {
    at = λ y s s' a h is. (raise_if-Ensures e (λ t. part t ≡ y) fails x s s' a h is).0;
  }

  pub only_if-Keeps :
      (test : Bool) (m : Tx (Unit {0})) → Keeps e part m → Keeps e part (only_if test m)
  only_if-Keeps test m h = record {
    at = λ x.
        only_if-Ensures e (λ t. part t ≡ x) test m (λ t. part t ≡ x) (λ _. h.at x) (λ _ t k. k);
  }

  pub execute-Keeps :
      {A : Type 0} (statement : Engine → Tables → Tables × A)
      → ((t : Tables) → part (statement e t).0 ≡ part t)
      → Keeps e part (execute statement)
  execute-Keeps statement same = record {
    at = λ x. execute-Ensures e (λ t. part t ≡ x) statement (λ _ t. part t ≡ x) (λ t h. same t ∙ h);
  }

  module _ {Row : Type 0} (table : Table Row)
      (apart : (t : Tables) (rows : List Row) → part (table.with_rows t rows) ≡ part t) where
    pub update_row-Keeps :
        (id : Uuid) (guard : Engine → Row → Bool) (set : Engine → Row → Row)
        → Keeps e part (update_row table id guard set)
    unfolding update_row
    update_row-Keeps id guard set =
        bind-Keeps (execute (update_rows table id guard set)) expect_one
          (execute-Keeps (update_rows table id guard set) (λ t. apart t _))
          (λ affected. raise_if-Keeps _ _)

    pub update_count-Keeps :
        (now before : ℕ) (count : Row → ℕ) (id : Uuid) (put : Row → ℕ → Row)
        → Keeps e part (update_count table now before count id put)
    unfolding update_count
    update_count-Keeps now before count id put =
        search (then-Keeps, raise_if-Keeps, update_row-Keeps)

  pub sync_all-Keeps :
      {Item : Type 0} (id_of : Item → Uuid) (sync : Option Item → Item → Tx (Unit {0}))
      → ((before : Option Item) (item : Item) → Keeps e part (sync before item))
      → (previous items : List Item) → Keeps e part (sync_all id_of sync previous items)
  unfolding sync_all
  sync_all-Keeps id_of sync one previous [] = return-Keeps tt
  sync_all-Keeps id_of sync one previous (item ∷ items) =
      then-Keeps (sync (last_with id_of (id_of item) previous) item)
        (sync_all id_of sync previous items) (one (last_with id_of (id_of item) previous) item)
        (sync_all-Keeps id_of sync one previous items)

ruleset keeps_rules = (bind-Keeps, then-Keeps, return-Keeps, raise_if-Keeps, only_if-Keeps)

module _ (e : Engine) where
  abbrev bearers : Tables → List DownstreamRow
  bearers t = t.downstream_credentials

  abbrev keys : Tables → List KeyRow
  keys t = t.upstream_keys

  key_row-Keeps :
      (id : Uuid) (guard : Engine → KeyRow → Bool) (set : Engine → KeyRow → KeyRow)
      → Keeps e bearers (update_row key_table id guard set)
  key_row-Keeps = update_row-Keeps e bearers key_table (λ t rows. refl)

  key_count-Keeps :
      (now before : ℕ) (count : KeyRow → ℕ) (id : Uuid) (put : KeyRow → ℕ → KeyRow)
      → Keeps e bearers (update_count key_table now before count id put)
  key_count-Keeps = update_count-Keeps e bearers key_table (λ t rows. refl)

  invalidate_receipts-Keeps :
      (id : Uuid) (reason : String) → Keeps e bearers (invalidate_receipts id reason)
  unfolding invalidate_receipts
  invalidate_receipts-Keeps id reason = execute-Keeps e bearers _ (λ t. refl)

  update_key-Keeps :
      (before key : VaultKeyRecord) → Keeps e bearers (Keys.update_changed before key)
  unfolding Keys.update_changed
  update_key-Keeps before key =
      search (keeps_rules, key_row-Keeps, key_count-Keeps, invalidate_receipts-Keeps) depth 12

  inserted_slot-Keeps :
      (slot : Option ℕ) (key : VaultKeyRecord) → Keeps e bearers (insert_into slot key)
  inserted_slot-Keeps none key = record { at = λ x s s' a h is. cc }
  inserted_slot-Keeps (some slot) key =
      execute-Keeps e bearers (inserted slot key) (λ t. insert_row-keeps t)
    where
      insert_row-keeps : (t : Tables) → bearers (inserted slot key e t).0 ≡ bearers t
      insert_row-keeps t = ground arith

  insert_key-Keeps : (key : VaultKeyRecord) → Keeps e bearers (insert_key key)
  unfolding insert_key
  insert_key-Keeps key = record {
    at = λ x s s' a h is.
        (inserted_slot-Keeps (free_slot s.tables.upstream_keys) key).at x s s' a h is;
  }

  active_rows-Keeps : Keeps e bearers (execute active_rows)
  active_rows-Keeps = execute-Keeps e bearers active_rows (λ t. refl)

  sync_key-Keeps :
      (before : Option VaultKeyRecord) (key : VaultKeyRecord)
      → Keeps e bearers (sync_key before key)
  unfolding add_key
  sync_key-Keeps none key = search (keeps_rules, active_rows-Keeps, insert_key-Keeps) depth 12
  sync_key-Keeps (some before) key = update_key-Keeps before key

  -- The loop over the keys leaves the downstream credentials alone.
  pub sync_keys-Keeps :
      (previous current : List VaultKeyRecord) → Keeps e bearers (sync_keys previous current)
  unfolding sync_keys
  sync_keys-Keeps = sync_all-Keeps e bearers _ sync_key sync_key-Keeps

  bearer_row-Keeps :
      (id : Uuid) (guard : Engine → DownstreamRow → Bool)
      (set : Engine → DownstreamRow → DownstreamRow)
      → Keeps e keys (update_row bearer_table id guard set)
  bearer_row-Keeps = update_row-Keeps e keys bearer_table (λ t rows. refl)

  bearer_count-Keeps :
      (now before : ℕ) (count : DownstreamRow → ℕ) (id : Uuid)
      (put : DownstreamRow → ℕ → DownstreamRow)
      → Keeps e keys (update_count bearer_table now before count id put)
  bearer_count-Keeps = update_count-Keeps e keys bearer_table (λ t rows. refl)

  insert_bearer-Keeps :
      (item : VaultDownstreamRecord) → Keeps e keys (execute (Bearers.inserted item))
  insert_bearer-Keeps item = execute-Keeps e keys (Bearers.inserted item) same
    where
      same : (t : Tables) → keys (Bearers.inserted item e t).0 ≡ keys t
      same t = ground arith

  sync_bearer-Keeps :
      (before : Option VaultDownstreamRecord) (item : VaultDownstreamRecord)
      → Keeps e keys (sync_bearer before item)
  unfolding add_bearer Bearers.update_changed
  sync_bearer-Keeps none item = search (keeps_rules, insert_bearer-Keeps)
  sync_bearer-Keeps (some before) item =
      search (keeps_rules, bearer_row-Keeps, bearer_count-Keeps) depth 12

  -- The loop over the downstream credentials leaves the keys alone.
  pub sync_bearers-Keeps :
      (previous current : List VaultDownstreamRecord) → Keeps e keys (sync_bearers previous current)
  unfolding sync_bearers
  sync_bearers-Keeps = sync_all-Keeps e keys _ sync_bearer sync_bearer-Keeps

  module _ {X : Type 0} (part : Tables → X) where
    -- The routing cursors stand in a table of their own.
    pub sync_cursors-Keeps :
        ((t : Tables) (rows : List RoutingRow) → part (record t { routing_state = rows }) ≡ part t)
        → (previous current : List (String × ℕ)) (names : List String)
        → Keeps e part (sync_cursors previous current names)
    unfolding sync_cursors
    sync_cursors-Keeps apart previous current [] = return-Keeps e part tt
    sync_cursors-Keeps apart previous current (profile ∷ names) =
        then-Keeps e part (sync_cursor previous current profile)
          (sync_cursors previous current names)
          (only_if-Keeps e part _ (execute (toggle_cursor profile) >>= expect_one) (
            bind-Keeps e part (execute (toggle_cursor profile)) expect_one
              (execute-Keeps e part (toggle_cursor profile) (λ t. apart t _))
              (λ affected. raise_if-Keeps e part _ _)))
          (sync_cursors-Keeps apart previous current names)
