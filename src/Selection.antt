-- ===== src/Selection.antt =====
-- `select_initial_key` of crates/gateway/src/main.rs: the key of a request's first attempt, from the slots in
-- the database or, without one, from the selector in memory with its cursor persisted in the vault.
pub mod Candidates
pub mod Slots
pub mod Cursors
use nvidia_build_lb.Prelude.{
  ℕ, ◌+◌, ◌-◌, ◌*◌, String, str_eq, Bool, true, false, not, ◌&&◌, List, [], ◌∷◌, Option, none, some,
  any, find_by, select_by, map, ltb, leb, ◌==◌, if◌then◌else◌,
}
use nvidia_build_lb.Json.{is_none_or}
use nvidia_build_lb.Vault.State.{Uuid, Time, second, KeySummary}
use nvidia_build_lb.Vault.Custody.{Primitives}
use nvidia_build_lb.Vault.Keys.{list}
use nvidia_build_lb.Vault.Opening.{get_cursor, insert_cursor, unwrap_or}
use nvidia_build_lb.Router.{Router, select}
use nvidia_build_lb.Database.Tables.{Tables, KeyRow, RoutingRow, ReceiptRow}
use nvidia_build_lb.Database.Transactions.{
  Engine, Session, Outcome, done, failed, Tx, ◌>>=◌, ◌>>◌, return, execute, update_where, Ended,
  transaction,
}
use nvidia_build_lb.Store.{Answer, success, failure, VaultStore, Setting, set_cursor}

-- What the query reads besides the tables of the vault: the setting `proof_freshness_seconds`, and whether
-- this process has been seen in the last 30 seconds.
pub record Operations : Type 0 where
  pub proof_freshness_seconds : ℕ
  pub owner_is_alive : Bool

-- `proof.profile_id=$1 AND invalidated_at IS NULL AND verified_at >= now() - ..`
abbrev is_missing : Option Time → Bool
is_missing none = true
is_missing (some _) = false

abbrev pub proves : Operations → Time → String → KeyRow → ReceiptRow → Bool
proves operations now profile key proof =
    proof.key_id == key.id
    && str_eq proof.profile_id profile
    && is_missing proof.invalidated_at
    && leb (now - operations.proof_freshness_seconds * second) proof.verified_at

unfoldable pub is_candidate : Operations → Time → String → List ReceiptRow → KeyRow → Bool
is_candidate operations now profile proofs key =
    not key.retired
    && key.enabled
    && key.verified
    && is_none_or key.cooldown_until (λ until. leb until now)
    && any (proves operations now profile key) proofs
    && operations.owner_is_alive

-- `ORDER BY key.slot_no`
abbrev insert_by_slot : KeyRow → List KeyRow → List KeyRow
insert_by_slot key [] = key ∷ []
insert_by_slot key (k ∷ keys) =
    if leb key.slot_no k.slot_no then key ∷ k ∷ keys else k ∷ insert_by_slot key keys

unfoldable pub by_slot : List KeyRow → List KeyRow
by_slot [] = []
by_slot (key ∷ keys) = insert_by_slot key (by_slot keys)

unfoldable pub candidates : Operations → String → Engine → Tables → Tables × List KeyRow
unfolding is_candidate by_slot
candidates operations profile e t = (
  t,
  by_slot
      (select_by (is_candidate operations e.now profile t.profile_probe_receipts) t.upstream_keys),
)

abbrev first {ℓ} : {A : Type ℓ} → List A → Option A
first [] = none
first (x ∷ xs) = some x

abbrev pub or_first : Option KeyRow → List KeyRow → Option KeyRow
or_first none keys = first keys
or_first (some key) keys = some key

-- The candidate in the slot whose turn it is, or else the first.
unfoldable pub choose : ℕ → List KeyRow → Option KeyRow
choose next_slot keys = or_first (find_by (λ key. key.slot_no == next_slot) keys) keys

abbrev pub slot_after : ℕ → ℕ
slot_after slot = if slot == 1 then 2 else 1

abbrev pub read_slot : String → Engine → Tables → Tables × Option RoutingRow
read_slot profile e t = (t, find_by (λ row. str_eq row.profile_id profile) t.routing_state)

abbrev pub turned : ℕ → RoutingRow → RoutingRow
turned slot row = record row { next_slot = slot; generation = row.generation + 1 }

abbrev pub write_slot : String → ℕ → Engine → Tables → Tables × Unit {0}
write_slot profile slot e t = (
  record t {
    routing_state =
        update_where (λ (row : RoutingRow). str_eq row.profile_id profile) (turned slot)
          t.routing_state;
  },
  tt,
)

module _ (operations : Operations) (profile : String) where
  abbrev pub take_turn : Option KeyRow → Tx (Option KeyRow)
  take_turn none = return none
  take_turn (some key) = execute (write_slot profile (slot_after key.slot_no)) >> return (some key)

  abbrev pub take_slot : Option RoutingRow → Tx (Option KeyRow)
  take_slot none = return none
  take_slot (some row) = do
    keys ← execute (candidates operations profile)
    take_turn (choose row.next_slot keys)

  unfoldable pub slot_steps : Tx (Option KeyRow)
  unfolding candidates choose
  slot_steps = do row ← execute (read_slot profile); take_slot row

-- The cursors of the selectors in memory, by profile; a missing one starts at zero.
abbrev pub Routers : Type 0
Routers = List (String × ℕ)

abbrev pub cursor_of : Routers → String → ℕ
cursor_of routers profile = unwrap_or (get_cursor profile routers) 0

-- The tables, the selectors and the chosen key. A transaction that ends without a key has written nothing.
pub record Selected : Type 0 where
  pub tables : Tables
  pub routers : Routers
  pub chosen : Option Uuid

abbrev pub selected_from : Routers → String → Tables → Option (Option KeyRow) → Selected
selected_from routers profile t none = record { tables = t; routers = routers; chosen = none }
selected_from routers profile t (some none) = record {
  tables = t;
  routers = routers;
  chosen = none;
}
selected_from routers profile t (some (some key)) = record {
  tables = t;
  routers = insert_cursor profile (slot_after key.slot_no - 1) routers;
  chosen = some key.id;
}

abbrev pub selected_as : Routers → String → Ended (Option KeyRow) → Selected
selected_as routers profile ended = selected_from routers profile ended.tables ended.result

-- The branch with a database.
unfoldable pub select_from_database : Operations → Engine → String → Routers → Tables → Selected
unfolding slot_steps transaction
select_from_database operations e profile routers t =
    selected_as routers profile (transaction e (slot_steps operations profile) t)

-- What the branch without a database holds: the store and the selectors.
pub record Gateway (File : Type 0) : Type 0 where
  pub store : VaultStore File
  pub routers : Routers

abbrev pub with_cursor : {F : Type 0} → Gateway F → String → ℕ → Gateway F
with_cursor g profile cursor = record g { routers = insert_cursor profile cursor g.routers }

-- The cursor is persisted, or the selector's cursor goes back to where it was.
abbrev pub persisted :
    {F : Type 0}
    → Gateway F
    → String
    → ℕ
    → Uuid
    → VaultStore F × Answer (Unit {0})
    → Gateway F × Option Uuid
persisted g profile previous id (store, success _) = (record g { store = store }, some id)
persisted g profile previous id (store, failure _) =
    (with_cursor (record g { store = store }) profile previous, none)

abbrev pub after_select :
    (p : Primitives)
    → Setting
    → String
    → Gateway p.File
    → ℕ
    → Router × Option Uuid
    → Gateway p.File × Option Uuid
after_select p setting profile g previous (router, none) =
    (with_cursor g profile router.next_slot, none)
after_select p setting profile g previous (router, some id) =
    persisted (with_cursor g profile router.next_slot) profile previous id
      (set_cursor p setting profile router.next_slot g.store)

-- The branch without a database.
unfoldable pub select_from_vault :
    (p : Primitives) → Setting → Time → String → Gateway p.File → Gateway p.File × Option Uuid
unfolding list select set_cursor
select_from_vault p setting now profile g =
    let previous = cursor_of g.routers profile in
    after_select p setting profile g previous
      (select now (list g.store.world.vault) (record { next_slot = previous }))
