-- ===== src/Selection/Slots.antt =====
-- The choice of the first key from the database in crates/gateway/src/main.rs: only keys that may serve are
-- chosen, and the two slots take turns.
use nvidia_build_lb.Prelude.{
  ℕ, String, str_eq, Bool, true, List, [], ◌∷◌, All, Option, none, some, find_by, ◌==◌, ◌≡◌, ◌⊎◌,
  inl, inr, refl, sym, ap, ◌∙◌, Bool-cases, arith, ◌+◌, false,
}
use nvidia_build_lb.Vault.State.{Uuid}
use nvidia_build_lb.Database.Tables.{Tables, KeyRow, RoutingRow}
use nvidia_build_lb.Database.Transactions.{Engine, return, execute, update_where, transaction}
use nvidia_build_lb.Database.Transactions.Rules.{
  Ensures, bind-Ensures, then-Ensures, return-Ensures, execute-Ensures,
}
use nvidia_build_lb.Database.Delta.Synced.{transaction-done}
use nvidia_build_lb.Selection.{
  Operations, is_candidate, candidates, choose, slot_after, read_slot, turned, write_slot,
  take_turn, take_slot, slot_steps, Routers, selected_from, select_from_database,
}
use nvidia_build_lb.Selection.Candidates.{
  Stands, MayServe, Passes, is_candidate_iff, choose-All, select_by-All, All-Stands, by_slot-All,
  by_slot-All_of, unserved_of, find_by-none,
}

-- The routing row of a profile after its turn was taken.
turn-find :
    (profile : String) (slot : ℕ) (rows : List RoutingRow) (row : RoutingRow)
    → find_by (λ r. str_eq r.profile_id profile) rows ≡ some row
    → find_by
        (λ r. str_eq r.profile_id profile)
        (update_where (λ r. str_eq r.profile_id profile) (turned slot) rows)
      ≡ some (turned slot row)
turn-find profile slot [] row h = cc
turn-find profile slot (r ∷ rows) row h = ground (arith, turn-find profile slot rows row)

-- The turn after a key of a slot: with slot two after slot one, and with slot one after any other.
abbrev pub GoesTo : ℕ → ℕ → Type 0
GoesTo slot next_slot = ((slot ≡ 1) × (next_slot ≡ 2)) ⊎ (¬ (slot ≡ 1) × (next_slot ≡ 1))

slot_after-GoesTo : (slot : ℕ) → GoesTo slot (slot_after slot)
slot_after-GoesTo slot = elim (Bool-cases (slot == 1)) [
  | inl one ↦ rw one (inl (is_one one, refl))
  | inr other ↦ rw other (inr (λ same. not_one other same, refl))
]
  where
    is_one : (slot == 1) ≡ true → slot ≡ 1
    is_one h = ground arith

    not_one : (slot == 1) ≡ false → slot ≡ 1 → ⊥
    not_one h same = ground arith

-- A turn that was taken for a key: the row of the profile, a key that may serve, in the slot whose turn it
-- was unless no key there may serve, and the turn now with the other slot.
pub record IsTurn (operations : Operations) (e : Engine) (profile : String) (t t' : Tables)
    (key : KeyRow) : Type 0 where
  pub row : RoutingRow
  pub read : find_by (λ r. str_eq r.profile_id profile) t.routing_state ≡ some row
  pub serves : MayServe operations e.now profile t key
  pub turn :
      (key.slot_no ≡ row.next_slot)
      ⊎ All
          (λ (k : KeyRow). ¬ (
            (k.slot_no ≡ row.next_slot)
            × Passes operations e.now profile t.profile_probe_receipts k))
          t.upstream_keys
  pub after : RoutingRow
  pub written : find_by (λ r. str_eq r.profile_id profile) t'.routing_state ≡ some after
  pub alternates : GoesTo key.slot_no after.next_slot
  pub generation : after.generation ≡ row.generation + 1

module _ (operations : Operations) (e : Engine) (profile : String) (t : Tables) where
  abbrev Same : Tables → Type 0
  Same u = u ≡ t

  abbrev Turned : Option KeyRow → Tables → Type 0
  Turned none u = Unit
  Turned (some key) u = IsTurn operations e profile t u key

  candidates-MayServe :
      All (MayServe operations e.now profile t) (candidates operations profile e t).1
  unfolding candidates
  candidates-MayServe =
      by_slot-All (MayServe operations e.now profile t) _
        (served _ (select_by-All test t.upstream_keys t.upstream_keys (All-Stands t.upstream_keys)))
    where
      test : KeyRow → Bool
      test = is_candidate operations e.now profile t.profile_probe_receipts

      served :
          (keys : List KeyRow)
          → All (λ key. Stands key t.upstream_keys × (test key ≡ true)) keys
          → All (MayServe operations e.now profile t) keys
      served [] h = tt
      served (key ∷ keys) (h, hs) = (
        record {
          stands = h.0;
          passes = (is_candidate_iff operations e.now profile t.profile_probe_receipts key).0 h.1;
        },
        served keys hs,
      )

  none_waits :
      (slot : ℕ)
      → find_by (λ k. k.slot_no == slot) (candidates operations profile e t).1 ≡ none
      → All
          (λ (k : KeyRow).
            ¬ ((k.slot_no ≡ slot) × Passes operations e.now profile t.profile_probe_receipts k))
          t.upstream_keys
  unfolding candidates
  none_waits slot h =
      unserved_of (is_candidate operations e.now profile t.profile_probe_receipts)
        (Passes operations e.now profile t.profile_probe_receipts) slot t.upstream_keys
        (λ k. (is_candidate_iff operations e.now profile t.profile_probe_receipts k).1)
        (by_slot-All_of (λ (k : KeyRow). (k.slot_no == slot) ≡ false) _
          (find_by-none (λ k. k.slot_no == slot) _ h))

  take_turn-Turned :
      (row : RoutingRow)
      → find_by (λ r. str_eq r.profile_id profile) t.routing_state ≡ some row
      → (choice : Option KeyRow)
      → choose row.next_slot (candidates operations profile e t).1 ≡ choice
      → Ensures e Same (take_turn operations profile choice) Turned
  take_turn-Turned row read none at = return-Ensures e Same none Turned (λ u h. tt)
  take_turn-Turned row read (some key) at =
      then-Ensures e Same (execute (write_slot profile (slot_after key.slot_no)))
        (Turned (some key)) (return (some key)) Turned
        (execute-Ensures e Same (write_slot profile (slot_after key.slot_no))
          (λ _. Turned (some key)) taken)
        (return-Ensures e (Turned (some key)) (some key) Turned (λ u h. h))
    where
      taken :
          (u : Tables)
          → Same u
          → Turned (some key) (write_slot profile (slot_after key.slot_no) e u).0
      taken u same =
          let (serves, turn) =
            choose-All (MayServe operations e.now profile t) row.next_slot
              (candidates operations profile e t).1 key candidates-MayServe at in
          record {
            row = row;
            read = read;
            serves = serves;
            turn = elim turn [
              | inl in_turn ↦ inl in_turn
              | inr missing ↦ inr (none_waits row.next_slot missing)
            ];
            after = turned (slot_after key.slot_no) row;
            alternates = slot_after-GoesTo key.slot_no;
            generation = refl;
            written = turn-find profile (slot_after key.slot_no) u.routing_state row (
                ap (λ (v : Tables). find_by (λ r. str_eq r.profile_id profile) v.routing_state) same
                ∙ read);
          }

  take_slot-Turned :
      (o : Option RoutingRow)
      → find_by (λ r. str_eq r.profile_id profile) t.routing_state ≡ o
      → Ensures e Same (take_slot operations profile o) Turned
  take_slot-Turned none read = return-Ensures e Same none Turned (λ u h. tt)
  take_slot-Turned (some row) read =
      bind-Ensures e Same (execute (candidates operations profile))
        (λ keys u. Same u × (keys ≡ (candidates operations profile e t).1))
        (λ keys. take_turn operations profile (choose row.next_slot keys)) Turned
        (execute-Ensures e Same (candidates operations profile)
          (λ keys u. Same u × (keys ≡ (candidates operations profile e t).1))
          (λ u h.
            unfold candidates in (h, ap (λ (v : Tables). (candidates operations profile e v).1) h)))
        (λ keys s s' a h is.
          take_turn-Turned row read (choose row.next_slot keys)
            (ap (choose row.next_slot) (sym h.1)) s s' a h.0 is)

  steps-Turned : Ensures e Same (slot_steps operations profile) Turned
  unfolding slot_steps
  steps-Turned =
      bind-Ensures e Same (execute (read_slot profile))
        (λ o u. Same u × (o ≡ find_by (λ r. str_eq r.profile_id profile) t.routing_state))
        (take_slot operations profile) Turned
        (execute-Ensures e Same (read_slot profile)
          (λ o u. Same u × (o ≡ find_by (λ r. str_eq r.profile_id profile) t.routing_state))
          (λ u h.
            (h, ap (λ (v : Tables). find_by (λ r. str_eq r.profile_id profile) v.routing_state) h)))
        (λ o s s' a h is. take_slot-Turned o (sym h.1) s s' a h.0 is)

-- Slots take turns: where a key is chosen from the database, it stands there and passes every condition of
-- the query at that time (in service, enabled, verified, cooled down, with a fresh proof for the
-- profile), it is in the slot whose turn it is unless no key there passes, and the turn is afterwards
-- with the other slot, in the database: with slot two after a key of slot one, else with slot one.
pub select_from_database-IsTurn :
    (operations : Operations) (e : Engine) (profile : String) (routers : Routers) (t : Tables)
    (id : Uuid)
    → (select_from_database operations e profile routers t).chosen ≡ some id
    → (key : KeyRow) × (key.id ≡ id)
      × IsTurn operations e profile t
          (select_from_database operations e profile routers t).tables
          key
unfolding select_from_database
select_from_database-IsTurn operations e profile routers t id is =
    go (transaction e (slot_steps operations profile) t).tables
      (transaction e (slot_steps operations profile) t).result
      (transaction-done e (slot_steps operations profile) t (Turned operations e profile t)
        (steps-Turned operations e profile t))
      is
  where
    go :
        (u : Tables) (o : Option (Option KeyRow))
        → ((a : Option KeyRow) → o ≡ some a → Turned operations e profile t a u)
        → (selected_from routers profile u o).chosen ≡ some id
        → (key : KeyRow) × (key.id ≡ id)
          × IsTurn operations e profile t (selected_from routers profile u o).tables key
    go u none h is = cc
    go u (some none) h is = cc
    go u (some (some key)) h is = (key, cc, h (some key) refl)
