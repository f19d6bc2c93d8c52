-- ===== src/Selection/Cursors.antt =====
-- The choice of the first key without a database in crates/gateway/src/main.rs: the selector in memory and the
-- cursor in the vault stay in step.
use nvidia_build_lb.Prelude.{
  ℕ, zero, suc, ◌+◌, ◌≤◌, ◌^◌, String, str_eq_iff, List, [], ◌∷◌, Option, none, some, length, ◌≡◌,
  ◌≢◌, refl, sym, ap, ◌∙◌, arith,
}
use nvidia_build_lb.Vault.State.{Uuid, Time, Vault, Result, ok, KeySummary}
use nvidia_build_lb.Vault.Custody.{Primitives, World}
use nvidia_build_lb.Vault.Keys.{list}
use nvidia_build_lb.Vault.Opening.{
  get_cursor, insert_cursor, router_cursor_for, set_router_cursor_for,
}
use nvidia_build_lb.Vault.Opening.Records.{router_cursor_for-set}
use nvidia_build_lb.Vault.Calls.Safety.{Serves, select-Serves}
use nvidia_build_lb.Router.{Router, select, select_from}
use nvidia_build_lb.Store.{StoreError, Answer, success, failure, VaultStore, Setting, set_cursor}
use nvidia_build_lb.Store.Mutations.{mutate-IsRestored, mutate-operated}
use nvidia_build_lb.Selection.{
  Routers, cursor_of, Gateway, with_cursor, persisted, after_select, select_from_vault,
}

cursor_of-insert :
    (profile : String) (cursor : ℕ) (routers : Routers)
    → cursor_of (insert_cursor profile cursor routers) profile ≡ cursor
unfolding get_cursor insert_cursor
cursor_of-insert profile cursor [] = ground (arith, str_eq_iff profile profile)
cursor_of-insert profile cursor ((k, v) ∷ routers) =
    ground (arith, str_eq_iff k profile, cursor_of-insert profile cursor routers)

-- A selector that finds nothing does not move.
select_from-none :
    (rounds : ℕ) (now : Time) (keys : List KeySummary) (router : Router) (offset : ℕ)
    → (select_from rounds now keys router offset).1 ≡ none
    → (select_from rounds now keys router offset).0 ≡ router
unfolding select_from
select_from-none zero now keys router offset h = refl
select_from-none (suc rounds) now keys router offset h =
    ground (arith, select_from-none rounds now keys router (offset + 1))

-- A selection that gives no key has left the vault and the selector's cursor as they were; one that gives a
-- key gives a stored key that is eligible, and the cursor in the vault is the selector's.
abbrev pub IsInStep : {F : Type 0} → Time → String → Gateway F → Gateway F × Option Uuid → Type 0
IsInStep now profile g (g', none) =
    (cursor_of g'.routers profile ≡ cursor_of g.routers profile)
    × (g'.store.world.vault ≡ g.store.world.vault)
IsInStep now profile g (g', some id) =
    Serves now g.store.world.vault.state.keys (some id)
    × (router_cursor_for g'.store.world.vault profile ≡ cursor_of g'.routers profile)

set_cursor-restored :
    (p : Primitives) (setting : Setting) (profile : String) (cursor : ℕ) (s : VaultStore p.File)
    (x : StoreError)
    → (set_cursor p setting profile cursor s).1 ≡ failure x
    → (set_cursor p setting profile cursor s).0.world.vault ≡ s.world.vault
unfolding set_cursor
set_cursor-restored p setting profile cursor s x is =
    (mutate-IsRestored p setting (λ env w. set_router_cursor_for p env profile cursor w) s x
      is).vault

module _ (p : Primitives) (setting : Setting) (now : Time) (profile : String)
    (ordinary : profile ≢ "__legacy__") (g : Gateway p.File) where
  abbrev previous : ℕ
  previous = cursor_of g.routers profile

  abbrev start : Router
  start = record { next_slot = previous }

  persisted-IsInStep :
      (router : Router) (id : Uuid) (r : VaultStore p.File × Answer (Unit {0}))
      → set_cursor p setting profile router.next_slot g.store ≡ r
      → Serves now g.store.world.vault.state.keys (some id)
      → IsInStep now profile g
          (persisted (with_cursor g profile router.next_slot) profile previous id r)
  persisted-IsInStep router id (store, success u) is serves = (
    serves,
    ap (λ (v : Vault). router_cursor_for v profile)
          (ap (λ (r : (World p.File) × Result (Unit {0})). r.0.vault) (sym operated))
        ∙ stored
        ∙ sym (cursor_of-insert profile router.next_slot g.routers),
  )
    where
      operated :
          set_router_cursor_for p setting.operation profile router.next_slot g.store.world
          ≡ (store.world, ok u)
      operated =
          unfold set_cursor in
          mutate-operated p setting
            (λ env w. set_router_cursor_for p env profile router.next_slot w) g.store u
            (ap (λ (r : VaultStore p.File × Answer (Unit {0})). r.1) is)
          ∙ ap (λ (r : VaultStore p.File × Answer (Unit {0})). (r.0.world, ok u)) is

      stored :
          router_cursor_for
            (set_router_cursor_for p setting.operation profile router.next_slot
              g.store.world).0.vault
            profile
          ≡ router.next_slot
      stored =
          router_cursor_for-set p setting.operation profile profile router.next_slot g.store.world
            ordinary
          ∙ ground (arith, str_eq_iff profile profile)
  persisted-IsInStep router id (store, failure x) is serves = (
    cursor_of-insert profile previous (insert_cursor profile router.next_slot g.routers),
    ap (λ (r : VaultStore p.File × Answer (Unit {0})). r.0.world.vault) (sym is)
        ∙ set_cursor-restored p setting profile router.next_slot g.store x
            (ap (λ (r : VaultStore p.File × Answer (Unit {0})). r.1) is),
  )

  after_select-IsInStep :
      (r : Router × Option Uuid)
      → (r.1 ≡ none → r.0 ≡ start)
      → Serves now g.store.world.vault.state.keys r.1
      → IsInStep now profile g (after_select p setting profile g previous r)
  after_select-IsInStep (router, none) still serves = (
    cursor_of-insert profile router.next_slot g.routers
        ∙ ap (λ (r : Router). r.next_slot) (still refl),
    refl,
  )
  after_select-IsInStep (router, some id) still serves =
      persisted-IsInStep router id (set_cursor p setting profile router.next_slot g.store) refl
        serves

-- Without a database the selector and the vault stay in step (for a profile other than the fallback, and a
-- cursor that stays within a 64-bit word when the number of listed keys is added): a selection that gives
-- no key, be it that none is eligible or that the cursor could not be persisted, has left the vault in
-- memory and the selector's cursor as they were, and one that gives a key gives a stored key that is
-- eligible at that time, with the same cursor in the vault and in the selector.
pub select_from_vault-IsInStep :
    (p : Primitives) (setting : Setting) (now : Time) (profile : String) (g : Gateway p.File)
    → profile ≢ "__legacy__"
    → cursor_of g.routers profile + length (list g.store.world.vault) ≤ 2 ^ 64
    → IsInStep now profile g (select_from_vault p setting now profile g)
unfolding select_from_vault
select_from_vault-IsInStep p setting now profile g ordinary small =
    after_select-IsInStep p setting now profile ordinary g
      (select now (list g.store.world.vault) (start p setting now profile ordinary g))
      (unfold select in
        select_from-none (length (list g.store.world.vault)) now (list g.store.world.vault)
          (start p setting now profile ordinary g) 0)
      (select-Serves now g.store.world.vault (start p setting now profile ordinary g) small)
