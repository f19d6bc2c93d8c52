-- ===== src/Router.antt =====
-- The round-robin selector of crates/core/src/lib.rs, over the redacted summaries.
pub mod Selection
pub mod Rotation
use nvidia_build_lb.Prelude.{
  ℕ, zero, suc, ◌+◌, ◌%◌, ◌^◌, Bool, true, false, ◌&&◌, leb, List, [], ◌∷◌, Option, none, some,
  length, get_elem?, if◌then◌else◌,
}
use nvidia_build_lb.Vault.State.{Uuid, Time, KeySummary}

pub record Router : Type 0 where
  pub next_slot : ℕ

unfoldable pub with_next_slot : ℕ → Router
with_next_slot cursor = record { next_slot = cursor }

unfoldable pub set_next_slot : Router → ℕ → Router
set_next_slot router cursor = record router { next_slot = cursor }

-- `cooldown_until.is_none_or(|until| until <= now)`
abbrev pub cooled_down : Time → Option Time → Bool
cooled_down now none = true
cooled_down now (some until) = leb until now

-- The test of `select` on a candidate.
unfoldable pub eligible : Time → KeySummary → Bool
eligible now key = key.enabled && key.verified && cooled_down now key.cooldown_until

-- The rounds of the `for` loop that are left, from the given offset on. An index past the end, which
-- the remainder excludes, would panic; the walk then stops.
unfoldable pub select_from : ℕ → Time → List KeySummary → Router → ℕ → Router × Option Uuid
select_from zero now keys router offset = (router, none)
select_from (suc rounds) now keys router offset =
    let index = (router.next_slot + offset) % 2 ^ 64 % length keys in
    elim (get_elem? keys index) [
      | none ↦ (router, none)
      | some candidate ↦ elim (eligible now candidate) [
        | true ↦ (record router { next_slot = (index + 1) % length keys }, some candidate.id)
        | false ↦ select_from rounds now keys router (offset + 1)
      ]
    ]

unfoldable pub select : Time → List KeySummary → Router → Router × Option Uuid
unfolding select_from
select now keys router = select_from (length keys) now keys router 0
