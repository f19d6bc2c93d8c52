-- ===== src/Vault/Calls.antt =====
-- The calls that change a vault of crates/core/src/lib.rs, as one step of its world, and the worlds
-- that a vault can reach.
pub mod Durability
pub mod Changes
pub mod Slots
pub mod Safety
use nvidia_build_lb.Prelude.{ℕ, Bytes, String, Bool, List, [], ◌∷◌, Option}
use nvidia_build_lb.Vault.State.{Uuid, Text, Time, Duration, Result}
use nvidia_build_lb.Vault.Custody.{Primitives, Env, World, persist_for_rollback}
use nvidia_build_lb.Vault.Custody.Writes.{is_ok}
use nvidia_build_lb.Vault.Keys.{
  add, set_enabled, mark_verified, delete, quarantine, record_request, record_failure,
}
use nvidia_build_lb.Vault.Downstream.{
  issue_downstream, revoke_downstream, rotate_downstream, update_downstream_scopes,
  record_downstream_use, authenticate_downstream,
}
use nvidia_build_lb.Vault.Opening.{set_router_cursor, set_router_cursor_for}

pub data Call : Type 0 where
  adds : Text → Bytes → Call
  sets_enabled : Uuid → Bool → Call
  marks_verified deletes quarantines records_request : Uuid → Call
  records_failure : Uuid → Option Duration → Call
  sets_cursor : ℕ → Call
  sets_cursor_for : String → ℕ → Call
  issues : Text → List String → Call
  revokes rotates : Uuid → Call
  rescopes : Uuid → List String → Call
  records_use : Uuid → Time → Call
  authenticates : Bytes → String → Call
  persists : Call

-- The world after a call and whether the call succeeded.
abbrev pub outcome {ℓ} : {A : Type ℓ} {F : Type 0} → World F × Result A → World F × Bool
outcome r = (r.0, is_ok r.1)

unfoldable pub step : (p : Primitives) → Env → Call → World p.File → (World p.File) × Bool
step p env (adds label credential) w = outcome (add p env label credential w)
step p env (sets_enabled id enabled) w = outcome (set_enabled p env id enabled w)
step p env (marks_verified id) w = outcome (mark_verified p env id w)
step p env (deletes id) w = outcome (delete p env id w)
step p env (quarantines id) w = outcome (quarantine p env id w)
step p env (records_request id) w = outcome (record_request p env id w)
step p env (records_failure id hint) w = outcome (record_failure p env id hint w)
step p env (sets_cursor cursor) w = outcome (set_router_cursor p env cursor w)
step p env (sets_cursor_for profile cursor) w =
    outcome (set_router_cursor_for p env profile cursor w)
step p env (issues label scopes) w = outcome (issue_downstream p env label scopes w)
step p env (revokes id) w = outcome (revoke_downstream p env id w)
step p env (rotates id) w = outcome (rotate_downstream p env id w)
step p env (rescopes id scopes) w = outcome (update_downstream_scopes p env id scopes w)
step p env (records_use id used_at) w = outcome (record_downstream_use p env id used_at w)
step p env (authenticates token scope) w = outcome (authenticate_downstream p env token scope w)
step p env persists w = outcome (persist_for_rollback p env w)

-- The worlds after any history of calls, each with surroundings of its own.
pub data Reach (p : Primitives) (start : (World p.File)) : (World p.File) → Type 0 where
  here : Reach p start start
  next :
      {w : (World p.File)} (env : Env) (call : Call)
      → Reach p start w
      → Reach p start (step p env call w).0
