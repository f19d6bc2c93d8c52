-- ===== src/Vault/Scopes.antt =====
-- `canonical_scopes` of crates/core/src/lib.rs.
pub mod Order
pub mod Canonical
use nvidia_build_lb.Prelude.{
  ℕ, zero, suc, ◌+◌, ◌-◌, ◌^◌, String, str_eq, Bool, true, false, not, ◌&&◌, ◌||◌, List, [], ◌∷◌,
  length, any, leb, ltb, ◌==◌, if◌then◌else◌, Option, none, some,
}
use nvidia_build_lb.Vault.State.{
  Result, ok, err, ◌>>=◌, ◌>>◌, bail_if, scopes_are_invalid, scopes_must_be_unique,
}

-- The canonical order.
abbrev pub scope_order : List String
scope_order =
    "models:read" ∷ "chat:write" ∷ "embeddings:write" ∷ "images:write" ∷ "audio:write"
    ∷ "media:write" ∷ []

unfoldable pub contains : List String → String → Bool
contains [] s = false
contains (x ∷ xs) s = str_eq x s || contains xs s

-- The `matches!` pattern.
unfoldable pub is_scope : String → Bool
is_scope s =
    str_eq s "models:read"
    || str_eq s "chat:write"
    || str_eq s "embeddings:write"
    || str_eq s "images:write"
    || str_eq s "audio:write"
    || str_eq s "media:write"

-- `iter().position(..).unwrap_or(usize::MAX)`
unfoldable pub position : List String → String → ℕ → ℕ
position [] s i = 2 ^ 64 - 1
position (x ∷ xs) s i = if str_eq x s then i else position xs s (i + 1)

unfoldable pub sort_key : String → ℕ
unfolding position
sort_key s = position scope_order s 0

-- A stable sort by key; the library's stable sort gives the same list.
unfoldable pub insert_by_key : String → List String → List String
insert_by_key s [] = s ∷ []
insert_by_key s (x ∷ xs) =
    if leb (sort_key s) (sort_key x) then s ∷ x ∷ xs else x ∷ insert_by_key s xs

unfoldable pub sort_by_key : List String → List String
unfolding insert_by_key
sort_by_key [] = []
sort_by_key (x ∷ xs) = insert_by_key x (sort_by_key xs)

-- `Vec::dedup`: of a run of equal elements the first is kept.
unfoldable pub dedup_after : String → List String → List String
dedup_after kept [] = []
dedup_after kept (x ∷ xs) = if str_eq kept x then dedup_after kept xs else x ∷ dedup_after x xs

unfoldable pub dedup : List String → List String
unfolding dedup_after
dedup [] = []
dedup (x ∷ xs) = x ∷ dedup_after x xs

abbrev pub is_empty : List String → Bool
is_empty [] = true
is_empty (_ ∷ _) = false

unfoldable pub canonical_scopes : List String → Result (List String)
unfolding sort_by_key dedup
canonical_scopes scopes = do
  bail_if (is_empty scopes || ltb 6 (length scopes) || any (λ s. not (is_scope s)) scopes)
      scopes_are_invalid
  let result = dedup (sort_by_key scopes)
  bail_if (not (length result == length scopes)) scopes_must_be_unique
  ok result
