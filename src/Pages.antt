-- ===== src/Pages.antt =====
-- The pages of a list in crates/gateway/src/operations/admin.rs: `list_window` and `paginate`, with the cursor
-- that a page hands to the next request. The base64 codec is a parameter.
pub mod Cursors
use nvidia_build_lb.Prelude.{
  ℕ, zero, suc, ◌+◌, ◌-◌, ◌*◌, ◌^◌, min, Bytes, Bool, true, false, List, [], ◌++◌, Option, none,
  some, length, take, drop, leb, ltb, codes, is_utf8, parse_below, decimal_from, if◌then◌else◌,
}
use nvidia_build_lb.Json.{and_then}
use nvidia_build_lb.Sse.{strip_prefix}

-- `URL_SAFE_NO_PAD`
pub record Codec : Type 0 where
  pub encode : Bytes → Bytes
  pub decode : Bytes → Option Bytes

pub record ListQuery : Type 0 where
  pub limit : Option ℕ
  pub before : Option Bytes

pub record PageWindow : Type 0 where
  pub limit : ℕ
  pub offset : ℕ

pub data Windowed : Type 0 where
  window : PageWindow → Windowed
  invalid_limit invalid_page_cursor : Windowed

abbrev pub unwrap_limit : Option ℕ → ℕ
unwrap_limit none = 50
unwrap_limit (some n) = n

abbrev pub utf8 : Bytes → Option Bytes
utf8 bytes = if is_utf8 bytes then some bytes else none

abbrev pub within_range : ℕ → Option ℕ
within_range n = if leb n 10000000 then some n else none

abbrev pub page_prefix : Bytes
page_prefix = codes "nblb-page-v1:"

unfoldable pub read_cursor : Codec → Bytes → Option ℕ
unfolding strip_prefix
read_cursor codec cursor =
    and_then
      (and_then (and_then (and_then (codec.decode cursor) utf8) (strip_prefix page_prefix))
        (parse_below (2 ^ 64)))
      within_range

abbrev pub at_offset : ℕ → Option ℕ → Windowed
at_offset limit none = invalid_page_cursor
at_offset limit (some offset) = window (record { limit = limit; offset = offset })

abbrev pub offset_of : Codec → ℕ → Option Bytes → Windowed
offset_of codec limit none = window (record { limit = limit; offset = 0 })
offset_of codec limit (some cursor) = at_offset limit (read_cursor codec cursor)

unfoldable pub list_window : Codec → ListQuery → Windowed
unfolding read_cursor
list_window codec query =
    if ltb (unwrap_limit query.limit) 1
    then invalid_limit
    else if ltb 100 (unwrap_limit query.limit)
    then invalid_limit
    else offset_of codec (unwrap_limit query.limit) query.before

-- A list in memory has at most so many items as `usize` counts.
abbrev pub page_items {ℓ} : {A : Type ℓ} → List A → PageWindow → List A
page_items items w = if leb (length items) w.offset then [] else take w.limit (drop w.offset items)

abbrev pub next_offset {ℓ} : {A : Type ℓ} → List A → PageWindow → ℕ
next_offset items w = min (w.offset + length (page_items items w)) (2 ^ 64 - 1)

abbrev pub cursor_to : Codec → ℕ → Bytes
cursor_to codec offset = codec.encode (page_prefix ++ decimal_from 20 offset)

unfoldable pub paginate {ℓ} : {A : Type ℓ} → Codec → List A → PageWindow → List A × Option Bytes
paginate codec items w = (
  page_items items w,
  if ltb (next_offset items w) (length items)
      then some (cursor_to codec (next_offset items w))
      else none,
)
