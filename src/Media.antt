-- ===== src/Media.antt =====
-- The media checks of crates/gateway/src/streaming.rs, on bytes. The walk over a JPEG's segments is a
-- loop on fuel; a read out of range, which would panic, is an outcome of its own.
pub mod Segments
pub mod Jpeg
use nvidia_build_lb.Prelude.{
  ℕ, zero, suc, ◌+◌, ◌-◌, ◌*◌, ◌^◌, Bytes, String, Bool, true, false, not, ◌&&◌, ◌||◌, List, [],
  ◌∷◌, Option, none, some, length, drop, take, get_elem?, any, leb, ltb, ◌==◌, codes, same,
  starts_with, if◌then◌else◌,
}
use mathlib.Core.List.{reverse}
use nvidia_build_lb.Json.{and_then, is_some_and, is_blank}

-- `u16::from_be_bytes([bytes[index], bytes[index + 1]])`
unfoldable pub u16_be : Bytes → ℕ → Option ℕ
u16_be bytes index =
    and_then (get_elem? bytes index)
      λ high. and_then (get_elem? bytes (index + 1)) λ low. some (high * 256 + low)

-- What a round of the loop does next.
pub data Round : Type 0 where
  stop : Bool → Round
  next : (index : ℕ) (has_frame : Bool) → Round
  out_of_range : Round

-- The inner `while` over fill bytes, on the bytes from the index on.
abbrev pub skip_fill : Bytes → ℕ → ℕ
skip_fill [] index = index
skip_fill (b ∷ more) index = if b == 0xff then skip_fill more (index + 1) else index

-- A frame header: its dimensions.
unfoldable pub jpeg_frame : Bytes → ℕ → ℕ → Round
jpeg_frame bytes index segment_len = elim (u16_be bytes (index + 3)) [
  | none ↦ out_of_range
  | some height ↦ elim (u16_be bytes (index + 5)) [
    | none ↦ out_of_range
    | some width ↦ next (index + segment_len) (ltb 0 width && ltb 0 height)
  ]
]

abbrev pub is_frame_marker : ℕ → Bool
is_frame_marker marker = leb 0xc0 marker && leb marker 0xc3

unfoldable pub jpeg_segment : Bytes → ℕ → ℕ → Bool → Round
jpeg_segment bytes index marker has_frame = elim (u16_be bytes index) [
  | none ↦ out_of_range
  | some segment_len ↦
      if ltb segment_len 2 || ltb (length bytes) (index + segment_len)
      then stop false
      else if is_frame_marker marker
      then (if ltb segment_len 7 then stop false else jpeg_frame bytes index segment_len)
      else next (index + segment_len) has_frame
]

-- From behind the marker on.
unfoldable pub jpeg_marker : Bytes → ℕ → ℕ → Bool → Round
jpeg_marker bytes index marker has_frame =
    if marker == 0xd9 || marker == 0xda
    then stop has_frame
    else if marker == 0xd8 || marker == 0x01 || (leb 0xd0 marker && leb marker 0xd7)
    then next index has_frame
    else if ltb (length bytes) (index + 2)
    then stop false
    else jpeg_segment bytes index marker has_frame

unfoldable pub jpeg_fill : Bytes → ℕ → Bool → Round
jpeg_fill bytes index has_frame = elim (get_elem? bytes index) [
  | none ↦ stop has_frame
  | some marker ↦ jpeg_marker bytes (index + 1) marker has_frame
]

unfoldable pub jpeg_round : Bytes → ℕ → Bool → Round
jpeg_round bytes index has_frame = elim (get_elem? bytes index) [
  | none ↦ out_of_range
  | some b ↦
      if b == 0xff
      then jpeg_fill bytes (skip_fill (drop index bytes) index) has_frame
      else next (index + 1) has_frame
]

pub data Verdict : Type 0 where
  answer : Bool → Verdict
  panics out_of_fuel : Verdict

unfoldable pub jpeg_walk : ℕ → Bytes → ℕ → Bool → Verdict
jpeg_walk zero bytes index has_frame = out_of_fuel
jpeg_walk (suc fuel) bytes index has_frame = elim (ltb (index + 3) (length bytes - 2)) [
  | false ↦ answer has_frame
  | true ↦ elim (jpeg_round bytes index has_frame) [
    | stop verdict ↦ answer verdict
    | next index' has_frame' ↦ jpeg_walk fuel bytes index' has_frame'
    | out_of_range ↦ panics
  ]
]

abbrev pub ends_with : Bytes → Bytes → Bool
ends_with suffix bytes = same (drop (length bytes - length suffix) bytes) suffix

unfoldable pub valid_jpeg : Bytes → Verdict
unfolding jpeg_walk
valid_jpeg bytes =
    if ltb (length bytes) 16
      || not (starts_with (0xff ∷ 0xd8 ∷ []) bytes)
      || not (ends_with (0xff ∷ 0xd9 ∷ []) bytes)
    then answer false
    else jpeg_walk (length bytes) bytes 2 false

abbrev pub accepts : Verdict → Bool
accepts (answer b) = b
accepts panics = false
accepts out_of_fuel = false

-- `bytes.windows(n).position(|w| w == pattern)`, for a pattern that is not empty.
unfoldable pub position_of : Bytes → Bytes → Option ℕ
position_of pattern [] = none
position_of pattern (b ∷ bytes) =
    if starts_with pattern (b ∷ bytes)
    then some 0
    else and_then (position_of pattern bytes) (λ n. some (n + 1))

abbrev pub has_window : Bytes → Bytes → Bool
has_window pattern bytes = is_some_and (position_of pattern bytes) (λ _. true)

unfoldable pub valid_png : Bytes → Bool
valid_png bytes =
    leb 24 (length bytes)
    && starts_with (0x89 ∷ 0x50 ∷ 0x4e ∷ 0x47 ∷ 0x0d ∷ 0x0a ∷ 0x1a ∷ 0x0a ∷ []) bytes
    && has_window (codes "IEND") bytes

unfoldable pub valid_image : Bytes → Bool
valid_image bytes = accepts (valid_jpeg bytes) || valid_png bytes

-- Fixed fields of a header whose length has been checked: the bytes from an offset on.
abbrev pub slice : Bytes → ℕ → ℕ → Bytes
slice bytes first last = take (last - first) (drop first bytes)

-- `from_be_bytes` and `from_le_bytes`
abbrev pub be_value : ℕ → Bytes → ℕ
be_value seen [] = seen
be_value seen (b ∷ more) = be_value (seen * 256 + b) more

abbrev pub le_value : Bytes → ℕ
le_value [] = 0
le_value (b ∷ more) = b + 256 * le_value more

unfoldable pub valid_mp4 : Bytes → Bool
valid_mp4 bytes =
    let size = be_value 0 (slice bytes 0 4) in
    not (ltb (length bytes) 16)
    && same (slice bytes 4 8) (codes "ftyp")
    && leb 16 size
    && leb size (length bytes)
    && has_window (codes "isom") (slice bytes 8 size)
    && has_window (codes "moov") bytes

unfoldable pub valid_wav : Bytes → Bool
valid_wav bytes =
    not (ltb (length bytes) 44)
    && same (slice bytes 0 4) (codes "RIFF")
    && same (slice bytes 8 12) (codes "WAVE")
    && is_some_and (position_of (codes "data") bytes) λ data_offset.
      let data_size = le_value (slice bytes (data_offset + 4) (data_offset + 8)) in
      not (ltb (length bytes) (data_offset + 8))
      && leb 16 (le_value (slice bytes 16 20))
      && le_value (slice bytes 22 24) == 1
      && le_value (slice bytes 24 28) == 44_100
      && le_value (slice bytes 34 36) == 16
      && le_value (slice bytes 4 8) + 8 == length bytes
      && ltb 0 data_size
      && data_offset + 8 + data_size == length bytes

-- The crate `base64` with its standard alphabet.
pub record Base64 : Type 0 where
  pub decode : Bytes → Option Bytes
  pub encode : Bytes → Bytes

-- `u8::is_ascii_whitespace`
abbrev pub is_ascii_whitespace : ℕ → Bool
is_ascii_whitespace b = b == 32 || b == 9 || b == 10 || b == 12 || b == 13

unfoldable pub decode_base64 : Base64 → Bytes → Option Bytes
decode_base64 engine value =
    if is_blank value || any is_ascii_whitespace value
    then none
    else and_then (engine.decode value)
        (λ bytes. if same (engine.encode bytes) value then some bytes else none)

-- `split_once(",")`
abbrev pub split_comma : Bytes → Option (Bytes × Bytes)
split_comma [] = none
split_comma (c ∷ more) =
    if c == b','
    then some ([], more)
    else and_then (split_comma more) (λ (r : Bytes × Bytes). some (c ∷ r.0, r.1))

unfoldable pub valid_data_url : Base64 → Bytes → Bool → Bool
valid_data_url engine value image_only = is_some_and (split_comma value) λ parts.
    is_some_and (decode_base64 engine parts.1) λ bytes.
      if same parts.0 (codes "data:image/png;base64") && image_only
      then valid_png bytes
      else if same parts.0 (codes "data:image/jpeg;base64") && image_only
      then accepts (valid_jpeg bytes)
      else false
