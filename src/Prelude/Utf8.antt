-- ===== src/Prelude/Utf8.antt =====
-- `str::from_utf8` on bytes: the well-formed sequences of the Unicode standard.
use Prim.Native.Nat.{ℕ, zero, suc, ◌<◌, ◌+◌, ◌-◌, ◌*◌}
use mathlib.Core.Path.{◌≡◌, refl}
use mathlib.Core.Bool.{Bool, true, false, ◌&&◌}
use mathlib.Core.List.{[], ◌∷◌}
use mathlib.Core.Option.{Option, none, some}
use native.Mathlib.Omega.{arith}
use nvidia_build_lb.Prelude.Tests.{◌==◌, leb, ltb, if◌then◌else◌}
use nvidia_build_lb.Prelude.Lists.{All}
use nvidia_build_lb.Prelude.Ascii.{Bytes}

-- Between characters, or with so many continuation bytes to come, the next one in a range.
pub data Utf8State : Type 0 where
  boundary : Utf8State
  inside : (left low high : ℕ) → Utf8State

-- After a continuation byte, the others may be any.
abbrev pub after_continuation : ℕ → Utf8State
after_continuation zero = boundary
after_continuation (suc left) = inside left 0x80 0xbf

unfoldable pub lead_byte : ℕ → Option Utf8State
lead_byte b =
    if ltb b 0x80
    then some boundary
    else if ltb b 0xc2
    then none
    else if ltb b 0xe0
    then some (inside 0 0x80 0xbf)
    else if b == 0xe0
    then some (inside 1 0xa0 0xbf)
    else if b == 0xed
    then some (inside 1 0x80 0x9f)
    else if ltb b 0xf0
    then some (inside 1 0x80 0xbf)
    else if b == 0xf0
    then some (inside 2 0x90 0xbf)
    else if ltb b 0xf4
    then some (inside 2 0x80 0xbf)
    else if b == 0xf4
    then some (inside 2 0x80 0x8f)
    else none

unfoldable pub utf8_step : Utf8State → ℕ → Option Utf8State
unfolding lead_byte
utf8_step boundary b = lead_byte b
utf8_step (inside left low high) b =
    if leb low b && leb b high then some (after_continuation left) else none

abbrev is_boundary : Utf8State → Bool
is_boundary boundary = true
is_boundary (inside _ _ _) = false

unfoldable pub utf8_from : Utf8State → Bytes → Bool
unfolding utf8_step
utf8_from s [] = is_boundary s
utf8_from s (b ∷ bytes) = elim (utf8_step s b) [ none ↦ false | some s' ↦ utf8_from s' bytes ]

unfoldable pub is_utf8 : Bytes → Bool
unfolding utf8_from
is_utf8 bytes = utf8_from boundary bytes

utf8_from-ascii : (bytes : Bytes) → All (λ b. b < 0x80) bytes → utf8_from boundary bytes ≡ true
unfolding utf8_from
utf8_from-ascii [] h = refl
utf8_from-ascii (b ∷ bytes) h = ground (arith, utf8_from-ascii bytes h.1)

-- ASCII is UTF-8.
pub is_utf8-ascii : (bytes : Bytes) → All (λ b. b < 0x80) bytes → is_utf8 bytes ≡ true
unfolding is_utf8
is_utf8-ascii bytes h = utf8_from-ascii bytes h

-- The characters of a text that is UTF-8, by their code points: the value gathered so far, and the
-- continuation bytes that it waits for.
unfoldable pub decode_from : ℕ → ℕ → Bytes → Bytes
decode_from left seen [] = []
decode_from zero seen (b ∷ bytes) =
    if ltb b 0x80
    then b ∷ decode_from zero 0 bytes
    else if ltb b 0xe0
    then decode_from 1 (b - 0xc0) bytes
    else if ltb b 0xf0
    then decode_from 2 (b - 0xe0) bytes
    else decode_from 3 (b - 0xf0) bytes
decode_from (suc zero) seen (b ∷ bytes) = (seen * 64 + (b - 0x80)) ∷ decode_from zero 0 bytes
decode_from (suc (suc left)) seen (b ∷ bytes) =
    decode_from (suc left) (seen * 64 + (b - 0x80)) bytes

unfoldable pub decode_utf8 : Bytes → Bytes
unfolding decode_from
decode_utf8 bytes = decode_from 0 0 bytes

-- `str::len`: the bytes of a text given by its code points.
abbrev pub byte_length : Bytes → ℕ
byte_length [] = 0
byte_length (c ∷ s) =
    (if ltb c 0x80 then 1 else if ltb c 0x800 then 2 else if ltb c 0x10000 then 3 else 4)
    + byte_length s
