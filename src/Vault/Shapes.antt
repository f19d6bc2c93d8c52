-- ===== src/Vault/Shapes.antt =====
-- The shape checks of crates/core/src/lib.rs on credentials and labels, and the fingerprint's text.
use nvidia_build_lb.Prelude.{
  ℕ, ◌+◌, ◌-◌, ◌/◌, ◌%◌, Bytes, Bool, not, ◌&&◌, ◌||◌, [], ◌∷◌, length, drop, all, any, leb, ltb,
  ◌==◌, same, codes, starts_with, if◌then◌else◌,
}
use mathlib.Core.List.{reverse}
use nvidia_build_lb.Vault.State.{
  Text, Result, ◌>>◌, bail_if, label_is_invalid, downstream_label_is_invalid,
}

-- `u8::is_ascii_alphanumeric`
unfoldable pub is_ascii_alphanumeric : ℕ → Bool
is_ascii_alphanumeric b =
    (leb b'0' b && leb b b'9') || (leb b'A' b && leb b b'Z') || (leb b'a' b && leb b b'z')

abbrev pub is_credential_byte : ℕ → Bool
is_credential_byte b = is_ascii_alphanumeric b || b == b'_' || b == b'-'

unfoldable pub valid_upstream_credential : Bytes → Bool
valid_upstream_credential value =
    leb 38 (length value)
    && leb (length value) 198
    && starts_with (codes "nvapi-") value
    && all is_credential_byte (drop 6 value)

-- `char::is_control`: the general category Cc.
unfoldable pub is_control : ℕ → Bool
is_control c = ltb c 32 || (leb 127 c && leb c 159)

-- `char::is_whitespace`: the property White_Space.
unfoldable pub is_whitespace : ℕ → Bool
is_whitespace c =
    (leb 9 c && leb c 13)
    || c == 32
    || c == 0x85
    || c == 0xa0
    || c == 0x1680
    || (leb 0x2000 c && leb c 0x200a)
    || c == 0x2028
    || c == 0x2029
    || c == 0x202f
    || c == 0x205f
    || c == 0x3000

unfoldable pub trim_start : Text → Text
trim_start [] = []
trim_start (c ∷ s) = if is_whitespace c then trim_start s else c ∷ s

-- `str::trim`
unfoldable pub trim : Text → Text
unfolding trim_start
trim s = reverse (trim_start (reverse (trim_start s)))

unfoldable pub validate_label : Text → Result (Unit {0})
unfolding trim is_control
validate_label label =
    bail_if
      (not (leb 1 (length label) && leb (length label) 128)
        || not (same (trim label) label)
        || any is_control label)
      label_is_invalid

unfoldable pub validate_downstream_label : Text → Result (Unit {0})
unfolding validate_label
validate_downstream_label label = do
  validate_label label
  bail_if (ltb 120 (length label)) downstream_label_is_invalid

-- `format!("{byte:02x}")`
abbrev hex_digit : ℕ → ℕ
hex_digit n = if ltb n 10 then b'0' + n else b'a' + (n - 10)

unfoldable pub lower_hex : Bytes → Bytes
lower_hex [] = []
lower_hex (b ∷ s) = hex_digit (b / 16) ∷ hex_digit (b % 16) ∷ lower_hex s
