-- ===== src/Hosts.antt =====
-- Who may reach which surface in crates/gateway/src/main.rs: `admin_surface_allowed`, `public_guard_response`
-- and the reading of a Host header. A header is its bytes, or nothing where they are not visible ASCII.

use nvidia_build_lb.Prelude.{
  ℕ, zero, suc, ◌+◌, ◌^◌, Bytes, Bool, true, false, not, ◌&&◌, ◌||◌, List, [], ◌∷◌, ◌++◌, Option,
  none, some, any, all, length, same, codes, starts_with, leb, ◌==◌, if◌then◌else◌, holds_byte,
  split_once, rsplit_once, count_byte, is_digit, parse_below, decimal_from, lowercase,
}
use nvidia_build_lb.Json.{and_then, is_some_and}
use nvidia_build_lb.Sse.{strip_prefix}

abbrev pub Header : Type 0
Header = Option Bytes

-- `parse::<u16>().ok()`
abbrev pub parse_u16 : Bytes → Option ℕ
parse_u16 s = parse_below (2 ^ 16) s

abbrev is_given {ℓ} : {A : Type ℓ} → Option A → Bool
is_given none = false
is_given (some _) = true

abbrev pub is_hex : ℕ → Bool
is_hex b = is_digit b || (leb b'a' b && leb b b'f') || (leb b'A' b && leb b b'F')

-- Pieces between separators.
abbrev pub prepend : ℕ → List Bytes → List Bytes
prepend b [] = (b ∷ []) ∷ []
prepend b (s ∷ more) = (b ∷ s) ∷ more

unfoldable pub pieces : ℕ → Bytes → List Bytes
pieces c [] = [] ∷ []
pieces c (b ∷ s) = if b == c then [] ∷ pieces c s else prepend b (pieces c s)

-- A decimal octet: one to three digits without a leading zero, below 256.
unfoldable pub is_octet : Bytes → Bool
is_octet s =
    leb (length s) 3
    && (length s == 1 || not (starts_with (codes "0") s))
    && not (starts_with (codes "+") s)
    && is_given (parse_below 256 s)

unfoldable pub is_ipv4 : Bytes → Bool
unfolding pieces is_octet
is_ipv4 s = length (pieces b'.' s) == 4 && all is_octet (pieces b'.' s)

abbrev pub is_group : Bytes → Bool
is_group s = leb 1 (length s) && leb (length s) 4 && all is_hex s

-- The groups of one side of an address: how many there are, an IPv4 address at the end counting as two,
-- if that is allowed.
unfoldable pub group_count : Bool → List Bytes → Option ℕ
unfolding is_ipv4
group_count ipv4 [] = some 0
group_count ipv4 (s ∷ []) =
    if is_group s then some 1 else if ipv4 && is_ipv4 s then some 2 else none
group_count ipv4 (s ∷ t ∷ more) =
    if is_group s then and_then (group_count ipv4 (t ∷ more)) (λ n. some (n + 1)) else none

abbrev side : Bool → Bytes → Option ℕ
side ipv4 [] = some 0
side ipv4 (b ∷ s) = group_count ipv4 (pieces b':' (b ∷ s))

-- The text before and after the first double colon.
unfoldable pub at_double_colon : Bytes → Option (Bytes × Bytes)
at_double_colon [] = none
at_double_colon (b ∷ []) = none
at_double_colon (b ∷ c ∷ s) =
    if b == b':' && c == b':'
    then some ([], s)
    else and_then (at_double_colon (c ∷ s)) (λ parts. some (b ∷ parts.0, parts.1))

abbrev short_enough : Option ℕ → Option ℕ → Bool
short_enough (some head) (some tail) = leb (head + tail) 7
short_enough _ _ = false

-- `parse::<Ipv6Addr>().is_ok()`: eight groups, or fewer around one double colon.
unfoldable pub is_ipv6 : Bytes → Bool
unfolding group_count at_double_colon
is_ipv6 s = elim (at_double_colon s) [
  | none ↦ is_some_and (group_count true (pieces b':' s)) (λ n. n == 8)
  | some (head, tail) ↦ short_enough (side false head) (side true tail)
]

abbrev port_after : Bytes → Option ℕ
port_after remainder = and_then (strip_prefix (codes ":") remainder) parse_u16

abbrev pub colon_port : Bytes → Bytes → Option ℕ → Bytes × Option ℕ
colon_port raw host none = (lowercase raw, none)
colon_port raw host (some port) = (lowercase host, some port)

-- After the branch of a bracketed host.
unfoldable pub parse_plain : Bytes → Bytes × Option ℕ
parse_plain raw = elim (rsplit_once b':' raw) [
  | none ↦ (lowercase raw, none)
  | some (host, port) ↦ colon_port raw host (parse_u16 port)
]

abbrev pub parse_bracketed : Bytes → Option (Bytes × Bytes) → Bytes × Option ℕ
parse_bracketed raw none = parse_plain raw
parse_bracketed raw (some (host, remainder)) = (lowercase host, port_after remainder)

unfoldable pub parse_host_authority : Bytes → Bytes × Option ℕ
unfolding parse_plain
parse_host_authority raw =
    parse_bracketed raw (and_then (strip_prefix (codes "[") raw) (λ value. split_once b']' value))

-- `remainder.is_empty() || (remainder.starts_with(':') && remainder[1..].parse::<u16>().is_ok())`
abbrev pub is_remainder : Bytes → Bool
is_remainder [] = true
is_remainder (b ∷ s) = b == b':' && is_given (parse_u16 s)

abbrev pub is_host_and_port : Option (Bytes × Bytes) → Bool
is_host_and_port none = false
is_host_and_port (some (host, port)) = not (length host == 0) && is_given (parse_u16 port)

abbrev pub plain_well_formed : Bytes → ℕ → Bool
plain_well_formed raw zero = true
plain_well_formed raw (suc zero) = is_host_and_port (split_once b':' raw)
plain_well_formed raw (suc (suc n)) = is_ipv6 raw

abbrev pub value_well_formed : Bytes → Option Bytes → Bool
value_well_formed raw (some value) =
    is_some_and (split_once b']' value) (λ parts. is_remainder parts.1)
value_well_formed raw none =
    if holds_byte b'[' raw || holds_byte b']' raw || length raw == 0
    then false
    else plain_well_formed raw (count_byte b':' raw)

unfoldable pub host_authority_well_formed : Bytes → Bool
unfolding is_ipv6
host_authority_well_formed raw = value_well_formed raw (strip_prefix (codes "[") raw)

unfoldable pub format_origin_host : Bytes → Bytes
format_origin_host host = if holds_byte b':' host then codes "[" ++ host ++ codes "]" else host

abbrev pub loopback_names : List Bytes
loopback_names = codes "localhost" ∷ codes "127.0.0.1" ∷ codes "::1" ∷ []

-- `split(':').next()`
abbrev first_piece : List Bytes → Bytes
first_piece [] = []
first_piece (s ∷ more) = s

abbrev is_bracketed_loopback : Option (Bytes × Bytes) → Bool
is_bracketed_loopback none = false
is_bracketed_loopback (some (host, remainder)) =
    is_remainder remainder && same (lowercase host) (codes "::1")

abbrev host_value_allowed : Bytes → Option Bytes → Bool
host_value_allowed raw (some value) = is_bracketed_loopback (split_once b']' value)
host_value_allowed raw none = any (same (lowercase (first_piece (pieces b':' raw)))) loopback_names

unfoldable pub admin_host_allowed : Bytes → Bool
unfolding host_authority_well_formed
admin_host_allowed raw =
    if length raw == 0 || holds_byte b',' raw || not (host_authority_well_formed raw)
    then false
    else if same (lowercase raw) (codes "::1")
    then true
    else host_value_allowed raw (strip_prefix (codes "[") raw)

unfoldable pub port_text : ℕ → Bytes
unfolding decimal_from
port_text port = decimal_from 5 port

abbrev pub origin_allowed : ℕ → Bytes → Bytes → Bool
origin_allowed public_port host origin =
    let origin_host = format_origin_host host in
    same origin (codes "https://" ++ origin_host ++ codes ":" ++ port_text public_port)
    || same origin (codes "http://" ++ origin_host ++ codes ":" ++ port_text public_port)
    || (public_port == 80 && same origin (codes "http://" ++ origin_host))
    || (public_port == 443 && same origin (codes "https://" ++ origin_host))

abbrev pub origin_header_allowed : ℕ → Bytes → Option Header → Bool
origin_header_allowed public_port host none = true
origin_header_allowed public_port host (some none) = false
origin_header_allowed public_port host (some (some origin)) = origin_allowed public_port host origin

abbrev pub port_allowed : ℕ → Option ℕ → Bool
port_allowed public_port (some port) = port == public_port
port_allowed public_port none = public_port == 80 || public_port == 443

abbrev pub authority_allowed : ℕ → Option Header → Bytes × Option ℕ → Bool
authority_allowed public_port origin (host, port) =
    admin_host_allowed host
    && port_allowed public_port port
    && origin_header_allowed public_port host origin

-- The Host headers and the first Origin header of a request.
unfoldable pub admin_surface_allowed_for_port : List Header → Option Header → ℕ → Bool
unfolding host_authority_well_formed parse_host_authority admin_host_allowed
admin_surface_allowed_for_port (some raw ∷ []) origin public_port =
    not (holds_byte b',' raw)
    && host_authority_well_formed raw
    && authority_allowed public_port origin (parse_host_authority raw)
admin_surface_allowed_for_port _ origin public_port = false
