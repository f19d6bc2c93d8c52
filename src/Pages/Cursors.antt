-- ===== src/Pages/Cursors.antt =====
-- The cursors between pages in crates/gateway/src/operations/admin.rs: what `paginate` writes, `list_window` reads.
use nvidia_build_lb.Prelude.{
  ◌+◌, ◌-◌, min, subst, List, none, Bool, true, false, ltb, length, if◌then◌else◌, refl, ℕ, ◌^◌,
  ◌≤◌, ◌<◌, Bytes, [], ◌∷◌, ◌++◌, some, is_utf8-ascii, All, All-append, decimal_from, decimal-All,
  parse_below-decimal_from, ten_power, ◌≡◌, arith,
}
use nvidia_build_lb.Pages.{
  PageWindow, paginate, page_items, next_offset, Codec, window, read_cursor, list_window,
  page_prefix, cursor_to, within_range,
}

-- What the codec documents: decoding undoes encoding.
abbrev pub IsLawful : Codec → Type 0
IsLawful codec = (bytes : Bytes) → codec.decode (codec.encode bytes) ≡ some bytes

digits-ascii : (s : Bytes) → All (λ b. (b'0' ≤ b) × (b ≤ b'9')) s → All (λ b. b < 0x80) s
digits-ascii [] h = tt
digits-ascii (b ∷ s) (h, hs) = (omega (arith, h.1), digits-ascii s hs)

prefix-ascii : All (λ b. b < 0x80) page_prefix
prefix-ascii = ground arith

cursor-ascii : (n : ℕ) → All (λ b. b < 0x80) (page_prefix ++ decimal_from 20 n)
cursor-ascii n =
    All-append (λ b. b < 0x80) page_prefix (decimal_from 20 n) prefix-ascii
      (digits-ascii (decimal_from 20 n) (decimal-All 20 n))

in_range : (n : ℕ) → n ≤ 10000000 → within_range n ≡ some n
in_range n h = ground arith

small : (n : ℕ) → n ≤ 10000000 → n < ten_power 20
unfolding ten_power
small n h = omega (arith, h)

read_cursor-cursor_to :
    (codec : Codec) (n : ℕ)
    → IsLawful codec
    → n ≤ 10000000
    → read_cursor codec (cursor_to codec n) ≡ some n
unfolding read_cursor
read_cursor-cursor_to codec n lawful fits =
    rw
      (
        lawful (page_prefix ++ decimal_from 20 n),
        is_utf8-ascii (page_prefix ++ decimal_from 20 n) (cursor-ascii n),
        parse_below-decimal_from (2 ^ 64) 19 n (small n fits) (omega (arith, fits)),
      )
      (in_range n fits)

list_window-cursor_to :
    (codec : Codec) (limit n : ℕ)
    → IsLawful codec
    → 1 ≤ limit
    → limit ≤ 100
    → n ≤ 10000000
    → list_window codec (record { limit = some limit; before = some (cursor_to codec n) })
      ≡ window (record { limit = limit; offset = n })
unfolding list_window
list_window-cursor_to codec limit n lawful low high fits =
    rw (read_cursor-cursor_to codec n lawful fits) (ground arith)

some-injective : (a b : Bytes) → some a ≡ some b → a ≡ b
some-injective a b h = cc

cursor_if : (b : Bool) (a c : Bytes) → (if b then some a else none) ≡ some c → (b ≡ true) × (a ≡ c)
cursor_if true a c h = (refl, some-injective a c h)
cursor_if false a c h = cc

module _ (n total : ℕ) (below : ltb (min n (2 ^ 64 - 1)) total ≡ true)
    (short : total ≤ 10000000) where
  ahead : n < total
  ahead = ground arith

  reached : min n (2 ^ 64 - 1) ≡ n
  reached = ground arith

  at_most : min n (2 ^ 64 - 1) ≤ 10000000
  at_most = ground arith

-- When `paginate` hands out a cursor, for a list of at most 10,000,000 items and a limit from 1 to 100, the cursor
-- sent back with that limit gives the window that starts where the page ended, short of the end of the list, when
-- decoding undoes encoding.
pub list_window-paginate {ℓ} :
    {A : Type ℓ} (codec : Codec) (items : List A) (w : PageWindow) (cursor : Bytes)
    → IsLawful codec
    → 1 ≤ w.limit
    → w.limit ≤ 100
    → length items ≤ 10000000
    → (paginate codec items w).1 ≡ some cursor
    → (list_window codec (record { limit = some w.limit; before = some cursor })
        ≡ window (record { limit = w.limit; offset = w.offset + length (page_items items w) }))
      × (w.offset + length (page_items items w) < length items)
unfolding paginate
list_window-paginate codec items w cursor lawful low high short given =
    let split =
      cursor_if (ltb (next_offset items w) (length items)) (cursor_to codec (next_offset items w))
        cursor given in
    let here : next_offset items w ≡ w.offset + length (page_items items w) =
      reached (w.offset + length (page_items items w)) (length items) split.0 short in
    (
      subst
          (λ c.
            list_window codec (record { limit = some w.limit; before = some c })
            ≡ window (record { limit = w.limit; offset = w.offset + length (page_items items w) }))
          split.1
          (subst
            (λ n.
              list_window codec (record {
                limit = some w.limit;
                before = some (cursor_to codec (next_offset items w));
              })
              ≡ window (record { limit = w.limit; offset = n }))
            here
            (list_window-cursor_to codec w.limit (next_offset items w) lawful low high
              (at_most (w.offset + length (page_items items w)) (length items) split.0 short))),
      ahead (w.offset + length (page_items items w)) (length items) split.0 short,
    )
