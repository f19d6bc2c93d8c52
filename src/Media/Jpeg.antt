-- ===== src/Media/Jpeg.antt =====
-- The walk of `valid_jpeg` in crates/gateway/src/streaming.rs: it ends, it reads in range, and what it accepts
-- has a frame.
use nvidia_build_lb.Prelude.{
  ap, ◌∙◌, ℕ, zero, suc, ◌+◌, ◌-◌, ◌*◌, ◌≤◌, ◌<◌, Bytes, Bool, true, false, not, ◌&&◌, ◌||◌, [],
  ◌∷◌, some, ◌≡◌, refl, length, drop, get_elem?, arith, get_elem?_lt, leb, ltb, ◌==◌, starts_with,
  subst, Bool-cases, Option-cases, inl, inr,
}
use nvidia_build_lb.Media.{
  u16_be, Round, stop, next, out_of_range, skip_fill, jpeg_frame, jpeg_segment, jpeg_marker,
  jpeg_fill, jpeg_round, Verdict, answer, jpeg_walk, valid_jpeg, is_frame_marker, accepts,
  ends_with, panics,
}
use nvidia_build_lb.Media.Segments.{
  IsMarker, is_bare, is_end, IsSegment, Between, start, outside, bare, segment, HasFrame,
  skip_fill-ge, get_elem?-drop, skip_fill-fill, skip_fill-stops,
}

-- What a flag of the loop stands for.
abbrev Flags : Bytes → Bool → Type 0
Flags bytes true = HasFrame bytes
Flags bytes false = Unit {0}

-- A round from an index in range: it ends the loop, or moves on, and its flag is backed by a frame.
abbrev Sound : Bytes → ℕ → Round → Type 0
Sound bytes index (stop verdict) = Flags bytes verdict
Sound bytes index (next index' has_frame) =
    (index < index') × Flags bytes has_frame × Between bytes index'
Sound bytes index out_of_range = ◌≡◌ {A = ℕ} 0 1

u16_be-in_range :
    (bytes : Bytes) (i : ℕ) → i + 2 ≤ length bytes → (n : ℕ) × (u16_be bytes i ≡ some n)
unfolding u16_be
u16_be-in_range bytes i h =
    let (a, at) = get_elem?_lt bytes i (omega arith) in
    let (b, bt) = get_elem?_lt bytes (i + 1) (omega arith) in (a * 256 + b, rw at (rw bt refl))

jpeg_frame-Sound :
    (bytes : Bytes) (index place marker segment_len : ℕ)
    → Between bytes index
    → IsMarker bytes index place marker
    → is_frame_marker marker ≡ true
    → is_end marker ≡ false
    → is_bare marker ≡ false
    → IsSegment bytes place segment_len
    → 7 ≤ segment_len
    → place + 1 + segment_len ≤ length bytes
    → Sound bytes place (jpeg_frame bytes (place + 1) segment_len)
unfolding jpeg_frame
jpeg_frame-Sound bytes index place marker n between at is_frame goes_on sized is_segment long
      inside =
    let (height, tall) = u16_be-in_range bytes (place + 4) (omega arith) in
    let (width, wide) = u16_be-in_range bytes (place + 6) (omega arith) in
    let tall' : u16_be bytes (place + 1 + 3) ≡ some height = rw (sum 3) tall in
    let wide' : u16_be bytes (place + 1 + 5) ≡ some width = rw (sum 5) wide in
    rw (tall', jpeg_frame)
      (rw (wide', jpeg_frame)
        (
          omega arith,
          elim (Bool-cases (ltb 0 width && ltb 0 height)) [
            | inl both ↦ rw both (record {
              index = index;
              place = place;
              marker = marker;
              segment_len = n;
              height = height;
              width = width;
              between = between;
              marked = at;
              from_c0 = ground arith;
              to_c3 = ground arith;
              in_segment = is_segment;
              long = long;
              tall = tall;
              wide = wide;
              some_height = ground arith;
              some_width = ground arith;
            })
            | inr none_of ↦ rw none_of tt
          ],
          segment index place marker n between at goes_on sized is_segment,
        ))
  where
    sum : (k : ℕ) → place + 1 + k ≡ place + suc k
    sum k = omega arith

jpeg_segment-Sound :
    (bytes : Bytes) (index place marker : ℕ) (has_frame : Bool)
    → Between bytes index
    → IsMarker bytes index place marker
    → is_end marker ≡ false
    → is_bare marker ≡ false
    → place + 3 ≤ length bytes
    → Flags bytes has_frame
    → Sound bytes place (jpeg_segment bytes (place + 1) marker has_frame)
unfolding jpeg_segment
jpeg_segment-Sound bytes index place marker has_frame between at goes_on sized room flags =
    let (n, size) = u16_be-in_range bytes (place + 1) (omega arith) in
    rw (size, jpeg_segment)
      (elim (Bool-cases (ltb n 2 || ltb (length bytes) (place + 1 + n))) [
        | inl bad ↦ rw bad tt
        | inr good ↦
            let is_segment : IsSegment bytes place n = record {
              sized = size;
              holds_size = at_least n _ good;
              inside = within n (length bytes) (place + 1 + n) good;
            } in
            rw good (elim (Bool-cases (is_frame_marker marker)) [
              | inl is_frame ↦ rw is_frame (elim (Bool-cases (ltb n 7)) [
                | inl short ↦ rw short tt
                | inr long ↦ rw long (
                    jpeg_frame-Sound bytes index place marker n between at is_frame goes_on sized
                      is_segment (ground arith) is_segment.inside)
              ])
              | inr other ↦ rw other (
                omega arith,
                flags,
                segment index place marker n between at goes_on sized is_segment,
              )
            ])
      ])
  where
    at_least : (n : ℕ) (b : Bool) → (ltb n 2 || b) ≡ false → 2 ≤ n
    at_least n b h = ground arith

    within : (n size end : ℕ) → (ltb n 2 || ltb size end) ≡ false → end ≤ size
    within n size end h = ground arith

jpeg_marker-Sound :
    (bytes : Bytes) (index place marker : ℕ) (has_frame : Bool)
    → Between bytes index
    → IsMarker bytes index place marker
    → Flags bytes has_frame
    → Sound bytes place (jpeg_marker bytes (place + 1) marker has_frame)
unfolding jpeg_marker
jpeg_marker-Sound bytes index place marker has_frame between at flags =
    elim (Bool-cases (marker == 0xd9 || marker == 0xda)) [
      | inl ends ↦ rw ends flags
      | inr on ↦
          rw on
            (elim (Bool-cases
              (marker == 0xd8 || marker == 0x01 || (leb 0xd0 marker && leb marker 0xd7))) [
                | inl alone ↦
                    rw alone (omega arith, flags, bare index place marker between at alone)
                | inr sized ↦ rw sized (elim (Bool-cases (ltb (length bytes) (place + 1 + 2))) [
                  | inl short ↦ rw short tt
                  | inr room ↦ rw room (
                      jpeg_segment-Sound bytes index place marker has_frame between at on sized
                        (ground arith) flags)
                ])
              ])
    ]

jpeg_fill-Sound :
    (bytes : Bytes) (index place : ℕ) (has_frame : Bool)
    → Between bytes index
    → ((marker : ℕ) → get_elem? bytes place ≡ some marker → IsMarker bytes index place marker)
    → Flags bytes has_frame
    → Sound bytes place (jpeg_fill bytes place has_frame)
unfolding jpeg_fill
jpeg_fill-Sound bytes index place has_frame between is_marker flags =
    elim (Option-cases (get_elem? bytes place)) [
      | inl gone ↦ rw (gone, jpeg_fill) flags
      | inr (marker, at) ↦
          rw (at, jpeg_fill)
            (jpeg_marker-Sound bytes index place marker has_frame between (is_marker marker at)
              flags)
    ]

-- A later starting point is as good.
Sound-earlier : (bytes : Bytes) (i j : ℕ) (r : Round) → i ≤ j → Sound bytes j r → Sound bytes i r
Sound-earlier bytes i j (stop verdict) h s = s
Sound-earlier bytes i j (next index has_frame) h s = (omega (arith, s.0), s.1, s.2)
Sound-earlier bytes i j out_of_range h s = s

jpeg_round-Sound :
    (bytes : Bytes) (index : ℕ) (has_frame : Bool)
    → index < length bytes
    → Between bytes index
    → Flags bytes has_frame
    → Sound bytes index (jpeg_round bytes index has_frame)
unfolding jpeg_round
jpeg_round-Sound bytes index has_frame inside between flags =
    let (b, at) = get_elem?_lt bytes index inside in
    rw (at, jpeg_round)
      (elim (Bool-cases (b == 0xff)) [
        | inl fill ↦
            let place = skip_fill (drop index bytes) index in
            rw fill (
              Sound-earlier bytes index place _ (skip_fill-ge (drop index bytes) index)
                (jpeg_fill-Sound bytes index place has_frame between (marker_at b at fill) flags))
        | inr other ↦ rw other (omega arith, flags, outside index b between at (not_fill b other))
      ])
  where
    not_fill : (b : ℕ) → (b == 0xff) ≡ false → ¬ (b ≡ 0xff)
    not_fill b h = λ same. clash b h same
      where
        clash : (b : ℕ) → (b == 0xff) ≡ false → b ≡ 0xff → ⊥
        clash b h same = ground arith

    marker_at :
        (b : ℕ)
        → get_elem? bytes index ≡ some b
        → (b == 0xff) ≡ true
        → (marker : ℕ) → get_elem? bytes (skip_fill (drop index bytes) index) ≡ some marker
        → IsMarker bytes index (skip_fill (drop index bytes) index) marker
    marker_at b at fill marker found = record {
      later =
          further (drop index bytes)
            (get_elem?-drop index bytes 0 ∙ ap (get_elem? bytes) (omega arith) ∙ at);
      fill = skip_fill-fill bytes (drop index bytes) index (get_elem?-drop index bytes);
      marked = found;
      no_fill =
          skip_fill-stops bytes (drop index bytes) index marker (get_elem?-drop index bytes) found;
    }
      where
        further : (rest : Bytes) → get_elem? rest 0 ≡ some b → index < skip_fill rest index
        further [] h = cc
        further (c ∷ rest) h =
            let same : c ≡ b = cc in
            let filled : (c == 0xff) ≡ true = rw same fill in
            rw filled (omega (arith, skip_fill-ge rest (index + 1)))

-- What the loop answers with fuel for every byte that is left.
abbrev Answers : Bytes → Verdict → Type 0
Answers bytes v = (b : Bool) × (v ≡ answer b) × Flags bytes b

jpeg_walk-Answers :
    (fuel : ℕ) (bytes : Bytes) (index : ℕ) (has_frame : Bool)
    → 1 ≤ fuel
    → length bytes ≤ index + fuel
    → Between bytes index
    → Flags bytes has_frame
    → Answers bytes (jpeg_walk fuel bytes index has_frame)
unfolding jpeg_walk
jpeg_walk-Answers zero bytes index has_frame some_fuel enough between flags = elim some_fuel [ ]
jpeg_walk-Answers (suc fuel) bytes index has_frame some_fuel enough between flags =
    elim (Bool-cases (ltb (index + 3) (length bytes - 2))) [
      | inr over ↦ rw (over, jpeg_walk) (has_frame, refl, flags)
      | inl on ↦
          rw (on, jpeg_walk)
            (go (jpeg_walk-Answers fuel bytes) (jpeg_round bytes index has_frame)
              (jpeg_round-Sound bytes index has_frame (ground arith) between flags) (ground arith))
    ]
  where
    go :
        ((i : ℕ) (f : Bool)
          → 1 ≤ fuel
          → length bytes ≤ i + fuel
          → Between bytes i
          → Flags bytes f
          → Answers bytes (jpeg_walk fuel bytes i f))
        → (r : Round) → Sound bytes index r
        → index + 6 ≤ length bytes
        → Answers bytes (elim r [
          | stop verdict ↦ answer verdict
          | next index' has_frame' ↦ jpeg_walk fuel bytes index' has_frame'
          | out_of_range ↦ panics
        ])
    go walk (stop verdict) sound more = (verdict, refl, sound)
    go walk (next index' has_frame') sound more =
        walk index' has_frame' (omega arith) (omega (arith, sound.0)) sound.2 sound.1
    go walk out_of_range sound more = absurd (omega (arith, sound))

valid_jpeg-Answers : (bytes : Bytes) → Answers bytes (valid_jpeg bytes)
unfolding valid_jpeg
valid_jpeg-Answers bytes =
    elim (Bool-cases (
      ltb (length bytes) 16
      || not (starts_with (0xff ∷ 0xd8 ∷ []) bytes)
      || not (ends_with (0xff ∷ 0xd9 ∷ []) bytes))) [
        | inl bad ↦ rw bad (false, refl, tt)
        | inr good ↦
            rw good
              (jpeg_walk-Answers (length bytes) bytes 2 false (ground arith) (omega arith) start tt)
      ]

-- The check of a JPEG is total: on every byte string it answers, without a read out of range, in at most
-- as many rounds as there are bytes.
pub valid_jpeg-answers : (bytes : Bytes) → (b : Bool) × (valid_jpeg bytes ≡ answer b)
valid_jpeg-answers bytes = let (b, is, _) = valid_jpeg-Answers bytes in (b, is)

-- What the check of a JPEG accepts has a frame header with a height and a width that are not zero: a marker from
-- 0xc0 to 0xc3 behind at least one byte 0xff, with a segment of at least 7 bytes that stands within the file, at a
-- place that is reached from the third byte on over whole segments.
pub valid_jpeg-HasFrame : (bytes : Bytes) → accepts (valid_jpeg bytes) ≡ true → HasFrame bytes
valid_jpeg-HasFrame bytes h =
    let (b, is, flags) = valid_jpeg-Answers bytes in
    let yes_it_is : b ≡ true = rw is at h in subst (Flags bytes) yes_it_is flags
