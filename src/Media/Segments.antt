-- ===== src/Media/Segments.antt =====
-- The segments of a JPEG as its format has them, for the walk of `valid_jpeg` in
-- crates/gateway/src/streaming.rs: markers, segments, and the places between them.
use nvidia_build_lb.Prelude.{
  ap, ◌∙◌, sym, none, Option, ℕ, zero, suc, ◌+◌, ◌≤◌, ◌<◌, Bytes, Bool, true, false, ◌&&◌, ◌||◌, [],
  ◌∷◌, some, ◌≡◌, refl, length, drop, get_elem?, arith, leb, ◌==◌, Bool-cases, inl, inr,
}
use nvidia_build_lb.Media.{u16_be, skip_fill}

-- A marker: fill bytes 0xff from an index up to a place, and another byte there.
pub record IsMarker (bytes : Bytes) (index place marker : ℕ) : Type 0 where
  pub later : index < place
  pub fill : (j : ℕ) → index ≤ j → j < place → get_elem? bytes j ≡ some 0xff
  pub marked : get_elem? bytes place ≡ some marker
  pub no_fill : ¬ (marker ≡ 0xff)

-- The markers that stand alone, and those that end the headers.
abbrev pub is_bare : ℕ → Bool
is_bare marker = marker == 0xd8 || marker == 0x01 || (leb 0xd0 marker && leb marker 0xd7)

abbrev pub is_end : ℕ → Bool
is_end marker = marker == 0xd9 || marker == 0xda

-- A segment behind a marker: it starts with its own length, and it stands within the bytes.
pub record IsSegment (bytes : Bytes) (place segment_len : ℕ) : Type 0 where
  pub sized : u16_be bytes (place + 1) ≡ some segment_len
  pub holds_size : 2 ≤ segment_len
  pub inside : place + 1 + segment_len ≤ length bytes

-- The places between segments: the third byte, and what follows a place over a byte outside of any segment, over
-- a marker that stands alone, or over a marker with its whole segment.
pub data Between (bytes : Bytes) : ℕ → Type 0 where
  start : Between bytes 2
  outside :
      (index b : ℕ)
      → Between bytes index
      → get_elem? bytes index ≡ some b
      → ¬ (b ≡ 0xff)
      → Between bytes (index + 1)
  bare :
      (index place marker : ℕ)
      → Between bytes index
      → IsMarker bytes index place marker
      → is_bare marker ≡ true
      → Between bytes (place + 1)
  segment :
      (index place marker segment_len : ℕ)
      → Between bytes index
      → IsMarker bytes index place marker
      → is_end marker ≡ false
      → is_bare marker ≡ false
      → IsSegment bytes place segment_len
      → Between bytes (place + 1 + segment_len)

-- A frame header between the other segments: a marker from 0xc0 to 0xc3 with its segment, in which the
-- dimensions are not zero.
pub record HasFrame (bytes : Bytes) : Type 0 where
  pub index : ℕ
  pub place : ℕ
  pub marker : ℕ
  pub segment_len : ℕ
  pub height : ℕ
  pub width : ℕ
  pub between : Between bytes index
  pub marked : IsMarker bytes index place marker
  pub from_c0 : 0xc0 ≤ marker
  pub to_c3 : marker ≤ 0xc3
  pub in_segment : IsSegment bytes place segment_len
  pub long : 7 ≤ segment_len
  pub tall : u16_be bytes (place + 4) ≡ some height
  pub wide : u16_be bytes (place + 6) ≡ some width
  pub some_height : 0 < height
  pub some_width : 0 < width

pub skip_fill-ge : (bytes : Bytes) (i : ℕ) → i ≤ skip_fill bytes i
skip_fill-ge [] i = omega arith
skip_fill-ge (b ∷ bytes) i = ground (arith, skip_fill-ge bytes (i + 1))

pub get_elem?-drop :
    (i : ℕ) (bytes : Bytes) (k : ℕ) → get_elem? (drop i bytes) k ≡ get_elem? bytes (i + k)
get_elem?-drop zero bytes k = ap (get_elem? bytes) (omega arith)
get_elem?-drop (suc i) [] k = refl
get_elem?-drop (suc i) (b ∷ bytes) k =
    let shifted : suc (i + k) ≡ suc i + k = omega arith in
    get_elem?-drop i bytes k ∙ ap (get_elem? (b ∷ bytes)) shifted

-- The bytes that the inner loop passes are all 0xff, and the one where it stops is not.
module _ (bytes : Bytes) where
  abbrev Standing : Bytes → ℕ → Type 0
  Standing rest i = (k : ℕ) → get_elem? rest k ≡ get_elem? bytes (i + k)

  Standing-next : (b : ℕ) (rest : Bytes) (i : ℕ) → Standing (b ∷ rest) i → Standing rest (i + 1)
  Standing-next b rest i at k = at (suc k) ∙ ap (get_elem? bytes) (omega arith)

  pub skip_fill-fill :
      (rest : Bytes) (i : ℕ)
      → Standing rest i
      → (j : ℕ) → i ≤ j
      → j < skip_fill rest i
      → get_elem? bytes j ≡ some 0xff
  skip_fill-fill [] i at j low high = absurd (omega arith)
  skip_fill-fill (b ∷ rest) i at j low high = elim (Bool-cases (b == 0xff)) [
    | inl fill ↦ elim (Bool-cases (i == j)) [
      | inl here ↦
          ap (get_elem? bytes) (same_place i j here) ∙ sym (at 0) ∙ ap some (same_byte b 0xff fill)
      | inr later ↦
          skip_fill-fill rest (i + 1) (Standing-next b rest i at) j (beyond i j later low)
            (rw fill at high)
    ]
    | inr other ↦ absurd (no_room i j low (rw other at high))
  ]
    where
      same_place : (i j : ℕ) → (i == j) ≡ true → j ≡ i + 0
      same_place i j h = ground arith

      same_byte : (b c : ℕ) → (b == c) ≡ true → b ≡ c
      same_byte b c h = ground arith

      beyond : (i j : ℕ) → (i == j) ≡ false → i ≤ j → i + 1 ≤ j
      beyond i j h low = ground arith

      no_room : (i j : ℕ) → i ≤ j → j < i → ⊥
      no_room i j low high = omega (arith, low, high)

  pub skip_fill-stops :
      (rest : Bytes) (i marker : ℕ)
      → Standing rest i
      → get_elem? bytes (skip_fill rest i) ≡ some marker
      → ¬ (marker ≡ 0xff)
  skip_fill-stops [] i marker at h = absurd (gone (at 0 ∙ ap (get_elem? bytes) (omega arith) ∙ h))
    where
      gone : ◌≡◌ {A = Option ℕ} none (some marker) → ⊥
      gone h = cc
  skip_fill-stops (b ∷ rest) i marker at h = elim (Bool-cases (b == 0xff)) [
    | inl fill ↦ skip_fill-stops rest (i + 1) marker (Standing-next b rest i at) (rw fill at h)
    | inr other ↦ λ same.
        clash b marker other (at 0 ∙ ap (get_elem? bytes) (omega arith) ∙ rw other at h) same
  ]
    where
      clash : (b m : ℕ) → (b == 0xff) ≡ false → some b ≡ some m → m ≡ 0xff → ⊥
      clash b m h k same = ground arith
