-- ===== src/Sse/Frames.antt =====
-- What `SseValidator` of crates/gateway/src/streaming.rs keeps from frame to frame and from chunk to chunk.
use nvidia_build_lb.Prelude.{
  ℕ, ◌+◌, ◌≤◌, Bytes, String, str_eq_iff, Bool, true, false, not, ◌&&◌, ◌||◌, List, [], ◌∷◌, Option,
  none, some, ◌≡◌, refl, ap, sym, ◌⊎◌, inl, inr, arith, length, length-append, Bool-cases,
  if◌then◌else◌, ltb, any, same, codes, is_utf8, decode_utf8, ◌*◌,
}
use nvidia_build_lb.Json.{Value, is_blank}
use nvidia_build_lb.Vault.State.{Text}
use nvidia_build_lb.Vault.Shapes.{trim}
use nvidia_build_lb.Requests.{has_items}
use nvidia_build_lb.Sse.{
  SseValidator, one_more, bad_choice, data_lines, lines, read_chunk, Chunk, agrees, take_chunk,
  take_data, take_lines, validate_frame,
}

pub some-injective {ℓ} : {A : Type ℓ} (a b : A) → some a ≡ some b → a ≡ b
some-injective a b e = cc

-- A name that is set stays.
abbrev pub Keeps : Option String → Option String → Type 0
Keeps none after = Unit {0}
Keeps (some name) after = after ≡ some name

-- No more data frames than emitted texts.
abbrev pub IsBacked : SseValidator → Type 0
IsBacked v = v.data_frame_count ≤ length v.emitted

-- What one frame, or a row of them, may do to the state.
pub record Follows (v v' : SseValidator) (passed : Bool) : Type 0 where
  pub message_id : Keeps v.message_id v'.message_id
  pub model : Keeps v.model v'.model
  pub closed : (v.done ≡ false) ⊎ ((v'.done ≡ true) × (v'.emitted ≡ v.emitted))
  pub backed : passed ≡ true → IsBacked v → IsBacked v'

Keeps-refl : (o : Option String) → Keeps o o
Keeps-refl none = tt
Keeps-refl (some name) = refl

pub Keeps-trans : (a b c : Option String) → Keeps a b → Keeps b c → Keeps a c
Keeps-trans none b c h k = tt
Keeps-trans (some name) none c h k = cc
Keeps-trans (some name) (some other) c h k = cc

agrees-Keeps : (o : Option String) (name : String) → agrees o name ≡ true → Keeps o (some name)
agrees-Keeps none name h = tt
agrees-Keeps (some p) name h = ap some (sym ((str_eq_iff p name).0 h))

pub unchanged : (v : SseValidator) (passed : Bool) → Follows v v passed
unchanged v passed = record {
  message_id = Keeps-refl v.message_id;
  model = Keeps-refl v.model;
  closed = elim (Bool-cases v.done) [
    | inl is_done ↦ inr (is_done, refl)
    | inr open_still ↦ inl open_still
  ];
  backed = λ _ b. b;
}

-- A frame's outcome: the buffer does not change, and the state follows.
abbrev pub Framed : SseValidator → SseValidator × Bool → Type 0
Framed v r = (r.0.buffer ≡ v.buffer) × Follows v r.0 r.1

-- A chunk's outcome: names are kept, and a chunk that passes is emitted.
abbrev Chunked : SseValidator → SseValidator × Bool → Type 0
Chunked v r =
    (r.0.buffer ≡ v.buffer)
    × Keeps v.message_id r.0.message_id
    × Keeps v.model r.0.model
    × (r.1 ≡ true → length r.0.emitted ≡ length v.emitted + 1)
    × (r.0.data_frame_count ≡ v.data_frame_count)

take_chunk-Chunked :
    (v : SseValidator) (payload : Text) (c : Chunk) → Chunked v (take_chunk v payload c)
unfolding take_chunk
take_chunk-Chunked v payload c =
    elim (Bool-cases (agrees v.message_id c.id && agrees v.model c.model)) [
      | inr differs ↦
          rw differs (refl, Keeps-refl v.message_id, Keeps-refl v.model, (λ e. cc), refl)
      | inl same_names ↦
          let id_kept = agrees-Keeps v.message_id c.id (ground arith) in
          let model_kept = agrees-Keeps v.model c.model (ground arith) in
          rw same_names (elim (Bool-cases (not (has_items c.choices) || any bad_choice c.choices)) [
            | inl bad ↦ rw bad (refl, id_kept, model_kept, (λ e. cc), refl)
            | inr good ↦ rw good (refl, id_kept, model_kept, (λ _. length-append v.emitted _), refl)
          ])
    ]

one_more-le : (n : ℕ) → one_more n ≤ n + 1
one_more-le n = omega arith

take_data-Framed :
    (parse : Text → Option Value) (v : SseValidator) (payload : Text)
    → v.done ≡ false
    → Framed v (take_data parse v payload)
unfolding take_data
take_data-Framed parse v payload open_still =
    elim (Bool-cases (same (trim payload) (codes "[DONE]"))) [
      | inl ends ↦ rw ends (
        refl,
        record {
          message_id = Keeps-refl v.message_id;
          model = Keeps-refl v.model;
          closed = inl open_still;
          backed = λ _ b. b;
        },
      )
      | inr more ↦ rw more (go (read_chunk parse payload))
    ]
  where
    counted : SseValidator
    counted = record v {
      frame_count = one_more v.frame_count;
      data_frame_count = one_more v.data_frame_count;
    }

    go :
        (o : Option Chunk)
        → Framed v (elim o [ none ↦ (counted, false) | some c ↦ take_chunk counted payload c ])
    go none = (
      refl,
      record {
        message_id = Keeps-refl v.message_id;
        model = Keeps-refl v.model;
        closed = inl open_still;
        backed = λ e. cc;
      },
    )
    go (some c) =
        let (buffer, id, model, emits, counts) = take_chunk-Chunked counted payload c in
        (
          buffer,
          record {
            message_id = id;
            model = model;
            closed = inl open_still;
            backed = λ e b. omega (arith, emits e, counts, one_more-le v.data_frame_count, b);
          },
        )

take_lines-Framed :
    (parse : Text → Option Value) (v : SseValidator) (o : Option (List Text))
    → v.done ≡ false
    → Framed v (take_lines parse v o)
unfolding take_lines
take_lines-Framed parse v none open_still = (refl, unchanged v false)
take_lines-Framed parse v (some []) open_still = (refl, unchanged v true)
take_lines-Framed parse v (some (l ∷ more)) open_still = take_data-Framed parse v _ open_still

pub validate_frame-Framed :
    (parse : Text → Option Value) (v : SseValidator) (frame : Bytes)
    → Framed v (validate_frame parse v frame)
unfolding validate_frame
validate_frame-Framed parse v frame =
    elim (Bool-cases (ltb (1024 * 1024) (length frame) || not (is_utf8 frame))) [
      | inl bad ↦ rw bad (refl, unchanged v false)
      | inr good ↦ rw good (elim (Bool-cases (is_blank frame)) [
        | inl blank ↦ rw blank (refl, unchanged v true)
        | inr full ↦ rw full (by_done v.done refl)
      ])
    ]
  where
    by_done :
        (b : Bool)
        → v.done ≡ b
        → Framed v
            (if b then (v, false) else take_lines parse v (data_lines (lines (decode_utf8 frame))))
    by_done true is_done = (refl, unchanged v false)
    by_done false open_still = take_lines-Framed parse v _ open_still
