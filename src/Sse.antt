-- ===== src/Sse.antt =====
-- `SseValidator` of crates/gateway/src/streaming.rs: the frames of an event stream as they arrive in chunks.
-- `serde_json::from_str` is a parameter, `parse`. A text is the list of its code points.
pub mod Frames
pub mod Streams
use nvidia_build_lb.Prelude.{
  ℕ, zero, suc, ◌+◌, ◌*◌, ◌^◌, ◌-◌, min, Bytes, String, str_eq, Bool, true, false, not, ◌&&◌, ◌||◌,
  List, [], ◌∷◌, ◌++◌, Option, none, some, length, drop, take, any, all, leb, ltb, ◌==◌, codes,
  same, starts_with, if◌then◌else◌, is_utf8, decode_utf8, byte_length,
}
use nvidia_build_lb.Json.{
  Value, Map, keys, get, get_str, as_array, as_object, as_u64, is_null, is_string, and_then,
  is_some_and, is_none_or, is_text, one_of, is_empty_text, is_blank,
}
use nvidia_build_lb.Media.{position_of, is_ascii_whitespace}
use nvidia_build_lb.Vault.State.{Text}
use nvidia_build_lb.Vault.Shapes.{trim}
use nvidia_build_lb.Requests.{has_items}

pub record SseValidator : Type 0 where
  pub buffer : Bytes
  pub emitted : List Text
  pub done : Bool
  pub frame_count : ℕ
  pub data_frame_count : ℕ
  pub message_id : Option String
  pub model : Option String

-- `SseValidator::default()`
abbrev pub fresh : SseValidator
fresh = record {
  buffer = [];
  emitted = [];
  done = false;
  frame_count = 0;
  data_frame_count = 0;
  message_id = none;
  model = none;
}

-- `usize::saturating_add(1)`
abbrev pub one_more : ℕ → ℕ
one_more n = min (n + 1) (2 ^ 64 - 1)

unfoldable pub take_emitted : SseValidator → SseValidator × List Text
take_emitted v = (record v { emitted = [] }, v.emitted)

-- `str::lines`: the pieces between line feeds, less one carriage return before each line feed, and less
-- an empty last piece.
abbrev pub push : ℕ → List Text → List Text
push c [] = (c ∷ []) ∷ []
push c (l ∷ more) = (c ∷ l) ∷ more

unfoldable pub split_lines : Text → List Text
split_lines [] = [] ∷ []
split_lines (c ∷ s) = if c == 10 then [] ∷ split_lines s else push c (split_lines s)

-- `strip_suffix('\r').unwrap_or(line)`
unfoldable pub strip_cr : Text → Text
strip_cr [] = []
strip_cr (c ∷ []) = if c == 13 then [] else c ∷ []
strip_cr (c ∷ d ∷ s) = c ∷ strip_cr (d ∷ s)

unfoldable pub end_lines : List Text → List Text
unfolding strip_cr
end_lines [] = []
end_lines (l ∷ []) = if is_blank l then [] else l ∷ []
end_lines (l ∷ m ∷ more) = strip_cr l ∷ end_lines (m ∷ more)

abbrev pub lines : Text → List Text
lines s = end_lines (split_lines s)

-- `strip_prefix`
unfoldable pub strip_prefix : Text → Text → Option Text
strip_prefix [] s = some s
strip_prefix (a ∷ p) [] = none
strip_prefix (a ∷ p) (b ∷ s) = if a == b then strip_prefix p s else none

abbrev pub unwrap_text : Option Text → Text → Text
unwrap_text none s = s
unwrap_text (some t) s = t

-- What a line of a frame is.
pub data Line : Type 0 where
  skipped malformed : Line
  data_line : Text → Line

unfoldable pub retry_line : Text → Line
unfolding strip_prefix
retry_line line = elim (strip_prefix (codes "retry:") line) [
  | none ↦ malformed
  | some value ↦
      if is_blank (trim value)
        || ltb 6 (byte_length (trim value))
        || not (all (λ c. leb b'0' c && leb c b'9') (trim value))
      then malformed
      else skipped
]

unfoldable pub id_line : Text → Line
unfolding strip_prefix
id_line line = elim (strip_prefix (codes "id:") line) [
  | none ↦ retry_line line
  | some value ↦
      if ltb 128 (byte_length (trim value)) || any (λ c. c == 0) value then malformed else skipped
]

unfoldable pub event_line : Text → Line
unfolding strip_prefix
event_line line = elim (strip_prefix (codes "event:") line) [
  | none ↦ id_line line
  | some value ↦
      if ltb 64 (byte_length (trim value)) || not (all (λ c. leb 0x20 c && leb c 0x7e) (trim value))
      then malformed
      else skipped
]

unfoldable pub read_line : Text → Line
unfolding strip_prefix strip_cr
read_line raw =
    let line = strip_cr raw in
    if is_blank line || starts_with (codes ":") line
    then skipped
    else elim (strip_prefix (codes "data:") line) [
      | none ↦ event_line line
      | some value ↦ data_line (unwrap_text (strip_prefix (codes " ") value) value)
    ]

-- The loop over the lines: the values of the data lines, or nothing where a line is malformed.
unfoldable pub data_lines : List Text → Option (List Text)
data_lines [] = some []
data_lines (l ∷ more) =
    let rest = data_lines more in
    elim (read_line l) [
      | skipped ↦ rest
      | malformed ↦ none
      | data_line value ↦ and_then rest (λ values. some (value ∷ values))
    ]

-- `join("\n")`
unfoldable pub join_lines : List Text → Text
join_lines [] = []
join_lines (l ∷ []) = l
join_lines (l ∷ m ∷ more) = l ++ 10 ∷ join_lines (m ∷ more)

abbrev pub chunk_keys : List String
chunk_keys =
    "id" ∷ "object" ∷ "model" ∷ "choices" ∷ "created" ∷ "system_fingerprint" ∷ "service_tier"
    ∷ "usage" ∷ "reasoning" ∷ "reasoning_content" ∷ []

-- The closure on one choice: whether it is refused.
unfoldable pub bad_choice : Value → Bool
bad_choice choice = is_none_or (as_object choice) λ fs.
    any
      (λ key. not (
        one_of ("index" ∷ "delta" ∷ "finish_reason" ∷ "logprobs" ∷ "content_filter_results" ∷ [])
          key))
      (keys fs)
    || is_none_or (and_then (get fs "index") as_u64) (λ _. false)
    || is_none_or (and_then (get fs "delta") as_object) (λ delta.
      any
        (λ key. not (
          one_of ("role" ∷ "content" ∷ "tool_calls" ∷ "function_call" ∷ "refusal" ∷ "audio" ∷ [])
            key))
        (keys delta))
    || not (is_some_and (get fs "finish_reason") (λ reason. is_null reason || is_string reason))

-- What a chunk says of itself.
pub record Chunk : Type 0 where
  pub id : String
  pub model : String
  pub choices : List Value

abbrev pub guarded {ℓ} : {A : Type ℓ} → Bool → Option A → Option A
guarded good o = if good then o else none

-- The checks up to the choices, which do not look at the state.
unfoldable pub read_chunk : (Text → Option Value) → Text → Option Chunk
read_chunk parse payload = and_then (and_then (parse payload) as_object) λ fs.
    guarded (all (one_of chunk_keys) (keys fs)) (
      and_then (get_str fs "id") λ id. and_then (get_str fs "model") λ model.
        and_then (and_then (get fs "choices") as_array) λ choices.
          guarded
            (is_text "chat.completion.chunk" (get_str fs "object")
              && not (is_empty_text id)
              && not (is_empty_text model))
            (some (record { id = id; model = model; choices = choices })))

-- `is_none_or(|previous| previous == name)`
abbrev pub agrees : Option String → String → Bool
agrees previous name = is_none_or previous (λ p. str_eq p name)

-- The rest of the frame's checks and the emission.
unfoldable pub take_chunk : SseValidator → Text → Chunk → SseValidator × Bool
take_chunk v payload c =
    if not (agrees v.message_id c.id && agrees v.model c.model)
    then (v, false)
    else (let named : SseValidator = record v { message_id = some c.id; model = some c.model } in
        if not (has_items c.choices) || any bad_choice c.choices then (named, false) else (
          record named {
            emitted = named.emitted ++ (codes "data: " ++ payload ++ 10 ∷ 10 ∷ []) ∷ [];
          },
          true,
        ))

unfoldable pub take_data : (Text → Option Value) → SseValidator → Text → SseValidator × Bool
take_data parse v payload =
    let counted : SseValidator = record v { frame_count = one_more v.frame_count } in
    if same (trim payload) (codes "[DONE]")
    then (record counted { done = true }, true)
    else (let more : SseValidator = record counted {
      data_frame_count = one_more v.data_frame_count;
    } in
        elim (read_chunk parse payload) [
          | none ↦ (more, false)
          | some c ↦ take_chunk more payload c
        ])

unfoldable pub take_lines :
    (Text → Option Value) → SseValidator → Option (List Text) → SseValidator × Bool
take_lines parse v none = (v, false)
take_lines parse v (some []) = (v, true)
take_lines parse v (some (l ∷ more)) = take_data parse v (join_lines (l ∷ more))

unfoldable pub validate_frame : (Text → Option Value) → SseValidator → Bytes → SseValidator × Bool
validate_frame parse v frame =
    if ltb (1024 * 1024) (length frame) || not (is_utf8 frame)
    then (v, false)
    else if is_blank frame
    then (v, true)
    else if v.done
    then (v, false)
    else take_lines parse v (data_lines (lines (decode_utf8 frame)))

-- The `match` on the two delimiters: where the frame ends, and the length of its delimiter.
abbrev pub first_end : Option ℕ → Option ℕ → Option (ℕ × ℕ)
first_end (some lf) (some crlf) = if ltb crlf lf then some (crlf, 4) else some (lf, 2)
first_end (some lf) none = some (lf, 2)
first_end none (some crlf) = some (crlf, 4)
first_end none none = none

abbrev pub frame_end : Bytes → Option (ℕ × ℕ)
frame_end buffer =
    first_end (position_of (10 ∷ 10 ∷ []) buffer) (position_of (13 ∷ 10 ∷ 13 ∷ 10 ∷ []) buffer)

-- The `loop`, on fuel.
unfoldable pub drain_frames :
    ℕ → (Text → Option Value) → SseValidator → Option (SseValidator × Bool)
drain_frames zero parse v = none
drain_frames (suc fuel) parse v = elim (frame_end v.buffer) [
  | none ↦ some (v, true)
  | some (index, delimiter_len) ↦
      let rest : SseValidator = record v { buffer = drop (index + delimiter_len) v.buffer } in
      let r = validate_frame parse rest (take index v.buffer) in
      elim r.1 [ true ↦ drain_frames fuel parse r.0 | false ↦ some (r.0, false) ]
]

unfoldable pub feed : (Text → Option Value) → SseValidator → Bytes → Option (SseValidator × Bool)
feed parse v bytes =
    if ltb (256 * 1024 * 1024) (min (length v.buffer + length bytes) (2 ^ 64 - 1))
    then some (v, false)
    else drain_frames (suc (length v.buffer + length bytes)) parse
        (record v { buffer = v.buffer ++ bytes })

unfoldable pub finish : SseValidator → Bool
finish v = all is_ascii_whitespace v.buffer && v.done && leb 1 v.data_frame_count

-- A stream in chunks, up to the first that is refused.
unfoldable pub feed_all : (Text → Option Value) → SseValidator → List Bytes → Option SseValidator
feed_all parse v [] = some v
feed_all parse v (bytes ∷ chunks) =
    and_then (feed parse v bytes) (λ r. if r.1 then feed_all parse r.0 chunks else none)
