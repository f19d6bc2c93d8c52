-- ===== src/Tests/Gateway.antt =====
-- The checks of crates/gateway/src: runs, and the theorems on them at concrete inputs.
use nvidia_build_lb.Vault.State.{Text}
use nvidia_build_lb.Sse.{SseValidator, fresh, feed, feed_all, finish}
use nvidia_build_lb.Responses.{validate_chat_response}
use nvidia_build_lb.Responses.Accepted.{IsAccepted, validate_chat_response-IsAccepted}
use nvidia_build_lb.Sse.Frames.{Keeps}
use nvidia_build_lb.Sse.Streams.{feed-returns, feed-Keeps, feed-done, feed_all-emitted}
use nvidia_build_lb.Prelude.{
  length, ◌++◌, ◌≤◌, String, Bytes, Bool, true, false, List, [], ◌∷◌, Option, none, some, ◌≡◌, ◌↔◌,
  refl, codes, starts_with,
}
use nvidia_build_lb.Json.{
  null, number, Value, Map, text, array, object, element, end_of_array, entry, empty_map,
}
use nvidia_build_lb.Media.{Base64, Verdict, answer, accepts, valid_jpeg, jpeg_walk}
use nvidia_build_lb.Media.Segments.{HasFrame}
use nvidia_build_lb.Media.Jpeg.{valid_jpeg-HasFrame}
use nvidia_build_lb.Requests.{pass, validate_chat_request}
use nvidia_build_lb.Requests.Bodies.{
  check_required, required_again, validate_modality_fields, parse_json_request,
}
use nvidia_build_lb.Requests.Chat.{IsChatRequest, validate_chat_request_iff}
use nvidia_build_lb.Requests.Modality.{IsRouted, parse_json_request-IsRouted}

-- A start of image, a frame header of 8 by 16 pixels and an end of image.
abbrev small_jpeg : Bytes
small_jpeg =
    0xff ∷ 0xd8 ∷ 0xff ∷ 0xc0 ∷ 0 ∷ 11 ∷ 8 ∷ 0 ∷ 8 ∷ 0 ∷ 16 ∷ 1 ∷ 1 ∷ 0x11 ∷ 0 ∷ 0xff ∷ 0xd9 ∷ []

small_jpeg-accepted : accepts (valid_jpeg small_jpeg) ≡ true
unfolding valid_jpeg starts_with nvidia_build_lb.Prelude.same nvidia_build_lb.Media.jpeg_round
    nvidia_build_lb.Media.jpeg_fill nvidia_build_lb.Media.jpeg_marker
    nvidia_build_lb.Media.jpeg_segment nvidia_build_lb.Media.u16_be nvidia_build_lb.Media.jpeg_frame
small_jpeg-accepted = refl

valid_jpeg-HasFrame_example : HasFrame small_jpeg
valid_jpeg-HasFrame_example = valid_jpeg-HasFrame small_jpeg small_jpeg-accepted

abbrev hello : Value
hello = object (entry "content" (text "hello") (entry "role" (text "user") empty_map))

abbrev chat : Value
chat = object (
    entry "messages" (array (element hello end_of_array))
      (entry "model" (text "nvidia/vila") empty_map))

chat-passes : validate_chat_request chat ≡ pass tt
unfolding validate_chat_request nvidia_build_lb.Requests.model_of nvidia_build_lb.Vault.Shapes.trim
    nvidia_build_lb.Vault.Shapes.is_whitespace nvidia_build_lb.Requests.check_profile
    nvidia_build_lb.Requests.profile_supports_path nvidia_build_lb.Requests.check_fields
    nvidia_build_lb.Requests.check_messages nvidia_build_lb.Requests.check_message
    nvidia_build_lb.Requests.calls_only nvidia_build_lb.Requests.validate_chat_content
chat-passes = refl

validate_chat_request_iff_example : (validate_chat_request chat ≡ pass tt) ↔ IsChatRequest chat
validate_chat_request_iff_example = validate_chat_request_iff chat

abbrev engine : Base64
engine = record { decode = λ b. some b; encode = λ b. b }

abbrev question : Map
question = entry "input" (text "cat") (entry "model" (text "nvidia/nvclip") empty_map)

question-passes :
    parse_json_request engine "/v1/embeddings" (some (object question)) (codes "application/json")
    ≡ pass (object question)
unfolding parse_json_request starts_with nvidia_build_lb.Requests.model_of
    nvidia_build_lb.Vault.Shapes.trim nvidia_build_lb.Vault.Shapes.is_whitespace
    nvidia_build_lb.Requests.check_profile nvidia_build_lb.Requests.profile_supports_path
    validate_modality_fields check_required nvidia_build_lb.Requests.check_fields
    nvidia_build_lb.Requests.Bodies.check_path nvidia_build_lb.Requests.Bodies.check_embeddings
question-passes = refl

question-valid : validate_modality_fields engine "/v1/embeddings" question ≡ pass tt
unfolding validate_modality_fields check_required nvidia_build_lb.Requests.check_fields
    nvidia_build_lb.Requests.Bodies.check_path nvidia_build_lb.Requests.Bodies.check_embeddings
question-valid = refl

parse_json_request-IsRouted_example :
    (some (object question) ≡ some (object question))
    × (starts_with (codes "application/json") (codes "application/json") ≡ true)
    × IsRouted "/v1/embeddings" (object question)
parse_json_request-IsRouted_example =
    parse_json_request-IsRouted engine "/v1/embeddings" (some (object question))
      (codes "application/json") (object question) question-passes

abbrev delta : Value
delta = object (
    entry "delta" (object empty_map) (
      entry "finish_reason" null (
        entry "index" (number (record { unsigned = some 0; signed = none; float = none }))
          empty_map)))

abbrev chunk : Value
chunk = object (
    entry "choices" (array (element delta end_of_array)) (
      entry "id" (text "m1") (
        entry "model" (text "nvidia/vila")
          (entry "object" (text "chat.completion.chunk") empty_map))))

-- A parser that reads every text as the one chunk.
abbrev parse : Text → Option Value
parse s = some chunk

abbrev stream : Bytes
stream = codes "data: {}" ++ 10 ∷ 10 ∷ []

abbrev ending : Bytes
ending = codes "data: [DONE]" ++ 10 ∷ 10 ∷ []

abbrev after_first : SseValidator
after_first = record fresh {
  emitted = (codes "data: {}" ++ 10 ∷ 10 ∷ []) ∷ [];
  frame_count = 1;
  data_frame_count = 1;
  message_id = some "m1";
  model = some "nvidia/vila";
}

abbrev after_end : SseValidator
after_end = record after_first { done = true; frame_count = 2 }

first_chunk : feed parse fresh stream ≡ some (after_first, true)
unfolding feed nvidia_build_lb.Sse.drain_frames nvidia_build_lb.Media.position_of
    nvidia_build_lb.Prelude.starts_with nvidia_build_lb.Sse.validate_frame
    nvidia_build_lb.Prelude.is_utf8 nvidia_build_lb.Sse.take_lines nvidia_build_lb.Sse.data_lines
    nvidia_build_lb.Sse.end_lines nvidia_build_lb.Sse.split_lines
    nvidia_build_lb.Prelude.decode_utf8 nvidia_build_lb.Sse.read_line nvidia_build_lb.Sse.take_data
    nvidia_build_lb.Prelude.same nvidia_build_lb.Vault.Shapes.trim nvidia_build_lb.Sse.join_lines
    nvidia_build_lb.Vault.Shapes.is_whitespace nvidia_build_lb.Sse.read_chunk
    nvidia_build_lb.Sse.bad_choice nvidia_build_lb.Sse.event_line nvidia_build_lb.Sse.id_line
    nvidia_build_lb.Sse.retry_line nvidia_build_lb.Sse.strip_cr nvidia_build_lb.Sse.strip_prefix
    nvidia_build_lb.Sse.take_chunk
first_chunk = refl

last_chunk : feed parse after_first ending ≡ some (after_end, true)
unfolding feed nvidia_build_lb.Sse.drain_frames nvidia_build_lb.Media.position_of starts_with
    nvidia_build_lb.Sse.validate_frame nvidia_build_lb.Prelude.is_utf8
    nvidia_build_lb.Sse.take_lines nvidia_build_lb.Sse.data_lines nvidia_build_lb.Sse.end_lines
    nvidia_build_lb.Sse.split_lines nvidia_build_lb.Prelude.decode_utf8
    nvidia_build_lb.Sse.read_line nvidia_build_lb.Sse.take_data nvidia_build_lb.Prelude.same
    nvidia_build_lb.Vault.Shapes.trim nvidia_build_lb.Sse.join_lines
    nvidia_build_lb.Vault.Shapes.is_whitespace
last_chunk = refl

late_chunk : feed parse after_end stream ≡ some (after_end, false)
unfolding feed nvidia_build_lb.Sse.drain_frames nvidia_build_lb.Media.position_of starts_with
    nvidia_build_lb.Sse.validate_frame nvidia_build_lb.Prelude.is_utf8
late_chunk = refl

whole_stream : feed_all parse fresh (stream ∷ ending ∷ []) ≡ some after_end
unfolding feed_all
whole_stream = rw (first_chunk, feed_all) (rw (last_chunk, feed_all) refl)

well_ended : finish after_end ≡ true
unfolding finish
well_ended = refl

feed-returns_example : (r : SseValidator × Bool) × (feed parse fresh stream ≡ some r)
feed-returns_example = feed-returns parse fresh stream

feed-Keeps_example :
    Keeps (some "m1") after_end.message_id × Keeps (some "nvidia/vila") after_end.model
feed-Keeps_example = feed-Keeps parse after_first ending (after_end, true) last_chunk

feed-done_example : (after_end.done ≡ true) × (after_end.emitted ≡ after_end.emitted)
feed-done_example = feed-done parse after_end stream (after_end, false) refl late_chunk

feed_all-emitted_example : 1 ≤ length after_end.emitted
feed_all-emitted_example =
    feed_all-emitted parse after_end (stream ∷ ending ∷ []) whole_stream well_ended

abbrev reply : Value
reply = object (
    entry "choices"
      (array (
        element
          (object (
            entry "finish_reason" null (
              entry "index" (number (record { unsigned = some 0; signed = none; float = none }))
                (entry "message" (object (entry "role" (text "assistant") empty_map)) empty_map))))
          end_of_array))
      (entry "id" (text "r1")
        (entry "model" (text "nvidia/vila") (entry "object" (text "chat.completion") empty_map))))

abbrev read_reply : Bytes → Option Value
read_reply bytes = some reply

reply-passes : validate_chat_response parse read_reply [] false ≡ some true
unfolding validate_chat_response nvidia_build_lb.Responses.valid_response
    nvidia_build_lb.Responses.valid_choice nvidia_build_lb.Responses.valid_message
reply-passes = refl

validate_chat_response-IsAccepted_example : IsAccepted parse read_reply [] false
validate_chat_response-IsAccepted_example =
    validate_chat_response-IsAccepted parse read_reply [] false reply-passes
