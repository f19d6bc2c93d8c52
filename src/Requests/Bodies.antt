-- ===== src/Requests/Bodies.antt =====
-- `validate_modality_fields`, `validate_video_options` and the JSON branch of `parse_multimodal_request`
-- in crates/gateway/src/proxy.rs. `serde_json::from_slice` and the crate `base64` are parameters.
use nvidia_build_lb.Prelude.{
  ◌^◌, ◌-◌, Bytes, String, str_eq, Bool, true, not, ◌&&◌, ◌||◌, List, [], ◌∷◌, Option, all, any,
  leb, length, codes, starts_with, if◌then◌else◌, ◌==◌,
}
use nvidia_build_lb.Json.{
  absent_or, Value, Map, get, as_str, as_array, as_object, as_u64, as_i64, as_f64, is_string,
  and_then, is_some_and, is_none_or, is_text, one_of, is_empty_text, is_blank, float_within,
  float_is, integer_within,
}
use nvidia_build_lb.Media.{Base64, valid_data_url}
use nvidia_build_lb.Vault.Shapes.{trim, is_control}
use nvidia_build_lb.Requests.{
  invalid_request, required, Checked, pass, refuse_if, ok_or_else, ◌>>=◌, ◌>>◌, has_items,
  check_fields, model_of, check_profile, validate_chat_request,
}

-- The fields that a path asks for, and those that it takes.
abbrev pub required_fields : String → List String
required_fields path =
    if str_eq path "/v1/embeddings"
    then "input" ∷ []
    else if str_eq path "/v1/images/generations"
    then "prompt" ∷ []
    else if str_eq path "/v1/audio/speech"
    then "input" ∷ []
    else if str_eq path "/v1/videos/generations"
    then "input_reference" ∷ []
    else if str_eq path "/v1/nvidia/inference"
    then "messages" ∷ []
    else []

abbrev pub allowed_fields : String → List String
allowed_fields path =
    if str_eq path "/v1/embeddings"
    then "model" ∷ "input" ∷ "encoding_format" ∷ "dimensions" ∷ "user" ∷ []
    else if str_eq path "/v1/images/generations"
    then "model" ∷ "prompt" ∷ "image" ∷ "n" ∷ "size" ∷ "response_format" ∷ "steps" ∷ "cfg_scale"
      ∷ "seed" ∷ "user" ∷ []
    else if str_eq path "/v1/audio/speech"
    then "model" ∷ "input" ∷ "voice" ∷ "response_format" ∷ "speed" ∷ []
    else if str_eq path "/v1/videos/generations"
    then "model" ∷ "input_reference" ∷ "seed" ∷ "cfg_scale" ∷ "motion_bucket_id" ∷ []
    else if str_eq path "/v1/nvidia/inference"
    then "model" ∷ "messages" ∷ "temperature" ∷ "top_p" ∷ "max_tokens" ∷ "seed" ∷ []
    else "model" ∷ []

-- `object.contains_key(field)`
abbrev pub contains_key : Map → String → Bool
contains_key fs name = is_some_and (get fs name) (λ _. true)

-- The loop over the required fields.
unfoldable pub check_required : List String → Map → Checked (Unit {0})
check_required [] fs = pass tt
check_required (name ∷ names) fs =
    refuse_if (not (contains_key fs name)) (required name) >> check_required names fs

-- `object[name]`, whose presence has been checked.
abbrev pub is_given : Map → String → (Value → Bool) → Bool
is_given fs name test = is_some_and (get fs name) test

abbrev pub is_nonempty_text : Value → Bool
is_nonempty_text v = is_some_and (as_str v) (λ s. not (is_empty_text s))

unfoldable pub check_embeddings : Map → Checked (Unit {0})
check_embeddings fs =
    refuse_if
      (not (
        is_given fs "input" λ v.
          is_nonempty_text v
          || is_some_and (as_array v)
              (λ items. has_items items && leb (length items) 64 && all is_nonempty_text items)))
      (invalid_request "input must be a non-empty string or an array of at most 64 strings")

abbrev pub sizes : List String
sizes = "1024x1024" ∷ "1792x1024" ∷ "1536x864" ∷ "1024x1792" ∷ "864x1536" ∷ []

abbrev pub is_data_url : Base64 → Value → Bool
is_data_url engine v = is_some_and (as_str v) (λ s. valid_data_url engine (codes s) true)

unfoldable pub check_images : Base64 → Map → Checked (Unit {0})
check_images engine fs = do
  refuse_if (not (is_given fs "prompt" is_string)) (invalid_request "prompt must be a string")
  refuse_if (not (absent_or fs "size" (λ v. is_some_and (as_str v) (one_of sizes))))
      (invalid_request "size must be one of 1024x1024, 1792x1024, 1536x864, 1024x1792, 864x1536")
  refuse_if (not (is_none_or (and_then (get fs "n") as_u64) (λ n. n == 1)))
      (invalid_request "n must be 1")
  refuse_if (not (absent_or fs "response_format" (λ v. is_text "b64_json" (as_str v))))
      (invalid_request "response_format must be b64_json")
  refuse_if (not (absent_or fs "image" (is_data_url engine)))
      (invalid_request "image must be a valid PNG or JPEG data URL")
  refuse_if (not (absent_or fs "steps" (λ v. is_some_and (as_u64 v) (λ n. leb 1 n && leb n 50))))
      (invalid_request "steps must be an integer from 1 to 50")
  refuse_if (not (absent_or fs "cfg_scale" (λ v. is_some_and (as_f64 v) (float_within 0 20))))
      (invalid_request "cfg_scale must be from 0 to 20")
  refuse_if (not (absent_or fs "seed" (λ v. is_some_and (as_u64 v) (λ _. true))))
      (invalid_request "seed must be a non-negative integer")

-- A JSON number is never a NaN.
unfoldable pub validate_video_options : Map → Checked (Unit {0})
validate_video_options fs = do
  refuse_if
      (not (absent_or fs "seed" (λ v. is_some_and (as_i64 v) (integer_within 0 (2 ^ 32 - 1)))))
      (invalid_request "seed must be an integer between 0 and 4294967295")
  refuse_if
      (not (
        absent_or fs "cfg_scale"
          (λ v. is_some_and (as_f64 v) (λ x. float_within 1 9 x && not (float_is 1 x)))))
      (invalid_request "cfg_scale must be greater than 1 and at most 9")
  refuse_if
      (not (absent_or fs "motion_bucket_id" (λ v. is_some_and (as_i64 v) (integer_within 127 127))))
      (invalid_request "motion_bucket_id must equal 127")

unfoldable pub check_videos : Base64 → Map → Checked (Unit {0})
check_videos engine fs = do
  refuse_if (not (is_given fs "input_reference" (is_data_url engine)))
      (invalid_request "input_reference must be a valid PNG or JPEG data URL")
  validate_video_options fs

unfoldable pub check_speech : Map → Checked (Unit {0})
check_speech fs = do
  refuse_if (not (is_given fs "input" is_string)) (invalid_request "input must be a string")
  refuse_if (not (absent_or fs "response_format" (λ v. is_text "wav" (as_str v))))
      (invalid_request "response_format must be wav")
  refuse_if (not (absent_or fs "speed" (λ v. is_some_and (as_f64 v) (float_is 1))))
      (invalid_request "speed must be 1.0")
  refuse_if
      (not (
        absent_or fs "voice" λ v.
          is_some_and (as_str v)
            (λ s. not (is_blank (trim (codes s)) || any is_control (codes s)))))
      (invalid_request "voice must be a non-empty safe string")

-- The `match` on the path.
unfoldable pub check_path : Base64 → String → Map → Checked (Unit {0})
check_path engine path fs =
    if str_eq path "/v1/embeddings"
    then check_embeddings fs
    else if str_eq path "/v1/images/generations"
    then check_images engine fs
    else if str_eq path "/v1/videos/generations"
    then check_videos engine fs
    else if str_eq path "/v1/audio/speech"
    then check_speech fs
    else if str_eq path "/v1/nvidia/inference"
    then validate_chat_request (Value.object fs)
    else pass tt

unfoldable pub validate_modality_fields : Base64 → String → Map → Checked (Unit {0})
validate_modality_fields engine path fs = do
  check_required (required_fields path) fs
  check_fields (allowed_fields path) fs
  check_path engine path fs

-- The field whose presence the caller checks once more.
abbrev pub required_again : String → List String
required_again path =
    if str_eq path "/v1/images/generations"
    then "prompt" ∷ []
    else if str_eq path "/v1/videos/generations"
    then "input_reference" ∷ []
    else if str_eq path "/v1/embeddings"
    then "input" ∷ []
    else if str_eq path "/v1/audio/speech"
    then "input" ∷ []
    else []

-- The branch for a JSON body, the body as `from_slice` parses it.
unfoldable pub parse_json_request : Base64 → String → Option Value → Bytes → Checked Value
parse_json_request engine path body content_type = do
  refuse_if (not (starts_with (codes "application/json") content_type))
      (invalid_request "JSON content-type is required for this modality")
  request ← ok_or_else body (invalid_request "request body must be valid JSON")
  fs ← ok_or_else (as_object request) (invalid_request "request body must be a JSON object")
  model ← model_of fs
  check_profile path model
  validate_modality_fields engine path fs
  check_required (required_again path) fs
  pass request
