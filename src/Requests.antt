-- ===== src/Requests.antt =====
-- The request checks of crates/gateway/src/proxy.rs: which models a path takes, and which chat requests
-- pass `validate_chat_request`.
pub mod Checks
pub mod Content
pub mod Chat
pub mod Bodies
pub mod Modality
use nvidia_build_lb.Prelude.{
  ℕ, ◌*◌, String, str_eq, Bool, true, false, not, ◌&&◌, ◌||◌, List, [], ◌∷◌, Option, none, some,
  all, any, find_by, leb, ltb, ◌==◌, codes, if◌then◌else◌, min, max,
}
use nvidia_build_lb.Json.{
  Value, Map, keys, get, get_str, as_str, as_array, as_object, as_u64, is_null, is_string, is_array,
  is_object, and_then, is_some_and, is_none_or, is_text, one_of, is_empty_text, is_blank,
}
use nvidia_build_lb.Vault.Shapes.{trim}
use nvidia_build_lb.Vault.State.{Time, second, KeySummary}
use nvidia_build_lb.Router.{eligible}

-- The error responses, by their message where they carry one. `required` and `unsupported` have the
-- name of the field, `too_large` is the status 413.
pub data Refusal : Type 0 where
  invalid_request required unsupported : String → Refusal
  model_not_found model_route_mismatch : Refusal

pub data Checked {ℓ} (A : Type ℓ) : Type ℓ where
  pass : A → Checked A
  refuse : Refusal → Checked A

infixl 5 ◌>>=◌ ◌>>◌
abbrev pub ◌>>=◌ {ℓ κ} : {A : Type ℓ} {B : Type κ} → Checked A → (A → Checked B) → Checked B
pass a >>= f = f a
refuse e >>= f = refuse e

abbrev pub ◌>>◌ {ℓ} : {B : Type ℓ} → Checked (Unit {0}) → Checked B → Checked B
pass _ >> k = k
refuse e >> k = refuse e

-- `if fails { return Err(e) }`
abbrev pub refuse_if : Bool → Refusal → Checked (Unit {0})
refuse_if fails e = if fails then refuse e else pass tt

-- `ok_or_else(..)?`
abbrev pub ok_or_else {ℓ} : {A : Type ℓ} → Option A → Refusal → Checked A
ok_or_else none e = refuse e
ok_or_else (some a) e = pass a

abbrev pub profiles : List String
profiles =
    "z-ai/glm-5.2" ∷ "microsoft/phi-4-multimodal-instruct" ∷ "nvidia/vila" ∷ "nvidia/nvclip"
    ∷ "black-forest-labs/flux.1-kontext-dev" ∷ "stabilityai/stable-video-diffusion"
    ∷ "nvidia/magpie-tts-multilingual" ∷ "nvidia/parakeet-ctc-1.1b" ∷ []

unfoldable pub profile_supports_path : String → String → Bool
profile_supports_path path model =
    if str_eq path "/v1/chat/completions"
    then one_of ("z-ai/glm-5.2" ∷ "microsoft/phi-4-multimodal-instruct" ∷ "nvidia/vila" ∷ []) model
    else if str_eq path "/v1/embeddings"
    then str_eq model "nvidia/nvclip"
    else if str_eq path "/v1/images/generations"
    then str_eq model "black-forest-labs/flux.1-kontext-dev"
    else if str_eq path "/v1/videos/generations"
    then str_eq model "stabilityai/stable-video-diffusion"
    else if str_eq path "/v1/audio/speech"
    then str_eq model "nvidia/magpie-tts-multilingual"
    else if str_eq path "/v1/audio/transcriptions"
    then str_eq model "nvidia/parakeet-ctc-1.1b"
    else if str_eq path "/v1/nvidia/inference"
    then str_eq model "nvidia/vila"
    else false

unfoldable pub modality_body_limit : String → ℕ
modality_body_limit path =
    if str_eq path "/v1/images/generations"
    then 256 * 1024
    else if str_eq path "/v1/audio/speech"
    then 64 * 1024
    else if str_eq path "/v1/nvidia/inference"
    then 1024 * 1024
    else if one_of ("/v1/embeddings" ∷ "/v1/audio/transcriptions" ∷ []) path
    then 32 * 1024 * 1024
    else if str_eq path "/v1/videos/generations"
    then 32 * 1024 * 1024
    else 64 * 1024 * 1024

abbrev pub glm_allowed : List String
glm_allowed =
    "model" ∷ "messages" ∷ "stream" ∷ "temperature" ∷ "top_p" ∷ "max_tokens"
    ∷ "max_completion_tokens" ∷ "stop" ∷ "tools" ∷ "tool_choice" ∷ "response_format" ∷ "user" ∷ "n"
    ∷ "seed" ∷ "frequency_penalty" ∷ "presence_penalty" ∷ "metadata" ∷ "chat_template_kwargs" ∷ []

abbrev pub other_allowed : List String
other_allowed =
    "model" ∷ "messages" ∷ "stream" ∷ "temperature" ∷ "top_p" ∷ "max_tokens" ∷ "seed" ∷ []

-- The fields and the kinds of content that a chat model takes.
abbrev pub chat_fields : String → List String
chat_fields model = if str_eq model "z-ai/glm-5.2" then glm_allowed else other_allowed

abbrev pub chat_content : String → List String
chat_content model =
    if str_eq model "microsoft/phi-4-multimodal-instruct"
    then "text" ∷ "image_url" ∷ "audio_url" ∷ []
    else if str_eq model "nvidia/vila"
    then "text" ∷ "image_url" ∷ "video_url" ∷ []
    else "text" ∷ []

-- The `match` on the kind of one item.
unfoldable pub valid_item_of : String → Map → Bool
valid_item_of kind fs =
    if str_eq kind "text"
    then is_some_and (get_str fs "text") (λ s. not (is_empty_text s))
      && all (one_of ("type" ∷ "text" ∷ [])) (keys fs)
    else if one_of ("image_url" ∷ "audio_url" ∷ "video_url" ∷ []) kind
    then all (one_of ("type" ∷ "image_url" ∷ "audio_url" ∷ "video_url" ∷ [])) (keys fs)
      && is_some_and (get fs kind) (λ v. is_string v || is_object v)
    else false

unfoldable pub valid_item : List String → Value → Bool
valid_item allowed v =
    is_some_and (as_object v)
      (λ fs. is_some_and (get_str fs "type") (λ kind. one_of allowed kind && valid_item_of kind fs))

abbrev pub has_items {ℓ} : {A : Type ℓ} → List A → Bool
has_items [] = false
has_items (_ ∷ _) = true

unfoldable pub validate_chat_content : Value → List String → Bool
validate_chat_content (Value.text s) allowed = not (is_empty_text s)
validate_chat_content (Value.array vs) allowed =
    has_items (nvidia_build_lb.Json.elements_of vs)
    && all (valid_item allowed) (nvidia_build_lb.Json.elements_of vs)
validate_chat_content _ allowed = false

-- An assistant's message that only calls a tool or a function.
unfoldable pub calls_only : Map → Value → Bool
calls_only message content =
    is_null content
    && is_text "assistant" (get_str message "role")
    && (is_some_and (get message "tool_calls") is_array
        || is_some_and (get message "function_call") is_object)

abbrev pub roles : List String
roles = "system" ∷ "user" ∷ "assistant" ∷ "tool" ∷ []

-- One round of the loop over the messages.
unfoldable pub check_message : List String → Value → Checked (Unit {0})
check_message allowed v = do
  message ←
      ok_or_else (as_object v) (invalid_request "messages must contain valid role/content entries")
  refuse_if (not (is_some_and (get_str message "role") (one_of roles)))
      (invalid_request "message role is not supported")
  content ← ok_or_else (get message "content") (invalid_request "message content is required")
  refuse_if (not (calls_only message content) && not (validate_chat_content content allowed))
      (invalid_request "message content does not match the selected model")

unfoldable pub check_messages : List String → List Value → Checked (Unit {0})
check_messages allowed [] = pass tt
check_messages allowed (v ∷ more) = check_message allowed v >> check_messages allowed more

abbrev pub refuse_found : Option String → Checked (Unit {0})
refuse_found none = pass tt
refuse_found (some name) = refuse (unsupported name)

-- `object.keys().find(..)` with the refusal of the first field that is not allowed.
unfoldable pub check_fields : List String → Map → Checked (Unit {0})
check_fields allowed fs = refuse_found (find_by (λ name. not (one_of allowed name)) (keys fs))

-- The model of a request: a text that is not blank.
unfoldable pub model_of : Map → Checked String
model_of fs = do
  model ← ok_or_else (get_str fs "model") (invalid_request "model is required")
  refuse_if (is_blank (trim (codes model))) (invalid_request "model is required")
  pass model

unfoldable pub check_profile : String → String → Checked (Unit {0})
check_profile path model = do
  refuse_if (not (one_of profiles model)) model_not_found
  refuse_if (not (profile_supports_path path model)) model_route_mismatch

unfoldable pub validate_chat_request : Value → Checked (Unit {0})
validate_chat_request request = do
  fs ← ok_or_else (as_object request) (invalid_request "request body must be a JSON object")
  model ← model_of fs
  check_profile "/v1/chat/completions" model
  check_fields (chat_fields model) fs
  messages ←
      ok_or_else (and_then (get fs "messages") as_array)
        (invalid_request "messages must be an array")
  refuse_if (not (has_items messages))
      (invalid_request "messages must contain valid role/content entries")
  check_messages (chat_content model) messages

-- The mock provider's knobs.
abbrev pub metadata_of : Value → Option Map
metadata_of request = and_then (and_then (as_object request) (λ fs. get fs "metadata")) as_object

unfoldable pub mock_status : Value → Option ℕ
mock_status request =
    and_then (and_then (and_then (metadata_of request) (λ m. get m "mock_status")) as_u64) λ status.
      if status == 400 || status == 401 || status == 403 || status == 429 || status == 500
      then some status
      else none

unfoldable pub retryable_error_class : ℕ → String
retryable_error_class status_code =
    if status_code == 401 || status_code == 403
    then "upstream_auth_error"
    else if status_code == 402
    then "upstream_quota_error"
    else if status_code == 408
    then "upstream_timeout"
    else if status_code == 429
    then "upstream_rate_limited"
    else if leb 500 status_code && leb status_code 599
    then "upstream_server_error"
    else "upstream_failure"
