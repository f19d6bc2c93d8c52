-- ===== src/Responses.antt =====
-- `validate_chat_response` of crates/gateway/src/provider.rs. The JSON parsers are parameters: `parse` reads a
-- text of the stream, `from_slice` a whole body.
pub mod Accepted
use nvidia_build_lb.Prelude.{
  ℕ, Bytes, String, Bool, true, false, not, ◌&&◌, ◌||◌, List, [], ◌∷◌, Option, none, some, all,
  if◌then◌else◌,
}
use nvidia_build_lb.Json.{
  Value, Map, Integer, at_least_zero, below_zero, keys, get, get_str, as_str, as_array, as_object,
  as_u64, as_i64, is_null, is_string, is_array, is_object, and_then, is_some_and, is_text, one_of,
  is_empty_text, entries, absent_or,
}
use nvidia_build_lb.Vault.State.{Text}
use nvidia_build_lb.Requests.{has_items}
use nvidia_build_lb.Sse.{fresh, feed, finish}

abbrev pub response_keys : List String
response_keys =
    "id" ∷ "object" ∷ "created" ∷ "model" ∷ "choices" ∷ "usage" ∷ "system_fingerprint"
    ∷ "service_tier" ∷ "prompt_filter_results" ∷ "reasoning" ∷ "reasoning_content" ∷ []

abbrev pub choice_keys : List String
choice_keys = "index" ∷ "message" ∷ "finish_reason" ∷ "logprobs" ∷ "content_filter_results" ∷ []

abbrev pub message_keys : List String
message_keys =
    "role" ∷ "content" ∷ "tool_calls" ∷ "function_call" ∷ "refusal" ∷ "audio" ∷ "annotations" ∷ []

abbrev pub usage_keys : List String
usage_keys =
    "prompt_tokens" ∷ "completion_tokens" ∷ "total_tokens" ∷ "prompt_tokens_details"
    ∷ "completion_tokens_details" ∷ []

abbrev pub has_text : Map → String → Bool
has_text fs name = is_some_and (get_str fs name) (λ s. not (is_empty_text s))

abbrev pub is_text_or_null : Value → Bool
is_text_or_null v = is_string v || is_null v

abbrev pub is_not_negative : Integer → Bool
is_not_negative (at_least_zero _) = true
is_not_negative (below_zero _) = false

unfoldable pub valid_message : Map → Bool
valid_message message =
    all (one_of message_keys) (keys message)
    && has_text message "role"
    && absent_or message "content" is_text_or_null
    && absent_or message "refusal" is_text_or_null
    && absent_or message "tool_calls" is_array
    && absent_or message "annotations" is_array

-- One round of the loop over the choices.
unfoldable pub valid_choice : Value → Bool
valid_choice v = is_some_and (as_object v) λ choice.
    all (one_of choice_keys) (keys choice)
    && is_some_and (and_then (get choice "index") as_u64) (λ _. true)
    && is_some_and (get choice "finish_reason") is_text_or_null
    && is_some_and (and_then (get choice "message") as_object) valid_message

unfoldable pub valid_usage_entry : String × Value → Bool
valid_usage_entry (name, v) =
    if one_of ("prompt_tokens" ∷ "completion_tokens" ∷ "total_tokens" ∷ []) name
    then is_some_and (as_u64 v) (λ _. true)
    else is_object v || is_null v

unfoldable pub valid_usage : Value → Bool
valid_usage v =
    is_some_and (as_object v)
      λ usage. all (one_of usage_keys) (keys usage) && all valid_usage_entry (entries usage)

unfoldable pub valid_response : Map → Bool
valid_response fs =
    all (one_of response_keys) (keys fs)
    && is_text "chat.completion" (get_str fs "object")
    && has_text fs "id"
    && has_text fs "model"
    && absent_or fs "created" (λ v. is_some_and (as_i64 v) is_not_negative)
    && is_some_and (and_then (get fs "choices") as_array)
        (λ choices. has_items choices && all valid_choice choices)
    && absent_or fs "usage" valid_usage

-- Nothing only if the validator's fuel ran out.
unfoldable pub validate_chat_response :
    (Text → Option Value) → (Bytes → Option Value) → Bytes → Bool → Option Bool
validate_chat_response parse from_slice body true =
    and_then (feed parse fresh body) (λ r. some (r.1 && finish r.0))
validate_chat_response parse from_slice body false =
    some (is_some_and (and_then (from_slice body) as_object) valid_response)
