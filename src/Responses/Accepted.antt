-- ===== src/Responses/Accepted.antt =====
-- What a provider's answer that crates/gateway/src/provider.rs accepts contains.
use nvidia_build_lb.Prelude.{
  ◌≤◌, Bytes, Bool, true, false, ◌&&◌, List, [], ◌∷◌, Option, some, all, ◌≡◌, refl, ap, ◌∙◌, arith,
  length,
}
use nvidia_build_lb.Json.{
  Value, Map, get, get_str, as_array, as_object, and_then, is_some_and, is_text,
}
use nvidia_build_lb.Vault.State.{Text}
use nvidia_build_lb.Requests.{has_items}
use nvidia_build_lb.Requests.Content.{some_and_iff}
use nvidia_build_lb.Sse.{SseValidator, fresh, feed, feed_all, finish}
use nvidia_build_lb.Sse.Streams.{feed-returns, feed_all-emitted}
use nvidia_build_lb.Responses.{validate_chat_response, valid_response, valid_choice, has_text}

-- A whole answer: it names its model and has a choice at least, each with a message.
pub record IsAnswer (fs : Map) : Type 0 where
  pub choices : List Value
  pub is_completion : is_text "chat.completion" (get_str fs "object") ≡ true
  pub names_id : has_text fs "id" ≡ true
  pub names_model : has_text fs "model" ≡ true
  pub has_choices : and_then (get fs "choices") as_array ≡ some choices
  pub some_choice : has_items choices ≡ true
  pub valid_choices : all valid_choice choices ≡ true

-- What an accepted body is, as a stream or as a whole.
abbrev pub IsAccepted : (Text → Option Value) → (Bytes → Option Value) → Bytes → Bool → Type 0
IsAccepted parse from_slice body true =
    (v : SseValidator) × (feed parse fresh body ≡ some (v, true))
    × (v.done ≡ true)
    × (1 ≤ length v.emitted)
IsAccepted parse from_slice body false =
    (fs : Map) × (and_then (from_slice body) as_object ≡ some fs) × IsAnswer fs

and_true : (a b : Bool) → a && b ≡ true → (a ≡ true) × (b ≡ true)
and_true a b h = ground arith

some-injective_Bool : (a b : Bool) → some a ≡ some b → a ≡ b
some-injective_Bool a b h = cc

finish-done : (v : SseValidator) → finish v ≡ true → v.done ≡ true
unfolding finish
finish-done v h = ground arith

IsAnswer_lem : (fs : Map) → valid_response fs ≡ true → IsAnswer fs
unfolding valid_response
IsAnswer_lem fs h =
    let (h₁, _) = and_true _ _ h in
    let (h₂, chosen) = and_true _ _ h₁ in
    let (h₃, _) = and_true _ _ h₂ in
    let (h₄, model) = and_true _ _ h₃ in
    let (h₅, id) = and_true _ _ h₄ in
    let (_, completion) = and_true _ _ h₅ in
    let (choices, is, good) =
      (some_and_iff (and_then (get fs "choices") as_array)
          (λ cs. has_items cs && all valid_choice cs)).0
        chosen in
    let (some_choice, each) = and_true _ _ good in
    record {
      choices = choices;
      is_completion = completion;
      names_id = id;
      names_model = model;
      has_choices = is;
      some_choice = some_choice;
      valid_choices = each;
    }

-- A provider's answer that is accepted has content: a stream was read to its end mark and emitted at least
-- one text, and a whole body is a completion with an identifier and a model that are not empty and with
-- at least one choice, each of them valid.
pub validate_chat_response-IsAccepted :
    (parse : Text → Option Value) (from_slice : Bytes → Option Value) (body : Bytes) (stream : Bool)
    → validate_chat_response parse from_slice body stream ≡ some true
    → IsAccepted parse from_slice body stream
unfolding validate_chat_response
validate_chat_response-IsAccepted parse from_slice body true e =
    let ((v, passed), is) = feed-returns parse fresh body in
    let both : passed && finish v ≡ true =
      some-injective_Bool (passed && finish v) true (rw (is, validate_chat_response) at e) in
    let (did_pass, ended) = and_true passed (finish v) both in
    let fed : feed parse fresh body ≡ some (v, true) =
      is ∙ ap (λ (b : Bool). some (v, b)) did_pass in
    (
      v,
      fed,
      finish-done v ended,
      feed_all-emitted parse v (body ∷ []) (unfold feed_all in rw (fed, feed_all) refl) ended,
    )
validate_chat_response-IsAccepted parse from_slice body false e =
    let good =
      some-injective_Bool (is_some_and (and_then (from_slice body) as_object) valid_response) true
        e in
    let (fs, is, valid) =
      (some_and_iff (and_then (from_slice body) as_object) valid_response).0 good in
    (fs, is, IsAnswer_lem fs valid)
