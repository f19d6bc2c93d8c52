-- ===== src/Requests/Chat.antt =====
-- Which chat requests crates/gateway/src/proxy.rs lets through.
use nvidia_build_lb.Prelude.{
  ◌<◌, length, if◌then◌else◌, ◌⊎◌, ◌&&◌, subst, String, str_eq, str_eq_iff, Bool, true, false, not,
  ◌||◌, List, [], ◌∷◌, some, find_by, All, ◌≡◌, ◌↔◌, refl, ap, ◌∙◌, arith, Bool-cases, inl, inr,
  codes,
}
use nvidia_build_lb.Json.{
  Value, Map, keys, get, get_str, as_array, as_object, and_then, one_of, is_blank,
}
use nvidia_build_lb.Vault.Shapes.{trim, is_whitespace}
use nvidia_build_lb.Requests.Content.{
  takes, CallsOnly, FitsContent, some_and_iff, or_iff, has_items_iff, validate_chat_content_iff,
  calls_only_iff, takes_lem,
}
use nvidia_build_lb.Requests.Checks.{bind-passes, then-passes, ok_or_else-passes, refuse_if-passes}
use nvidia_build_lb.Requests.{
  refuse_found, roles, pass, profiles, profile_supports_path, chat_content, validate_chat_content,
  calls_only, check_message, check_messages, check_fields, model_of, check_profile,
  validate_chat_request,
}

-- A message that a model with these kinds of content takes.
pub record FitsModel (allowed : String → Bool) (v : Value) : Type 0 where
  pub message : Map
  pub content : Value
  pub role : String
  pub is_message : as_object v ≡ some message
  pub has_role : get_str message "role" ≡ some role
  pub known_role : one_of ("system" ∷ "user" ∷ "assistant" ∷ "tool" ∷ []) role ≡ true
  pub has_content : get message "content" ≡ some content
  pub fits : CallsOnly message content ⊎ FitsContent allowed content

-- The fields that a chat model takes: the text model has tools, the multimodal ones have not.
abbrev pub fields_of : String → List String
fields_of model =
    if str_eq model "z-ai/glm-5.2"
    then "model" ∷ "messages" ∷ "stream" ∷ "temperature" ∷ "top_p" ∷ "max_tokens"
      ∷ "max_completion_tokens" ∷ "stop" ∷ "tools" ∷ "tool_choice" ∷ "response_format" ∷ "user"
      ∷ "n" ∷ "seed" ∷ "frequency_penalty" ∷ "presence_penalty" ∷ "metadata"
      ∷ "chat_template_kwargs" ∷ []
    else "model" ∷ "messages" ∷ "stream" ∷ "temperature" ∷ "top_p" ∷ "max_tokens" ∷ "seed" ∷ []

-- A chat request as its clients are told to write it.
pub record IsChatRequest (request : Value) : Type 0 where
  pub fs : Map
  pub model : String
  pub messages : List Value
  pub is_fields : as_object request ≡ some fs
  pub has_model : get_str fs "model" ≡ some model
  pub chat_model :
      one_of ("z-ai/glm-5.2" ∷ "microsoft/phi-4-multimodal-instruct" ∷ "nvidia/vila" ∷ []) model
      ≡ true
  pub known_fields : All (λ name. one_of (fields_of model) name ≡ true) (keys fs)
  pub has_messages : and_then (get fs "messages") as_array ≡ some messages
  pub some_message : 0 < length messages
  pub each_fits : All (FitsModel (takes model)) messages

pub pass-injective {ℓ} : {A : Type ℓ} (a b : A) → pass a ≡ pass b → a ≡ b
pass-injective a b e = cc

pub not-eq-false : (b : Bool) → not b ≡ false → b ≡ true
not-eq-false b h = ground arith

not_both : (a b : Bool) → not a && not b ≡ false → (a || b) ≡ true
not_both a b h = ground arith

both_not : (a b : Bool) → (a || b) ≡ true → not a && not b ≡ false
both_not a b h = ground arith

module _ (message : Map) (content : Value) (allowed : List String) where
  fits-of :
      (calls_only message content || validate_chat_content content allowed) ≡ true
      → CallsOnly message content ⊎ FitsContent (one_of allowed) content
  fits-of h = elim ((or_iff _ _).0 h) [
    | inl calls ↦ inl ((calls_only_iff message content).0 calls)
    | inr fits ↦ inr ((validate_chat_content_iff content allowed).0 fits)
  ]

  of-fits :
      CallsOnly message content ⊎ FitsContent (one_of allowed) content
      → (calls_only message content || validate_chat_content content allowed) ≡ true
  of-fits h = (or_iff _ _).1 (elim h [
    | inl calls ↦ inl ((calls_only_iff message content).1 calls)
    | inr fits ↦ inr ((validate_chat_content_iff content allowed).1 fits)
  ])

FitsModel-iff :
    (allowed : List String) (v : Value)
    → (check_message allowed v ≡ pass tt) ↔ FitsModel (one_of allowed) v
unfolding check_message
FitsModel-iff allowed v = (
  λ e.
      let (message, is, e₁) = (bind-passes tt _ _).0 e in
      let (role_ok, e₂) = (then-passes tt _ _).0 e₁ in
      let (content, has, fits) = (bind-passes tt _ _).0 e₂ in
      let (role, has_role, known) =
        (some_and_iff (get_str message "role") (one_of roles)).0
          (not-eq-false _ ((refuse_if-passes _ _).0 role_ok)) in
      record {
        message = message;
        content = content;
        role = role;
        is_message = (ok_or_else-passes _ _ _).0 is;
        has_role = has_role;
        known_role = known;
        has_content = (ok_or_else-passes _ _ _).0 has;
        fits = fits-of message content allowed (not_both _ _ ((refuse_if-passes _ _).0 fits));
      },
  λ h. (bind-passes tt _ _).1 (
    h.message,
    (ok_or_else-passes _ _ _).1 h.is_message,
    (then-passes tt _ _).1 (
      (refuse_if-passes _ _).1 (rw (h.has_role, h.known_role) refl),
      (bind-passes tt _ _).1 (
        h.content,
        (ok_or_else-passes _ _ _).1 h.has_content,
        (refuse_if-passes _ _).1 (both_not _ _ (of-fits h.message h.content allowed h.fits)),
      ),
    ),
  ),
)

All-known :
    (allowed names : List String)
    → (refuse_found (find_by (λ name. not (one_of allowed name)) names) ≡ pass tt)
      ↔ All (λ name. one_of allowed name ≡ true) names
All-known allowed [] = (λ _. tt, λ _. refl)
All-known allowed (x ∷ names) = ground (arith, All-known allowed names)

pub check_fields_iff :
    (allowed : List String) (fs : Map)
    → (check_fields allowed fs ≡ pass tt) ↔ All (λ name. one_of allowed name ≡ true) (keys fs)
unfolding check_fields
check_fields_iff allowed fs = All-known allowed (keys fs)

check_messages_iff :
    (allowed : List String) (vs : List Value)
    → (check_messages allowed vs ≡ pass tt) ↔ All (FitsModel (one_of allowed)) vs
unfolding check_messages
check_messages_iff allowed [] = (λ _. tt, λ _. refl)
check_messages_iff allowed (v ∷ vs) =
    ground (arith, FitsModel-iff allowed v, check_messages_iff allowed vs)

chat_messages_iff :
    (model : String) (vs : List Value)
    → (check_messages (chat_content model) vs ≡ pass tt) ↔ All (FitsModel (takes model)) vs
chat_messages_iff model vs =
    subst
      (λ (allowed : String → Bool).
        (check_messages (chat_content model) vs ≡ pass tt) ↔ All (FitsModel allowed) vs)
      (λ i kind. takes_lem model kind i) (check_messages_iff (chat_content model) vs)

-- A chat model is advertised, takes the chat path and has a name that is not blank.
chat_model-supported :
    (model : String)
    → one_of ("z-ai/glm-5.2" ∷ "microsoft/phi-4-multimodal-instruct" ∷ "nvidia/vila" ∷ []) model
      ≡ true
    → (one_of profiles model ≡ true)
      × (profile_supports_path "/v1/chat/completions" model ≡ true)
      × (is_blank (trim (codes model)) ≡ false)
unfolding profile_supports_path trim is_whitespace
chat_model-supported model h = elim (Bool-cases (str_eq model "z-ai/glm-5.2")) [
  | inl a ↦ rw ((str_eq_iff model "z-ai/glm-5.2").0 a) (refl, refl, refl)
  | inr not_a ↦ elim (Bool-cases (str_eq model "microsoft/phi-4-multimodal-instruct")) [
    | inl b ↦ rw ((str_eq_iff model "microsoft/phi-4-multimodal-instruct").0 b) (refl, refl, refl)
    | inr not_b ↦ rw ((str_eq_iff model "nvidia/vila").0 (ground arith)) (refl, refl, refl)
  ]
]

-- Exactly the well-formed chat requests pass: a JSON object with one of the three chat models, with only
-- the fields that this model takes, and with at least one message, each of them an object with one of the
-- four roles and with content that is some text or at least one item, each of them some text or a medium of
-- a kind that the model takes (or, from an assistant that calls a tool or a function, null content).
pub validate_chat_request_iff :
    (request : Value) → (validate_chat_request request ≡ pass tt) ↔ IsChatRequest request
unfolding validate_chat_request model_of check_profile profile_supports_path
validate_chat_request_iff request = (
  λ e.
      let (fs, is, e₁) = (bind-passes tt _ _).0 e in
      let (model, named, e₂) = (bind-passes tt _ _).0 e₁ in
      let (model', has, e₃) = (bind-passes model _ _).0 named in
      let (_, same_model) = (then-passes model _ _).0 e₃ in
      let (profile, e₄) = (then-passes tt _ _).0 e₂ in
      let (_, supported) = (then-passes tt _ _).0 profile in
      let (known, e₅) = (then-passes tt _ _).0 e₄ in
      let (messages, given, e₆) = (bind-passes tt _ _).0 e₅ in
      let (some_message, each) = (then-passes tt _ _).0 e₆ in
      record {
        fs = fs;
        model = model;
        messages = messages;
        is_fields = (ok_or_else-passes _ _ _).0 is;
        has_model =
            (ok_or_else-passes _ _ _).0 has ∙ ap some (pass-injective model' model same_model);
        chat_model = not-eq-false _ ((refuse_if-passes _ _).0 supported);
        known_fields = (check_fields_iff _ _).0 known;
        has_messages = (ok_or_else-passes _ _ _).0 given;
        some_message = (has_items_iff _).0 (not-eq-false _ ((refuse_if-passes _ _).0 some_message));
        each_fits = (chat_messages_iff model _).0 each;
      },
  λ h.
      let (advertised, supported, not_blank) = chat_model-supported h.model h.chat_model in
      (bind-passes tt _ _).1 (
        h.fs,
        (ok_or_else-passes _ _ _).1 h.is_fields,
        (bind-passes tt _ _).1 (
          h.model,
          (bind-passes h.model _ _).1 (
            h.model,
            (ok_or_else-passes _ _ _).1 h.has_model,
            (then-passes h.model _ _).1 ((refuse_if-passes _ _).1 not_blank, refl),
          ),
          (then-passes tt _ _).1 (
            (then-passes tt _ _).1 (
              (refuse_if-passes _ _).1 (ap not advertised),
              (refuse_if-passes _ _).1 (ap not supported),
            ),
            (then-passes tt _ _).1 (
              (check_fields_iff _ _).1 h.known_fields,
              (bind-passes tt _ _).1 (
                h.messages,
                (ok_or_else-passes _ _ _).1 h.has_messages,
                (then-passes tt _ _).1 (
                  (refuse_if-passes _ _).1 (ap not ((has_items_iff h.messages).1 h.some_message)),
                  (chat_messages_iff h.model _).1 h.each_fits,
                ),
              ),
            ),
          ),
        ),
      ),
)
