-- ===== src/Requests/Modality.antt =====
-- What a JSON body that crates/gateway/src/proxy.rs lets through to a modality's path is.
use nvidia_build_lb.Prelude.{
  String, str_eq, str_eq_iff, Bytes, true, not, List, [], ◌∷◌, Option, some, All, ◌≡◌, ◌↔◌, refl,
  sym, ap, ◌∙◌, subst, arith, Bool-cases, inl, inr, codes, starts_with,
}
use nvidia_build_lb.Json.{Value, Map, keys, get_str, as_object, one_of}
use nvidia_build_lb.Media.{Base64}
use nvidia_build_lb.Requests.{
  Refusal, pass, refuse_if, profiles, profile_supports_path, model_of, check_profile,
}
use nvidia_build_lb.Requests.Checks.{bind-passes, then-passes, ok_or_else-passes, refuse_if-passes}
use nvidia_build_lb.Requests.Chat.{check_fields_iff, pass-injective, not-eq-false}
use nvidia_build_lb.Requests.Bodies.{
  required_fields, allowed_fields, contains_key, check_required, check_path,
  validate_modality_fields, required_again, parse_json_request,
}

check_required_iff :
    (names : List String) (fs : Map)
    → (check_required names fs ≡ pass tt) ↔ All (λ name. contains_key fs name ≡ true) names
unfolding check_required
check_required_iff [] fs = (λ _. tt, λ _. refl)
check_required_iff (name ∷ names) fs = ground (
  arith,
  then-passes tt (refuse_if (not (contains_key fs name)) (Refusal.required name))
      (check_required names fs),
  refuse_if-passes (not (contains_key fs name)) (Refusal.required name),
  check_required_iff names fs,
)

-- What the parts of the parser have passed.
model_of_lem :
    (fs : Map) (model : String) → model_of fs ≡ pass model → get_str fs "model" ≡ some model
unfolding model_of
model_of_lem fs model e =
    let (model', has, e₁) = (bind-passes model _ _).0 e in
    let (_, same_model) = (then-passes model _ _).0 e₁ in
    (ok_or_else-passes _ _ _).0 has ∙ ap some (pass-injective model' model same_model)

check_profile_lem :
    (path model : String)
    → check_profile path model ≡ pass tt
    → (one_of profiles model ≡ true) × (profile_supports_path path model ≡ true)
unfolding check_profile
check_profile_lem path model e =
    let (known, supported) = (then-passes tt _ _).0 e in
    (
      not-eq-false _ ((refuse_if-passes _ _).0 known),
      not-eq-false _ ((refuse_if-passes _ _).0 supported),
    )

validate_modality_fields_lem :
    (engine : Base64) (path : String) (fs : Map)
    → validate_modality_fields engine path fs ≡ pass tt
    → All (λ name. contains_key fs name ≡ true) (required_fields path)
      × All (λ name. one_of (allowed_fields path) name ≡ true) (keys fs)
      × (check_path engine path fs ≡ pass tt)
unfolding validate_modality_fields
validate_modality_fields_lem engine path fs e =
    let (complete, e₁) = (then-passes tt _ _).0 e in
    let (known, rest) = (then-passes tt _ _).0 e₁ in
    ((check_required_iff _ _).0 complete, (check_fields_iff _ _).0 known, rest)

-- The fields of the second check are among those of the first, path by path.
again :
    (path : String) (fs : Map)
    → All (λ name. contains_key fs name ≡ true) (required_fields path)
    → All (λ name. contains_key fs name ≡ true) (required_again path)
again path fs h = elim (Bool-cases (str_eq path "/v1/images/generations")) [
  | inl a ↦ rw a (at "/v1/images/generations" a h)
  | inr not_a ↦ rw not_a (elim (Bool-cases (str_eq path "/v1/videos/generations")) [
    | inl b ↦ rw b (at "/v1/videos/generations" b h)
    | inr not_b ↦ rw not_b (elim (Bool-cases (str_eq path "/v1/embeddings")) [
      | inl c ↦ rw c (at "/v1/embeddings" c h)
      | inr not_c ↦ rw not_c (elim (Bool-cases (str_eq path "/v1/audio/speech")) [
        | inl d ↦ rw d (at "/v1/audio/speech" d h)
        | inr not_d ↦ rw not_d tt
      ])
    ])
  ])
]
  where
    at :
        (q : String)
        → str_eq path q ≡ true
        → All (λ name. contains_key fs name ≡ true) (required_fields path)
        → All (λ name. contains_key fs name ≡ true) (required_fields q)
    at q e k =
        subst (λ (r : String). All (λ name. contains_key fs name ≡ true) (required_fields r))
          ((str_eq_iff path q).0 e) k

-- A body that may go to the provider on a path.
pub record IsRouted (path : String) (request : Value) : Type 0 where
  pub fs : Map
  pub model : String
  pub is_fields : as_object request ≡ some fs
  pub has_model : get_str fs "model" ≡ some model
  pub advertised : one_of profiles model ≡ true
  pub supported : profile_supports_path path model ≡ true
  pub complete : All (λ name. contains_key fs name ≡ true) (required_fields path)
  pub known_fields : All (λ name. one_of (allowed_fields path) name ≡ true) (keys fs)

-- A body that passes is the body that was parsed, under a JSON content type, and it is routed: its model
-- is advertised and supports the very path, all fields that the path asks for are there, and there is
-- no field that the path does not take.
pub parse_json_request-IsRouted :
    (engine : Base64) (path : String) (body : Option Value) (content_type : Bytes) (request : Value)
    → parse_json_request engine path body content_type ≡ pass request
    → (body ≡ some request)
      × (starts_with (codes "application/json") content_type ≡ true)
      × IsRouted path request
unfolding parse_json_request
parse_json_request-IsRouted engine path body content_type request e =
    let (typed, e₁) = (then-passes request _ _).0 e in
    let (value, parsed, e₂) = (bind-passes request _ _).0 e₁ in
    let (fs, is, e₃) = (bind-passes request _ _).0 e₂ in
    let (model, named, e₄) = (bind-passes request _ _).0 e₃ in
    let (profile, e₅) = (then-passes request _ _).0 e₄ in
    let (fields, e₆) = (then-passes request _ _).0 e₅ in
    let (_, same_value) = (then-passes request _ _).0 e₆ in
    let same : value ≡ request = pass-injective value request same_value in
    let (advertised, supported) = check_profile_lem path model profile in
    let (complete, known, _) = validate_modality_fields_lem engine path fs fields in
    (
      (ok_or_else-passes _ _ _).0 parsed ∙ ap some same,
      not-eq-false _ ((refuse_if-passes _ _).0 typed),
      record {
        fs = fs;
        model = model;
        is_fields = ap as_object (sym same) ∙ (ok_or_else-passes _ _ _).0 is;
        has_model = model_of_lem fs model named;
        advertised = advertised;
        supported = supported;
        complete = complete;
        known_fields = known;
      },
    )

-- No request is refused for want of a field after `validate_modality_fields` has passed it: the second
-- check of the required field always passes.
pub validate_modality_fields-check_required :
    (engine : Base64) (path : String) (fs : Map)
    → validate_modality_fields engine path fs ≡ pass tt
    → check_required (required_again path) fs ≡ pass tt
validate_modality_fields-check_required engine path fs e =
    (check_required_iff (required_again path) fs).1
      (again path fs (validate_modality_fields_lem engine path fs e).0)
