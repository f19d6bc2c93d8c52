-- ===== src/Requests/Content.antt =====
-- The content of one chat message in crates/gateway/src/proxy.rs, as the clients are told to write it, and that
-- `validate_chat_content` and the exemption of a message that only calls accept just that.
use nvidia_build_lb.Prelude.{
  ℕ, ◌<◌, length, String, str_eq, str_eq_iff, Bool, true, false, not, ◌&&◌, ◌||◌, List, [], ◌∷◌,
  Option, none, some, all, All, ◌≡◌, ◌↔◌, ◌⊎◌, refl, sym, ap, ◌∙◌, arith, Bool-cases, inl, inr,
  codes, subst, if◌then◌else◌,
}
use nvidia_build_lb.Json.{
  null, boolean, Value, Map, text, array, object, number, keys, get, get_str, as_object,
  is_some_and, one_of, is_blank, is_empty_text, is_null, is_array, is_object, is_string,
  elements_of,
}
use nvidia_build_lb.Requests.{
  chat_content, valid_item_of, valid_item, has_items, validate_chat_content, calls_only,
}

-- The kinds of content that a chat model takes: text, and of the multimodal models one or two more.
abbrev pub takes : String → String → Bool
takes model kind =
    str_eq kind "text"
    || (if str_eq model "microsoft/phi-4-multimodal-instruct"
        then str_eq kind "image_url" || str_eq kind "audio_url"
        else str_eq model "nvidia/vila" && (str_eq kind "image_url" || str_eq kind "video_url"))

-- Some text, under no other field.
abbrev pub TextItem : String → Map → Type 0
TextItem kind fs =
    (kind ≡ "text")
    × ((s : String) × (get_str fs "text" ≡ some s) × (0 < length (codes s)))
    × All (λ name. one_of ("type" ∷ "text" ∷ []) name ≡ true) (keys fs)

-- A medium under the field of its kind, as a text or as an object.
pub record MediaItem (kind : String) (fs : Map) : Type 0 where
  pub medium : one_of ("image_url" ∷ "audio_url" ∷ "video_url" ∷ []) kind ≡ true
  pub given : (v : Value) × (get fs kind ≡ some v) × ((is_string v || is_object v) ≡ true)
  pub known :
      All
        (λ name. one_of ("type" ∷ "image_url" ∷ "audio_url" ∷ "video_url" ∷ []) name ≡ true)
        (keys fs)

pub record FitsItem (allowed : String → Bool) (v : Value) : Type 0 where
  pub fs : Map
  pub kind : String
  pub is_fields : as_object v ≡ some fs
  pub has_kind : get_str fs "type" ≡ some kind
  pub allowed_kind : allowed kind ≡ true
  pub item : TextItem kind fs ⊎ MediaItem kind fs

-- Some text, or at least one item and each of a kind that is allowed.
abbrev pub FitsContent : (String → Bool) → Value → Type 0
FitsContent allowed (text s) = 0 < length (codes s)
FitsContent allowed (array vs) =
    (0 < length (elements_of vs)) × All (FitsItem allowed) (elements_of vs)
FitsContent allowed _ = ⊥

-- An assistant's message with null content that calls a tool or a function.
pub record CallsOnly (message : Map) (content : Value) : Type 0 where
  pub empty : content ≡ null
  pub assistant : get_str message "role" ≡ some "assistant"
  pub calls :
      ((v : Value) × (get message "tool_calls" ≡ some v) × (is_array v ≡ true))
      ⊎ ((v : Value) × (get message "function_call" ≡ some v) × (is_object v ≡ true))

module _ {ℓ} {A : Type ℓ} where
  pub some_and_iff :
      (o : Option A) (p : A → Bool)
      → (is_some_and o p ≡ true) ↔ ((a : A) × (o ≡ some a) × (p a ≡ true))
  some_and_iff none p = (λ h. cc, λ h. cc)
  some_and_iff (some a) p = (
    λ h. (a, refl, h),
    λ (b, same, h). subst (λ (o : Option A). is_some_and o p ≡ true) (sym same) h,
  )

  all_iff :
      {P : A → Type 0} (p : A → Bool)
      → ((a : A) → (p a ≡ true) ↔ P a)
      → (xs : List A) → (all p xs ≡ true) ↔ All P xs
  all_iff p f [] = (λ _. tt, λ _. refl)
  all_iff p f (x ∷ xs) = (
    λ h. ((f x).0 (ground arith), (all_iff p f xs).0 (ground arith)),
    λ (h, hs). ground (arith, (f x).1 h, (all_iff p f xs).1 hs),
  )

some_text : (s : String) → (not (is_empty_text s) ≡ true) ↔ (0 < length (codes s))
some_text s = go (codes s)
  where
    go : (c : List ℕ) → (not (is_blank c) ≡ true) ↔ (0 < length c)
    go [] = (λ h. cc, λ h. absurd (omega (arith, h)))
    go (x ∷ c) = (λ h. omega arith, λ h. refl)

and_iff : (a b : Bool) → ((a && b) ≡ true) ↔ ((a ≡ true) × (b ≡ true))
and_iff a b = ground arith

names_iff :
    (allowed names : List String)
    → (all (one_of allowed) names ≡ true) ↔ All (λ name. one_of allowed name ≡ true) names
names_iff allowed names = all_iff (one_of allowed) (λ name. (λ h. h, λ h. h)) names

not_medium :
    (kind : String)
    → kind ≡ "text"
    → one_of ("image_url" ∷ "audio_url" ∷ "video_url" ∷ []) kind ≡ false
not_medium kind h = rw h refl

text_iff :
    (kind : String) (fs : Map)
    → kind ≡ "text"
    → ((is_some_and (get_str fs "text") (λ s. not (is_empty_text s))
          && all (one_of ("type" ∷ "text" ∷ [])) (keys fs))
        ≡ true)
      ↔ TextItem kind fs
text_iff kind fs is = (
  λ h.
      let (given, known) = (and_iff _ _).0 h in
      let (s, at, some_of) = (some_and_iff _ _).0 given in
      (is, (s, at, (some_text s).0 some_of), (names_iff ("type" ∷ "text" ∷ []) _).0 known),
  λ (_, (s, at, some_of), known). (and_iff _ _).1 (
    (some_and_iff _ _).1 (s, at, (some_text s).1 some_of),
    (names_iff ("type" ∷ "text" ∷ []) _).1 known,
  ),
)

media_iff :
    (kind : String) (fs : Map)
    → one_of ("image_url" ∷ "audio_url" ∷ "video_url" ∷ []) kind ≡ true
    → ((all (one_of ("type" ∷ "image_url" ∷ "audio_url" ∷ "video_url" ∷ [])) (keys fs)
          && is_some_and (get fs kind) (λ v. is_string v || is_object v))
        ≡ true)
      ↔ MediaItem kind fs
media_iff kind fs is = (
  λ h.
      let (known, given) = (and_iff _ _).0 h in
      (record {
        medium = is;
        given = (some_and_iff _ _).0 given;
        known = (names_iff ("type" ∷ "image_url" ∷ "audio_url" ∷ "video_url" ∷ []) _).0 known;
      }),
  λ h. (and_iff _ _).1 (
    (names_iff ("type" ∷ "image_url" ∷ "audio_url" ∷ "video_url" ∷ []) _).1 h.known,
    (some_and_iff _ _).1 h.given,
  ),
)

valid_item_of_iff :
    (kind : String) (fs : Map)
    → (valid_item_of kind fs ≡ true) ↔ (TextItem kind fs ⊎ MediaItem kind fs)
unfolding valid_item_of
valid_item_of_iff kind fs = elim (Bool-cases (str_eq kind "text")) [
  | inl hit ↦
      let is : kind ≡ "text" = (str_eq_iff kind "text").0 hit in
      rw hit (
        λ h. inl ((text_iff kind fs is).0 h),
        λ h. elim h [
          | inl t ↦ (text_iff kind fs is).1 t
          | inr m ↦ absurd (true-false _ m.medium (not_medium kind is))
        ],
      )
  | inr miss ↦
      rw miss (elim (Bool-cases (one_of ("image_url" ∷ "audio_url" ∷ "video_url" ∷ []) kind)) [
        | inl is ↦ rw is (
          λ h. inr ((media_iff kind fs is).0 h),
          λ h. elim h [
            | inl t ↦ absurd (true-false _ ((str_eq_iff kind "text").1 t.0) miss)
            | inr m ↦ (media_iff kind fs is).1 m
          ],
        )
        | inr none_of ↦ rw none_of (
          λ h. cc,
          λ h. elim h [
            | inl t ↦ absurd (true-false _ ((str_eq_iff kind "text").1 t.0) miss)
            | inr m ↦ absurd (true-false _ m.medium none_of)
          ],
        )
      ])
]
  where
    true-false : (b : Bool) → b ≡ true → b ≡ false → ⊥
    true-false b h k = cc

valid_item_iff :
    (allowed : List String) (v : Value)
    → (valid_item allowed v ≡ true) ↔ FitsItem (one_of allowed) v
unfolding valid_item
valid_item_iff allowed v = (
  λ h.
      let (fs, is, h₁) = (some_and_iff _ _).0 h in
      let (kind, has, h₂) = (some_and_iff _ _).0 h₁ in
      let (known, fits) = (and_iff _ _).0 h₂ in
      record {
        fs = fs;
        kind = kind;
        is_fields = is;
        has_kind = has;
        allowed_kind = known;
        item = (valid_item_of_iff kind fs).0 fits;
      },
  λ h. (some_and_iff _ _).1 (
    h.fs,
    h.is_fields,
    (some_and_iff _ _).1
        (h.kind, h.has_kind, (and_iff _ _).1 (h.allowed_kind, (valid_item_of_iff _ _).1 h.item)),
  ),
)

pub has_items_iff : (vs : List Value) → (has_items vs ≡ true) ↔ (0 < length vs)
has_items_iff [] = (λ h. cc, λ h. absurd (omega (arith, h)))
has_items_iff (v ∷ vs) = (λ h. omega arith, λ h. refl)

pub validate_chat_content_iff :
    (content : Value) (allowed : List String)
    → (validate_chat_content content allowed ≡ true) ↔ FitsContent (one_of allowed) content
unfolding validate_chat_content
validate_chat_content_iff (text s) allowed = some_text s
validate_chat_content_iff (array vs) allowed = (
  λ h.
      let (some_item, each) = (and_iff _ _).0 h in
      ((has_items_iff _).0 some_item, (all_iff _ (valid_item_iff allowed) _).0 each),
  λ h. (and_iff _ _).1 ((has_items_iff _).1 h.0, (all_iff _ (valid_item_iff allowed) _).1 h.1),
)
validate_chat_content_iff null allowed = (λ h. cc, λ h. absurd h)
validate_chat_content_iff (object fs) allowed = (λ h. cc, λ h. absurd h)
validate_chat_content_iff (number n) allowed = (λ h. cc, λ h. absurd h)
validate_chat_content_iff (boolean b) allowed = (λ h. cc, λ h. absurd h)

is_null_iff : (v : Value) → (is_null v ≡ true) ↔ (v ≡ null)
is_null_iff v = (go v, λ h. rw h refl)
  where
    go : (v : Value) → is_null v ≡ true → v ≡ null
    go null h = refl
    go (text s) h = cc
    go (array vs) h = cc
    go (object fs) h = cc
    go (number n) h = cc
    go (boolean b) h = cc

pub or_iff : (a b : Bool) → ((a || b) ≡ true) ↔ ((a ≡ true) ⊎ (b ≡ true))
or_iff a b = ground arith

pub calls_only_iff :
    (message : Map) (content : Value)
    → (calls_only message content ≡ true) ↔ CallsOnly message content
unfolding calls_only
calls_only_iff message content = (
  λ h.
      let (h₁, calls) = (and_iff _ _).0 h in
      let (is, role) = (and_iff _ _).0 h₁ in
      let (r, has, named) = (some_and_iff _ _).0 role in
      record {
        empty = (is_null_iff content).0 is;
        assistant = has ∙ ap some ((str_eq_iff r "assistant").0 named);
        calls = elim ((or_iff _ _).0 calls) [
          | inl tools ↦ inl ((some_and_iff _ _).0 tools)
          | inr function ↦ inr ((some_and_iff _ _).0 function)
        ];
      },
  λ h. (and_iff _ _).1 (
    (and_iff _ _).1 (
      (is_null_iff content).1 h.empty,
      (some_and_iff _ _).1 ("assistant", h.assistant, (str_eq_iff "assistant" "assistant").1 refl),
    ),
    (or_iff _ _).1 (elim h.calls [
      | inl tools ↦ inl ((some_and_iff _ _).1 tools)
      | inr function ↦ inr ((some_and_iff _ _).1 function)
    ]),
  ),
)

pub takes_lem : (model kind : String) → one_of (chat_content model) kind ≡ takes model kind
takes_lem model kind = ground arith
