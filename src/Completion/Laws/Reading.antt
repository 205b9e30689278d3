-- ===== src/Completion/Laws/Reading.antt =====
-- What `_to_response` of src/services/completion.py reads of the body of a response.
use prd_api_wrapper.Prelude.{
  String, ℤ, ◌≡◌, refl, ◌⊎◌, inl, inr, ◌↔◌, true, false, Option, none, some, arith, sym, ◌∙◌,
  Bool-cases, Option-cases,
}
use prd_api_wrapper.Json.{
  Json, Entries, entry, no_entry, obj, arr, str, int, float, bool, null, nat, json_truthy, member,
  get_entry,
}
use prd_api_wrapper.Errors.{ErrorClass, new, no_args}
use prd_api_wrapper.Errors.Handlers.{Raised, app}
use prd_api_wrapper.Exec.{ok, raised}
use prd_api_wrapper.Completion.Models.{CompletionResponse}
use prd_api_wrapper.Completion.Upstream.{
  Runtime, to_response, response_of, usage_of, usage_field, first,
}
use prd_api_wrapper.Completion.Laws.{to_response_app}

-- `v[k]` as a text of the model, and the content of the first choice.
abbrev pub text_at : Runtime → String → Json → Option String
text_at rt k v = elim (member k v) [ none ↦ none | some w ↦ rt.str_field w ]

abbrev pub content_at : Runtime → Json → Option String
content_at rt v = elim (member "choices" v) [
  | none ↦ none
  | some choices ↦ elim (first choices) [
    | none ↦ none
    | some choice ↦ elim (member "message" choice) [
      | none ↦ none
      | some message ↦ text_at rt "content" message
    ]
  ]
]

-- There is no usage, or it is null, empty or zero.
abbrev pub IsBlank : Option Json → Type 0
IsBlank none = Unit
IsBlank (some u) = json_truthy u ≡ false

-- The number that the usage of a body has under a name: what stands there, and 0 where the usage
-- does not have the name, or where there is no usage to speak of.
abbrev pub CountAt : Runtime → String → Json → ℤ → Type 0
CountAt rt name v n =
    ((fs : Entries) × (w : Json) × (member "usage" v ≡ some (obj fs))
      × (get_entry name fs ≡ some w)
      × (rt.int_field w ≡ some n))
    ⊎ ((fs : Entries) × (member "usage" v ≡ some (obj fs))
        × (get_entry name fs ≡ none)
        × (rt.int_field (nat 0) ≡ some n))
    ⊎ (IsBlank (member "usage" v) × (rt.int_field (nat 0) ≡ some n))

-- What a response says of the body that it was made from.
pub record IsReadFrom (rt : Runtime) (v : Json) (r : CompletionResponse) : Type 0 where
  pub id : text_at rt "id" v ≡ some r.id
  pub model : text_at rt "model" v ≡ some r.model
  pub content : content_at rt v ≡ some r.content
  pub prompt_tokens : CountAt rt "prompt_tokens" v r.usage.prompt_tokens
  pub completion_tokens : CountAt rt "completion_tokens" v r.usage.completion_tokens

usage_of-full :
    (fs : Entries) (u : Json)
    → get_entry "usage" fs ≡ some u
    → json_truthy u ≡ true
    → usage_of fs ≡ u
unfolding usage_of
usage_of-full fs u e full = rw (usage_of, e, full) refl

usage_of-blank : (fs : Entries) → IsBlank (get_entry "usage" fs) → usage_of fs ≡ obj no_entry
unfolding usage_of
usage_of-blank fs blank = elim (Option-cases (get_entry "usage" fs)) [
  | inl e ↦ rw (usage_of, e) refl
  | inr (u, e) ↦
      let none_there : json_truthy u ≡ false = rw e at blank in rw (usage_of, e, none_there) refl
]

module _ (rt : Runtime) (name : String) (n : ℤ) where
  object_field :
      (fs es : Entries)
      → get_entry "usage" fs ≡ some (obj es)
      → usage_field rt name (obj es) ≡ some n
      → CountAt rt name (obj fs) n
  unfolding usage_field member
  object_field fs es there h = elim (Option-cases (get_entry name es)) [
    | inl absent ↦ inr (inl (es, there, absent, ground arith))
    | inr (w, e) ↦ inl (es, w, there, e, ground arith)
  ]

  field_of_value :
      (fs : Entries) (u : Json)
      → get_entry "usage" fs ≡ some u
      → json_truthy u ≡ true
      → usage_field rt name u ≡ some n
      → CountAt rt name (obj fs) n
  field_of_value fs (obj es) there full h = object_field fs es there h
  field_of_value fs (str s) there full h = unfold usage_field in cc
  field_of_value fs (arr s) there full h = unfold usage_field in cc
  field_of_value fs (int s) there full h = unfold usage_field in cc
  field_of_value fs (float s z) there full h = unfold usage_field in cc
  field_of_value fs (bool s) there full h = unfold usage_field in cc
  field_of_value fs null there full h = unfold usage_field in cc

  blank_field : usage_field rt name (obj no_entry) ≡ rt.int_field (nat 0)
  unfolding usage_field get_entry
  blank_field = refl

  usage_field-CountAt :
      (fs : Entries) (o : Option Json)
      → get_entry "usage" fs ≡ o
      → usage_field rt name (usage_of fs) ≡ some n
      → CountAt rt name (obj fs) n
  unfolding member
  usage_field-CountAt fs none e h =
      inr (inr (rw e tt, sym blank_field ∙ rw (usage_of-blank fs (rw e tt)) at h))
  usage_field-CountAt fs (some u) e h = elim (Bool-cases (json_truthy u)) [
    | inl full ↦ field_of_value fs u e full (rw (usage_of-full fs u e full) at h)
    | inr blank ↦ inr (inr (rw e blank, sym blank_field ∙ rw (usage_of-blank fs (rw e blank)) at h))
  ]

  present-usage_field :
      (fs es : Entries) (w : Json)
      → get_entry "usage" fs ≡ some (obj es)
      → get_entry name es ≡ some w
      → rt.int_field w ≡ some n
      → usage_field rt name (usage_of fs) ≡ some n
  unfolding usage_field
  present-usage_field fs no_entry w there e h = unfold get_entry in cc
  present-usage_field fs (entry k v es) w there e h =
      rw (usage_of-full fs (obj (entry k v es)) there (unfold json_truthy in refl), usage_field, e)
        h

  absent-usage_field :
      (fs es : Entries)
      → get_entry "usage" fs ≡ some (obj es)
      → get_entry name es ≡ none
      → rt.int_field (nat 0) ≡ some n
      → usage_field rt name (usage_of fs) ≡ some n
  unfolding usage_field
  absent-usage_field fs no_entry there e h =
      rw (usage_of-blank fs (rw there (unfold json_truthy in refl))) (blank_field ∙ h)
  absent-usage_field fs (entry k v es) there e h =
      rw (usage_of-full fs (obj (entry k v es)) there (unfold json_truthy in refl))
        (rw (usage_field, e) h)

  CountAt-usage_field :
      (fs : Entries) → CountAt rt name (obj fs) n → usage_field rt name (usage_of fs) ≡ some n
  unfolding member
  CountAt-usage_field fs (inl (es, w, there, e, h)) = present-usage_field fs es w there e h
  CountAt-usage_field fs (inr (inl (es, there, e, h))) = absent-usage_field fs es there e h
  CountAt-usage_field fs (inr (inr (blank, h))) = rw (usage_of-blank fs blank) (blank_field ∙ h)

response_of_parts :
    (rt : Runtime) (fs : Entries) (r : CompletionResponse)
    → response_of rt fs ≡ some r
    → IsReadFrom rt (obj fs) r
unfolding response_of member
response_of_parts rt fs r h =
    let count = λ (name : String) (n : ℤ) (e : usage_field rt name (usage_of fs) ≡ some n).
      usage_field-CountAt rt name n fs (get_entry "usage" fs) refl e in
    record {
      id = ground arith;
      model = ground arith;
      content = ground arith;
      prompt_tokens = count "prompt_tokens" r.usage.prompt_tokens (ground arith);
      completion_tokens = count "completion_tokens" r.usage.completion_tokens (ground arith);
    }

IsReadFrom-response_of :
    (rt : Runtime) (fs : Entries) (r : CompletionResponse)
    → IsReadFrom rt (obj fs) r
    → response_of rt fs ≡ some r
unfolding response_of member
IsReadFrom-response_of rt fs r h =
    let p = CountAt-usage_field rt "prompt_tokens" r.usage.prompt_tokens fs h.prompt_tokens in
    let q =
      CountAt-usage_field rt "completion_tokens" r.usage.completion_tokens fs h.completion_tokens in
    let i = h.id in let m = h.model in let c = h.content in ground arith

or_invalid-ok :
    (rt : Runtime) (fs : Entries) (r : CompletionResponse)
    → to_response rt (obj fs) ≡ ok r
    → response_of rt fs ≡ some r
unfolding to_response
or_invalid-ok rt fs r h = ground arith

to_response-IsReadFrom :
    (rt : Runtime) (v : Json) (r : CompletionResponse) → to_response rt v ≡ ok r → IsReadFrom rt v r
to_response-IsReadFrom rt (obj fs) r h = response_of_parts rt fs r (or_invalid-ok rt fs r h)
to_response-IsReadFrom rt _ r h = unfold to_response in cc

IsReadFrom-to_response :
    (rt : Runtime) (v : Json) (r : CompletionResponse) → IsReadFrom rt v r → to_response rt v ≡ ok r
unfolding to_response
IsReadFrom-to_response rt (obj fs) r h = rw (to_response, IsReadFrom-response_of rt fs r h) refl
IsReadFrom-to_response rt _ r h = let id = h.id in unfold member in cc

-- A body gives a response exactly if it is an object with an id, a model, and a content of the
-- message of its first choice, all texts to pydantic, and with two counts of tokens, integers to
-- pydantic, that stand in its usage or are 0; the response has them all from their places. Every
-- other body is reported as a response that could not be parsed.
pub to_response_outcome :
    (rt : Runtime) (v : Json)
    → ((r : CompletionResponse) → (to_response rt v ≡ ok r) ↔ IsReadFrom rt v r)
      × ((e : Raised)
          → to_response rt v ≡ raised e
          → e ≡ app (new ErrorClass.invalid_upstream_response no_args))
to_response_outcome rt v =
    (λ r. (to_response-IsReadFrom rt v r, IsReadFrom-to_response rt v r), to_response_app rt v)
