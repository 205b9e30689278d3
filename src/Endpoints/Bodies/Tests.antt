-- ===== src/Endpoints/Bodies/Tests.antt =====
-- Bodies of requests, and the theorems at concrete inputs.
use prd_api_wrapper.Prelude.{
  ℕ, ℤ, pos, negsuc, ◌+◌, ◌↔◌, inl, [], String, ◌≡◌, refl, Bool, true, false, ◌&&◌, Option, none,
  some, leb, str_eq,
}
use prd_api_wrapper.Json.{
  Json, str, int, float, obj, arr, bool, null, nat, no_entry, entry, get_entry, member,
}
use prd_api_wrapper.Completion.Models.{CompletionRequest}
use prd_api_wrapper.Jobs.Models.{JobRequest}
use prd_api_wrapper.Jobs.Service.{completion_request}
use prd_api_wrapper.Resilience.Breaker
use prd_api_wrapper.Completion.Service.{
  State, Posted, timed_out, failed, Service, in_memory_record, complete,
}
use prd_api_wrapper.Endpoints.Bodies.Posts.{IsModest, complete_modest}
use prd_api_wrapper.Endpoints.{valid, invalid}
use prd_api_wrapper.Endpoints.Bodies.{Fields, default_temperature, completion_body, job_body}
use prd_api_wrapper.Endpoints.Bodies.Laws.{
  Documented, IsInBounds, to_json, completion_body_exactly, job_body-completion_request,
}

abbrev text_of : Json → Option String
text_of (str s) = some s
text_of _ = none

abbrev integer_of : Json → Option ℤ
integer_of (int n) = some n
integer_of _ = none

-- Integers, and 0.7.
abbrev float_of : Json → Option Json
float_of (int n) = some (int n)
float_of (float p b) = some (float p b)
float_of _ = none

abbrev at_least : Json → ℕ → Bool
at_least (int (pos m)) n = leb n m
at_least (float p b) n = str_eq p "0.7" && leb n 0
at_least _ n = false

abbrev at_most : Json → ℕ → Bool
at_most (int (pos m)) n = leb m n
at_most (int (negsuc m)) n = true
at_most (float p b) n = str_eq p "0.7" && leb 1 n
at_most _ n = false

abbrev plain_fields : Fields
plain_fields = record {
  str_field = text_of;
  int_field = integer_of;
  float_field = float_of;
  url_field = text_of;
  ge = at_least;
  le = at_most;
  errors = λ v. v;
}

float_of-twice : (v t : Json) → float_of v ≡ some t → float_of t ≡ some t
float_of-twice (int n) t h = let read : float_of (int n) ≡ some (int n) = refl in cc
float_of-twice (float p b) t h = let read : float_of (float p b) ≡ some (float p b) = refl in cc
float_of-twice (str s) t h = cc
float_of-twice (obj fs) t h = cc
float_of-twice (arr vs) t h = cc
float_of-twice (bool b) t h = cc
float_of-twice null t h = cc

plain_fields-Documented : Documented plain_fields
plain_fields-Documented = record {
  reads_text = λ s. refl;
  reads_number = λ n. refl;
  reads_float = float_of-twice;
  reads_default = refl;
  default_in_bounds = (refl, refl);
}

abbrev hello : CompletionRequest
hello = record {
  prompt = "Say hello.";
  model = some "llama3.2:3b";
  temperature = default_temperature;
  max_tokens = none;
}

-- What is left out gets its default, and an empty prompt is refused.
completion_body-hello :
    let asked = entry "model" (str "llama3.2:3b") (entry "prompt" (str "Say hello.") no_entry) in
    let empty = obj (entry "prompt" (str "") no_entry) in
    (completion_body plain_fields (obj asked) ≡ valid hello)
    × (completion_body plain_fields empty ≡ invalid empty)
unfolding completion_body get_entry
completion_body-hello = (refl, refl)

completion_body_exactly_example :
    ((v : Json) × (completion_body plain_fields v ≡ valid hello)) ↔ IsInBounds plain_fields hello
completion_body_exactly_example = completion_body_exactly plain_fields plain_fields-Documented hello

abbrev later : JobRequest
later = record {
  prompt = "Hello";
  model = none;
  temperature = default_temperature;
  max_tokens = some 5;
  callback_url = "https://example.com/hook";
}

job_body-completion_request_example :
    IsInBounds plain_fields (completion_request later)
    × (completion_body plain_fields (to_json (completion_request later))
        ≡ valid (completion_request later))
unfolding job_body get_entry
job_body-completion_request_example =
    job_body-completion_request plain_fields plain_fields-Documented
      (obj (
        entry "prompt" (str "Hello") (
          entry "max_tokens" (nat 5)
            (entry "callback_url" (str "https://example.com/hook") no_entry))))
      later refl

abbrev provider : Service ℕ
provider = record {
  runtime = record {
    float_of = λ _. none;
    repr = λ text. text;
    str_field = text_of;
    int_field = integer_of;
  };
  upstream_model = "m";
  post = λ body s. (timed_out, s);
  clock = λ s. s.world;
  retry = record {
    max_attempts = 2;
    initial_backoff = 1;
    max_backoff = 4;
    budget = 10;
    sleep = λ d s. record s { world = s.world + d };
    jitter = λ s. (0, s);
    clock = λ s. s.world;
  };
  store = in_memory_record;
}

-- The same, but for a text, at which it breaks.
abbrev strict_post : Json → State ℕ → Posted × State ℕ
strict_post (str text) s = (failed "no object", s)
strict_post _ s = (timed_out, s)

strict_post-same :
    (body : Json) (s : State ℕ)
    → IsModest plain_fields body
    → strict_post body s ≡ provider.post body s
unfolding member
strict_post-same (str text) s h = let (p, e, _, _) = h.prompt in cc
strict_post-same (obj fs) s h = refl
strict_post-same (arr vs) s h = refl
strict_post-same (int n) s h = refl
strict_post-same (float p b) s h = refl
strict_post-same (bool b) s h = refl
strict_post-same null s h = refl

abbrev morning : State ℕ
morning = record { breaker = Breaker.init 5 30; entries = []; world = 7 }

complete_modest_example :
    complete
      (record provider { post = strict_post })
      hello
      (record { id = "a"; name = "Ann" })
      morning
    ≡ complete provider hello (record { id = "a"; name = "Ann" }) morning
unfolding completion_body get_entry
complete_modest_example =
    complete_modest plain_fields plain_fields-Documented provider strict_post hello
      (inl (
        obj (entry "prompt" (str "Say hello.") (entry "model" (str "llama3.2:3b") no_entry)),
        refl,
      ))
      strict_post-same (record { id = "a"; name = "Ann" }) morning
