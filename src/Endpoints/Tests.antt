-- ===== src/Endpoints/Tests.antt =====
-- Tests of the routes, and their theorems at concrete inputs.
use prd_api_wrapper.Prelude.{ℕ, pos, String, refl, true, false, none, some, [], ◌∷◌, join}
use prd_api_wrapper.Prelude.Dict.{lookup}
use prd_api_wrapper.Json.{Json, str, nat, null}
use prd_api_wrapper.Errors.Handlers.{RequestState}
use prd_api_wrapper.Exec.{ok}
use prd_api_wrapper.RateLimit.Bucket.{Rate, RateLimitDecision, TokenBucket, take, refill, charge}
use prd_api_wrapper.RateLimit.Bucket
use prd_api_wrapper.RateLimit.Limiter
use prd_api_wrapper.RateLimit.Limiter.{check, bucket_for}
use prd_api_wrapper.Completion.Models.{CompletionRequest, CompletionResponse}
use prd_api_wrapper.Jobs.Models.{JobStatus, JobRequest, JobAccepted, JobView}
use prd_api_wrapper.Prelude.Case.{lower}
use prd_api_wrapper.Auth.Keys.{ApiKey, active_key}
use prd_api_wrapper.Auth.Service.{Credentials}
use prd_api_wrapper.Endpoints.{AppState, Api, valid, invalid, not_json, Task}
use prd_api_wrapper.Endpoints.Closing.{Gives}
use prd_api_wrapper.Endpoints.Laws.{
  served_complete, served_submit, refused_untouched, invalid_charged,
}
use prd_api_wrapper.Endpoints.Accepted.{Follows, complete-Follows, with_task, submit-Follows}

abbrev ann_key : ApiKey
ann_key = record {
  id = "a";
  name = "Ann";
  key_hash = "sk-ann";
  revoked_at = none;
  last_used_at = none;
}

abbrev per_minute : Rate
per_minute = record { gained = 60; per = 60_000_000_000 }

-- The services keep a count of their calls; every clock stands still.
abbrev api : Api ℕ
api = record {
  hash_api_key = λ key. key;
  require_api_key = true;
  rate_limit_enabled = true;
  upstream_model = "m";
  now = λ s. 7;
  monotonic = λ s. 0;
  complete = λ payload caller s. (
    ok (record {
      id = "c1";
      model = "m";
      content = join "Hi " caller.name;
      usage = record { prompt_tokens = pos 3; completion_tokens = pos 2 };
    }),
    record s { services = 1 },
  );
  accept = λ payload caller model s.
      (ok (record { id = "j1"; status = JobStatus.pending }), record s { services = 1 });
  get = λ job_id caller s. (
    ok (record {
      id = job_id;
      status = JobStatus.pending;
      model = "m";
      content = none;
      error_code = none;
      error_message = none;
      delivery_attempts = 0;
      delivered_at = none;
      created_at = 0;
    }),
    s,
  );
}

abbrev fresh_app : ℕ → AppState ℕ
fresh_app capacity = record {
  keys = ann_key ∷ [];
  limiter = Limiter.init capacity per_minute;
  services = 0;
}

abbrev unnamed : RequestState
unnamed = record { request_id = none; response_headers = none }

abbrev bearer : String → Credentials
bearer key = record { scheme = "Bearer"; credentials = key }

abbrev question : CompletionRequest
question = record { prompt = "Hello"; model = none; temperature = nat 1; max_tokens = none }

abbrev content_of : CompletionResponse → Json
content_of r = str r.content

abbrev job_of : JobAccepted × Task → Json
job_of o = str o.0.id

abbrev view_of : JobView → Json
view_of v = str v.id

-- The first request of a caller, of a bucket of two and of a bucket of none.
abbrev allowed : RateLimitDecision
allowed = record {
  allowed = true;
  limit = 2;
  remaining = 1;
  reset_after = record { num = 60_000_000_000; den = 60 };
  retry_after = record { num = 0; den = 1 };
}

abbrev no_more : RateLimitDecision
no_more = record {
  allowed = false;
  limit = 0;
  remaining = 0;
  reset_after = record { num = 0; den = 60 };
  retry_after = record { num = 60_000_000_000; den = 60 };
}

refused_untouched_example :
    Gives 429
      (record (fresh_app 0) { limiter = (check "a" 0 (fresh_app 0).limiter).1 })
      (served_complete api "0f" none unnamed
        (fresh_app 0)
        content_of
        (some (bearer "sk-ann"))
        (valid question))
    × Gives 429
        (record (fresh_app 0) { limiter = (check "a" 0 (fresh_app 0).limiter).1 })
        (served_submit api "0f" none unnamed
          (fresh_app 0)
          job_of
          (some (bearer "sk-ann"))
          (invalid null))
unfolding active_key lower check take Limiter.init Bucket.init lookup
refused_untouched_example =
    refused_untouched api "0f" none unnamed (fresh_app 0) (bearer "sk-ann") ann_key no_more
      (valid question) (invalid null) content_of job_of refl (refl, refl) refl refl tt tt

invalid_charged_example :
    Gives 422
      (record (fresh_app 2) { limiter = (check "a" 0 (fresh_app 2).limiter).1 })
      (served_complete api "0f" none unnamed
        (fresh_app 2)
        content_of
        (some (bearer "sk-ann"))
        (invalid null))
    × Gives 422
        (record (fresh_app 2) { limiter = (check "a" 0 (fresh_app 2).limiter).1 })
        (served_submit api "0f" none unnamed
          (fresh_app 2)
          job_of
          (some (bearer "sk-ann"))
          (invalid null))
    × Gives 422 (fresh_app 2) (
        served_complete api "0f" none unnamed
          (fresh_app 2)
          content_of
          (some (bearer "sk-ann"))
          (not_json null))
    × Gives 422 (fresh_app 2) (
        served_submit api "0f" none unnamed
          (fresh_app 2)
          job_of
          (some (bearer "sk-ann"))
          (not_json null))
unfolding active_key lower check take Limiter.init Bucket.init lookup
invalid_charged_example =
    invalid_charged api "0f" none unnamed (fresh_app 2) (bearer "sk-ann") ann_key allowed null
      content_of job_of refl (refl, refl) refl refl

complete-Follows_example :
    let (r, after) =
      api.complete question
        (record { id = "a"; name = "Ann" })
        (record (fresh_app 2) { limiter = (check "a" 0 (fresh_app 2).limiter).1 }) in
    Follows api "0f" none unnamed (fresh_app 2) 200 content_of ann_key allowed r after (
      served_complete api "0f" none unnamed
        (fresh_app 2)
        content_of
        (some (bearer "sk-ann"))
        (valid question))
unfolding active_key lower check take Limiter.init Bucket.init lookup
complete-Follows_example =
    complete-Follows api "0f" none unnamed (fresh_app 2) (bearer "sk-ann") ann_key allowed question
      content_of refl (refl, refl) refl refl

abbrev task_request : JobRequest
task_request = record {
  prompt = "Hello";
  model = none;
  temperature = nat 1;
  max_tokens = none;
  callback_url = "https://example.com/hook";
}

submit-Follows_example :
    let (r, after) =
      api.accept task_request
        (record { id = "a"; name = "Ann" })
        "m"
        (record (fresh_app 2) { limiter = (check "a" 0 (fresh_app 2).limiter).1 }) in
    Follows api "0f" none unnamed
      (fresh_app 2)
      202
      job_of
      ann_key
      allowed
      (with_task api "0f" none unnamed (fresh_app 2) ann_key task_request r)
      after
      (served_submit api "0f" none unnamed
        (fresh_app 2)
        job_of
        (some (bearer "sk-ann"))
        (valid task_request))
unfolding active_key lower check take Limiter.init Bucket.init lookup
submit-Follows_example =
    submit-Follows api "0f" none unnamed (fresh_app 2) (bearer "sk-ann") ann_key allowed
      task_request job_of refl (refl, refl) refl refl
