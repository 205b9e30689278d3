-- ===== src/Endpoints/Steps.antt =====
-- The dependencies of the routes of src/endpoints, one at a time: the caller and the rate limit.
use prd_api_wrapper.Prelude.{◌≡◌, refl, ◌⊎◌, inl, inr, true, false, Option, none, some, non_empty}
use prd_api_wrapper.Prelude.Dict.{merge}
use prd_api_wrapper.Errors.{ErrorClass, class_status, new, no_args}
use prd_api_wrapper.Errors.Handlers.{app}
use prd_api_wrapper.Exec.{Result, ok, raised}
use prd_api_wrapper.RateLimit.Bucket.{RateLimitDecision}
use prd_api_wrapper.RateLimit.Limiter.{check}
use prd_api_wrapper.RateLimit.Enforce.{headers, refusal, check_caller, answer, enforce_rate_limit}
use prd_api_wrapper.RateLimit.Enforce.Laws.{enforce_refuses}
use prd_api_wrapper.Completion.Models.{Caller}
use prd_api_wrapper.Prelude.Case.{lower}
use prd_api_wrapper.Auth.Keys.{ApiKey, active_key, touch}
use prd_api_wrapper.Auth.Service.{Credentials, get_caller, authenticate}
use prd_api_wrapper.Endpoints.{
  AppState, Context, Api, Body, valid, invalid, not_json, parse_body, find_in_session,
  get_authentication_service, limit,
}

pub refusal_status : (d : RateLimitDecision) → class_status (refusal d).kind ≡ 429
unfolding refusal new class_status
refusal_status d = refl

pub new_status : (k : ErrorClass) → class_status (new k no_args).kind ≡ class_status k
unfolding new
new_status k = refl

-- A body that is JSON, whatever its fields are.
abbrev pub IsJson : {A : Type 0} → Body A → Type 0
IsJson (valid v) = Unit
IsJson (invalid errors) = Unit
IsJson (not_json errors) = ⊥

pub parse_body-IsJson :
    {W A : Type 0} (body : Body A) (s : Context W) → IsJson body → parse_body body s ≡ (ok tt, s)
parse_body-IsJson (valid v) s h = refl
parse_body-IsJson (invalid errors) s h = refl
parse_body-IsJson (not_json errors) s h = absurd h

module _ {W : Type 0} (a : Api W) where
  -- No key, an empty key, or a key that no active row of the table has.
  abbrev pub IsStranger : Option Credentials → AppState W → Type 0
  IsStranger none shared = Unit
  IsStranger (some given) shared =
      (non_empty (some given.credentials) ≡ none)
      ⊎ ((non_empty (some given.credentials) ≡ some given.credentials)
          × (active_key (lower (a.hash_api_key given.credentials)) shared.keys ≡ none))

  -- The key of an active row.
  abbrev pub IsAdmitted : Credentials → ApiKey → AppState W → Type 0
  IsAdmitted given k shared =
      (non_empty (some given.credentials) ≡ some given.credentials)
      × (active_key (lower (a.hash_api_key given.credentials)) shared.keys ≡ some k)

  pub get_caller-stranger :
      (given : Option Credentials) (s : Context W)
      → a.require_api_key ≡ true
      → IsStranger given s.shared
      → (k : ErrorClass) × (class_status k ≡ 401)
        × (get_caller (get_authentication_service a) given s ≡ (raised (app (new k no_args)), s))
  unfolding get_caller authenticate get_authentication_service
  get_caller-stranger none s strict h =
      (ErrorClass.missing_credentials, unfold class_status in refl, rw strict refl)
  get_caller-stranger (some given) s strict (inl empty) =
      (ErrorClass.missing_credentials, unfold class_status in refl, rw (empty, strict) refl)
  get_caller-stranger (some given) s strict (inr (full, unknown)) = (
    ErrorClass.invalid_credentials,
    unfold class_status in refl,
    rw (full, find_in_session, unknown) refl,
  )

  -- The caller that a row names, and the session with the use of its key.
  abbrev pub caller_of_key : ApiKey → Caller
  caller_of_key k = record { id = k.id; name = k.name }

  abbrev pub noted : ApiKey → Context W → Context W
  noted k s = record s { pending = touch k.id (a.now s.shared) }

  pub get_caller-admitted :
      (given : Credentials) (k : ApiKey) (s : Context W)
      → IsAdmitted given k s.shared
      → get_caller (get_authentication_service a) (some given) s ≡ (ok (caller_of_key k), noted k s)
  unfolding get_caller authenticate get_authentication_service
  get_caller-admitted given k s (full, known) = rw (full, find_in_session, known) refl

  -- The limiter after the caller's check.
  abbrev pub charged : ApiKey → AppState W → AppState W
  charged k shared = record shared { limiter = (check k.id (a.monotonic shared) shared.limiter).1 }

  abbrev pub decision : ApiKey → AppState W → Result RateLimitDecision
  decision k shared = (check k.id (a.monotonic shared) shared.limiter).0

  pub limit-refused :
      (k : ApiKey) (s : Context W) (d : RateLimitDecision)
      → a.rate_limit_enabled ≡ true
      → decision k s.shared ≡ ok d
      → d.allowed ≡ false
      → limit a (caller_of_key k) s
        ≡ (raised (app (refusal d)), record s { shared = charged k s.shared })
  unfolding limit
  limit-refused k s d on e no_more =
      rw
        (
          on,
          enforce_refuses k.id (a.monotonic s.shared)
              (record { limiter = s.shared.limiter; response = s.response; request = s.request }) d
              e no_more,
        )
        refl

  abbrev pub allowed_context : ApiKey → RateLimitDecision → Context W → Context W
  allowed_context k d s = record s {
    shared = charged k s.shared;
    response = merge s.response (headers d);
    request = record s.request { response_headers = some (headers d) };
  }

  pub limit-allowed :
      (k : ApiKey) (s : Context W) (d : RateLimitDecision)
      → a.rate_limit_enabled ≡ true
      → decision k s.shared ≡ ok d
      → d.allowed ≡ true
      → limit a (caller_of_key k) s ≡ (ok tt, allowed_context k d s)
  unfolding limit enforce_rate_limit check_caller answer
  limit-allowed k s d on e more = rw (on, e, more) refl
