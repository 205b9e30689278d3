-- ===== src/Webhooks.antt =====
-- src/services/webhooks.py: signing a payload and delivering it.
--
-- `S` is the state that requests share; a post and a sleep are functions of it.
pub mod Laws
pub mod Wiring
pub mod Frame
mod Tests
use prd_api_wrapper.Prelude.{
  ℕ, zero, suc, ◌+◌, ℤ, pos, negsuc, String, Bool, true, false, ◌||◌, Option, none, some, List, [],
  ◌∷◌, show, join, str_eq, leb, ◌==◌, if◌then◌else◌,
}
use prd_api_wrapper.Prelude.Dict.{Dict, insert}
use prd_api_wrapper.Json.{Json, nat}
use prd_api_wrapper.Errors.{Args, AppError, ErrorClass, no_args, new_delivery_failure}
use prd_api_wrapper.Errors.Handlers.{Raised, app, crash, invalid_request}
use prd_api_wrapper.Exec.{Result, ok, raised, Exec}
use prd_api_wrapper.Resilience.Retry.{RetryPolicy, run}

-- `str` of an integer
unfoldable pub show_int : ℤ → String
show_int (pos n) = show n
show_int (negsuc n) = join "-" (show (suc n))

-- What the module uses of Python's libraries: the hexadecimal HMAC-SHA256 of a message under a
-- secret, and `int` of a text, which raises a `ValueError` where it is `none`.
pub record Crypto : Type 0 where
  pub hmac_hex : String → String → String
  pub int_of : String → Option ℤ

unfoldable pub sign : Crypto → String → ℤ → String → String
unfolding show_int
sign k secret timestamp body =
    join "sha256=" (k.hmac_hex secret (join (show_int timestamp) (join "." body)))

-- `verify`; `none` is the `ValueError` of a timestamp that is no number.
unfoldable pub verify : Crypto → String → String → String → String → Option Bool
verify k secret timestamp body signature = elim (k.int_of timestamp) [
  | none ↦ none
  | some t ↦ some (str_eq (sign k secret t body) signature)
]

-- What `client.post` does: a response of a status, a failure that `httpx` reports as a
-- `RequestError`, or another exception.
pub data Posted : Type 0 where
  answered : (status_code : ℕ) (is_error : Bool) → Posted
  unreachable : Posted
  failed : String → Posted

-- What the service is built from. `time` is the seconds of `time.time`; `post` is called with the
-- URL, the body and the headers.
pub record WebhookService (S : Type 0) : Type 0 where
  pub crypto : Crypto
  pub post : String → String → Dict String → S → Posted × S
  pub time : S → ℕ
  pub retry : RetryPolicy S
  pub secret : String

unfoldable pub post_headers : Crypto → String → ℕ → String → Dict String
unfolding sign
post_headers k secret timestamp body =
    ("Content-Type", "application/json")
    ∷ ("X-Signature-Timestamp", show timestamp)
    ∷ ("X-Signature", sign k secret (pos timestamp) body)
    ∷ []

abbrev pub with_message : String → Dict Json → Args
with_message text details = record no_args { message = some text; details = details }

unfoldable pub read_posted : Posted → Result (Unit {0})
unfolding new_delivery_failure
read_posted (answered status is_error) =
    if is_error
    then raised (
        app (
          new_delivery_failure
            (with_message (join "Callback returned " (join (show status) "."))
              (("callback_status", nat status) ∷ []))
            (leb 500 status || status == 429)))
    else ok tt
read_posted unreachable =
    raised (app (new_delivery_failure (with_message "Could not reach the callback URL." []) true))
read_posted (failed text) = raised (crash text)

abbrev pub is_delivery_failure : ErrorClass → Bool
is_delivery_failure ErrorClass.webhook_delivery_failed = true
is_delivery_failure _ = false

module _ {S : Type 0} where
  -- `_post`
  unfoldable pub post : WebhookService S → String → String → Exec S (Unit {0})
  unfolding post_headers read_posted
  post w url body s =
      let (posted, s') = w.post url body (post_headers w.crypto w.secret (w.time s) body) s in
      (read_posted posted, s')

  -- The retry policy beside the counter that `deliver` keeps.
  unfoldable pub beside_counter : RetryPolicy S → RetryPolicy (ℕ × S)
  beside_counter p = record {
    max_attempts = p.max_attempts;
    initial_backoff = p.initial_backoff;
    max_backoff = p.max_backoff;
    budget = p.budget;
    sleep = λ d t. (t.0, p.sleep d t.1);
    jitter = λ t. let (j, s) = p.jitter t.1 in (j, (t.0, s));
    clock = λ t. p.clock t.1;
  }

  -- The closure `attempt` of `deliver`, over the counter.
  unfoldable pub attempt : WebhookService S → String → String → Exec (ℕ × S) (Unit {0})
  unfolding post
  attempt w url body t = let (r, s) = post w url body t.1 in (r, (t.0 + 1, s))

  -- The `except` of `deliver` and its return.
  unfoldable pub conclude : Result (Unit {0}) × (ℕ × S) → Result ℕ × S
  conclude (ok _, t) = (ok t.0, t.1)
  conclude (raised (app e), t) = (
    raised (
        app (
          if is_delivery_failure e.kind
          then record e { details = insert "attempts" (nat t.0) e.details }
          else e)),
    t.1,
  )
  conclude (raised r, t) = (raised r, t.1)

  -- `deliver`, of the text that the payload is dumped to.
  unfoldable pub deliver : WebhookService S → String → String → Exec S ℕ
  unfolding attempt beside_counter conclude
  deliver w url body s = conclude (run (beside_counter w.retry) (attempt w url body) (0, s))
