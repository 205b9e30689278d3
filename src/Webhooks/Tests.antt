-- ===== src/Webhooks/Tests.antt =====
-- Tests of the webhooks, and their theorems at concrete inputs.
use prd_api_wrapper.Prelude.{
  ℕ, ◌+◌, ◌^◌, pos, negsuc, ◌≡◌, refl, true, none, some, join, show, leb, str_eq, if◌then◌else◌,
}
use prd_api_wrapper.Exec.{ok}
use prd_api_wrapper.Resilience.Retry.{RetryPolicy, run, loop, judge}
use prd_api_wrapper.Webhooks.{
  Crypto, answered, WebhookService, show_int, sign, verify, deliver, attempt, conclude,
  beside_counter, read_posted, post,
}

show_int_120 : (show_int (pos 120) ≡ "120") × (show_int (negsuc 6) ≡ "-7")
unfolding show_int show
show_int_120 = (refl, refl)

abbrev patient : RetryPolicy ℕ
patient = record {
  max_attempts = 3;
  initial_backoff = 4;
  max_backoff = 64;
  budget = 100;
  sleep = λ d s. s + d;
  jitter = λ s. (2 ^ 52, s);
  clock = λ s. s;
}

-- A receiver that answers every call with the same status.
abbrev answering : ℕ → WebhookService ℕ
answering status = record {
  crypto = record { hmac_hex = λ key text. join key text; int_of = λ _. some (pos 0) };
  post = λ _ _ _ s. (answered status (leb 400 status), s + 1);
  time = λ s. s;
  retry = patient;
  secret = "secret";
}

-- A busy receiver is asked three times.
deliver-answering : (deliver (answering 200) "u" "b" 0 ≡ (ok 1, 1))
unfolding deliver run loop judge attempt post read_posted conclude beside_counter
deliver-answering = refl

-- The state is the number of posts, and the clock stands still.
abbrev busy : WebhookService ℕ
busy = record (answering 503) {
  time = λ s. 7;
  retry = record patient { sleep = λ d s. s; clock = λ s. 0 };
}

-- Signs with the key before the text, and reads the one number that is tested.
abbrev plain : Crypto
plain = record {
  hmac_hex = λ key text. join key text;
  int_of = λ text. if str_eq text "120" then some (pos 120) else none;
}

verify-plain : verify plain "secret" "120" "{}" "sha256=secret120.{}" ≡ some true
unfolding verify sign show_int show
verify-plain = refl
