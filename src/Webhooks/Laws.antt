-- ===== src/Webhooks/Laws.antt =====
-- What src/services/webhooks.py promises to the receiver of a callback and to the job that it is
-- for.
use prd_api_wrapper.Prelude.{
  ℕ, ◌+◌, ◌<◌, pos, ◌≡◌, ◌≢◌, refl, ap, ◌∙◌, ◌↔◌, true, false, ◌||◌, some, [], ◌∷◌, arith, String,
  eq_iff, show, join, leb, ◌==◌,
}
use prd_api_wrapper.Prelude.Dict.{Dict, lookup, insert}
use prd_api_wrapper.Json.{nat}
use prd_api_wrapper.Errors.{AppError, ErrorClass, new_delivery_failure}
use prd_api_wrapper.Errors.Handlers.{app, crash, invalid_request}
use prd_api_wrapper.Exec.{Result, ok, raised}
use prd_api_wrapper.Resilience.Retry.{run}
use prd_api_wrapper.Resilience.Retry.Laws.{run_final}
use prd_api_wrapper.Webhooks.{
  Crypto, WebhookService, answered, sign, verify, post_headers, post, read_posted, attempt,
  beside_counter, conclude, deliver, with_message,
}

-- A receiver that verifies the headers and the body of a delivery with the shared secret accepts
-- exactly the signature that was sent. It is assumed that `int` reads back what `str` printed of
-- the time of sending.
pub post_headers-verify :
    (k : Crypto) (secret : String) (timestamp : ℕ) (body signature : String)
    → k.int_of (show timestamp) ≡ some (pos timestamp)
    → let sent = post_headers k secret timestamp body in
      (lookup "X-Signature-Timestamp" sent ≡ some (show timestamp))
      × ((verify k secret (show timestamp) body signature ≡ some true)
          ↔ (lookup "X-Signature" sent ≡ some signature))
unfolding post_headers lookup verify
post_headers-verify k secret timestamp body signature reads =
    let same = eq_iff (sign k secret (pos timestamp) body) signature in
    (refl, (λ h. ground arith, λ h. ground arith))

-- How a post ends: delivered, with a failure of delivery, or with what the client itself raised.
abbrev pub IsPostResult : Result (Unit {0}) → Type 0
IsPostResult (ok _) = Unit
IsPostResult (raised (app e)) = e.kind ≡ ErrorClass.webhook_delivery_failed
IsPostResult (raised (crash m)) = Unit
IsPostResult (raised (invalid_request v)) = ⊥

-- The answer of a delivery that has made this many posts.
abbrev pub Reports : ℕ → Result ℕ → Type 0
Reports made (ok n) = n ≡ made
Reports made (raised (app e)) =
    (e.kind ≡ ErrorClass.webhook_delivery_failed) × (lookup "attempts" e.details ≡ some (nat made))
Reports made (raised (crash m)) = Unit
Reports made (raised (invalid_request v)) = ⊥

abbrev rejection : ℕ → AppError
rejection status =
    new_delivery_failure
      (with_message (join "Callback returned " (join (show status) "."))
        (("callback_status", nat status) ∷ []))
      false

not_repeated :
    (status : ℕ) → status < 500 → status ≢ 429 → (leb 500 status || status == 429) ≡ false
not_repeated status low other = ground arith

module _ {S : Type 0} (w : WebhookService S) (url body : String) where
  -- A count of the posts of this delivery: each post raises it by one, and the waits leave it.
  pub record Counts (posts : S → ℕ) : Type 0 where
    pub posted : (headers : Dict String) (s : S) → posts (w.post url body headers s).1 ≡ posts s + 1
    pub slept : (d : ℕ) (s : S) → posts (w.retry.sleep d s) ≡ posts s
    pub drawn : (s : S) → posts (w.retry.jitter s).1 ≡ posts s

  -- The state of the loop after `n` posts.
  abbrev Counted : (S → ℕ) → S → ℕ → ℕ × S → Type 0
  Counted posts s n t = (t.0 ≡ n) × (posts t.1 ≡ posts s + n)

  rejected_attempt :
      (s : S) (status : ℕ)
      → (w.post url body (post_headers w.crypto w.secret (w.time s) body) s).0
        ≡ answered status true
      → status < 500
      → status ≢ 429
      → attempt w url body (0, s) ≡ (
        raised (app (rejection status)),
        (1, (w.post url body (post_headers w.crypto w.secret (w.time s) body) s).1),
      )
  unfolding attempt read_posted
  rejected_attempt s status answer low other = rw (answer, not_repeated status low other)

  rejected_run :
      (s : S) (status : ℕ)
      → (w.post url body (post_headers w.crypto w.secret (w.time s) body) s).0
        ≡ answered status true
      → status < 500
      → status ≢ 429
      → run (beside_counter w.retry) (attempt w url body) (0, s) ≡ (
        raised (app (rejection status)),
        (1, (w.post url body (post_headers w.crypto w.secret (w.time s) body) s).1),
      )
  unfolding new_delivery_failure
  rejected_run s status answer low other =
      let refused = rejected_attempt s status answer low other in
      run_final (beside_counter w.retry) (attempt w url body) (0, s) (rw refused refl) ∙ refused

  -- A receiver's own mistake, an error below 500 other than 429, is not repeated: the delivery
  -- fails after its one post, and says that it made one.
  pub deliver_rejected :
      (s : S) (status : ℕ)
      → (w.post url body (post_headers w.crypto w.secret (w.time s) body) s).0
        ≡ answered status true
      → status < 500
      → status ≢ 429
      → (e : AppError) × (deliver w url body s ≡ (
        raised (app e),
        (w.post url body (post_headers w.crypto w.secret (w.time s) body) s).1,
      ))
        × (e.retryable ≡ false)
        × (lookup "attempts" e.details ≡ some (nat 1))
        × (lookup "callback_status" e.details ≡ some (nat status))
  unfolding deliver conclude new_delivery_failure insert lookup
  deliver_rejected s status answer low other = (
    record (rejection status) { details = insert "attempts" (nat 1) (rejection status).details },
    ap conclude (rejected_run s status answer low other),
    refl,
    refl,
    refl,
  )
