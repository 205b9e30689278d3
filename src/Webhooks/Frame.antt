-- ===== src/Webhooks/Frame.antt =====
-- What a delivery of src/services/webhooks.py leaves as it was.
use prd_api_wrapper.Prelude.{ℕ, String}
use prd_api_wrapper.Prelude.Dict.{Dict}
use prd_api_wrapper.Errors.Handlers.{app, crash, invalid_request}
use prd_api_wrapper.Exec.{Result, ok, raised}
use prd_api_wrapper.Resilience.Retry.{run}
use prd_api_wrapper.Resilience.Retry.Loop.{run_keeps}
use prd_api_wrapper.Webhooks.{WebhookService, post, attempt, beside_counter, conclude, deliver}

module _ {S : Type 0} (w : WebhookService S) (P : S → Type 0) where
  -- The calls that leave the process keep `P`.
  pub record KeepsState : Type 0 where
    pub posts :
        (url body : String) (headers : Dict String) (s : S) → P s → P (w.post url body headers s).1
    pub sleeps : (d : ℕ) (s : S) → P s → P (w.retry.sleep d s)
    pub jitters : (s : S) → P s → P (w.retry.jitter s).1

  conclude-keeps : (r : Result (Unit {0})) (n : ℕ) (s : S) → P s → P (conclude (r, (n, s))).1
  unfolding conclude
  conclude-keeps (ok _) n s h = h
  conclude-keeps (raised (app e)) n s h = h
  conclude-keeps (raised (crash m)) n s h = h
  conclude-keeps (raised (invalid_request v)) n s h = h

  pub deliver_keeps :
      (keeps : KeepsState) (url body : String) (s : S) → P s → P (deliver w url body s).1
  unfolding deliver attempt beside_counter post
  deliver_keeps keeps url body s h =
      let o = run (beside_counter w.retry) (attempt w url body) (0, s) in
      conclude-keeps o.0 o.1.0 o.1.1 (
        run_keeps (beside_counter w.retry) (λ (t : ℕ × S). P t.1) (λ t k. keeps.jitters t.1 k)
          (λ d t k. keeps.sleeps d t.1 k) (attempt w url body) (λ t k. keeps.posts url body _ t.1 k)
          (0, s) h)
