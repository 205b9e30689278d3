-- ===== src/Webhooks/Wiring/Laws.antt =====
-- The callbacks of an application that has started.
use prd_api_wrapper.Prelude.{
  ℕ, pos, String, join, none, false, ◌≡◌, refl, true, some, show, truthy, arith,
}
use prd_api_wrapper.Prelude.Dict.{Dict, lookup}
use prd_api_wrapper.Exec.{ok}
use prd_api_wrapper.Resilience.Retry.{run}
use prd_api_wrapper.Webhooks
use prd_api_wrapper.Webhooks.{
  Crypto, Posted, WebhookService, sign, verify, post_headers, attempt, beside_counter, conclude,
  deliver,
}
use prd_api_wrapper.Webhooks.Laws.{post_headers-verify}
use prd_api_wrapper.Config.{
  EnvironmentEnum, Settings, HttpClient, Waiting, Application, http_client, webhook_client,
  check_production_settings, lifespan, create_app,
}
use prd_api_wrapper.Config.Laws.{create_app-lifespan}
use prd_api_wrapper.Webhooks.Wiring.{get_webhook_service}

-- Headers that a receiver with this secret accepts for this body.
abbrev pub IsSigned : Crypto → String → String → Dict String → Type 0
IsSigned k secret body headers =
    (timestamp : String) × (signature : String) × (lookup "X-Signature-Timestamp" headers
      ≡ some timestamp)
    × (lookup "X-Signature" headers ≡ some signature)
    × (verify k secret timestamp body signature ≡ some true)

post_headers-IsSigned :
    (k : Crypto) (secret : String) (time : ℕ) (body : String)
    → k.int_of (show time) ≡ some (pos time)
    → IsSigned k secret body (post_headers k secret time body)
unfolding post_headers lookup
post_headers-IsSigned k secret time body reads =
    let signature = sign k secret (pos time) body in
    let (sent, accepted) = post_headers-verify k secret time body signature reads in
    (show time, signature, sent, refl, accepted.1 refl)

-- Two services whose clients do the same with the posts of a delivery deliver alike.
module _ {S : Type 0} (w : WebhookService S) (url body : String)
    (other : String → String → Dict String → S → Posted × S)
    (same : (t : S)
      → let headers = post_headers w.crypto w.secret (w.time t) body in
        other url body headers t ≡ w.post url body headers t) where
  same_attempt : (t : ℕ × S) → attempt (record w { post = other }) url body t ≡ attempt w url body t
  unfolding attempt Webhooks.post
  same_attempt t = rw (same t.1) refl

  same_delivery : (s : S) → deliver (record w { post = other }) url body s ≡ deliver w url body s
  unfolding deliver
  same_delivery s = λ i. conclude (run (beside_counter w.retry) (λ t. same_attempt t i) (0, s))

module _ {S : Type 0} (wait : Waiting S) (settings : Settings) (app : Application S) where
  started_settings : create_app wait settings ≡ ok app → app.settings ≡ settings
  unfolding lifespan
  started_settings made = rw (create_app-lifespan wait settings app made) refl

  started_secret :
      create_app wait settings ≡ ok app
      → settings.environment ≡ EnvironmentEnum.production
      → truthy settings.webhook_signing_secret ≡ true
  unfolding create_app check_production_settings
  started_secret made production = ground arith

  -- Once an application has started in production, its secret is not empty, and a delivery posts
  -- nothing but its body, to its URL, with a signature that a receiver with this secret accepts: two
  -- clients that do the same with every post of the body there that is so signed cannot be told apart by the
  -- delivery, the state it leaves included. It is assumed that `int` reads back what `str` printed
  -- of a time of sending.
  pub started-IsSigned :
      (k : Crypto) (post other : HttpClient → String → String → Dict String → S → Posted × S)
      (time : S → ℕ) (url body : String)
      → create_app wait settings ≡ ok app
      → settings.environment ≡ EnvironmentEnum.production
      → ((t : S) → k.int_of (show (time t)) ≡ some (pos (time t)))
      → ((headers : Dict String) (t : S)
          → IsSigned k settings.webhook_signing_secret body headers
          → other app.webhook_client url body headers t
            ≡ post app.webhook_client url body headers t)
      → (s : S)
      → (truthy settings.webhook_signing_secret ≡ true)
        × (deliver (get_webhook_service app k other time) url body s
            ≡ deliver (get_webhook_service app k post time) url body s)
  unfolding get_webhook_service
  started-IsSigned k post other time url body made production reads same s =
      let secret = app.settings.webhook_signing_secret in
      let w = get_webhook_service app k post time in
      let alike = λ (t : S).
        same (post_headers k secret (time t) body) t
          (rw⁻¹ (started_settings made) (post_headers-IsSigned k secret (time t) body (reads t))) in
      (started_secret made production, same_delivery w url body (other app.webhook_client) alike s)

  -- With another key of the provider in its settings, an application that has started makes the
  -- same delivery: neither what its client is built with nor what is posted, retried or reported
  -- depends on that key. The client of the provider sends the key in its `Authorization` header;
  -- the client of the callbacks and the headers of a callback have no such header, and that client
  -- follows no redirect.
  pub started_keyless :
      (upstream_api_key : String) (other : Application S) (k : Crypto)
      (post : HttpClient → String → String → Dict String → S → Posted × S) (time : S → ℕ)
      (url body : String) (s : S)
      → create_app wait settings ≡ ok app
      → create_app wait (record settings { upstream_api_key = upstream_api_key }) ≡ ok other
      → (deliver (get_webhook_service other k post time) url body s
          ≡ deliver (get_webhook_service app k post time) url body s)
        × (lookup "Authorization" app.http_client.headers
            ≡ some (join "Bearer " settings.upstream_api_key))
        × (lookup "Authorization" app.webhook_client.headers ≡ none)
        × (lookup "Authorization" (post_headers k app.settings.webhook_signing_secret (time s) body)
            ≡ none)
        × (app.webhook_client.follow_redirects ≡ false)
  unfolding lifespan http_client webhook_client get_webhook_service post_headers lookup
  started_keyless key other k post time url body s made remade =
      rw
        (
          create_app-lifespan wait settings app made,
          create_app-lifespan wait (record settings { upstream_api_key = key }) other remade,
        )
        (refl, refl, refl, refl, refl)
