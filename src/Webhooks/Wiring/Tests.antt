-- ===== src/Webhooks/Wiring/Tests.antt =====
-- A delivery of an application that has started with a secret, to a receiver that is down.
use prd_api_wrapper.Prelude.{
  ℕ, pos, ◌+◌, ◌^◌, ◌≡◌, String, true, false, refl, none, some, truthy, show, join, str_eq,
  if◌then◌else◌,
}
use prd_api_wrapper.Prelude.Dict.{Dict, lookup}
use prd_api_wrapper.Config.{
  Settings, HttpClient, Waiting, default_settings, check_production_settings, lifespan, create_app,
}
use prd_api_wrapper.Webhooks.{Crypto, Posted, answered, unreachable, post_headers, deliver}
use prd_api_wrapper.Webhooks.Wiring.{get_webhook_service}
use prd_api_wrapper.Webhooks.Wiring.Laws.{started-IsSigned, started_keyless}

-- The state is the clock.
abbrev halving : Waiting ℕ
halving = record { sleep = λ d s. s + d; jitter = λ s. (2 ^ 52, s); clock = λ s. s }

abbrev signing : Settings
signing = record default_settings { webhook_signing_secret = "secret" }

-- Signs with the key before the text, and reads the one number that is tested.
abbrev plain : Crypto
plain = record {
  hmac_hex = λ key text. join key text;
  int_of = λ text. if str_eq text "7" then some (pos 7) else none;
}

-- Every client finds nobody there.
abbrev lost : HttpClient → String → String → Dict String → ℕ → Posted × ℕ
lost client url body headers s = (unreachable, s)

-- Only what is signed is lost.
abbrev strict : HttpClient → String → String → Dict String → ℕ → Posted × ℕ
strict client url body headers s = elim (lookup "X-Signature" headers) [
  | none ↦ (answered 200 false, s)
  | some signature ↦ (unreachable, s)
]

started-IsSigned_example :
    let w = lifespan halving signing in
    (truthy "secret" ≡ true)
    × (deliver (get_webhook_service w plain strict (λ s. 7)) "u" "{}" 0
        ≡ deliver (get_webhook_service w plain lost (λ s. 7)) "u" "{}" 0)
unfolding create_app check_production_settings show lifespan
started-IsSigned_example =
    started-IsSigned halving signing (lifespan halving signing) plain lost strict (λ s. 7) "u" "{}"
      refl refl (λ t. refl) (λ headers t (sent, signature, at, e, accepted). rw (e, strict) refl) 0

started_keyless_example :
    let w = lifespan halving signing in
    let other = lifespan halving (record signing { upstream_api_key = "other" }) in
    (deliver (get_webhook_service other plain lost (λ s. 7)) "u" "{}" 0
      ≡ deliver (get_webhook_service w plain lost (λ s. 7)) "u" "{}" 0)
    × (lookup "Authorization" w.http_client.headers ≡ some (join "Bearer " "ollama"))
    × (lookup "Authorization" w.webhook_client.headers ≡ none)
    × (lookup "Authorization" (post_headers plain "secret" 7 "{}") ≡ none)
    × (w.webhook_client.follow_redirects ≡ false)
unfolding create_app check_production_settings lifespan
started_keyless_example =
    started_keyless halving signing (lifespan halving signing) "other"
      (lifespan halving (record signing { upstream_api_key = "other" })) plain lost (λ s. 7) "u"
      "{}" 0 refl refl
