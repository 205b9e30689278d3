-- ===== src/Webhooks/Wiring.antt =====
-- `get_webhook_service` of src/dependencies/common.py, over the application of src/factory.py.
pub mod Laws
mod Tests
use prd_api_wrapper.Prelude.{ℕ, String}
use prd_api_wrapper.Prelude.Dict.{Dict}
use prd_api_wrapper.Config.{HttpClient, Application}
use prd_api_wrapper.Dependencies.{get_settings}
use prd_api_wrapper.Webhooks.{Crypto, Posted, WebhookService}

-- `post` is what a client does with a post.
unfoldable pub get_webhook_service :
    {S : Type 0}
    → Application S
    → Crypto
    → (HttpClient → String → String → Dict String → S → Posted × S)
    → (S → ℕ)
    → WebhookService S
get_webhook_service app crypto post time = record {
  crypto = crypto;
  post = post app.webhook_client;
  time = time;
  retry = app.webhook_retry;
  secret = (get_settings app).webhook_signing_secret;
}
