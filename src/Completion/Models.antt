-- ===== src/Completion/Models.antt =====
-- src/models/completion.py, src/models/caller.py and src/models/usage.py.
use prd_api_wrapper.Json.{Json}
use prd_api_wrapper.Prelude.{ℕ, ℤ, String, Option}

pub record Caller : Type 0 where
  pub id : String
  pub name : String

-- The temperature is only passed on, as the number that JSON holds.
pub record CompletionRequest : Type 0 where
  pub prompt : String
  pub model : Option String
  pub temperature : Json
  pub max_tokens : Option ℕ

pub record CompletionUsage : Type 0 where
  pub prompt_tokens : ℤ
  pub completion_tokens : ℤ

pub record CompletionResponse : Type 0 where
  pub id : String
  pub model : String
  pub content : String
  pub usage : CompletionUsage

pub record UsageEntry : Type 0 where
  pub api_key_id : String
  pub model : String
  pub status_code : ℕ
  pub duration_ms : ℕ
  pub prompt_tokens : ℤ
  pub completion_tokens : ℤ
