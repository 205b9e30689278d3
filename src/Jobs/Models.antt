-- ===== src/Jobs/Models.antt =====
-- src/models/job.py, and the table `Job` of src/models/tables.py, without its column `updated_at`,
-- which nothing reads.
use prd_api_wrapper.Prelude.{ℕ, ℤ, String, Bool, true, false, Option}
use prd_api_wrapper.Json.{Json}

pub data JobStatus : Type 0 where
  pending running succeeded failed : JobStatus

-- The `StrEnum` values, which the `status` column holds.
unfoldable pub status_value : JobStatus → String
status_value JobStatus.pending = "pending"
status_value JobStatus.running = "running"
status_value JobStatus.succeeded = "succeeded"
status_value JobStatus.failed = "failed"

unfoldable pub is_final : JobStatus → Bool
is_final JobStatus.succeeded = true
is_final JobStatus.failed = true
is_final _ = false

-- The temperature is only passed on, as the number that JSON holds.
pub record JobRequest : Type 0 where
  pub prompt : String
  pub model : Option String
  pub temperature : Json
  pub max_tokens : Option ℕ
  pub callback_url : String

pub record JobAccepted : Type 0 where
  pub id : String
  pub status : JobStatus

pub record JobView : Type 0 where
  pub id : String
  pub status : JobStatus
  pub model : String
  pub content : Option String
  pub error_code : Option String
  pub error_message : Option String
  pub delivery_attempts : ℕ
  pub delivered_at : Option ℕ
  pub created_at : ℕ

pub record WebhookPayload : Type 0 where
  pub job_id : String
  pub status : JobStatus
  pub model : String
  pub content : Option String
  pub error_code : Option String
  pub error_message : Option String

-- A row. The columns that a default fills on insertion may still be empty in a new object; the
-- status is the member whose value the column holds, and times are seconds.
pub record Job : Type 0 where
  pub id : String
  pub api_key_id : String
  pub status : JobStatus
  pub model : String
  pub prompt : String
  pub callback_url : String
  pub content : Option String
  pub error_code : Option String
  pub error_message : Option String
  pub prompt_tokens : Option ℤ
  pub completion_tokens : Option ℤ
  pub delivery_attempts : Option ℕ
  pub delivered_at : Option ℕ
  pub created_at : Option ℕ
