-- ===== src/Migrations.antt =====
-- migrations/versions/: the scripts that make the tables and take them away.
use prd_api_wrapper.Prelude.{ℕ, String, Bool, true, false, Option, none, some, List, [], ◌∷◌, ◌++◌}
use prd_api_wrapper.Prelude.Options.{◌>>=◌}
pub mod Classes
pub mod Tables
pub mod Laws
pub mod Start
mod Tests

-- The types of SQLAlchemy that the columns have: `String(n)`, `Text`, `Integer`, `BigInteger`, and
-- `DateTime(timezone=True)`.
pub data ColumnType : Type 0 where
  string : ℕ → ColumnType
  text : ColumnType
  integer : ColumnType
  big_integer : ColumnType
  timestamp : ColumnType

-- `now` is the default that the server gives, `now()`.
pub data ServerDefault : Type 0 where
  now : ServerDefault

pub record Column : Type 0 where
  pub name : String
  pub type : ColumnType
  pub nullable : Bool
  pub autoincrement : Bool
  pub server_default : Option ServerDefault

-- A column, and the column it refers to, with its table.
pub record ForeignKey : Type 0 where
  pub column : String
  pub refers_to : String

pub record Table : Type 0 where
  pub name : String
  pub columns : List Column
  pub foreign_keys : List ForeignKey
  pub primary_key : List String

pub record Index : Type 0 where
  pub name : String
  pub table : String
  pub columns : List String
  pub unique : Bool

abbrev pub required : String → ColumnType → Column
required n t = record {
  name = n;
  type = t;
  nullable = false;
  autoincrement = false;
  server_default = none;
}

abbrev pub optional : String → ColumnType → Column
optional n t = record {
  name = n;
  type = t;
  nullable = true;
  autoincrement = false;
  server_default = none;
}

-- `DateTime(timezone=True), server_default=func.now()`
abbrev pub stamped : String → Column
stamped n = record {
  name = n;
  type = ColumnType.timestamp;
  nullable = false;
  autoincrement = false;
  server_default = some ServerDefault.now;
}

-- What the scripts ask of Alembic; an operation that the database refuses gives `none`.
pub record Operations {ℓ} (S : Type ℓ) : Type ℓ where
  pub create_table : Table → S → Option S
  pub create_index : Index → S → Option S
  -- The name of the index and that of its table.
  pub drop_index : String → String → S → Option S
  pub drop_table : String → S → Option S

-- One operation after another, as long as none is refused.
abbrev pub in_order {ℓ} : {S : Type ℓ} → List (S → Option S) → S → Option S
in_order [] s = some s
in_order (o ∷ os) s = do t ← o s; in_order os t

abbrev pub api_key : Table
api_key = record {
  name = "api_key";
  columns =
      required "id" (ColumnType.string 32)
      ∷ required "name" (ColumnType.string 255)
      ∷ required "key_hash" (ColumnType.string 64)
      ∷ stamped "created_at"
      ∷ optional "revoked_at" ColumnType.timestamp
      ∷ optional "last_used_at" ColumnType.timestamp
      ∷ [];
  foreign_keys = [];
  primary_key = "id" ∷ [];
}

abbrev pub ix_api_key_key_hash : Index
ix_api_key_key_hash = record {
  name = "ix_api_key_key_hash";
  table = "api_key";
  columns = "key_hash" ∷ [];
  unique = true;
}

abbrev pub usage : Table
usage = record {
  name = "usage";
  columns =
      record (required "id" ColumnType.big_integer) { autoincrement = true }
      ∷ required "api_key_id" (ColumnType.string 32)
      ∷ required "model" (ColumnType.string 255)
      ∷ required "prompt_tokens" ColumnType.integer
      ∷ required "completion_tokens" ColumnType.integer
      ∷ required "status_code" ColumnType.integer
      ∷ required "duration_ms" ColumnType.integer
      ∷ stamped "created_at"
      ∷ [];
  foreign_keys = record { column = "api_key_id"; refers_to = "api_key.id" } ∷ [];
  primary_key = "id" ∷ [];
}

abbrev pub ix_usage_api_key_id_created_at : Index
ix_usage_api_key_id_created_at = record {
  name = "ix_usage_api_key_id_created_at";
  table = "usage";
  columns = "api_key_id" ∷ "created_at" ∷ [];
  unique = false;
}

abbrev pub ix_usage_created_at : Index
ix_usage_created_at = record {
  name = "ix_usage_created_at";
  table = "usage";
  columns = "created_at" ∷ [];
  unique = false;
}

abbrev pub job : Table
job = record {
  name = "job";
  columns =
      required "id" (ColumnType.string 32)
      ∷ required "api_key_id" (ColumnType.string 32)
      ∷ required "status" (ColumnType.string 16)
      ∷ required "model" (ColumnType.string 255)
      ∷ required "prompt" ColumnType.text
      ∷ required "callback_url" (ColumnType.string 2048)
      ∷ optional "content" ColumnType.text
      ∷ optional "error_code" (ColumnType.string 64)
      ∷ optional "error_message" ColumnType.text
      ∷ required "prompt_tokens" ColumnType.integer
      ∷ required "completion_tokens" ColumnType.integer
      ∷ required "delivery_attempts" ColumnType.integer
      ∷ optional "delivered_at" ColumnType.timestamp
      ∷ stamped "created_at"
      ∷ stamped "updated_at"
      ∷ [];
  foreign_keys = record { column = "api_key_id"; refers_to = "api_key.id" } ∷ [];
  primary_key = "id" ∷ [];
}

abbrev pub ix_job_api_key_id_created_at : Index
ix_job_api_key_id_created_at = record {
  name = "ix_job_api_key_id_created_at";
  table = "job";
  columns = "api_key_id" ∷ "created_at" ∷ [];
  unique = false;
}

module _ {ℓ} {S : Type ℓ} (op : Operations S) where
  -- 74d862f9bb42_create_api_key_and_usage_tables.py
  unfoldable pub upgrade_keys : S → Option S
  upgrade_keys = in_order (
      op.create_table api_key
      ∷ op.create_index ix_api_key_key_hash
      ∷ op.create_table usage
      ∷ op.create_index ix_usage_api_key_id_created_at
      ∷ op.create_index ix_usage_created_at
      ∷ [])

  unfoldable pub downgrade_keys : S → Option S
  downgrade_keys = in_order (
      op.drop_index "ix_usage_created_at" "usage"
      ∷ op.drop_index "ix_usage_api_key_id_created_at" "usage"
      ∷ op.drop_table "usage"
      ∷ op.drop_index "ix_api_key_key_hash" "api_key"
      ∷ op.drop_table "api_key"
      ∷ [])

  -- 868f403cb0ca_create_job_table.py
  unfoldable pub upgrade_job : S → Option S
  upgrade_job = in_order (op.create_table job ∷ op.create_index ix_job_api_key_id_created_at ∷ [])

  unfoldable pub downgrade_job : S → Option S
  downgrade_job =
      in_order (op.drop_index "ix_job_api_key_id_created_at" "job" ∷ op.drop_table "job" ∷ [])

  -- To the newest revision, in the order that `down_revision` gives, and back.
  unfoldable pub upgrade : S → Option S
  unfolding upgrade_keys upgrade_job
  upgrade s = do t ← upgrade_keys s; upgrade_job t

  unfoldable pub downgrade : S → Option S
  unfolding downgrade_keys downgrade_job
  downgrade s = do t ← downgrade_job s; downgrade_keys t
