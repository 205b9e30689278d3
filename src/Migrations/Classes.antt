-- ===== src/Migrations/Classes.antt =====
-- src/models/tables.py: the classes, with what they declare of their columns and indexes.
use prd_api_wrapper.Prelude.{String, Bool, true, false, Option, none, some, List, [], ◌∷◌}
use prd_api_wrapper.Migrations.{ColumnType, ServerDefault}

-- `name: Mapped[...] = mapped_column(...)`: an annotation with `None` makes the column nullable.
pub record MappedColumn : Type 0 where
  pub name : String
  pub type : ColumnType
  pub nullable : Bool
  pub primary_key : Bool
  pub foreign_key : Option String
  pub unique : Bool
  pub index : Bool
  pub autoincrement : Bool
  pub server_default : Option ServerDefault

-- A class, with the indexes of its `__table_args__`: their names and columns.
pub record Model : Type 0 where
  pub class_name : String
  pub columns : List MappedColumn
  pub table_args : List (String × List String)

abbrev pub mapped : String → ColumnType → MappedColumn
mapped n t = record {
  name = n;
  type = t;
  nullable = false;
  primary_key = false;
  foreign_key = none;
  unique = false;
  index = false;
  autoincrement = false;
  server_default = none;
}

abbrev pub mapped_key : String → ColumnType → MappedColumn
mapped_key n t = record {
  name = n;
  type = t;
  nullable = false;
  primary_key = true;
  foreign_key = none;
  unique = false;
  index = false;
  autoincrement = false;
  server_default = none;
}

abbrev pub mapped_none : String → ColumnType → MappedColumn
mapped_none n t = record {
  name = n;
  type = t;
  nullable = true;
  primary_key = false;
  foreign_key = none;
  unique = false;
  index = false;
  autoincrement = false;
  server_default = none;
}

-- `DateTime(timezone=True), server_default=func.now()`, with `index` as it is given.
abbrev pub mapped_now : String → Bool → MappedColumn
mapped_now n i = record {
  name = n;
  type = ColumnType.timestamp;
  nullable = false;
  primary_key = false;
  foreign_key = none;
  unique = false;
  index = i;
  autoincrement = false;
  server_default = some ServerDefault.now;
}

-- `String(32), ForeignKey("api_key.id")`
abbrev pub api_key_id : MappedColumn
api_key_id = record {
  name = "api_key_id";
  type = ColumnType.string 32;
  nullable = false;
  primary_key = false;
  foreign_key = some "api_key.id";
  unique = false;
  index = false;
  autoincrement = false;
  server_default = none;
}

-- `String(64), unique=True, index=True`
abbrev pub key_hash : MappedColumn
key_hash = record {
  name = "key_hash";
  type = ColumnType.string 64;
  nullable = false;
  primary_key = false;
  foreign_key = none;
  unique = true;
  index = true;
  autoincrement = false;
  server_default = none;
}

abbrev pub api_key_class : Model
api_key_class = record {
  class_name = "ApiKey";
  columns =
      mapped_key "id" (ColumnType.string 32)
      ∷ mapped "name" (ColumnType.string 255)
      ∷ key_hash
      ∷ mapped_now "created_at" false
      ∷ mapped_none "revoked_at" ColumnType.timestamp
      ∷ mapped_none "last_used_at" ColumnType.timestamp
      ∷ [];
  table_args = [];
}

abbrev pub usage_class : Model
usage_class = record {
  class_name = "Usage";
  columns =
      record (mapped_key "id" ColumnType.big_integer) { autoincrement = true }
      ∷ api_key_id
      ∷ mapped "model" (ColumnType.string 255)
      ∷ mapped "prompt_tokens" ColumnType.integer
      ∷ mapped "completion_tokens" ColumnType.integer
      ∷ mapped "status_code" ColumnType.integer
      ∷ mapped "duration_ms" ColumnType.integer
      ∷ mapped_now "created_at" true
      ∷ [];
  table_args = ("ix_usage_api_key_id_created_at", "api_key_id" ∷ "created_at" ∷ []) ∷ [];
}

abbrev pub job_class : Model
job_class = record {
  class_name = "Job";
  columns =
      mapped_key "id" (ColumnType.string 32)
      ∷ api_key_id
      ∷ mapped "status" (ColumnType.string 16)
      ∷ mapped "model" (ColumnType.string 255)
      ∷ mapped "prompt" ColumnType.text
      ∷ mapped "callback_url" (ColumnType.string 2048)
      ∷ mapped_none "content" ColumnType.text
      ∷ mapped_none "error_code" (ColumnType.string 64)
      ∷ mapped_none "error_message" ColumnType.text
      ∷ mapped "prompt_tokens" ColumnType.integer
      ∷ mapped "completion_tokens" ColumnType.integer
      ∷ mapped "delivery_attempts" ColumnType.integer
      ∷ mapped_none "delivered_at" ColumnType.timestamp
      ∷ mapped_now "created_at" false
      ∷ mapped_now "updated_at" false
      ∷ [];
  table_args = ("ix_job_api_key_id_created_at", "api_key_id" ∷ "created_at" ∷ []) ∷ [];
}

-- The classes of the module, in the order they stand in.
abbrev pub classes : List Model
classes = api_key_class ∷ usage_class ∷ job_class ∷ []
