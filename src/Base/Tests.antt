-- ===== src/Base/Tests.antt =====
-- Runs of src/models/base.py.
use prd_api_wrapper.Prelude.{◌≡◌, refl}
use prd_api_wrapper.Base.{camel_to_snake}

camel_to_snake_acronym : camel_to_snake "HTTPClientV2Row" ≡ "http_client_v2_row"
unfolding camel_to_snake
camel_to_snake_acronym = refl
