-- ===== src/Endpoints/Bodies/Laws.antt =====
-- The bounds of a request, as src/models/completion.py and src/models/job.py declare them.
use prd_api_wrapper.Prelude.{
  ℕ, pos, ◌≤◌, String, ◌≡◌, refl, ◌↔◌, true, Option, none, some, length, arith,
}
use prd_api_wrapper.Json.{
  Json, Entries, obj, str, arr, int, float, bool, nat, null, no_entry, entry, get_entry,
}
use prd_api_wrapper.Completion.Models.{CompletionRequest}
use prd_api_wrapper.Jobs.Models.{JobRequest}
use prd_api_wrapper.Jobs.Service.{completion_request}
use prd_api_wrapper.Endpoints.{valid}
use prd_api_wrapper.Endpoints.Bodies.{
  Fields, default_temperature, prompt_field, model_field, temperature_field, max_tokens_field,
  read_completion, read_job, completion_body, job_body, read_temperature,
}

-- What pydantic documents of its fields: a text and a number are read as they are, and a float that
-- was read is read again as itself.
pub record Documented (f : Fields) : Type 0 where
  pub reads_text : (s : String) → f.str_field (str s) ≡ some s
  pub reads_number : (n : ℕ) → f.int_field (nat n) ≡ some (pos n)
  pub reads_float : (v t : Json) → f.float_field v ≡ some t → f.float_field t ≡ some t
  pub reads_default : f.float_field default_temperature ≡ some default_temperature
  pub default_in_bounds : (f.ge default_temperature 0 ≡ true) × (f.le default_temperature 2 ≡ true)

abbrev pub IsTokenCount : Option ℕ → Type 0
IsTokenCount none = Unit
IsTokenCount (some n) = (1 ≤ n) × (n ≤ 4096)

-- The bounds that the API documents for a completion.
pub record IsInBounds (f : Fields) (r : CompletionRequest) : Type 0 where
  pub prompt : (1 ≤ length r.prompt) × (length r.prompt ≤ 8000)
  pub number : f.float_field r.temperature ≡ some r.temperature
  pub temperature : (f.ge r.temperature 0 ≡ true) × (f.le r.temperature 2 ≡ true)
  pub max_tokens : IsTokenCount r.max_tokens

module _ (f : Fields) (doc : Documented f) where
  prompt_bounds :
      (fs : Entries) (p : String) → prompt_field f fs ≡ some p → (1 ≤ length p) × (length p ≤ 8000)
  unfolding prompt_field
  prompt_bounds fs p h = ground arith

  read_temperature_bounds :
      (o : Option Json) (t : Json)
      → read_temperature f o ≡ some t
      → (f.float_field t ≡ some t) × (f.ge t 0 ≡ true) × (f.le t 2 ≡ true)
  read_temperature_bounds none t h =
      ground (arith, doc.reads_default, doc.default_in_bounds.0, doc.default_in_bounds.1)
  read_temperature_bounds (some v) t h = ground (arith, doc.reads_float v t)

  temperature_bounds :
      (fs : Entries) (t : Json)
      → temperature_field f fs ≡ some t
      → (f.float_field t ≡ some t) × (f.ge t 0 ≡ true) × (f.le t 2 ≡ true)
  unfolding temperature_field
  temperature_bounds fs t h = read_temperature_bounds (get_entry "temperature" fs) t h

  max_tokens_bounds :
      (fs : Entries) (o : Option ℕ) → max_tokens_field f fs ≡ some o → IsTokenCount o
  unfolding max_tokens_field
  max_tokens_bounds fs none h = tt
  max_tokens_bounds fs (some n) h = ground arith

  read_parts :
      (fs : Entries) (r : CompletionRequest)
      → read_completion f fs ≡ some r
      → (prompt_field f fs ≡ some r.prompt)
        × (temperature_field f fs ≡ some r.temperature)
        × (max_tokens_field f fs ≡ some r.max_tokens)
  unfolding read_completion
  read_parts fs r h = ground arith

  job_parts :
      (fs : Entries) (r : JobRequest)
      → read_job f fs ≡ some r
      → read_completion f fs ≡ some (completion_request r)
  unfolding read_job read_completion
  job_parts fs r h = ground arith

-- A request as a body in JSON.
abbrev text_or_null : Option String → Json
text_or_null none = null
text_or_null (some s) = str s

abbrev count_or_null : Option ℕ → Json
count_or_null none = null
count_or_null (some n) = nat n

abbrev fields_of : CompletionRequest → Entries
fields_of r =
    let counted = entry "max_tokens" (count_or_null r.max_tokens) no_entry in
    let warm = entry "temperature" r.temperature counted in
    entry "prompt" (str r.prompt) (entry "model" (text_or_null r.model) warm)

pub to_json : CompletionRequest → Json
to_json r = obj (fields_of r)

module _ (f : Fields) (doc : Documented f) where
  reads_prompt :
      (fs : Entries) (p : String)
      → get_entry "prompt" fs ≡ some (str p)
      → (1 ≤ length p) × (length p ≤ 8000)
      → prompt_field f fs ≡ some p
  unfolding prompt_field
  reads_prompt fs p e h = rw (e, doc.reads_text p) (ground arith)

  reads_model :
      (fs : Entries) (o : Option String)
      → get_entry "model" fs ≡ some (text_or_null o)
      → model_field f fs ≡ some o
  unfolding model_field
  reads_model fs none e = rw e refl
  reads_model fs (some s) e = rw (e, doc.reads_text s) refl

  reads_temperature :
      (fs : Entries) (t : Json)
      → get_entry "temperature" fs ≡ some t
      → f.float_field t ≡ some t
      → (f.ge t 0 ≡ true) × (f.le t 2 ≡ true)
      → temperature_field f fs ≡ some t
  unfolding temperature_field
  reads_temperature fs t e number (ge, le) = rw (e, number, ge, le) refl

  reads_max_tokens :
      (fs : Entries) (o : Option ℕ)
      → get_entry "max_tokens" fs ≡ some (count_or_null o)
      → IsTokenCount o
      → max_tokens_field f fs ≡ some o
  unfolding max_tokens_field
  reads_max_tokens fs none e h = rw e refl
  reads_max_tokens fs (some n) e h = rw (e, doc.reads_number n) (ground arith)

  to_json-read : (r : CompletionRequest) → IsInBounds f r → completion_body f (to_json r) ≡ valid r
  unfolding completion_body read_completion to_json get_entry
  to_json-read r h =
      rw
        (
          reads_prompt (fields_of r) r.prompt refl h.prompt,
          reads_model (fields_of r) r.model refl,
          reads_temperature (fields_of r) r.temperature refl h.number h.temperature,
          reads_max_tokens (fields_of r) r.max_tokens refl h.max_tokens,
        )
        refl

  read_bounds :
      (fs : Entries) (r : CompletionRequest) → read_completion f fs ≡ some r → IsInBounds f r
  read_bounds fs r h =
      let (p, t, n) = read_parts f doc fs r h in
      let (number, ge, le) = temperature_bounds f doc fs r.temperature t in
      record {
        prompt = prompt_bounds f doc fs r.prompt p;
        number = number;
        temperature = (ge, le);
        max_tokens = max_tokens_bounds f doc fs r.max_tokens n;
      }

  body_bounds : (v : Json) (r : CompletionRequest) → completion_body f v ≡ valid r → IsInBounds f r
  unfolding completion_body
  body_bounds (obj fs) r h = read_bounds fs r (ground arith)
  body_bounds (str s) r h = cc
  body_bounds (arr vs) r h = cc
  body_bounds (int n) r h = cc
  body_bounds (float p b) r h = cc
  body_bounds (bool b) r h = cc
  body_bounds null r h = cc

  job_bounds :
      (v : Json) (r : JobRequest) → job_body f v ≡ valid r → IsInBounds f (completion_request r)
  unfolding job_body
  job_bounds (obj fs) r h =
      read_bounds fs (completion_request r) (job_parts f doc fs r (ground arith))
  job_bounds (str s) r h = cc
  job_bounds (arr vs) r h = cc
  job_bounds (int n) r h = cc
  job_bounds (float p b) r h = cc
  job_bounds (bool b) r h = cc
  job_bounds null r h = cc

  -- The completions that a body in JSON can ask for are exactly those within the bounds: a prompt of
  -- 1 to 8000 characters, a temperature that is a float from 0 to 2, and no limit of tokens or one
  -- from 1 to 4096. It is assumed that pydantic reads fields as `Documented` says.
  pub completion_body_exactly :
      (r : CompletionRequest) → ((v : Json) × (completion_body f v ≡ valid r)) ↔ IsInBounds f r
  completion_body_exactly r = (λ (v, h). body_bounds v r h, λ h. (to_json r, to_json-read r h))

  -- The completion that is built from the fields of a job that the API has let through meets the
  -- bounds of a completion, and is read from its own fields as itself: building it in the background
  -- never fails its validation. It is assumed that pydantic reads fields as `Documented` says.
  pub job_body-completion_request :
      (v : Json) (r : JobRequest)
      → job_body f v ≡ valid r
      → IsInBounds f (completion_request r)
        × (completion_body f (to_json (completion_request r)) ≡ valid (completion_request r))
  job_body-completion_request v r h =
      let bounds = job_bounds v r h in (bounds, to_json-read (completion_request r) bounds)
