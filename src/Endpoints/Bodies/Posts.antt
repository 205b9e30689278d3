-- ===== src/Endpoints/Bodies/Posts.antt =====
-- What src/services/completion.py can ask the provider for, given the bounds of the requests that
-- src/models/completion.py and src/models/job.py let through.
use prd_api_wrapper.Prelude.{
  ℕ, ◌≤◌, String, ◌≡◌, refl, ap, ◌⊎◌, inl, inr, true, Option, none, some, length,
}
use prd_api_wrapper.Prelude.Options.{◌>>=◌}
use prd_api_wrapper.Json.{Json, str, nat, member, get_entry}
use prd_api_wrapper.Exec.{Result, ok, raised}
use prd_api_wrapper.Resilience.Breaker.{CircuitBreaker, before_call}
use prd_api_wrapper.Resilience.Retry.{run}
use prd_api_wrapper.Completion.Models.{Caller, CompletionRequest, CompletionResponse}
use prd_api_wrapper.Completion.Upstream.{first}
use prd_api_wrapper.Completion.Service.{
  State, Posted, Service, payload, max_tokens_entry, model_for, call_upstream, observe, proceed,
  guarded_call, account, record_usage, complete,
}
use prd_api_wrapper.Jobs.Models.{JobRequest}
use prd_api_wrapper.Jobs.Service.{completion_request}
use prd_api_wrapper.Endpoints.{valid}
use prd_api_wrapper.Endpoints.Bodies.{Fields, completion_body, job_body}
use prd_api_wrapper.Endpoints.Bodies.Laws.{
  Documented, IsInBounds, IsTokenCount, completion_body_exactly, job_body-completion_request,
}

-- The content of the first message of a payload.
abbrev pub prompt_in : Json → Option Json
prompt_in body = do
  messages ← member "messages" body
  message ← first messages
  member "content" message

abbrev pub IsLimit : Option Json → Type 0
IsLimit none = Unit
IsLimit (some v) = (n : ℕ) × (v ≡ nat n) × (1 ≤ n) × (n ≤ 4096)

-- A payload whose prompt, temperature and limit of tokens are within the bounds.
pub record IsModest (f : Fields) (body : Json) : Type 0 where
  pub prompt : (p : String) × (prompt_in body ≡ some (str p)) × (1 ≤ length p) × (length p ≤ 8000)
  pub temperature :
      (t : Json) × (member "temperature" body ≡ some t) × (f.ge t 0 ≡ true) × (f.le t 2 ≡ true)
  pub max_tokens : IsLimit (member "max_tokens" body)

module _ (f : Fields) where
  tokens_bounded :
      (o : Option ℕ) → IsTokenCount o → IsLimit (get_entry "max_tokens" (max_tokens_entry o))
  unfolding get_entry
  tokens_bounded none h = tt
  tokens_bounded (some n) h = (n, refl, h.0, h.1)

  payload-IsModest :
      (model : String) (r : CompletionRequest) → IsInBounds f r → IsModest f (payload model r)
  unfolding payload member first get_entry
  payload-IsModest model r h = record {
    prompt = (r.prompt, refl, h.prompt.0, h.prompt.1);
    temperature = (r.temperature, refl, h.temperature.0, h.temperature.1);
    max_tokens = tokens_bounded r.max_tokens h.max_tokens;
  }

module _ {W : Type 0} (c : Service W) (post : Json → State W → Posted × State W) (body : Json)
    (model : String) (same : (s : State W) → post body s ≡ c.post body s) where
  abbrev other : Service W
  other = record c { post = post }

  proceed_same :
      (s : State W) (r : Result (Unit {0})) (b : CircuitBreaker)
      → proceed other body model s (r, b) ≡ proceed c body model s (r, b)
  unfolding call_upstream observe
  proceed_same s (ok _) b = rw (same (record s { breaker = b })) refl
  proceed_same s (raised e) b = refl

  guarded_same : (s : State W) → guarded_call other body model s ≡ guarded_call c body model s
  unfolding guarded_call
  guarded_same s =
      proceed_same s (before_call (c.clock s) s.breaker).0 (before_call (c.clock s) s.breaker).1

  run_same :
      (s : State W)
      → run c.retry (guarded_call other body model) s ≡ run c.retry (guarded_call c body model) s
  run_same s = λ i. run c.retry (λ t. guarded_same t i) s

-- A request that the API lets through, as a completion or for a job.
abbrev pub IsLetThrough : Fields → CompletionRequest → Type 0
IsLetThrough f r =
    ((v : Json) × (completion_body f v ≡ valid r))
    ⊎ ((v : Json) × (j : JobRequest) × (job_body f v ≡ valid j) × (r ≡ completion_request j))

module _ (f : Fields) (doc : Documented f) where
  let_through_bounds : (r : CompletionRequest) → IsLetThrough f r → IsInBounds f r
  let_through_bounds r (inl h) = (completion_body_exactly f doc r).0 h
  let_through_bounds r (inr (v, j, h, e)) = rw e (job_body-completion_request f doc v j h).0

  -- A provider is only ever asked for what is within the bounds of the API: for a request that was
  -- let through, as a completion or for a job, two providers that do the same with every payload
  -- whose prompt has 1 to 8000 characters, whose temperature is from 0 to 2 and whose limit of
  -- tokens, if it has one, is from 1 to 4096 cannot be told apart by the completion, the state it
  -- leaves included. It is assumed that pydantic reads fields as `Documented` says.
  pub complete_modest :
      {W : Type 0} (c : Service W) (post : Json → State W → Posted × State W)
      (r : CompletionRequest)
      → IsLetThrough f r
      → ((body : Json) (s : State W) → IsModest f body → post body s ≡ c.post body s)
      → (caller : Caller) (s : State W)
      → complete (record c { post = post }) r caller s ≡ complete c r caller s
  unfolding complete account record_usage
  complete_modest c post r h same caller s =
      let model = model_for c r in
      let modest = payload-IsModest f model r (let_through_bounds r h) in
      ap (λ (o : Result CompletionResponse × State _). account c caller model (c.clock s) o)
        (run_same c post (payload model r) model (λ t. same (payload model r) t modest) s)
