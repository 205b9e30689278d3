-- ===== src/Jobs/Wiring.antt =====
-- `get_job_service` of src/dependencies/common.py: the jobs over the completion service and the
-- webhook service, which share one state.
pub mod Laws
mod Tests
use prd_api_wrapper.Prelude.{ℕ, String}
use prd_api_wrapper.Prelude.Dict.{Dict}
use prd_api_wrapper.Completion.Models.{CompletionRequest, CompletionResponse, Caller}
use prd_api_wrapper.Completion.Service
use prd_api_wrapper.Completion.Service.{State}
use prd_api_wrapper.Exec.{Exec}
use prd_api_wrapper.Webhooks
use prd_api_wrapper.Webhooks.{WebhookService}
use prd_api_wrapper.Jobs.Models.{Job, WebhookPayload}
use prd_api_wrapper.Jobs.Repository.{JobState, JobRepository}
use prd_api_wrapper.Jobs.Service.{JobService}

module _ {O : Type 0} where
  -- The state as the completion service sees it: the jobs are part of the world around it.
  abbrev pub into : JobState (State O) → State (Dict Job × O)
  into s = record {
    breaker = s.rest.breaker;
    entries = s.rest.entries;
    world = (s.jobs, s.rest.world);
  }

  abbrev pub out : State (Dict Job × O) → JobState (State O)
  out t = record {
    jobs = t.world.0;
    rest = record { breaker = t.breaker; entries = t.entries; world = t.world.1 };
  }

  unfoldable pub complete_shared :
      Service.Service (Dict Job × O)
      → CompletionRequest
      → Caller
      → Exec (JobState (State O)) CompletionResponse
  complete_shared c request caller s =
      let (r, t) = Service.complete c request caller (into s) in (r, out t)

  -- `get_job_service`, over the repository that it is given; `dump` is `model_dump_json`.
  unfoldable pub get_job_service :
      JobRepository (State O)
      → Service.Service (Dict Job × O)
      → WebhookService (JobState (State O))
      → (WebhookPayload → String)
      → (JobState (State O) → String)
      → (JobState (State O) → ℕ)
      → JobService (State O)
  unfolding complete_shared
  get_job_service jobs c w dump token now = record {
    jobs = jobs;
    complete = complete_shared c;
    deliver = λ url payload s. Webhooks.deliver w url (dump payload) s;
    token = token;
    now = now;
  }
