-- ===== src/Lib.antt =====
-- A production API wrapper in front of an upstream completion provider.
--
-- A request is let in by its API key (src/services/authentication.py), pays a token of its caller's
-- bucket (src/dependencies/rate_limit.py over src/services/rate_limiter.py), and is answered by the
-- completion service (src/services/completion.py), which calls the provider through a circuit
-- breaker, repeats what is worth repeating (src/services/resilience.py), and records the usage. A job
-- (src/services/jobs.py) does the same in the background and delivers the answer to a callback
-- (src/services/webhooks.py). Whatever fails is answered in one form (src/errors).
--
-- Modules and the files they model:
--   Errors       src/errors/exceptions.py and, in Errors/Handlers, src/errors/handlers.py. A class of
--                exception is a member of `ErrorClass`, its class attributes are functions of it.
--   Resilience   src/services/resilience.py, src/models/resilience.py: Retry for `RetryPolicy`,
--                Breaker for `CircuitBreaker`. Breaker/Events puts the calls of concurrent requests
--                in one sequence.
--   RateLimit    src/services/rate_limiter.py, src/models/rate_limit.py: Bucket for `TokenBucket`,
--                Limiter for `InMemoryRateLimiter`, and Limiter/Order for what it holds up to the
--                order of its dict; Enforce for src/dependencies/rate_limit.py.
--   Completion   src/services/completion.py: Upstream for the mappings of errors and responses,
--                Service for the calls; Models for src/models/completion.py, src/models/usage.py and
--                `Caller` of src/models/caller.py. The service is given a usage repository: Service
--                has the one in memory of src/repositories/usage.py, Usage the one over Postgres.
--   Webhooks     src/services/webhooks.py; Wiring for what src/dependencies/common.py makes of it.
--   Jobs         Models for src/models/job.py and `Job` of src/models/tables.py; Store for the
--                repository in memory of src/repositories/jobs.py, Postgres for the other one,
--                and Repository for the protocol that both have; Service for src/services/jobs.py
--                over any repository; Lifecycle for a job from its submission to its result,
--                Course for the states it goes through, Postgres/Accept for what can be submitted;
--                Wiring for what src/dependencies/common.py makes of the job service and the
--                other two services.
--   Auth         Keys for src/repositories/api_keys.py, `ApiKeyRecord` of src/models/caller.py and
--                `ApiKey` of src/models/tables.py; Service for src/services/authentication.py and
--                src/dependencies/auth.py; Mint for the script that mints a key.
--   Database     the constraints of src/models/tables.py: which rows a table takes.
--   Base         `camel_to_snake` of src/models/base.py.
--   Migrations   migrations/versions; Migrations/Classes and Migrations/Tables for the classes of
--                src/models/tables.py as descriptions of tables and indexes; Migrations/Start for
--                migrations/env.py.
--   Endpoints    src/endpoints/completion.py and src/endpoints/jobs.py with the dependencies that
--                FastAPI solves for them: src/dependencies/auth.py,
--                src/dependencies/rate_limit.py and the session of src/dependencies/common.py;
--                Endpoints/Health for src/endpoints/health.py, Endpoints/Wiring for the
--                completion service that src/dependencies/common.py and src/factory.py put under
--                the routes, Endpoints/Traffic for requests that interleave, Endpoints/Bodies for
--                the fields of the request models, Endpoints/App for a request through the whole
--                application that src/factory.py builds. FastAPI reads the body as JSON,
--                solves the dependencies in the order in which they are declared, checks the
--                fields of the body after them, and closes the session after the route.
--   RequestId    src/middleware/request_id.py, with the handlers inside and outside of it as
--                src/factory.py puts them.
--   Config       the check and the shared objects of src/factory.py; Build for the middleware and
--                the routers that it puts together; Values for
--                src/configuration.py, Logging for src/logs.py and src/runserver.py, Database for
--                src/databases/session.py.
--   Dependencies what src/dependencies/common.py and src/dependencies/rate_limit.py take from the
--                application.
--   Prelude, Json, Time, Exec  what these share: texts, dicts, JSON values, ticks, and calls that
--                change state and may raise.
--
-- State and calls. Every operation takes the state it reads and gives back the one it leaves, beside
-- a `Result` where it may raise: what was written before a raise stays written. An `await` that
-- leaves the process, such as a post or a sleep, is a function of the whole state that requests
-- share, so what other requests do meanwhile is part of it. Code between two awaits is one step.
--
-- Numbers. Seconds are floats in the code and whole ticks, nanoseconds, here. The refill rate is a
-- fraction, tokens are counted in its denominator, and waits are fractions, so the bucket is exact;
-- the jitter is a multiple of 2^-53, which is what `random.random` returns, and a delay is rounded
-- down to a tick. The rounding of floats is not modelled, nor is a `Retry-After` that is not a
-- number (`nan`) or infinite.
--
-- Fuel. The loop of `RetryPolicy.run` runs on the number of attempts that are left, which is all the
-- attempts the policy allows, with one where it allows none. Printing a number has the number itself
-- as a bound of its digits. No other definition has fuel.
--
-- The database. A write of a repository is a transaction of its own: the row is written whole, or
-- the constraints of its table refuse it and the call raises. A text column takes the lengths that
-- are declared, counted in characters, and no NUL; an integer column takes 32 bits; an id is taken
-- once; a foreign key needs the row that it names. Failures that have other causes, such as a lost
-- connection, are left out of the repositories over Postgres and are part of the job service, whose
-- repository may fail in any way. The session of a request holds its writes back until it is
-- closed. The scripts of the migrations are run over any database that has the four operations they
-- ask for.
--
-- Parameters, which are not in the repository: the clocks, the HTTP client, SHA-256 and HMAC,
-- `float`, `int` and `repr` of a text, random tokens, how pydantic reads a field and lists
-- errors, what CORS adds to an answer, the answer that Starlette makes in debug mode, the
-- operations of Alembic and its environment, the query and the request of the readiness checks,
-- and what the completion and webhook services do to the state that a job sees.
--
-- Not modelled: the reading of settings from the environment, which pydantic does; what is
-- logged; how FastAPI finds the route of a path, and the 400 with which it answers a body of
-- bytes that are no text; `str.lower` outside of ASCII, which the digests never need; the column
-- `updated_at` of jobs; and what httpx, SQLAlchemy, loguru and uvicorn make of the options that
-- they are given, beside what is listed above.
pub mod Prelude
pub mod Json
pub mod Time
pub mod Errors
pub mod Exec
pub mod Resilience
pub mod RateLimit
pub mod Completion
pub mod Webhooks
pub mod Jobs
pub mod Auth
pub mod Base
pub mod Migrations
pub mod Database
pub mod RequestId
pub mod Endpoints
pub mod Config
pub mod Dependencies
