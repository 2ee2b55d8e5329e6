-- ===== src/Lib.antt =====
-- Models of the backend's own logic and theorems about them.
--
-- Resilience: the circuit breaker and the retry loop that guard calls of other services
-- (pkg/platform/resilience/breaker.go, retry.go). Resilience.Breaker has one function for each
-- method: acquire, settle and record_outcome for record, read_state for State, execute for Execute.
-- Each method holds the breaker's mutex throughout, so Resilience.Breaker.Probe takes an
-- interleaving of concurrent calls as a list of events, admissions, endings and looks at the state.
-- Instants are integers in nanoseconds, counters wrap as their machine types do, and a panic is an
-- outcome of the operation. Resilience.Retry is the loop of Retry on a state of the caller's own;
-- its recursion is on the attempts that are left, so it needs no fuel.
--
-- Pagination: page numbers and metadata (pkg/pagination/pagination.go), and the offset that the
-- stores compute from them (pkg/platform/database/taskstore/postgres.go).
--
-- Task: background tasks (pkg/modules/task, pkg/platform/database/taskstore, db/queries/tasks.sql).
-- Task.Model has the statuses and their transitions, Task.Uuid the texts of ids, Task.Store the
-- table of executions with the statements that claim, update and read it, Task.Registry the handlers
-- by type and the catalog, Task.Processor the worker's Process and Fail, Task.Submission the
-- submissions with the outbox. A processor's statements are atomic steps, and what other workers do
-- to the table between them is an argument; Task.Workers lists the statements that any number of
-- workers, schedulers and submitters run on existing executions, in any order. Handlers, the
-- publisher, `errors.Is`, the texts of errors, and which statements the database refuses are
-- parameters. Of the constraints of pkg/migrations the INSERTs have the primary keys, the unique
-- key of an execution's type and idempotency key, the foreign key to its definition and the CHECK on a
-- blank type; the other CHECKs hold of what the code writes, or their failure is a statement that the
-- database refuses. NOW() of the database is an argument of the statements on executions. A row of the
-- outbox has whether it is published, and none of its times.
--
-- Queue: the worker, the failure handler and the dispatcher of the outbox
-- (pkg/platform/queue/asynq.go), on the tables of Task. asynq's client and the decoding of payloads
-- are parameters; publishing is an action on a state of the publisher's own.
--
-- Lifecycle: the stack of closers and the shutdown of Run (pkg/lifecycle/lifecycle.go). The select
-- statements become lists of what they receive.
--
-- Http: the middleware of pkg/httpkit/middleware.go. Http.RateLimit has the in-memory limiter and the
-- RateLimit middleware, Http.RedisLimiter the limiter on Redis with its script
-- (pkg/platform/httpserver/redis_rate_limiter.go), Http.Cors the cross-origin headers, Http.Recovery
-- the buffering writer with Recovery on a log of the calls that the server's writer gets.
--
-- Scheduler: the registrar of periodic tasks (pkg/platform/scheduler/asynq.go). Its two loops are
-- structural recursions on the schedules and on the entries; asynq's scheduler answers through a
-- parameter, and the calls that it gets are logged.
--
-- Iam: identity and access (pkg/modules/iam). Iam.Refresh has the scripts that run in Redis, each as
-- one step on two tables, with the methods of RefreshStore around them; Iam.Rbac has HasPermission,
-- Iam.Ids the normalised ids, Iam.Service the sessions and the authorisation of Service. Iam.AuthCache
-- has the codes sent by email and, in AuthCache.Attempts, the challenges of logins
-- (pkg/platform/authcache/redis.go). Iam.Security has the table of second factors with the methods of
-- pkg/platform/database/iamstore/authentication.go; Security.Snapshots interleaves the statements of
-- requests that read the settings first and save them later, and what other transactions do to the
-- table of consumptions. A transaction has two clocks, time.Now() of the service and NOW() of the
-- database, by which that table is pruned. Iam.Authentication puts these together in
-- the requests of AuthenticationService (authentication_service.go), as actions on one state that
-- Redis and PostgreSQL make up: Authentication.Login has Login and VerifyLogin, Authentication.Factor
-- PutSecurity, Enroll, Confirm and Disable. Iam.Registration has the transactions of Register and
-- VerifyEmail, which spend the receipts of codes. Repositories, clocks, password hashes, signed tokens,
-- SHA-256, HMAC and the ciphers are parameters.
--
-- Not modelled: input and output, logging, metrics, generated code, the web front end and the wiring
-- in cmd and internal. Of the packages with logic of their own these are left out so far: the
-- requests of the authentication service around these two transactions and its settings, passwords
-- and tokens (pkg/modules/iam, pkg/platform/authcrypto), the management operations of Service, the
-- audit trail (pkg/modules/audit), the cache (pkg/platform/cache).
pub mod Base
pub mod Resilience
pub mod Pagination
pub mod Task
pub mod Queue
pub mod Lifecycle
pub mod Http
pub mod Scheduler
pub mod Iam
