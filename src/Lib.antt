-- ===== src/Lib.antt =====
-- The accounts of the messenger: registration, confirmation of the email, login, sessions that
-- refresh tokens extend, and the queue of events from which a worker sends mails.
--
-- The parts and their files:
-- - Errors: the error values of internal/service/auth/errors.go, delivery.go beside it,
--   internal/outbox/errors.go and internal/outbox/processor.go, with `errors.Is` and `errors.As`.
-- - Domain: the inputs and results of internal/service/auth (service.go, repository.go,
--   cache_repository.go, delivery.go), internal/outbox/event.go and internal/dto.
-- - Postgres: the repositories of internal/adapter/repository/postgres. Schema has a record for each
--   row of migrations/postgres and the checks of an INSERT. Link has the faults of the connection.
--   Auth is auth_repository.go (GetUserForLogin, CreateUser, ConfirmEmail, ResendVerification,
--   GetForDelivery), Sessions is session_repository.go (CreateSession, GetSessionState, ExtendSession),
--   Outbox is outbox_repository.go (ClaimNext, MarkProcessed, ScheduleRetry, MarkFailed). A function
--   takes the tables and returns its result beside the tables that it leaves. Checks has the CHECKs of
--   the schema, Outbox.Lifecycle the life of an event as an abstract machine, Outbox.Order what does
--   not depend on the order of the rows.
-- - Processor: internal/outbox/processor.go (`process_one` is processOne, `run` is Run, `retry_delay`
--   and `retry_base_delay` are retryDelay and retryBaseDelay). Settles joins it to the PostgreSQL queue.
-- - Dispatcher: internal/handler/event/dispatcher.go (`handle` is Handle). Delivery joins it to the
--   PostgreSQL repository, Worker to the queue, as cmd/worker does.
-- - Service: internal/service/auth/service.go. Ports is a record of all that the service calls, on a
--   world of any type. Flows has the operations: Authenticate, Refresh, Login, Register, ConfirmEmail
--   and ResendVerification. Validation has the checks of their inputs.
--   Registration says what a registration that succeeded has done. Memory is memory_repository.go.
-- - Postgres.Users: `GetUserByID` of user_repository.go and of internal/service/user/service.go.
-- - Redis: internal/adapter/repository/redis (access_token_storage.go, session_storage.go,
--   refresh_result_storage.go) over GET and SET. Keys tells the keys apart, Laws has what is kept under
--   them and for how long, by the time of Redis, and Server.Caches makes of that the interfaces of
--   Service.Sessions and Service.Caches.
-- - Http: internal/handler/httpapi. A handler gets a request and returns the calls that it makes on
--   its response writer, how it ended, and the world that it left. Writer and Middleware are
--   middleware.go, Requests has the bodies that are decoded, Responses the response to each result and
--   error, Handlers the handlers, Routes is api.go.
-- - Security: internal/security. Cipher is secret/cipher.go, Token is token/token.go, Argon2 is
--   password/argon2.go with the texts of its hashes, Base64 is the encoding that both use, Jwt is
--   token/jwt.go.
-- - Config: `Load` of internal/config/config.go. Server: how cmd/server puts the service over
--   PostgreSQL, Redis and the security packages, and cmd/worker its dispatcher; Server.Mail and
--   Server.Registration follow a registration through both, Server.Journey to the link of its mail,
--   Server.Login a login and its access token, Server.Theft a refresh token that was used.
-- - Programs: the main functions of cmd/server and cmd/worker (`server` and `worker` are the calls that
--   they make), with `open_pool`, which is Open of internal/adapter/repository/postgres/postgres.go, and
--   `new_redis`, which is NewRedis of cmd/server/main.go. Releases has what they give back, Workers
--   puts the worker's processor together. Server.Web puts the API over the server's services,
--   Server.Refresh is its answer to a token that is not taken, Server.Verify to a link of a mail.
--   Server.Retry is a refresh that is asked twice, Server.Silence a resend, Http.Handlers.Guard who gets
--   the profile.
-- - Logs: internal/observability/auth.go and internal/service/email/log_sender.go.
-- - Base: what the other files share. Examples: runs on small tables and caches.
--
-- How it is modelled:
-- - A table is a list of rows, a new row stands in front, and a statement is a function on the lists.
--   Transactions are taken one after another, as their row locks make them; SKIP LOCKED is a predicate
--   `busy` of the rows that other statements hold. The keys of the schema are checked by an INSERT.
-- - Every round trip of a call has a fault of its own, by its number: `up`, `down` (nothing was done)
--   or `lost` (it was done and the answer was lost). A transaction that is not committed leaves no
--   trace.
-- - Times and durations are nanoseconds in ℕ, from 1970 on; `now.Add(-lease)` stops at 0 there. The
--   rounding of a TIMESTAMPTZ to microseconds is not modelled. Identifiers are numbers.
-- - The random part of a delay is `r / float_scale` with `float_scale = 2 ^ 53`, the numbers that
--   `rand.Float64` returns; the rounding of the product as a float is not modelled.
-- - The database's `lower`, `mail.ParseAddress`, `strings.ToLower`, the clock, `uuid.New`,
--   the random source, SHA-256, `argon2.IDKey`, AES-GCM, the client of Redis, the JSON decoders, the
--   parsers of addresses, the texts and bytes of UUIDs, the jwt library and the loggers are parameters.
--   Of the libraries that a program opens and closes, the answers are the parameters and the calls are
--   listed.
-- - Loops: the only one of the code is `Run`, a recursion on the list of the signals that it receives, so no fuel
--   is needed. The queries are recursions on the rows.
--
-- Not modelled: the lines that the handlers and the processor log, and the request identifiers of
-- internal/execution that stand in them. A response is its calls on the writer: of the headers only
-- the content type is written by the code. The time limits of the contexts are errors of the calls
-- that they cut off. What argon2 does with parameters that it panics on is left to its parameter.
pub mod Base
pub mod Errors
pub mod Domain
pub mod Postgres
pub mod Processor
pub mod Programs
pub mod Dispatcher
pub mod Service
pub mod Redis
pub mod Http
pub mod Security
pub mod Config
pub mod Server
pub mod Logs
pub mod Examples
