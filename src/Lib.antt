-- ===== src/Lib.antt =====
-- The backend of the cloud cost dashboard: a REST API over a database of an organization's
-- hierarchy and of what its cloud accounts cost, and a scheduler that fetches the costs.
--
-- The database is gorm over SQLite, no code of the repository.  `Gorm` has the calls that the
-- backend makes as operations on a state of their own, `IsLawful` what their documentation promises
-- (a statement that fails changes nothing, a transaction rolls back); every handler is a function
-- of it.  `Gorm.Memory` is a database in memory that keeps these laws, for the examples.
-- A handler takes the request's parts and the database and returns the answer and the
-- database; an `error` value is its message.  What is written before an error stays written, unless
-- a transaction takes it back (`Base.Exec`).
--
-- The files, with the code that each is about:
-- `Model`: backend/internal/models/models.go and the tables of backend/internal/db/db.go.
-- `Hierarchy`: the cascading deletes of backend/internal/api/handlers_hierarchy.go, and the pruning of
--   the tables that they come to (`Hierarchy.Prune`).
-- `Text`: what the code uses of strconv, fmt, strings and time; `Text.Numbers.Uint` says which texts
--   are numbers of 64 bits.
-- `Api.Hierarchy`, `Api.Tree`: backend/internal/api/handlers_hierarchy.go.
-- `Api.Costs`: backend/internal/api/handlers_costs.go.
-- `Api.Accounts`: backend/internal/api/handlers_accounts.go.
-- `Api.Users`: backend/internal/api/handlers_auth.go.
-- `Api.Router`, `Api.Response`: backend/internal/api/router.go and helpers.go.
-- `Api.Server`: the handlers behind the routes, as one function from a request to an answer
--   (`Router` of backend/internal/api/router.go); `Api.Server.Runs` has the runs of a server.
-- `Auth`: backend/internal/auth/auth.go and middleware.go; golang-jwt and bcrypt are the interfaces
--   of `Auth.Libraries`.
-- `Providers`: backend/internal/providers/provider.go, registry.go and csv.go; `Providers.Aws`, `Azure`,
--   `Gcp` and `Oci` the adapter of the same file name; `Providers.Sdk` the calls of the clouds' SDKs.
-- `Crypto`: backend/internal/crypto/crypto.go over an interface for the AEAD and base64.
-- `Bootstrap`, `Main`: `bootstrapAdmin` and `main` of backend/cmd/server/main.go.
-- `Config`: backend/internal/config/config.go.
-- `Scheduler`: backend/internal/scheduler/scheduler.go; `Scheduler.Upsert` is the interface of the
--   insert with a conflict clause, `Scheduler.Cron` has `Start` and `Stop`.
-- `Examples`: the theorems at concrete inputs.
--
-- The router (`Api.Router.serve`) puts the middleware of `Auth` in front of the handlers, which read
-- the claims that it hands on; the handlers of the hierarchy run the cascades in a transaction; the
-- scheduler takes the credentials through `Crypto` to an adapter of the registry and stores what it
-- fetches through the upsert.
--
-- Bounds: a `uint` has 64 bits, which the parsers of `Text.Numbers` keep, an `int` 64 with its sign;
-- times are counts of nanoseconds without an upper bound, floats their 64 bits with addition as a
-- parameter.  All loops are structural recursion but two: `print_uint` is on fuel, one round more than
-- the number, and so is the loop of the AWS adapter over the pages, for which a round more than there
-- are pages is enough; where the service never ends its pages, neither does the loop.
--
-- Not modelled: the SDKs, gorm, SQLite, golang-jwt, bcrypt, AES, encoding/csv and the cron library, which
-- are parameters; JSON encoding, CORS and logging; that requests and syncs run at the same time (each
-- is one step of a run); that the clock moves within a sync; the panic on a result of Cost Explorer
-- without a time period, which the service always sets; contexts and time-outs; and the frontend.
pub mod Base
pub mod Model
pub mod Gorm
pub mod Hierarchy
pub mod Text
pub mod Api
pub mod Auth
pub mod Providers
pub mod Crypto
pub mod Scheduler
pub mod Bootstrap
pub mod Config
pub mod Main
pub mod Examples
