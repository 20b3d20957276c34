-- ===== src/Lib.antt =====
-- A verification library of the currency-quote service: clients ask for an exchange rate to be
-- refreshed, a worker fetches it from an upstream, and the answer is polled.
--
-- How the parts interact. The HTTP handlers (internal/api/http) call the use cases
-- (internal/usecase/quotes), which record update requests through the storage port. The dispatcher
-- claims due requests from the same port and hands each to the worker, which reuses the pair's latest
-- quote while it is fresh, or asks the rate limiter and then the upstream's adapter
-- (internal/provider/exchangeratedev), and closes the request with a quote, a final failure or a
-- retry. The port has two implementations, in process and over PostgreSQL. The configuration
-- (internal/config) is read once, before any of this runs. The domain (internal/domain/quotes) has
-- the values and the status machine.
--
-- Files and code:
--   Prelude      Boolean tests, lists, integers, texts and Go maps over the native numbers
--   Errors       the errors of all layers, and results that return, fail or panic
--   Domain       internal/domain/quotes: Currency (currency_code.go), Pair (currency_pair.go), Rate
--                (currency_rate.go), RateError (errors.go), Update (update_request.go)
--   Memory       internal/storage/memory/repository.go: State is the struct Repository, Claim is
--                ClaimBatch, Quotes is findOrCreateQuote and GetLatestQuote, Memory itself the other
--                methods, History the runs of its writing methods
--   Postgres     internal/storage/postgres: Schema is migrations/00001_init.sql and 00002_reused.sql;
--                repository.go is Rows (scanning and error wrapping), Journal (the table quotes),
--                Claim (ClaimBatch), Requests (creation and reads) and Postgres itself (the closing
--                methods); Abstract reads a database as a state of Memory, Refinement compares the
--                two method by method, Runs has the sequences of calls, Service puts it in the place
--                of the storage port
--   Config       internal/config/config.go: Config is the struct and its defaults, Env the readers
--                of environment variables, Load the function Load
--   Limiter      internal/usecase/quotes/ratelimiter.go: RateLimiter, Allow, CoolDown
--   UseCase      internal/usecase/quotes: Port (repository.go, provider.go), Requests
--                (request_update.go, get_latest.go, get_by_update_id.go)
--   Worker       internal/usecase/quotes/worker.go: Worker has Process, resolve and fetch, Backoff
--                has backoff, Failure has fail
--   Dispatcher   internal/usecase/quotes/dispatcher.go: ClaimAndDispatch and runPassRecovered; Run
--                in Loop
--   Provider     internal/provider/exchangeratedev/adapter.go, and internal/provider/fake/adapter.go
--                in Fake
--   Http         internal/api/http: Dto (dto.go), Handlers (quotes_handlers.go,
--                system_handlers.go), Middleware (middleware.go), Router (router.go and the order of
--                the middleware)
--   Server       cmd/server: main.go as far as the parts are built, and provider.go
--   Examples     concrete runs
--
-- State and effects. A method that changes state takes it and returns it anew beside its result. Each
-- method of the in-process storage and of the limiter holds its mutex from its first line to its
-- return, so it is one step, and interleavings of callers are sequences of steps
-- (Memory.History.Reach, Limiter.Windows.observe_all). A panic is a result of its own. A method over
-- PostgreSQL takes a Session, which tells for each of its statements whether the driver refuses it,
-- answers it, or commits it and loses the answer, and what the second look at an unmatched row sees.
-- A table is keyed by its primary key; a rollback undoes the rows, not what was drawn from a sequence;
-- rows locked by other sessions are a predicate; the order of equal keys and of RETURNING, which SQL
-- leaves open, is that of the table. GetByIdempotencyKey and ClaimBatch do not read the column
-- `reused`, so the abstract reading is compared on what the methods return.
--
-- Representation. Instants and durations are integers of nanoseconds without overflow, the zero time
-- being 0, but for the products of int64 in backoff and in the Retry-After header, whose wrap-around
-- is written out (Worker.Backoff.wrap64). The columns of type timestamptz keep instants exactly here,
-- where the database keeps microseconds. Texts are lists of code points; bytes that are no UTF-8 are
-- left out, and upper case is that of ASCII and of the letters whose upper case is ASCII. A UUID is
-- the number of its 128 bits. A Go map is a list of entries, and its iteration order the list's.
-- Every loop is structural recursion on a list, so no fuel occurs. The dispatcher's Run, which need
-- not end, runs on a script of what wakes it and of what its passes meet (Dispatcher.Loop); a drain
-- whose script ends before it does is reported as such.
--
-- Parameters. The decimal type with its sign, its text and its NUMERIC column, the parsers of
-- durations, numbers and command-line flags, UUID parsing and printing, fresh identifiers,
-- the readings of the clock, the jitter, the outcome of the HTTP exchange and of the decoders, and
-- the result that singleflight shares between callers are arguments.
--
-- Not modelled: log lines, deadlines and contexts (but for the error of a context that has ended, and
-- the end that stops the dispatcher's loop), the overlap of the rows of one batch, the connection pool
-- and the migration runner, the mux's own answers, listening, signals and the shutdown.
mod Prelude
pub mod Errors
pub mod Domain
pub mod Config
pub mod Memory
pub mod Postgres
pub mod Limiter
pub mod UseCase
pub mod Worker
pub mod Dispatcher
pub mod Http
pub mod Server
pub mod Provider
pub mod Examples
