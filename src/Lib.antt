-- ===== src/Lib.antt =====
-- NBA games service (Go): a poller fetches the games of the day from a provider and writes them as
-- a snapshot to the disk; HTTP handlers serve the snapshots; a syncer fetches the days around.
--
-- Base          lists, texts, decimal numbers and sorting, as the service uses Go's libraries
-- Calendar      internal/timeutil, with the part of Go's `time` that it stands on: days, dates,
--               "2006-01-02". `parse_date` is ParseDate, `format_date` is FormatDate.
-- Domain        internal/domain: games, teams, and the response that is stored and served
-- Errors        internal/providers/errors.go, and the errors of other packages
-- Snapshots     internal/snapshots. Disk and Files are the file system, with any faults; Writer is
--               writer.go, manifest.go and paths.go; Store is fs_store.go; Sync is sync.go, and
--               Sync.Reporting the same with its lines and its waits; Overlap
--               is writer.go again, one call of the file system at a time, in many goroutines;
--               Writer.Unordered is a quotient, of snapshots by the order of their games
-- Config        internal/config
-- Logging       internal/logging: levels, formats and attributes
-- Metrics       internal/metrics/metrics.go, and otel.go: Instruments is what is recorded, and
--               Telemetry is Setup with the server's buildMetrics; Racing is metrics.go again, with
--               calls that overlap, a read or a write of a counter at a time
-- Providers     internal/providers: Provider is the interface and limit_provider.go, Limited is its
--               rate limiter as steps, Retry is retry_provider.go, Balldontlie is the client of the
--               upstream API, and Fixture the games of fixture/fixture.go
-- Poller        internal/poller/poller.go: the cycle and its status; Reporting is the cycle with its
--               lines; Lifecycle is Start, Stop and the goroutine, as steps in any order
-- Http          internal/http: Messages is responder.go, Handlers is handlers.go, Admin is
--               admin.go, Middleware is middleware.go and requestutil.go, Logged is
--               LoggingMiddleware, and Router is router.go with what it uses of `http.ServeMux`
-- Server        internal/server: the handler that buildHTTPServer makes of the router, the admin
--               route and the middleware; Wiring is the choice and the wrapping of the provider;
--               Shutdown is the order in which Run starts and stops the parts; Life is New, Run with what
--               it waits for, and cmd/server/main.go; Interleaving is the
--               poller, the syncer and the admin handler on one disk; Assembly is what New makes of
--               a configuration
-- Doubles       internal/teststubs, and the fixtures and doubles of internal/testutil
--
-- State is passed on: the disk is a list of paths and files, and a call of the file system may fail
-- by an `Env`, which is any function; a provider is a function on a state of any type. `context`,
-- timers, random numbers, HTTP, time zones, JSON decoding of foreign text, `http.ParseTime`,
-- `time.ParseDuration` and `url.PathUnescape` are parameters. A write is one function; Overlap has the
-- calls that overlap, which the writer has no lock against, as steps. What is written is kept as a
-- value, with the JSON text left out.
--
-- `sort.Slice` may put games of one id in any order; `sort_by` keeps the order that they have.
--
-- The loop over pages takes fuel; `max_pages` is enough. The other loops are by structure.
-- Times are whole nanoseconds since year 1, and days are counted from 0000-01-01; years have at
-- most four digits where dates are printed. An `int` wraps where the seconds of a Retry-After header,
-- the backoff of an attempt and the days of retention are computed, and nowhere else. A zone gives
-- each time a day, and days are counted by number, so a zone whose clock skips midnight is left out;
-- a date in a path is a plain name, which `filepath.Join` does not change.
--
-- Not modelled: the lines that the HTTP handlers and the wiring log (those of the retrying provider,
-- the poller, the syncer and the shutdown are), the output of slog, and WriteSnapshot of
-- internal/testutil, whose game has no status kind. Ticks come as lists or as steps; only the rate
-- limiter's have times.
pub mod Base
pub mod Calendar
pub mod Domain
pub mod Errors
pub mod Snapshots
pub mod Config
pub mod Logging
pub mod Metrics
pub mod Providers
pub mod Poller
pub mod Http
pub mod Server
pub mod Doubles
