-- ===== src/Server/Life.antt =====
-- The life of the service: main of cmd/server/main.go, the Server of internal/server/server.go that New
-- makes, http_server.go, timeouts.go, and Run with what it waits for.
pub mod Ending
use Prim.Native.String.{◌++◌}
use nba_games_service.Base.{
  ℕ, String, Bool, true, false, Option, none, some, List, [], ◌∷◌, ◌≡◌, ◌&&◌, not, arith, str_eq,
  if◌then◌else◌,
}
use nba_games_service.Base.Decimal.{ℤ}
use nba_games_service.Config.{Config, Getenv, load_config}
use nba_games_service.Errors.{Error}
use nba_games_service.Http.Messages.{Request}
use nba_games_service.Http.Logged.{Exchange}
use nba_games_service.Logging.{Logger, new_logger}
use nba_games_service.Metrics.{Recorder}
use nba_games_service.Metrics.Telemetry.{
  Exporters, Built, build_metrics, exporters_work, build_metrics-exporters_work,
}
use nba_games_service.Poller.{Poller, Status}
use nba_games_service.Providers.Provider.{Runtime}
use nba_games_service.Server.{Moment, serve}
use nba_games_service.Server.Assembly.{Process, build_snapshots, new_poller, new_service}
use nba_games_service.Server.Shutdown.{
  Call, Parts, Served, no_error, server_closed, failed_with, start_all, graceful_shutdown, run,
  launch_stops,
}
use nba_games_service.Server.Wiring.{Outside}
use nba_games_service.Snapshots.Disk.{Disk}

-- `http.Server`, with its times in nanoseconds; 0 is no limit.
pub record HttpServer {ℓ} (H : Type ℓ) : Type ℓ where
  pub addr : String
  pub handler : H
  pub read_timeout : ℕ
  pub write_timeout : ℕ
  pub idle_timeout : ℕ

-- `netHTTPServer`: the listener is known by its address.
pub record NetHttpServer {ℓ} (H : Type ℓ) : Type ℓ where
  pub srv : HttpServer H
  pub listener : Option String

-- Which of `Serve` and `ListenAndServe` is called, and for which address.
pub data Listens : Type 0 where
  serves_listener listens_at : String → Listens

unfoldable pub listen_and_serve {ℓ} : {H : Type ℓ} → NetHttpServer H → Listens
listen_and_serve s = elim s.listener [ some l ↦ serves_listener l | none ↦ listens_at s.srv.addr ]

-- The handler that the middleware wraps, by the status that the poller has when a request comes.
abbrev Wrapped {ℓ} : Type ℓ → Type ℓ
Wrapped S = Status → Moment → Disk → S → Request → Exchange × Disk × S

-- The types of GameProvider, and whether they have a method `Close`.
pub data ProviderType : Type 0 where
  retrying_provider rate_limited_provider balldontlie_client fixture_provider : ProviderType

unfoldable pub has_close : ProviderType → Bool
has_close rate_limited_provider = true
has_close _ = false

-- `Server`. The metrics server is known by its address; its handler is the registry's.
-- `provider_type` is the type of the provider that the poller has, and `syncer_runs` says that the
-- goroutine of the syncer has been started.
pub record Server {ℓ} (S : Type ℓ) : Type ℓ where
  pub cfg : Config
  pub http_server : NetHttpServer (Wrapped S)
  pub metrics_server : Option String
  pub poller : Poller S
  pub provider_type : ProviderType
  pub recorder : Recorder
  pub has_metrics_stop : Bool
  pub syncer_runs : Bool

-- What the parts answer when they are asked to stop.
pub record Answers : Type 0 where
  pub telemetry_error : Option Error
  pub metrics_server_error : Option Error
  pub poller_error : Option Error
  pub http_error : Option Error

-- What happens while Run waits: a signal, or one of the servers returns.
pub data Event : Type 0 where
  signal : Event
  http_returns metrics_returns : Served → Event

-- Whether the context is done after what has happened. The HTTP server is launched with a function
-- that stops the context, and the metrics server with none.
unfoldable pub context_done : List Event → Bool
unfolding launch_stops
context_done [] = false
context_done (signal ∷ es) = true
context_done (http_returns s ∷ es) =
    let rest = context_done es in if launch_stops true s then true else rest
context_done (metrics_returns s ∷ es) =
    let rest = context_done es in if launch_stops false s then true else rest

-- Run, with the calls it has made after what has happened, and whether it has returned.
unfoldable pub run_until : Bool → Parts → List Event → List (Call × Bool) × Bool
run_until has_logger p es =
    if context_done es then (run has_logger p, true) else (start_all p, false)

module _ {ℓ} {S : Type ℓ} (rt : Runtime S) (o : Outside S) (x : Process)
    (exporters : Exporters) where
  -- buildHTTPServer.
  unfoldable pub build_http_server : Config → NetHttpServer (Wrapped S)
  build_http_server cfg = record {
    srv = record {
      addr = ":" ++ cfg.port;
      handler = λ status. serve (new_service rt o x cfg status);
      read_timeout = 10000000000;
      write_timeout = 10000000000;
      idle_timeout = 60000000000;
    };
    listener = none;
  }

  -- New, by newServerWithMetrics, which wraps the provider that is built: what NewRetryingProvider
  -- returns is a `*retryingProvider`.
  unfoldable pub new : Config → Server S
  new cfg =
      let b = build_metrics exporters cfg.metrics none none in
      record {
        cfg = cfg;
        http_server = build_http_server cfg;
        metrics_server = b.server_addr;
        poller = new_poller rt o x cfg;
        provider_type = retrying_provider;
        recorder = b.recorder;
        has_metrics_stop = b.has_stop;
        syncer_runs = (build_snapshots cfg.snapshots).syncer_runs;
      }

  -- main, up to Run: the logger and the server, unless it is told not to run.
  unfoldable pub main : Getenv → (String → Option ℤ) → Option (Logger × Server S)
  main getenv parse_duration =
      if str_eq (getenv "SKIP_SERVER_RUN") "1"
      then none
      else some (
        new_logger record {
          level = getenv "LOG_LEVEL";
          format = getenv "LOG_FORMAT";
          service = "nba-data-service";
          version = "dev";
        },
        new (load_config getenv parse_duration),
      )

-- The parts that Run starts and stops. gracefulShutdown closes what pollerProvider returns if its
-- type has a `Close`.
unfoldable pub parts_of {ℓ} : {S : Type ℓ} → Server S → Answers → Parts
parts_of s a = record {
  has_metrics_stop = s.has_metrics_stop;
  has_metrics_server = elim s.metrics_server [ none ↦ false | some addr ↦ true ];
  provider_closes = has_close s.provider_type;
  telemetry_error = a.telemetry_error;
  metrics_server_error = a.metrics_server_error;
  poller_error = a.poller_error;
  http_error = a.http_error;
}
