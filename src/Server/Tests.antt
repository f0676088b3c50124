-- ===== src/Server/Tests.antt =====
-- A service at its default provider, and a request to its health check.
use Prim.Native.String.{◌++◌}
use nba_games_service.Base.{
  List, if◌then◌else◌, str_eq, ℕ, ◌+◌, ◌≡◌, inl, refl, true, false, none, some, [], ◌∷◌, arith,
}
use nba_games_service.Base.Decimal.{pos}
use nba_games_service.Calendar.{utc}
use nba_games_service.Config.{Config, Getenv, load_config, env_or_default, bool_env_or_default}
use nba_games_service.Errors.{provider_unavailable, ok}
use nba_games_service.Http.Messages.{Request}
use nba_games_service.Http.Logged.Ids.{Names}
use nba_games_service.Http.Middleware.{is_request_id}
use nba_games_service.Metrics.{new_recorder}
use nba_games_service.Providers.Retry as retry
use nba_games_service.Providers.Retry.Calm.{calm_runtime, first_answer}
use nba_games_service.Server.{Service, Moment, serve}
use nba_games_service.Server.Serving.{serve-guarded, serve-Names}
use nba_games_service.Server.Shutdown.{server_closed, failed_with}
use nba_games_service.Server.Assembly.{Process}
use nba_games_service.Server.Life.{
  Answers, Event, http_returns, metrics_returns, Server, listens_at, listen_and_serve, run_until,
  new, main, parts_of,
}
use nba_games_service.Server.Life.Ending.{works, stops, Lives, main-Lives}
use nba_games_service.Logging.{Logger, new_logger}
use nba_games_service.Metrics.Telemetry.{Exporters}
use nba_games_service.Server.Wiring.{Outside, select_provider, new_server, fetch_games-new_server}
use nba_games_service.Snapshots.Files.{Env, healthy}

abbrev env : Env
env = record {
  mkdir_error = λ _ _. none;
  read_error = λ _. none;
  list_error = λ _ _. none;
  write_fault = λ _. healthy;
  rename_error = λ _ _. none;
  remove_error = λ _. none;
  stat_error = λ _. none;
  refreshed_at = 0;
  pruned_at = 0;
  generated_at = 0;
}

abbrev service : Service ℕ
service = record {
  handler = record { snaps = some "data"; status_fn = none; loc = utc };
  admin = record {
    writer = some record { base_path = "data"; retention_days = 14 };
    provider = some (λ date tz s. (ok [], s + 1));
    token = "secret";
    local = utc;
    load_location = λ name. none;
  };
  recorder = none;
  clean = λ path. path;
  unescape = λ text. some text;
}

abbrev moment : Moment
moment = record { env = env; now = 0; random = none; stamp = 50 ∷ 48 ∷ 50 ∷ 52 ∷ [] }

abbrev request : Request
request = record {
  method = "GET";
  path = "/health";
  date = "";
  tz = "";
  authorization = "";
  id_header = "bad id";
  context_id = "";
  context_error = none;
}

serve-guarded_example :
    ((serve service moment [] 0 request).1 ≡ []) × ((serve service moment [] 0 request).2 ≡ 0)
serve-guarded_example = serve-guarded service moment [] 0 request (inl refl)

serve-Names_example :
    let x = (serve service moment [] 0 request).0 in
    (is_request_id x.id_header ≡ true) × Names x.id_header x.response
serve-Names_example =
    serve-Names service moment [] 0 request (λ bytes e. cc)
      ((omega arith, (omega arith, (omega arith, (omega arith, tt)))), omega arith, omega arith)

abbrev cfg : Config
cfg = record {
  port = "4000";
  poll_interval = 120000000000;
  provider = "";
  balldontlie = record {
    base_url = "";
    api_key = "";
    timezone = "";
    max_pages = 5;
    page_delay = 0;
  };
  metrics = record {
    enabled = false;
    port = "9090";
    otlp_endpoint = "";
    service_name = "";
    otlp_insecure = true;
  };
  snapshots = record {
    enabled = false;
    days = 7;
    future_days = 7;
    interval = 0;
    daily_hour_utc = 2;
    retention_days = pos 14;
    admin_token = "";
    snapshot_folder = "data";
  };
}

abbrev outside : Outside ℕ
outside = record {
  http = record {
    bad_url = λ url. none;
    do_ = λ req n. (
      ok record {
        status_code = 200;
        body = "";
        retry_after = "";
        remaining = "";
        payload = some record { data_ = []; total_pages = pos 3 };
      },
      n + 1,
    );
    pause = λ n. (none, n);
    now = λ n. 0;
    load_location = λ name. none;
    parse_time = λ text. none;
  };
  clock = λ n. 0;
  lower = λ name. name;
}

fetch_games-new_server_example :
    let out =
      retry.fetch_games
        (calm_runtime (λ n. 0))
        (new_server (calm_runtime (λ n. 0)) outside cfg)
        "2024-01-15"
        ""
        new_recorder
        0 in
    let ref = first_answer (select_provider outside cfg) "2024-01-15" "" 8 0 in
    (out.0 ≡ ref.0) × (out.2 ≡ ref.1)
fetch_games-new_server_example =
    fetch_games-new_server outside cfg (λ n. 0) "2024-01-15" "" new_recorder 0

abbrev process : Process
process = record { local = utc; clean = λ path. path; unescape = λ text. some text }

-- Telemetry is on, and the registry's exporter cannot be made.
abbrev exporters : Exporters
exporters = record {
  prometheus_error = some provider_unavailable;
  otlp_error = λ options. none;
  resource_error = λ name. none;
  make = λ k name. none;
}

abbrev getenv : Getenv
getenv key = if str_eq key "METRICS_ENABLED" then "true" else ""

abbrev answers : Answers
answers = record {
  telemetry_error = some provider_unavailable;
  metrics_server_error = none;
  poller_error = some provider_unavailable;
  http_error = none;
}

abbrev logger : Logger
logger =
    new_logger record { level = ""; format = ""; service = "nba-data-service"; version = "dev" }

abbrev started : Server ℕ
started = new (calm_runtime (λ n. 0)) outside process exporters (load_config getenv (λ text. none))

main_started :
    main (calm_runtime (λ n. 0)) outside process exporters getenv (λ text. none)
    ≡ some (logger, started)
unfolding main
main_started = refl

-- The HTTP server's port is taken.
abbrev events : List Event
events = metrics_returns server_closed ∷ http_returns (failed_with provider_unavailable) ∷ []

main-Lives_example :
    (listen_and_serve started.http_server ≡ listens_at (":" ++ env_or_default getenv "PORT" "4000"))
    × (started.syncer_runs ≡ bool_env_or_default getenv "SNAPSHOT_SYNC_ENABLED" true)
    × Lives
        (works exporters getenv)
        (stops exporters getenv)
        (parts_of started answers)
        events
        (run_until true (parts_of started answers) events)
main-Lives_example =
    main-Lives (calm_runtime (λ n. 0)) outside process exporters getenv (λ text. none) logger
      started answers events main_started
