-- ===== src/Server/Shutdown.antt =====
-- Run, gracefulShutdown, startServer, startMetrics and launchServer of internal/server/server.go: the
-- calls that they make on the server's parts, in order.
use nba_games_service.Base.{
  not, ◌&&◌, ℕ, ◌+◌, Bool, true, false, Option, none, some, List, [], ◌∷◌, ◌++◌, ◌≡◌, arith,
  if◌then◌else◌,
}
use nba_games_service.Errors.{Error}

-- `closes_provider` is the `Close` of the poller's provider.
pub data Call : Type 0 where
  starts_metrics_server starts_http_server starts_poller : Call
  stops_telemetry stops_metrics_server stops_poller stops_http_server closes_provider : Call

-- Which of its parts a server has, and what they answer when they are asked to stop. The poller and
-- the HTTP server are always there.
pub record Parts : Type 0 where
  pub has_metrics_stop : Bool
  pub has_metrics_server : Bool
  pub provider_closes : Bool
  pub telemetry_error : Option Error
  pub metrics_server_error : Option Error
  pub poller_error : Option Error
  pub http_error : Option Error

-- A call, and whether its error is logged.
abbrev Done : Type 0
Done = Call × Bool

abbrev failed : Option Error → Bool
failed none = false
failed (some e) = true

abbrev when : Bool → Done → List Done → List Done
when true x rest = x ∷ rest
when false x rest = rest

-- `has_logger` is `s.logger != nil`.
unfoldable pub graceful_shutdown : Bool → Parts → List (Call × Bool)
graceful_shutdown has_logger p =
    let logged = λ (e : Option Error). if has_logger then failed e else false in
    when p.has_metrics_stop (stops_telemetry, logged p.telemetry_error)
      (when p.has_metrics_server (stops_metrics_server, logged p.metrics_server_error)
        ((stops_poller, logged p.poller_error)
          ∷ (stops_http_server, logged p.http_error)
          ∷ when p.provider_closes (closes_provider, false) []))

unfoldable pub start_all : Parts → List (Call × Bool)
start_all p =
    when p.has_metrics_server (starts_metrics_server, false)
      ((starts_http_server, false) ∷ (starts_poller, false) ∷ [])

-- Run, up to its return; the context ends between the two.
unfoldable pub run : Bool → Parts → List (Call × Bool)
run has_logger p = start_all p ++ graceful_shutdown has_logger p

-- What `ListenAndServe` returns, without an end of it.
pub data Served : Type 0 where
  no_error server_closed : Served
  failed_with : Error → Served

-- Whether launchServer calls `onError`, which stops the service where it is the HTTP server's.
unfoldable pub launch_stops : Bool → Served → Bool
launch_stops has_on_error no_error = false
launch_stops has_on_error server_closed = false
launch_stops has_on_error (failed_with e) = has_on_error

-- How often a call is made.
abbrev same : Call → Call → Bool
same starts_metrics_server starts_metrics_server = true
same starts_http_server starts_http_server = true
same starts_poller starts_poller = true
same stops_telemetry stops_telemetry = true
same stops_metrics_server stops_metrics_server = true
same stops_poller stops_poller = true
same stops_http_server stops_http_server = true
same closes_provider closes_provider = true
same _ _ = false

abbrev pub times : Call → List (Call × Bool) → ℕ
times c [] = 0
times c (x ∷ xs) = (if same c x.0 then 1 else 0) + times c xs

abbrev is_start : Call → Bool
is_start starts_metrics_server = true
is_start starts_http_server = true
is_start starts_poller = true
is_start _ = false

-- Whether no start comes after a stop; `stopping` says that there was a stop.
abbrev pub in_order : Bool → List (Call × Bool) → Bool
in_order stopping [] = true
in_order stopping (x ∷ xs) =
    if is_start x.0 then not stopping && in_order stopping xs else in_order true xs

abbrev pub logged_count : List (Call × Bool) → ℕ
logged_count [] = 0
logged_count (x ∷ xs) = (if x.1 then 1 else 0) + logged_count xs

abbrev one_if : Bool → ℕ
one_if b = if b then 1 else 0

-- How many of the parts that are there fail to stop.
abbrev pub failures : Parts → ℕ
failures p =
    one_if (p.has_metrics_stop && failed p.telemetry_error)
    + one_if (p.has_metrics_server && failed p.metrics_server_error)
    + one_if (failed p.poller_error)
    + one_if (failed p.http_error)

-- Whatever the parts answer, a run starts the HTTP server and the poller once and stops each once,
-- stops the metrics server exactly if it has started it, and stops the telemetry if there is any;
-- nothing is started after a stop, and as many errors are logged as parts fail to stop, or none
-- without a logger.
pub run-times :
    (has_logger : Bool) (p : Parts)
    → let calls = run has_logger p in
      (times starts_http_server calls ≡ 1)
      × (times stops_http_server calls ≡ 1)
      × (times starts_poller calls ≡ 1)
      × (times stops_poller calls ≡ 1)
      × (times starts_metrics_server calls ≡ times stops_metrics_server calls)
      × (times stops_telemetry calls ≡ (if p.has_metrics_stop then 1 else 0))
      × (in_order false calls ≡ true)
      × (logged_count calls ≡ (if has_logger then failures p else 0))
unfolding run start_all graceful_shutdown
run-times has_logger p = ground arith
