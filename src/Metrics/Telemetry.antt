-- ===== src/Metrics/Telemetry.antt =====
-- Setup of internal/metrics/otel.go, and buildMetrics of internal/server/server.go.
use Prim.Native.String.{◌++◌}
use nba_games_service.Base.{
  ℕ, ◌≡◌, refl, String, Bool, true, false, Option, none, some, List, [], ◌∷◌, ◌&&◌, ◌||◌, not,
  arith, str_eq, if◌then◌else◌,
}
use nba_games_service.Config.{MetricsConfig}
use nba_games_service.Errors.{Error, Result, ok, err}
use nba_games_service.Metrics.{ProviderStats, Recorder, new_recorder}
use nba_games_service.Metrics.Instruments.{
  Kind, counter, histogram, OtelInstruments, new_otel_instruments,
}

-- `otlpmetrichttp.WithEndpoint` and `WithInsecure`.
pub data OtlpOption : Type 0 where
  with_endpoint : String → OtlpOption
  with_insecure : OtlpOption

-- What the exporters and the SDK answer: the error of the Prometheus exporter on a new registry, of
-- an OTLP exporter by its options, of the resource of a service name, and of an instrument.
pub record Exporters : Type 0 where
  pub prometheus_error : Option Error
  pub otlp_error : List OtlpOption → Option Error
  pub resource_error : String → Option Error
  pub make : Kind → String → Option Error

-- A reader of the meter provider: the registry's, or an OTLP exporter's with its interval in
-- nanoseconds.
pub data Reader : Type 0 where
  prometheus_reader : Reader
  periodic_reader : List OtlpOption → ℕ → Reader

-- The handler is the registry's.
unfoldable pub prometheus_components : Exporters → Result Reader
prometheus_components x = elim x.prometheus_error [ some e ↦ err e | none ↦ ok prometheus_reader ]

abbrev pub otlp_options : String → Bool → List OtlpOption
otlp_options endpoint insecure =
    with_endpoint endpoint ∷ (if insecure then with_insecure ∷ [] else [])

unfoldable pub build_otlp_reader : Exporters → String → Bool → Result Reader
build_otlp_reader x endpoint insecure = elim (x.otlp_error (otlp_options endpoint insecure)) [
  | some e ↦ err e
  | none ↦ ok (periodic_reader (otlp_options endpoint insecure) 15000000000)
]

-- `sdkmetric.NewMeterProvider`, by its options: the readers, and the name in the resource.
pub record MeterProvider : Type 0 where
  pub readers : List Reader
  pub service_name : String

-- What Setup returns without an error: the recorder, its instruments, whether there is a handler, and
-- the meter provider that the returned function shuts down.
pub record Telemetry : Type 0 where
  pub recorder : Recorder
  pub otel : Option OtelInstruments
  pub has_handler : Bool
  pub provider : Option MeterProvider

abbrev pub default_service_name : String → String
default_service_name name = if str_eq name "" then "nba-data-service" else name

abbrev otlp_step : Exporters → String → Bool → Result (List Reader)
otlp_step x endpoint insecure =
    if str_eq endpoint ""
    then ok []
    else elim (build_otlp_reader x endpoint insecure) [ err e ↦ err e | ok r ↦ ok (r ∷ []) ]

-- Setup; a disabled one returns a handler that is nil.
unfoldable pub setup : Exporters → MetricsConfig → Result Telemetry
setup x cfg =
    if cfg.enabled
    then elim (prometheus_components x) [
      | err e ↦ err e
      | ok prometheus ↦ elim (otlp_step x cfg.otlp_endpoint cfg.otlp_insecure) [
        | err e ↦ err e
        | ok otlp ↦ elim (x.resource_error (default_service_name cfg.service_name)) [
          | some e ↦ err e
          | none ↦ elim (new_otel_instruments x.make) [
            | err e ↦ err e
            | ok o ↦ ok record {
              recorder = new_recorder;
              otel = some o;
              has_handler = true;
              provider = some record {
                readers = prometheus ∷ otlp;
                service_name = default_service_name cfg.service_name;
              };
            }
          ]
        ]
      ]
    ]
    else ok record { recorder = new_recorder; otel = none; has_handler = false; provider = none }

-- A recorder, its instruments and its meter provider, the address of the metrics server, and whether there is a function
-- to stop the telemetry.
pub record Built : Type 0 where
  pub recorder : Recorder
  pub otel : Option OtelInstruments
  pub provider : Option MeterProvider
  pub server_addr : Option String
  pub has_stop : Bool

-- A recorder with no telemetry that is started for it.
abbrev alone : Recorder → Option OtelInstruments → Built
alone recorder otel = record {
  recorder = recorder;
  otel = otel;
  provider = none;
  server_addr = none;
  has_stop = false;
}

abbrev built : MetricsConfig → Result Telemetry → Built
built cfg (err e) = alone new_recorder none
built cfg (ok t) = record {
  recorder = t.recorder;
  otel = t.otel;
  provider = t.provider;
  server_addr = if t.has_handler && cfg.enabled then some (":" ++ cfg.port) else none;
  has_stop = true;
}

-- buildMetrics; the recorder that is passed in may be nil.
unfoldable pub build_metrics : Exporters → MetricsConfig → Recorder → Option OtelInstruments → Built
build_metrics x cfg (some m) otel = alone (some m) otel
build_metrics x cfg none otel = built cfg (setup x cfg)

abbrev is_none : Option Error → Bool
is_none none = true
is_none (some e) = false

abbrev instrument_names : List (Kind × String)
instrument_names =
    (counter, "http_requests_total")
    ∷ (histogram, "http_request_duration_ms")
    ∷ (counter, "provider_attempts_total")
    ∷ (counter, "provider_errors_total")
    ∷ (histogram, "provider_duration_ms")
    ∷ (counter, "provider_rate_limit_hits_total")
    ∷ (histogram, "provider_retry_after_ms")
    ∷ (counter, "poller_cycles_total")
    ∷ (counter, "poller_errors_total")
    ∷ (histogram, "poller_cycle_duration_ms")
    ∷ []

all_made : (Kind → String → Option Error) → List (Kind × String) → Bool
all_made make [] = true
all_made make ((k, name) ∷ rest) = is_none (make k name) && all_made make rest

is_ok : Result OtelInstruments → Bool
is_ok (ok o) = true
is_ok (err e) = false

-- Nothing that the telemetry needs fails.
unfoldable pub exporters_work : Exporters → MetricsConfig → Bool
unfolding all_made
exporters_work x cfg =
    is_none x.prometheus_error
    && (str_eq cfg.otlp_endpoint ""
        || is_none (x.otlp_error (otlp_options cfg.otlp_endpoint cfg.otlp_insecure)))
    && is_none (x.resource_error (default_service_name cfg.service_name))
    && all_made x.make instrument_names

made_all :
    (make : Kind → String → Option Error)
    → is_ok (new_otel_instruments make) ≡ all_made make instrument_names
unfolding new_otel_instruments all_made is_ok
made_all make = ground arith

-- What the telemetry is sent to: Prometheus, and the endpoint, where there is one, every 15 seconds.
abbrev pub configured_provider : MetricsConfig → MeterProvider
configured_provider cfg = record {
  readers =
      prometheus_reader
      ∷ (if str_eq cfg.otlp_endpoint ""
          then []
          else periodic_reader (otlp_options cfg.otlp_endpoint cfg.otlp_insecure) 15000000000 ∷ []);
  service_name = default_service_name cfg.service_name;
}

new_recorder-exporters_work :
    (x : Exporters) (cfg : MetricsConfig)
    → let b = build_metrics x cfg none none in
      let works = exporters_work x cfg in
      (b.server_addr ≡ (if cfg.enabled && works then some (":" ++ cfg.port) else none))
      × (b.provider ≡ (if cfg.enabled && works then some (configured_provider cfg) else none))
      × ((b.otel ≡ none → (cfg.enabled && works) ≡ false)
          × ((cfg.enabled && works) ≡ false → b.otel ≡ none))
      × (b.has_stop ≡ (not cfg.enabled || works))
unfolding build_metrics setup exporters_work is_ok prometheus_components build_otlp_reader
new_recorder-exporters_work x cfg = ground (arith, made_all x.make)

-- A recorder that is passed in is kept as it is, with nothing to start or to stop. Where none is,
-- whatever fails in the telemetry, the service gets a new recorder, which is not nil. There are
-- instruments behind it, a metrics server at the configured port, and a meter provider that is read
-- by Prometheus, and at the OTLP endpoint where one is configured, exactly if telemetry is enabled
-- and nothing that it needs fails; there is something to stop exactly if it is disabled or nothing
-- fails.
pub build_metrics-exporters_work :
    (x : Exporters) (cfg : MetricsConfig) (m : List (String × ProviderStats))
    (otel : Option OtelInstruments)
    → let b = build_metrics x cfg none none in
      let works = exporters_work x cfg in
      (build_metrics x cfg (some m) otel ≡ record {
        recorder = some m;
        otel = otel;
        provider = none;
        server_addr = none;
        has_stop = false;
      })
      × (b.recorder ≡ some [])
      × (b.server_addr ≡ (if cfg.enabled && works then some (":" ++ cfg.port) else none))
      × (b.provider ≡ (if cfg.enabled && works then some (configured_provider cfg) else none))
      × ((b.otel ≡ none → (cfg.enabled && works) ≡ false)
          × ((cfg.enabled && works) ≡ false → b.otel ≡ none))
      × (b.has_stop ≡ (not cfg.enabled || works))
unfolding build_metrics setup exporters_work is_ok prometheus_components build_otlp_reader
build_metrics-exporters_work x cfg m otel =
    let (server, provider, instruments, stop) = new_recorder-exporters_work x cfg in
    (refl, ground arith, server, provider, instruments, stop)
