-- ===== src/Metrics/Tests.antt =====
-- The telemetry, where the OTLP reader cannot be made.
use nba_games_service.Base.{true, false, not, ◌&&◌, ◌||◌, none, some, [], if◌then◌else◌, ◌≡◌}
use nba_games_service.Config.{MetricsConfig}
use nba_games_service.Errors.{other}
use nba_games_service.Metrics.Telemetry.{
  Exporters, build_metrics, exporters_work, configured_provider, build_metrics-exporters_work,
}

abbrev no_otlp : Exporters
no_otlp = record {
  prometheus_error = none;
  otlp_error = λ options. some (other "otlp");
  resource_error = λ name. none;
  make = λ k name. none;
}

abbrev enabled : MetricsConfig
enabled = record {
  enabled = true;
  port = "9090";
  otlp_endpoint = "localhost:4318";
  service_name = "";
  otlp_insecure = true;
}

build_metrics-exporters_work_example :
    let b = build_metrics no_otlp enabled none none in
    let works = exporters_work no_otlp enabled in
    (build_metrics no_otlp enabled (some []) none ≡ record {
      recorder = some [];
      otel = none;
      provider = none;
      server_addr = none;
      has_stop = false;
    })
    × (b.recorder ≡ some [])
    × (b.server_addr ≡ (if true && works then some ":9090" else none))
    × (b.provider ≡ (if true && works then some (configured_provider enabled) else none))
    × ((b.otel ≡ none → (true && works) ≡ false) × ((true && works) ≡ false → b.otel ≡ none))
    × (b.has_stop ≡ (not true || works))
build_metrics-exporters_work_example = build_metrics-exporters_work no_otlp enabled [] none
