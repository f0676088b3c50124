-- ===== src/Config.antt =====
-- internal/config: what the service reads from its environment.
pub mod Window
mod Tests
use nba_games_service.Base.{
  ℕ, ◌+◌, ◌*◌, String, Bool, true, false, ◌||◌, Option, none, some, str_eq, ltb, if◌then◌else◌,
}
use nba_games_service.Base.Decimal.{ℤ, pos, negsuc, positive_or, atoi, two_63, wrap_64}
use nba_games_service.Base.Strings.{trim_space, folds_to}

-- `os.Getenv`: the empty text for a variable that is not set.
abbrev pub Getenv : Type 0
Getenv = String → String

module _ (getenv : Getenv) where
  unfoldable pub env_or_default : String → String → String
  env_or_default key fallback = if str_eq (getenv key) "" then fallback else getenv key

  -- `Atoi` fails on a number that is no int.
  abbrev in_range : Option ℤ → Option ℤ
  in_range (some (pos n)) = if ltb n two_63 then some (pos n) else none
  in_range z = z

  abbrev number_or : Option ℤ → ℕ → ℕ
  number_or none fallback = fallback
  number_or (some z) fallback = positive_or z fallback

  unfoldable pub int_env_or_default : String → ℕ → ℕ
  int_env_or_default key fallback =
      if str_eq (getenv key) "" then fallback else number_or (in_range (atoi (getenv key))) fallback

  -- `parse_duration` is `time.ParseDuration`, in nanoseconds.
  unfoldable pub duration_env_or_default : (String → Option ℤ) → String → ℕ → ℕ
  duration_env_or_default parse_duration key fallback =
      if str_eq (getenv key) "" then fallback else number_or (parse_duration (getenv key)) fallback

  unfoldable pub bool_env_or_default : String → Bool → Bool
  bool_env_or_default key fallback =
      let raw = trim_space (getenv key) in
      if str_eq raw ""
      then fallback
      else if str_eq raw "1" || folds_to raw "true" || folds_to raw "yes"
      then true
      else if str_eq raw "0" || folds_to raw "false" || folds_to raw "no"
      then false
      else fallback

pub record SnapshotSyncConfig : Type 0 where
  pub enabled : Bool
  pub days : ℕ
  pub future_days : ℕ
  pub interval : ℕ
  pub daily_hour_utc : ℕ
  pub retention_days : ℤ
  pub admin_token : String
  pub snapshot_folder : String

-- Times are in nanoseconds.
abbrev second : ℕ
second = 1000000000

-- `pastDays + 1` may wrap.
unfoldable pub load_snapshot_sync : Getenv → (String → Option ℤ) → SnapshotSyncConfig
load_snapshot_sync getenv parse_duration =
    let past_days = int_env_or_default getenv "SNAPSHOT_SYNC_DAYS" 7 in
    record {
      enabled = bool_env_or_default getenv "SNAPSHOT_SYNC_ENABLED" true;
      days = past_days;
      future_days = int_env_or_default getenv "SNAPSHOT_FUTURE_DAYS" 7;
      interval =
          duration_env_or_default getenv parse_duration "SNAPSHOT_SYNC_INTERVAL" (90 * second);
      daily_hour_utc = int_env_or_default getenv "SNAPSHOT_DAILY_HOUR" 2;
      retention_days = wrap_64 (past_days + 1);
      admin_token = env_or_default getenv "ADMIN_TOKEN" "";
      snapshot_folder = "data/snapshots";
    }

pub record BalldontlieConfig : Type 0 where
  pub base_url : String
  pub api_key : String
  pub timezone : String
  pub max_pages : ℕ
  pub page_delay : ℕ

unfoldable pub load_balldontlie : Getenv → (String → Option ℤ) → BalldontlieConfig
load_balldontlie getenv parse_duration = record {
  base_url = env_or_default getenv "BALLDONTLIE_BASE_URL" "https://api.balldontlie.io/v1";
  api_key = env_or_default getenv "BALLDONTLIE_API_KEY" "";
  timezone = env_or_default getenv "BALLDONTLIE_TIMEZONE" "America/New_York";
  max_pages = int_env_or_default getenv "BALLDONTLIE_MAX_PAGES" 5;
  page_delay = duration_env_or_default getenv parse_duration "BALLDONTLIE_PAGE_DELAY" 0;
}

pub record MetricsConfig : Type 0 where
  pub enabled : Bool
  pub port : String
  pub otlp_endpoint : String
  pub service_name : String
  pub otlp_insecure : Bool

unfoldable pub load_metrics : Getenv → MetricsConfig
load_metrics getenv = record {
  enabled = bool_env_or_default getenv "METRICS_ENABLED" true;
  port = env_or_default getenv "METRICS_PORT" "9090";
  otlp_endpoint = env_or_default getenv "OTEL_EXPORTER_OTLP_ENDPOINT" "";
  service_name = env_or_default getenv "OTEL_SERVICE_NAME" "nba-data-service";
  otlp_insecure = bool_env_or_default getenv "OTEL_EXPORTER_OTLP_INSECURE" true;
}

pub record Config : Type 0 where
  pub port : String
  pub poll_interval : ℕ
  pub provider : String
  pub balldontlie : BalldontlieConfig
  pub metrics : MetricsConfig
  pub snapshots : SnapshotSyncConfig

unfoldable pub load_config : Getenv → (String → Option ℤ) → Config
load_config getenv parse_duration = record {
  port = env_or_default getenv "PORT" "4000";
  poll_interval = duration_env_or_default getenv parse_duration "POLL_INTERVAL" (120 * second);
  provider = env_or_default getenv "PROVIDER" "fixture";
  balldontlie = load_balldontlie getenv parse_duration;
  metrics = load_metrics getenv;
  snapshots = load_snapshot_sync getenv parse_duration;
}
