-- ===== src/Config/Window.antt =====
-- How the configured windows of the syncer and of the writer fit together.
use nba_games_service.Base.{ℕ, zero, suc, ◌+◌, ◌≤◌, ◌<◌, ◌≡◌, refl, String, false, Option, arith}
use nba_games_service.Base.Decimal.{ℤ, pos, wrap_64-pos}
use nba_games_service.Calendar.{parse_date, format_date, utc}
use nba_games_service.Calendar.Ordinal.{civil_of-Dates}
use nba_games_service.Calendar.Layout.{last_day, parse_date-format_date}
use nba_games_service.Config.{Getenv, int_env_or_default, load_snapshot_sync}
use nba_games_service.Snapshots.Files.{Env}
use nba_games_service.Snapshots.Writer.{new_writer, cutoff_day, is_expired}

new_writer-retention_days :
    (base : String) (n : ℕ) → 1 ≤ n → (new_writer base (pos n)).retention_days ≡ n
unfolding new_writer
new_writer-retention_days base zero h = absurd (omega arith)
new_writer-retention_days base (suc n) h = refl

-- With the writer and the syncer configured from one environment, where `days` is below 2 ^ 31, a
-- write does not remove a day that is at most the syncer's `days` days before its own day, if the
-- UTC day is at most one ahead and the day is in years 0 to 9999.
pub load_snapshot_sync-live :
    (getenv : Getenv) (parse_duration : String → Option ℤ) (env : Env) (day n : ℕ)
    → utc env.pruned_at ≤ day + 1
    → day ≤ n + (load_snapshot_sync getenv parse_duration).days
    → n ≤ last_day
    → (load_snapshot_sync getenv parse_duration).days < 2147483648
    → let cfg = load_snapshot_sync getenv parse_duration in
      is_expired
        (cutoff_day env (new_writer cfg.snapshot_folder cfg.retention_days))
        (parse_date (format_date n))
      ≡ false
unfolding load_snapshot_sync
load_snapshot_sync-live getenv parse_duration env day n ahead recent small fits =
    let days = int_env_or_default getenv "SNAPSHOT_SYNC_DAYS" 7 in
    let kept = new_writer-retention_days "data/snapshots" (days + 1) (omega arith) in
    rw (wrap_64-pos (days + 1) (omega arith), parse_date-format_date n small)
      (ground (arith, kept, (civil_of-Dates n).1))
