-- ===== src/Config/Tests.antt =====
-- An environment with no variable set.
use nba_games_service.Base.{◌*◌, ◌≡◌, false, none, arith}
use nba_games_service.Calendar.{parse_date, format_date, utc, nanos_per_day}
use nba_games_service.Config.{load_snapshot_sync, int_env_or_default}
use nba_games_service.Config.Window.{load_snapshot_sync-live}
use nba_games_service.Snapshots.Files.{Env, healthy}
use nba_games_service.Snapshots.Writer.{new_writer, cutoff_day, is_expired}

abbrev env : Env
env = record {
  mkdir_error = λ _ _. none;
  read_error = λ _. none;
  list_error = λ _ _. none;
  write_fault = λ _. healthy;
  rename_error = λ _ _. none;
  remove_error = λ _. none;
  stat_error = λ _. none;
  refreshed_at = 0;
  pruned_at = 738899 * nanos_per_day;
  generated_at = 0;
}

load_snapshot_sync-live_example :
    let cfg = load_snapshot_sync (λ key. "") (λ text. none) in
    is_expired
      (cutoff_day env (new_writer cfg.snapshot_folder cfg.retention_days))
      (parse_date (format_date 739258))
    ≡ false
unfolding utc load_snapshot_sync int_env_or_default
load_snapshot_sync-live_example =
    load_snapshot_sync-live (λ key. "") (λ text. none) env 739265 739258 (omega arith) (omega arith)
      (omega arith) (omega arith)
