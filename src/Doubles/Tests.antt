-- ===== src/Doubles/Tests.antt =====
-- A write to the disk and to the double of internal/teststubs.
use nba_games_service.Base.{◌*◌, String, none, some, [], ◌≡◌, refl, false}
use nba_games_service.Base.Sort.{sort_by}
use nba_games_service.Calendar.{
  parse_date, nanos_per_day, read_two, read_dash, check_civil, ordinal, utc,
}
use nba_games_service.Domain.{TodayResponse, new_today_response}
use nba_games_service.Errors.{ok}
use nba_games_service.Snapshots.Disk.{
  Disk, find_node, put_node, drop_node, path_eq, same_bytes, decode_manifest,
}
use nba_games_service.Snapshots.Names.{tmp_name}
use nba_games_service.Snapshots.Files.{
  Env, healthy, mkdir_all, read_file, write_file, rename, entries_of, read_dir,
}
use nba_games_service.Snapshots.Writer.{
  Writer, write_games_snapshot, prepared, is_expired, cutoff_day, list_dates, write_snapshot,
  store_payload, replace_unless_same, update_manifest, replace_file, write_manifest,
  prune_old_snapshots, read_manifest, default_manifest, snapshot_path, prune_loop,
}
use nba_games_service.Doubles.{StubSnapshotWriter, sample_today_response, stub_write_games_snapshot}
use nba_games_service.Doubles.Standing.{Writes, none_yet, then_write}

-- The clock stands at 2024-01-15, day 739265.
abbrev env : Env
env = record {
  mkdir_error = λ _ _. none;
  read_error = λ _. none;
  list_error = λ _ _. none;
  write_fault = λ _. healthy;
  rename_error = λ _ _. none;
  remove_error = λ _. none;
  stat_error = λ _. none;
  refreshed_at = 738899 * nanos_per_day;
  pruned_at = 738899 * nanos_per_day;
  generated_at = 738899 * nanos_per_day;
}

abbrev writer : Writer
writer = record { base_path = "data"; retention_days = 14 }

abbrev day : String
day = "2024-01-15"

abbrev snapshot : TodayResponse
snapshot = sample_today_response day "game"

abbrev after : Disk
after = (write_games_snapshot env (some writer) day snapshot []).1

abbrev double : StubSnapshotWriter
double = record { written = none; error = none }

written : write_games_snapshot env (some writer) day snapshot [] ≡ (ok tt, after)
unfolding write_games_snapshot write_snapshot store_payload replace_unless_same update_manifest
    replace_file write_manifest prune_old_snapshots read_manifest mkdir_all read_file write_file
    rename read_dir list_dates put_node drop_node find_node default_manifest decode_manifest
    same_bytes prepared entries_of path_eq tmp_name snapshot_path prune_loop read_two read_dash
    check_civil ordinal utc
written = refl

is_prepared : prepared day snapshot ≡ snapshot
unfolding prepared sort_by new_today_response
is_prepared = refl

live : is_expired (cutoff_day env writer) (parse_date day) ≡ false
unfolding parse_date read_two read_dash check_civil ordinal utc
live = refl

one_write : Writes writer day after (stub_write_games_snapshot day snapshot double).1
one_write = then_write env day snapshot none_yet is_prepared live written
