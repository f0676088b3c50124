-- ===== src/Server/Interleaving/Tests.antt =====
-- One cycle of the poller on an empty disk, and then the snapshot that the store loads.
use nba_games_service.Base.{ℕ, ◌+◌, ◌≡◌, String, none, some, [], refl}
use nba_games_service.Base.Sort.{IsSorted}
use nba_games_service.Calendar.{
  utc, format_date, parse_date, read_two, read_dash, check_civil, ordinal,
}
use nba_games_service.Domain.{TodayResponse, new_today_response}
use nba_games_service.Errors.{ok}
use nba_games_service.Http.Admin.{AdminHandler}
use nba_games_service.Poller.{Poller, World, no_status, fetch_once}
use nba_games_service.Server.Interleaving.{here, next, polls, load_games-Reach}
use nba_games_service.Snapshots.Disk.{
  find_node, put_node, drop_node, path_eq, same_bytes, decode_manifest, decode_snapshot,
}
use nba_games_service.Snapshots.Files.{
  Env, healthy, mkdir_all, read_file, write_file, rename, remove, entries_of, read_dir,
}
use nba_games_service.Snapshots.Names.{tmp_name, json_name}
use nba_games_service.Snapshots.Store.{load_games, load}
use nba_games_service.Snapshots.Writer.{
  Writer, write_games_snapshot, write_snapshot, store_payload, replace_unless_same, replace_file,
  list_dates, prepared, prune_loop, prune_old_snapshots, read_manifest, update_manifest,
  write_manifest, default_manifest, snapshot_path,
}

abbrev env : Env
env = record {
  mkdir_error = λ _ _. none;
  read_error = λ _. none;
  list_error = λ _ _. none;
  write_fault = λ _. healthy;
  rename_error = λ _ _. none;
  remove_error = λ _. none;
  stat_error = λ _. none;
  refreshed_at = 0;
  pruned_at = 0;
  generated_at = 0;
}

abbrev writer : Writer
writer = record { base_path = "data"; retention_days = 14 }

abbrev poller : Poller ℕ
poller = record { provider = λ date tz n. (ok [], n + 1); writer = some writer; loc = utc }

abbrev admin : AdminHandler ℕ
admin = record {
  writer = some writer;
  provider = none;
  token = "secret";
  local = utc;
  load_location = λ name. none;
}

abbrev fresh : World ℕ
fresh = record { status = no_status; disk = []; outside = 0 }

abbrev polled : World ℕ
polled = fetch_once poller env 0 0 fresh

abbrev first_day : TodayResponse
first_day = record { date = "0001-01-01"; games = [] }

loads : load_games env (some "data") "0001-01-01" polled.disk ≡ ok first_day
unfolding load_games load read_file find_node fetch_once write_games_snapshot write_snapshot
    format_date utc store_payload mkdir_all replace_unless_same replace_file write_file rename
    put_node path_eq check_civil ordinal parse_date read_dash read_two decode_manifest
    decode_snapshot drop_node same_bytes entries_of read_dir remove json_name tmp_name
    default_manifest list_dates prepared prune_loop prune_old_snapshots read_manifest snapshot_path
    update_manifest write_manifest new_today_response
loads = refl

load_games-Reach_example :
    ◌≡◌ {A = String} first_day.date "0001-01-01" × IsSorted (λ g. g.id) first_day.games
load_games-Reach_example =
    load_games-Reach poller writer admin refl refl {s = fresh} {t = polled} env "0001-01-01"
      first_day refl (next here (polls record { env = env; start = 0; now = 0 } fresh)) loads
