-- ===== src/Snapshots/Tests.antt =====
-- The theorems on snapshots at one write to an empty disk.
use mathlib.Core.HLevel.{hedberg}
use mathlib.Core.List.Perm
use mathlib.Core.List.{not-mem-nil}
use nba_games_service.Base.Sort.Unique.{Coherent-cons}
use nba_games_service.Snapshots.Writer.Unordered.{
  IsCoherent, Game-discrete, Loads, unordered, write_unordered, write_unordered-mk,
  write_games_snapshot-SameGames, load_games-write_unordered,
}
use nba_games_service.Snapshots.Sync.{Schedule, build_dates, has_snapshot}
use nba_games_service.Snapshots.Sync.Dates.{contains_date-build_dates}
use nba_games_service.Calendar.{format_date}
use nba_games_service.Base.{true, not, ◌+◌, ◌&&◌, ◌||◌, ◌==◌, ltb, leb, arith}
use nba_games_service.Base.{
  ◌*◌, String, false, none, some, [], ◌∷◌, ◌≡◌, refl, ap, ◌∙◌, eq_iff, if◌then◌else◌, str_eq,
}
use nba_games_service.Base.Decimal.{pos}
use nba_games_service.Calendar.{
  parse_date, utc, nanos_per_day, read_two, read_dash, check_civil, ordinal,
}
use nba_games_service.Domain.{Team, Game, GameStatusKind, TodayResponse}
use nba_games_service.Errors.{ok}
use nba_games_service.Snapshots.Disk.{Disk, file, snapshot_json, find_node}
use nba_games_service.Snapshots.Files.{Env, healthy}
use nba_games_service.Snapshots.Names.{tmp_name}
use nba_games_service.Snapshots.Writer.{
  Writer, write_games_snapshot, prepared, is_expired, cutoff_day, list_dates, contains_date,
  kind_games, write_snapshot, store_payload, replace_unless_same, update_manifest, replace_file,
  write_manifest, prune_old_snapshots, read_manifest, default_manifest, snapshot_path, prune_loop,
}
use nba_games_service.Snapshots.Disk.{
  path, put_node, drop_node, path_eq, same_bytes, decode_manifest,
}
use nba_games_service.Snapshots.Files.{
  mkdir_all, read_file, write_file, rename, entries_of, read_dir,
}
use nba_games_service.Snapshots.Writer.Pruning.{games_path}
use nba_games_service.Snapshots.Writer.Agreement.{Agrees}
use nba_games_service.Snapshots.Writer.Storing.{
  write_games_snapshot_stores, write_games_snapshot-Agrees,
}
use nba_games_service.Snapshots.Writer.Tearing.{IsWhole, write_games_snapshot-IsWhole}
use nba_games_service.Snapshots.Store.{load_games, find_game_by_id}
use nba_games_service.Snapshots.Store.Reading.{
  has_id, is_some, load_games-write_games_snapshot, find_game_by_id-write_games_snapshot,
}

abbrev team : String → Team
team name = record {
  id = name;
  name = name;
  full_name = name;
  abbreviation = name;
  city = "";
  conference = "";
  division = "";
}

abbrev game : String → Game
game id = record {
  id = id;
  provider = "fixture";
  home_team = team "BOS";
  away_team = team "LAL";
  start_time = "";
  status = "scheduled";
  status_kind = GameStatusKind.scheduled;
  score = record { home = pos 0; away = pos 0 };
  meta = record {
    season = "2024-2025";
    upstream_game_id = pos 7;
    period = pos 0;
    postseason = false;
    time = "";
  };
}

-- The clock stands at 2024-01-15, day 739265.
abbrev env : Env
env = record {
  mkdir_error = λ _ _. none;
  read_error = λ _. none;
  list_error = λ _ _. none;
  write_fault = λ _. healthy;
  rename_error = λ _ _. none;
  remove_error = λ _. none;
  stat_error = λ _. none;
  refreshed_at = 738899 * nanos_per_day;
  pruned_at = 738899 * nanos_per_day;
  generated_at = 738899 * nanos_per_day;
}

abbrev writer : Writer
writer = record { base_path = "data"; retention_days = 14 }

abbrev two_games : TodayResponse
two_games = record { date = ""; games = game "b" ∷ game "a" ∷ [] }

abbrev after : Disk
after = (write_games_snapshot env (some writer) "2024-01-15" two_games []).1

written : write_games_snapshot env (some writer) "2024-01-15" two_games [] ≡ (ok tt, after)
unfolding write_games_snapshot write_snapshot store_payload replace_unless_same update_manifest
    replace_file write_manifest prune_old_snapshots read_manifest mkdir_all read_file write_file
    rename read_dir list_dates put_node drop_node find_node default_manifest decode_manifest
    same_bytes prepared entries_of path_eq tmp_name snapshot_path prune_loop read_two read_dash
    check_civil ordinal utc
written = refl

two_games-IsCoherent : IsCoherent two_games
two_games-IsCoherent =
    let set = hedberg Game-discrete in
    Coherent-cons (λ g. g.id) set (game "b") (game "a" ∷ [])
      (λ e. ground (arith, eq_iff "b" "a", e), tt)
      (Coherent-cons (λ g. g.id) set (game "a") [] tt (λ x y m. absurd (not-mem-nil m)))

written_unordered :
    write_unordered env (some writer) "2024-01-15" (unordered two_games two_games-IsCoherent) []
    ≡ (ok tt, after)
written_unordered =
    ap (λ f. f [])
      (write_unordered-mk env (some writer) "2024-01-15" two_games two_games-IsCoherent)
    ∙ written

live : is_expired (cutoff_day env writer) (parse_date "2024-01-15") ≡ false
unfolding parse_date utc read_two read_dash check_civil ordinal
live = refl

write_games_snapshot_stores_example : find_node (games_path writer "2024-01-15") after ≡ (
    if str_eq "2024-01-15" "2024-01-15"
    then some (file (snapshot_json (prepared "2024-01-15" two_games)))
    else find_node (games_path writer "2024-01-15") [])
write_games_snapshot_stores_example =
    write_games_snapshot_stores env writer "2024-01-15" two_games [] after written "2024-01-15" live

write_games_snapshot-Agrees_example : Agrees writer after
write_games_snapshot-Agrees_example =
    write_games_snapshot-Agrees env writer "2024-01-15" two_games [] after (λ p. refl) written

write_games_snapshot-IsWhole_example :
    IsWhole env writer "2024-01-15" two_games "2024-01-15" [] after
write_games_snapshot-IsWhole_example =
    write_games_snapshot-IsWhole env writer "2024-01-15" two_games [] "2024-01-15"

load_games-write_games_snapshot_example :
    load_games env (some "data") "2024-01-15" after ≡ ok (prepared "2024-01-15" two_games)
load_games-write_games_snapshot_example =
    load_games-write_games_snapshot env env writer "2024-01-15" two_games [] after written live refl

find_game_by_id-write_games_snapshot_example :
    (is_some (find_game_by_id env (some "data") "2024-01-15" "a" after)
      ≡ has_id "a" two_games.games)
    × ((g : Game) → find_game_by_id env (some "data") "2024-01-15" "a" after ≡ some g → g.id ≡ "a")
find_game_by_id-write_games_snapshot_example =
    find_game_by_id-write_games_snapshot env env writer "2024-01-15" "a" two_games [] after written
      live refl

abbrev in_order : TodayResponse
in_order = record { date = ""; games = game "a" ∷ game "b" ∷ [] }

write_games_snapshot-SameGames_example :
    write_games_snapshot env (some writer) "2024-01-15" two_games []
    ≡ write_games_snapshot env (some writer) "2024-01-15" in_order []
write_games_snapshot-SameGames_example =
    write_games_snapshot-SameGames env (some writer) "2024-01-15" two_games in_order []
      two_games-IsCoherent (refl, Perm.swap (game "a") (game "b") [])

load_games-write_unordered_example :
    ((s : TodayResponse) (c : IsCoherent s)
      → unordered two_games two_games-IsCoherent ≡ unordered s c
      → write_games_snapshot env (some writer) "2024-01-15" s [] ≡ (ok tt, after))
    × Loads "2024-01-15"
        (unordered two_games two_games-IsCoherent)
        (load_games env (some "data") "2024-01-15" after)
load_games-write_unordered_example =
    load_games-write_unordered env env writer "2024-01-15"
      (unordered two_games two_games-IsCoherent) [] after written_unordered live refl

listed :
    list_dates env writer kind_games
      ((path "data" "games" "2024-01-15.json", file (snapshot_json two_games)) ∷ [])
    ≡ ok ("2024-01-15" ∷ [])
unfolding list_dates read_dir entries_of
listed = refl

abbrev week : Schedule
week = record {
  enabled = true;
  days = 7;
  future_days = 7;
  interval = 60000000000;
  daily_hour_utc = 2;
}

contains_date-build_dates_example :
    contains_date (build_dates env (some writer) week 739265 after) (format_date 739270) ≡ (
      (739270 == 739265)
      || (739270 + 1 == 739265)
      || ((ltb 739265 (739270 + 7) && leb 739270 (739265 + 7))
          && not (has_snapshot env (some writer) (format_date 739270) after)))
contains_date-build_dates_example =
    contains_date-build_dates env (some writer) week 739265 after 739270 (omega arith) (omega arith)
      (omega arith) (omega arith)
