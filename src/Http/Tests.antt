-- ===== src/Http/Tests.antt =====
-- The handlers on 2024-01-15, day 739265, with no snapshot on the disk.
use nba_games_service.Base.{
  ℕ, ◌+◌, ◌*◌, ◌≡◌, refl, false, ◌||◌, none, some, List, [], ◌∷◌, ltb, arith, if◌then◌else◌,
}
use nba_games_service.Base.Strings.{trim_space}
use nba_games_service.Calendar.{
  utc, nanos_per_day, format_date, parse_date, read_two, read_dash, check_civil, ordinal,
}
use nba_games_service.Snapshots.Disk.{
  find_node, put_node, drop_node, path_eq, same_bytes, decode_manifest,
}
use nba_games_service.Snapshots.Names.{tmp_name, json_name}
use nba_games_service.Snapshots.Writer.{
  write_games_snapshot, write_snapshot, store_payload, replace_unless_same, replace_file,
  list_dates, prepared, prune_loop, prune_old_snapshots, read_manifest, update_manifest,
  write_manifest, default_manifest, snapshot_path, is_expired, cutoff_day, prepared,
}
use nba_games_service.Errors.{Result, ok}
use nba_games_service.Base.Decimal.{pos}
use nba_games_service.Domain.{Team, Game, GameStatusKind, new_today_response}
use nba_games_service.Snapshots.Files.{
  Env, healthy, mkdir_all, read_file, write_file, rename, remove, entries_of, read_dir,
}
use nba_games_service.Http.Messages.{Request, write_error, require_method, write_json, games_body}
use nba_games_service.Http.Handlers.{Handler, games_today, respond_games, load_snapshot}
use nba_games_service.Http.Handlers.Window.{games_today-window, Served, games_today-Served}
use nba_games_service.Snapshots.Disk.{Disk, path, file, snapshot_json, decode_snapshot}
use nba_games_service.Snapshots.Store.{load_games, load}
use nba_games_service.Http.Admin.{AdminHandler, refresh_snapshots, authorize, date_for}
use nba_games_service.Http.Admin.Refreshing.{Refreshed, refresh_snapshots-Refreshed}
use nba_games_service.Http.Admin.Publishing.{games_today-refresh_snapshots}
use Prim.Native.String.{String}

abbrev env : Env
env = record {
  mkdir_error = λ _ _. none;
  read_error = λ _. none;
  list_error = λ _ _. none;
  write_fault = λ _. healthy;
  rename_error = λ _ _. none;
  remove_error = λ _. none;
  stat_error = λ _. none;
  refreshed_at = 0;
  pruned_at = 0;
  generated_at = 0;
}

abbrev request : String → Request
request date = record {
  method = "GET";
  path = "/games";
  date = date;
  tz = "";
  authorization = "";
  id_header = "";
  context_id = "r-1";
  context_error = none;
}

abbrev handler : Handler
handler = record { snaps = some "data"; status_fn = none; loc = utc }

games_today-window_example :
    let now = 738899 * nanos_per_day in
    games_today env handler [] now (request (format_date 739273)) ≡ (
      if ltb (739273 + 7) (utc now) || ltb (utc now + 7) 739273
      then write_error (request (format_date 739273)) 400 "date must be within 7 days of today"
      else respond_games env handler []
          (request (format_date 739273))
          (load_snapshot env handler [] (format_date 739273)))
unfolding utc
games_today-window_example =
    games_today-window env handler [] (738899 * nanos_per_day) (request (format_date 739273)) 739273
      refl refl (omega arith) (omega arith) (omega arith)

abbrev admin : AdminHandler ℕ
admin = record {
  writer = some record { base_path = "data"; retention_days = 14 };
  provider = some (λ date tz s. (ok [], s + 1));
  token = "secret";
  local = utc;
  load_location = λ name. none;
}

abbrev stamp : List ℕ
stamp = 50 ∷ 48 ∷ 50 ∷ 52 ∷ []

abbrev team : Team
team = record {
  id = "BOS";
  name = "Celtics";
  full_name = "";
  abbreviation = "BOS";
  city = "Boston";
  conference = "East";
  division = "Atlantic";
}

abbrev game : Game
game = record {
  id = "fixture-1";
  provider = "fixture";
  home_team = team;
  away_team = team;
  start_time = "";
  status = "Scheduled";
  status_kind = GameStatusKind.scheduled;
  score = record { home = pos 0; away = pos 0 };
  meta = record {
    season = "2023-2024";
    upstream_game_id = pos 1001;
    period = pos 0;
    postseason = false;
    time = "";
  };
}

abbrev full_admin : AdminHandler ℕ
full_admin = record {
  writer = some record { base_path = "data"; retention_days = 14 };
  provider = some (λ date tz s. (ok (game ∷ []), s + 1));
  token = "secret";
  local = utc;
  load_location = λ name. none;
}

abbrev post : Request
post = record {
  method = "POST";
  path = "/admin/snapshots/refresh";
  date = "2024-01-15";
  tz = "";
  authorization = "Bearer secret";
  id_header = "";
  context_id = "r-2";
  context_error = none;
}

accepted : (refresh_snapshots env full_admin 0 post [] 0).0.status ≡ 200
unfolding refresh_snapshots authorize require_method parse_date read_two trim_space read_dash
    check_civil write_games_snapshot write_snapshot store_payload mkdir_all replace_unless_same
    read_file find_node replace_file write_file rename put_node ordinal utc decode_manifest
    drop_node path_eq same_bytes entries_of read_dir remove tmp_name default_manifest list_dates
    prepared prune_loop prune_old_snapshots read_manifest update_manifest write_manifest
    snapshot_path
accepted = refl

refresh_snapshots-Refreshed_example :
    Refreshed env full_admin 0 post [] 0 (refresh_snapshots env full_admin 0 post [] 0)
refresh_snapshots-Refreshed_example =
    refresh_snapshots-Refreshed env full_admin 0 post [] 0 accepted

abbrev stored : Disk
stored =
    (
      path "data" "games" "2024-01-15.json",
      file (snapshot_json record { date = "2024-01-15"; games = [] }),
    )
    ∷ []

answered :
    (games_today env handler stored (738899 * nanos_per_day) (request "2024-01-15")).status ≡ 200
unfolding games_today require_method parse_date read_two read_dash check_civil utc format_date
    load_snapshot load_games load read_file find_node path_eq decode_snapshot json_name
answered = refl

games_today-Served_example :
    Served env handler stored (738899 * nanos_per_day) (request "2024-01-15")
unfolding utc
games_today-Served_example =
    games_today-Served env handler stored (738899 * nanos_per_day) (request "2024-01-15")
      (omega arith) (omega arith) answered

day_named : date_for full_admin 0 post ≡ format_date 739265
unfolding format_date trim_space
day_named = refl

day_live :
    is_expired
      (cutoff_day env record { base_path = "data"; retention_days = 14 })
      (parse_date (format_date 739265))
    ≡ false
unfolding format_date parse_date utc read_two read_dash check_civil ordinal
day_live = refl

games_today-refresh_snapshots_example :
    let disk = (refresh_snapshots env full_admin 0 post [] 0).1 in
    let snap = λ (games : List Game).
      prepared (format_date 739265) (new_today_response (format_date 739265) games) in
    (games : List Game) × (◌≡◌ {A = Result (List Game)} (ok (game ∷ [])) (ok games))
    × (games_today env handler disk (738899 * nanos_per_day) (request (format_date 739265))
        ≡ write_json 200 (games_body (new_today_response (snap games).date (snap games).games)))
unfolding utc
games_today-refresh_snapshots_example =
    games_today-refresh_snapshots env env full_admin handler
      record { base_path = "data"; retention_days = 14 } (λ date tz s. (ok (game ∷ []), s + 1)) 0
      (738899 * nanos_per_day) post (request (format_date 739265)) [] 0 739265 refl refl refl
      accepted day_named day_live refl refl refl (omega arith) (omega arith) (omega arith)
      (omega arith) (omega arith)
