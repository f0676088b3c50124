-- ===== src/Snapshots/Sync/Tests.antt =====
-- A write to an empty disk where nothing fails, and a backfill of one game for each date.
use nba_games_service.Base.{
  ℕ, String, true, false, none, some, [], ◌∷◌, ◌≡◌, refl, str_eq, ◌==◌, if◌then◌else◌, arith,
}
use nba_games_service.Base.Decimal.{pos}
use nba_games_service.Calendar.{parse_date, read_two, read_dash, check_civil, ordinal, utc}
use nba_games_service.Domain.{Team, Game, GameStatusKind, TodayResponse}
use nba_games_service.Errors.{other, ok, err}
use nba_games_service.Logging.{Logger, new_logger}
use nba_games_service.Snapshots.Disk.{find_node}
use nba_games_service.Snapshots.Files.{Env, healthy}
use nba_games_service.Snapshots.Writer.{Writer, cutoff_day, is_expired, write_games_snapshot}
use nba_games_service.Snapshots.Writer.Healthy.{IsHealthy, HasFiles}
use nba_games_service.Snapshots.Writer.Shelf.{shelf, shelve, shelf-write_games_snapshot}
use nba_games_service.Snapshots.Sync.{Round, Schedule, build_dates, backfill}
use nba_games_service.Snapshots.Sync.Reporting.{told_backfill}
use nba_games_service.Snapshots.Sync.Telling.{Paced, Tells, told_backfill-Tells}
use nba_games_service.Snapshots.Sync.Filling.{games_for, filled, backfill-fills}

abbrev env : Env
env = record {
  mkdir_error = λ _ _. none;
  read_error = λ _. none;
  list_error = λ _ _. none;
  write_fault = λ _. healthy;
  rename_error = λ _ _. none;
  remove_error = λ _. none;
  stat_error = λ _. none;
  refreshed_at = 0;
  pruned_at = 0;
  generated_at = 0;
}

fine : IsHealthy env
fine = record {
  makes = λ b c. refl;
  lists = λ b c. refl;
  writes = λ p. refl;
  renames = λ p q. refl;
  removes = λ p. refl;
}

empty-HasFiles : HasFiles []
unfolding find_node
empty-HasFiles q e = cc

abbrev writer : Writer
writer = record { base_path = "data"; retention_days = 14 }

abbrev no_games : TodayResponse
no_games = record { date = ""; games = [] }

shelf-write_games_snapshot_example :
    let out = write_games_snapshot env (some writer) "2024-01-15" no_games [] in
    (str_eq "2024-01-15" "" ≡ false → out.0 ≡ ok tt)
    × HasFiles out.1
    × ((x : String)
        → shelf writer out.1 x
          ≡ shelve (cutoff_day env writer) "2024-01-15" no_games (shelf writer []) x)
shelf-write_games_snapshot_example =
    shelf-write_games_snapshot env writer "2024-01-15" no_games [] fine empty-HasFiles

abbrev team : Team
team = record {
  id = "BOS";
  name = "Celtics";
  full_name = "";
  abbreviation = "BOS";
  city = "Boston";
  conference = "East";
  division = "Atlantic";
}

abbrev game : Game
game = record {
  id = "fixture-1";
  provider = "fixture";
  home_team = team;
  away_team = team;
  start_time = "";
  status = "Scheduled";
  status_kind = GameStatusKind.scheduled;
  score = record { home = pos 0; away = pos 0 };
  meta = record {
    season = "2023-2024";
    upstream_game_id = pos 1001;
    period = pos 0;
    postseason = false;
    time = "";
  };
}

abbrev round : ℕ → Round
round n = record { done = false; fetched = ok (game ∷ []); env = env }

abbrev schedule : Schedule
schedule = record { enabled = true; days = 3; future_days = 1; interval = 1; daily_hour_utc = 2 }

live : is_expired (cutoff_day env writer) (parse_date "2024-01-15") ≡ false
unfolding parse_date utc read_two read_dash check_civil ordinal
live = refl

backfill-fills_example :
    shelf writer (backfill round env (some writer) schedule 739265 []) "2024-01-15"
    ≡ filled "2024-01-15"
        (games_for round 0 (build_dates env (some writer) schedule 739265 []) "2024-01-15")
        (shelf writer [] "2024-01-15")
backfill-fills_example =
    backfill-fills round env writer schedule 739265 [] "2024-01-15" (λ j. fine) empty-HasFiles refl
      (λ j. live)

-- The second round fails to write, and the third to fetch.
abbrev bad_round : ℕ → Round
bad_round n =
    if n == 1
    then record {
      done = false;
      fetched = ok (game ∷ []);
      env = record env { rename_error = λ p q. some (other "no space") };
    }
    else record {
      done = false;
      fetched = if n == 2 then err (other "timeout") else ok (game ∷ []);
      env = env;
    }

bad_live :
    (j : ℕ) → is_expired (cutoff_day (bad_round j).env writer) (parse_date "2024-01-15") ≡ false
unfolding parse_date utc read_two read_dash check_civil ordinal
bad_live j = ground arith

abbrev logger : Logger
logger =
    new_logger record { level = ""; format = ""; service = "nba-data-service"; version = "dev" }

told_backfill-Tells_example :
    let (acts, after) =
      told_backfill (some logger) (λ i. 0) bad_round (some writer) env schedule 739265 [] in
    (after ≡ backfill bad_round env (some writer) schedule 739265 [])
    × Paced schedule.interval acts
    × Tells logger "2024-01-15" bad_round 0 acts
        (shelf writer [] "2024-01-15")
        (shelf writer after "2024-01-15")
told_backfill-Tells_example =
    told_backfill-Tells logger (λ i. 0) bad_round env writer schedule 739265 [] "2024-01-15"
      bad_live
