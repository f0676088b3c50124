-- ===== src/Http/Handlers.antt =====
-- internal/http/handlers/handlers.go.
pub mod Window
use nba_games_service.Base.{
  ℕ, ◌+◌, ◌-◌, String, Bool, true, false, ◌||◌, Option, none, some, str_eq, str_lt, if◌then◌else◌,
}
use nba_games_service.Base.Strings.{trim_prefix, has_prefix, contains_char}
use nba_games_service.Calendar.{utc, Civil, Time, Location, parse_date, format_date}
use nba_games_service.Domain.{Game, TodayResponse, new_today_response}
use nba_games_service.Errors.{Error, Result, ok, err}
use nba_games_service.Http.Messages.{
  Request, Response, status_body, games_body, game_body, write_json, write_error, require_method,
}
use nba_games_service.Poller.{Status, is_ready}
use nba_games_service.Snapshots.Disk.{Disk}
use nba_games_service.Snapshots.Files.{Env}
use nba_games_service.Snapshots.Store.{FsStore, load_games, find_game_by_id}

-- The handler's store, whose nil is `none`, and location; `statusFn` is nil or gives a status.
pub record Handler : Type 0 where
  pub snaps : Option FsStore
  pub status_fn : Option Status
  pub loc : Location

-- NewHandler; no location is UTC.
abbrev pub new_handler : Option FsStore → Option Status → Option Location → Handler
new_handler snaps status_fn loc = record {
  snaps = snaps;
  status_fn = status_fn;
  loc = elim loc [ none ↦ utc | some l ↦ l ];
}

unfoldable pub health : Request → Response
health r =
    require_method r "GET" (λ x. x)
      (elim r.context_error [
        | some e ↦ write_error r 503 "shutting down"
        | none ↦ write_json 200 (status_body "ok")
      ])

abbrev failure_text : String → String
failure_text msg = if str_eq msg "" then "not ready" else msg

unfoldable pub ready : Handler → Request → Response
ready h r =
    require_method r "GET" (λ x. x)
      (elim h.status_fn [
        | none ↦ write_json 200 (status_body "ready")
        | some s ↦
            if is_ready s
            then write_json 200 (status_body "ready")
            else write_error r 503 (failure_text s.last_error)
      ])

module _ (env : Env) (h : Handler) (disk : Disk) where
  abbrev pub respond_games : Request → Result TodayResponse → Response
  respond_games r (err e) = write_error r 502 "snapshot unavailable"
  respond_games r (ok snap) = write_json 200 (games_body (new_today_response snap.date snap.games))

  -- `loadSnapshot`; the background context has no error, and a nil store fails in `load_games`.
  unfoldable pub load_snapshot : String → Result TodayResponse
  load_snapshot date = load_games env h.snaps date disk

  -- GamesToday, from a parsed date on; `day` is the civil day of `now` in the handler's location.
  abbrev pub games_between : Request → ℕ → Option Civil → Response
  games_between r day none = write_error r 400 "invalid date format (expected YYYY-MM-DD)"
  games_between r day (some c) =
      if str_lt r.date (format_date (day - 7)) || str_lt (format_date (day + 7)) r.date
      then write_error r 400 "date must be within 7 days of today"
      else respond_games r (load_snapshot r.date)

  unfoldable pub games_today : Time → Request → Response
  games_today now r =
      require_method r "GET" (λ x. x)
        (if str_eq r.date ""
          then write_error r 400 "date query param required (expected YYYY-MM-DD)"
          else games_between r (h.loc now) (parse_date r.date))

  -- An id that the handler does not take; 32, 9 and 47 are " \t/".
  abbrev pub bad_id : String → Bool
  bad_id id =
      str_eq id ""
      || str_eq id "games"
      || contains_char " " id
      || contains_char "\t" id
      || contains_char "/" id

  abbrev pub find_today : Time → Request → Option FsStore → String → Response
  find_today now r none id = write_error r 502 "snapshot store not configured"
  find_today now r (some base) id =
      elim (find_game_by_id env (some base) (format_date (h.loc now)) id disk) [
        | none ↦ write_error r 404 "game not found"
        | some g ↦ write_json 200 (game_body g)
      ]

  abbrev pub game_for : Time → Request → Option String → Response
  game_for now r none = write_error r 400 "invalid game id"
  game_for now r (some id) =
      if bad_id id then write_error r 400 "invalid game id" else find_today now r h.snaps id

  -- GameByID; `unescape` is `url.PathUnescape`.
  unfoldable pub game_by_id : (String → Option String) → Time → Request → Response
  game_by_id unescape now r =
      let path = trim_prefix "/games" r.path in
      require_method r "GET" (λ x. x)
        (if str_eq path "" || str_eq path "/"
          then write_error r 400 "invalid game id"
          else game_for now r (unescape (trim_prefix "/" path)))

  unfoldable pub serve_http : (String → Option String) → Time → Request → Response
  serve_http unescape now r =
      if str_eq r.path "/health"
      then health r
      else if str_eq r.path "/ready"
      then ready h r
      else if str_eq r.path "/games"
      then games_today now r
      else if has_prefix "/games/" r.path
      then game_by_id unescape now r
      else write_error r 404 "not found"
