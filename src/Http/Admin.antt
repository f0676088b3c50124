-- ===== src/Http/Admin.antt =====
-- internal/http/handlers/admin.go. The handler changes the disk and the provider's state.
pub mod Refreshing
pub mod Publishing
use nba_games_service.Base.{
  ℕ, String, Bool, true, false, Option, none, some, List, [], ◌∷◌, str_eq, if◌then◌else◌, length,
}
use nba_games_service.Base.Strings.{trim_space}
use nba_games_service.Calendar.{Civil, Time, Location, parse_date, format_date}
use nba_games_service.Domain.{Game, new_today_response}
use nba_games_service.Errors.{Error, Result, ok, err}
use nba_games_service.Http.Messages.{
  Request, Response, refreshed_body, write_json, write_error, require_method,
}
use nba_games_service.Providers.Provider.{Provider}
use nba_games_service.Snapshots.Disk.{Disk}
use nba_games_service.Snapshots.Files.{Env}
use nba_games_service.Snapshots.Writer.{Writer, write_games_snapshot}
use Prim.Native.String

-- `local` is the process's time zone, and `load_location` the time zone database.
pub record AdminHandler {ℓ} (S : Type ℓ) : Type ℓ where
  pub writer : Option Writer
  pub provider : Option (Provider S)
  pub token : String
  pub local : Location
  pub load_location : String → Option Location

-- NewAdminHandler, with the time zone of the process and the time zones that there are.
abbrev pub new_admin_handler {ℓ} :
    {S : Type ℓ}
    → Option Writer
    → Option (Provider S)
    → String
    → Location
    → (String → Option Location)
    → AdminHandler S
new_admin_handler writer provider token local load_location = record {
  writer = writer;
  provider = provider;
  token = token;
  local = local;
  load_location = load_location;
}

-- The response, the disk and the provider's state.
abbrev pub Answer {ℓ} : Type ℓ → Type ℓ
Answer S = Response × Disk × S

module _ {ℓ} {S : Type ℓ} where
  unfoldable pub authorize : AdminHandler S → Request → Bool
  authorize h r =
      if str_eq h.token "" then false else str_eq r.authorization (String.◌++◌ "Bearer " h.token)

  abbrev pub stay : Disk → S → Response → Answer S
  stay d s resp = (resp, d, s)

  abbrev pub written : Request → String → ℕ → S → Result (Unit {0}) × Disk → Answer S
  written r date count s (err e, d) = (write_error r 500 "failed to write snapshot", d, s)
  written r date count s (ok u, d) = (write_json 200 (refreshed_body date count), d, s)

  abbrev pub store_games :
      Env → Writer → Request → String → Disk → Result (List Game) × S → Answer S
  store_games env w r date d (err e, s) = (write_error r 502 "failed to fetch games", d, s)
  store_games env w r date d (ok [], s) = (write_error r 400 "no games to snapshot", d, s)
  store_games env w r date d (ok (g ∷ gs), s) =
      written r date (length (g ∷ gs)) s
        (write_games_snapshot env (some w) date (new_today_response date (g ∷ gs)) d)

  -- Whether the `tz` parameter is taken.
  abbrev pub knows_zone : AdminHandler S → String → Bool
  knows_zone h tz =
      if str_eq tz "" then true else elim (h.load_location tz) [ none ↦ false | some l ↦ true ]

  abbrev pub refresh_date :
      Env → AdminHandler S → Provider S → Writer → Request → String → Disk → S → Answer S
  refresh_date env h p w r date d s = elim (parse_date date) [
    | none ↦ stay d s (write_error r 400 "invalid date format")
    | some c ↦
        let tz = trim_space r.tz in
        elim (knows_zone h tz) [
          | false ↦ stay d s (write_error r 400 "invalid timezone")
          | true ↦ store_games env w r date d (p date tz s)
        ]
  ]

  abbrev pub date_for : AdminHandler S → Time → Request → String
  date_for h now r =
      let date = trim_space r.date in if str_eq date "" then format_date (h.local now) else date

  abbrev pub refresh_with :
      Env
      → AdminHandler S
      → Time
      → Request
      → Option (Provider S)
      → Option Writer
      → Disk
      → S
      → Answer S
  refresh_with env h now r none w d s =
      stay d s (write_error r 503 "snapshot writer not configured")
  refresh_with env h now r (some p) none d s =
      stay d s (write_error r 503 "snapshot writer not configured")
  refresh_with env h now r (some p) (some w) d s = refresh_date env h p w r (date_for h now r) d s

  unfoldable pub refresh_snapshots : Env → AdminHandler S → Time → Request → Disk → S → Answer S
  refresh_snapshots env h now r d s = require_method r "POST" (stay d s) (
      if authorize h r
      then refresh_with env h now r h.provider h.writer d s
      else stay d s (write_error r 401 "unauthorized"))
