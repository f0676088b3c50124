-- ===== src/Providers/Fixture.antt =====
-- internal/providers/fixture/fixture.go. An instant is a day and an hour of it, in UTC.
use mathlib.Core.Path.{ap₂}
use nba_games_service.Base.{
  String, String, Bool-cases, inl, inr, eq_iff, ℕ, ◌+◌, ◌/◌, ◌%◌, ◌<◌, ◌≡◌, refl, ap, ◌∙◌, true,
  false, Bool, Option, none, some, [], ◌∷◌, str_eq, if◌then◌else◌, arith,
}
use nba_games_service.Base.Decimal.{pos}
use nba_games_service.Base.Strings.{has_prefix, cut_prefix-append}
use nba_games_service.Calendar.{
  Civil, Time, utc, nanos_per_day, ordinal, parse_date, read_two, format_date, format_civil,
  pad_two,
}
use nba_games_service.Calendar.Layout.{parse_date_inv}
use nba_games_service.Calendar.Order.{civil_of-ordinal}
use nba_games_service.Domain.{Team, Game, GameStatusKind}
use nba_games_service.Errors.{ok}
use nba_games_service.Providers.Provider.{Provider}
use Prim.Native.String

abbrev pub Hour : Type 0
Hour = ℕ × ℕ

-- `p.now().UTC().Truncate(time.Hour)`
abbrev pub hour_of : Time → Hour
hour_of now = (utc now, now % nanos_per_day / 3600000000000)

abbrev pub add_hours : Hour → ℕ → Hour
add_hours (day, hour) n = (day + (hour + n) / 24, (hour + n) % 24)

-- `t.Format(time.RFC3339)`, of a full hour in UTC.
abbrev pub format_rfc3339 : Hour → String
format_rfc3339 (day, hour) =
    String.◌++◌ (format_date day) (String.◌++◌ "T" (pad_two hour ":00:00Z"))

abbrev start_of : Hour → Option Civil → Hour
start_of start none = start
start_of start (some c) = (ordinal c, 0)

unfoldable pub start_for : Time → String → Hour
start_for now date =
    if str_eq date "" then hour_of now else start_of (hour_of now) (parse_date date)

abbrev team : String → String → String → String → String → String → Team
team id name abbreviation city conference division = record {
  id = id;
  name = name;
  full_name = "";
  abbreviation = abbreviation;
  city = city;
  conference = conference;
  division = division;
}

abbrev game : String → Team → Team → String → ℕ → Game
game id home away start_time upstream = record {
  id = id;
  provider = "fixture";
  home_team = home;
  away_team = away;
  start_time = start_time;
  status = "Scheduled";
  status_kind = GameStatusKind.scheduled;
  score = record { home = pos 0; away = pos 0 };
  meta = record {
    season = "2023-2024";
    upstream_game_id = pos upstream;
    period = pos 0;
    postseason = false;
    time = "";
  };
}

abbrev first_game : Hour → Game
first_game start =
    game "fixture-1" (team "bos" "Celtics" "BOS" "Boston" "East" "Atlantic")
      (team "lal" "Lakers" "LAL" "Los Angeles" "West" "Pacific")
      (format_rfc3339 (add_hours start 2)) 1001

abbrev second_game : Hour → Game
second_game start =
    game "fixture-2" (team "gsw" "Warriors" "GSW" "San Francisco" "West" "Pacific")
      (team "mia" "Heat" "MIA" "Miami" "East" "Southeast") (format_rfc3339 (add_hours start 4)) 1002

-- FetchGames; `clock` reads the time.
unfoldable pub fetch_games {ℓ} : {S : Type ℓ} → (S → Time) → Provider S
fetch_games clock date tz s =
    let start = start_for (clock s) date in (ok (first_game start ∷ second_game start ∷ []), s)

pub add_hours-midnight : (day n : ℕ) → n < 24 → add_hours (day, 0) n ≡ (day, n)
add_hours-midnight day n lt =
    let e : day + (0 + n) / 24 ≡ day = omega (arith, lt) in
    let f : (0 + n) % 24 ≡ n = omega (arith, lt) in ap₂ (λ x y. (x, y)) e f

format_date-ordinal :
    (date : String) (c : Civil) → parse_date date ≡ some c → format_date (ordinal c) ≡ date
unfolding format_date
format_date-ordinal date c e =
    let (f, v, _) = parse_date_inv date c e in ap format_civil (civil_of-ordinal c v) ∙ f

-- A time at an hour of a day has the day as its prefix.
has_prefix-format_rfc3339 :
    (date : String) (c : Civil) (n : ℕ)
    → parse_date date ≡ some c
    → n < 24
    → has_prefix date (format_rfc3339 (add_hours (ordinal c, 0) n)) ≡ true
has_prefix-format_rfc3339 date c n e lt =
    let rest = String.◌++◌ "T" (pad_two n ":00:00Z") in
    let t : format_rfc3339 (add_hours (ordinal c, 0) n) ≡ String.◌++◌ date rest =
      ap format_rfc3339 (add_hours-midnight (ordinal c) n lt)
      ∙ ap (λ d. String.◌++◌ d rest) (format_date-ordinal date c e) in
    ap (has_prefix date) t
    ∙ ap (λ o. elim o as (λ _. Bool) [ none ↦ false | some _ ↦ true ]) (cut_prefix-append date rest)

parse_date-empty : (date : String) → str_eq date "" ≡ true → parse_date date ≡ none
unfolding parse_date read_two
parse_date-empty date e = rw ((eq_iff date "").0 e) refl

start_for-parsed :
    (now : Time) (date : String) (c : Civil)
    → parse_date date ≡ some c
    → start_for now date ≡ (ordinal c, 0)
unfolding start_for
start_for-parsed now date c e = elim (Bool-cases (str_eq date "")) [
  | inl is_empty ↦ ground (arith, parse_date-empty date is_empty, e)
  | inr not_empty ↦ rw not_empty (ap (start_of (hour_of now)) e)
]

-- A valid date, asked of the fixtures, gives two games that start on it, and changes nothing.
pub fetch_games-dated {ℓ} :
    {S : Type ℓ} (clock : S → Time) (date tz : String) (s : S) (c : Civil)
    → parse_date date ≡ some c
    → (g h : Game) × (fetch_games clock date tz s ≡ (ok (g ∷ h ∷ []), s))
      × (has_prefix date g.start_time ≡ true)
      × (has_prefix date h.start_time ≡ true)
unfolding fetch_games
fetch_games-dated clock date tz s c e =
    let at : Hour = (ordinal c, 0) in
    let w : fetch_games clock date tz s ≡ (ok (first_game at ∷ second_game at ∷ []), s) =
      ap (λ t. (ok (first_game t ∷ second_game t ∷ []), s)) (start_for-parsed (clock s) date c e) in
    (
      first_game at,
      second_game at,
      w,
      has_prefix-format_rfc3339 date c 2 e (omega arith),
      has_prefix-format_rfc3339 date c 4 e (omega arith),
    )
