-- ===== src/Providers/Balldontlie/Mapping.antt =====
-- types.go and mapper.go.
use nba_games_service.Base.{String, Bool, List, if◌then◌else◌, ◌||◌}
use nba_games_service.Base.Decimal.{ℤ, decimal_int}
use nba_games_service.Base.Strings.{trim_space, lowers_to}
use nba_games_service.Domain.{
  Team, Game, GameStatusKind, scheduled, in_progress, final, postponed, canceled,
}
use Prim.Native.String.{◌++◌}

pub record TeamResponse : Type 0 where
  pub id : ℤ
  pub abbreviation : String
  pub city : String
  pub conference : String
  pub division : String
  pub full_name : String
  pub name : String

pub record GameResponse : Type 0 where
  pub id : ℤ
  pub date : String
  pub datetime : String
  pub status : String
  pub time : String
  pub period : ℤ
  pub postseason : Bool
  pub home_team : TeamResponse
  pub visitor_team : TeamResponse
  pub home_team_score : ℤ
  pub visitor_team_score : ℤ
  pub season : ℤ

-- `gamesResponse`, with `meta.total_pages`.
pub record GamesResponse : Type 0 where
  pub data_ : List GameResponse
  pub total_pages : ℤ

unfoldable pub map_team : TeamResponse → Team
map_team t = record {
  id = t.abbreviation;
  name = t.name;
  full_name = t.full_name;
  abbreviation = t.abbreviation;
  city = t.city;
  conference = t.conference;
  division = t.division;
}

unfoldable pub map_status_kind : String → GameStatusKind
map_status_kind status =
    if lowers_to status "final" || lowers_to status "ended"
    then final
    else if lowers_to status "in progress"
        || lowers_to status "halftime"
        || lowers_to status "end of period"
    then in_progress
    else if lowers_to status "postponed"
    then postponed
    else if lowers_to status "canceled" || lowers_to status "cancelled"
    then canceled
    else scheduled

abbrev pub format_season : ℤ → String
format_season season = decimal_int season

-- `fmt.Sprintf("%s-%d", providerName, g.ID)`
abbrev pub game_id : ℤ → String
game_id id = "balldontlie-" ++ decimal_int id

unfoldable pub map_game : GameResponse → Game
unfolding map_team
map_game g =
    let status = trim_space g.status in
    record {
      id = game_id g.id;
      provider = "balldontlie";
      home_team = map_team g.home_team;
      away_team = map_team g.visitor_team;
      start_time = g.datetime;
      status = status;
      status_kind = map_status_kind status;
      score = record { home = g.home_team_score; away = g.visitor_team_score };
      meta = record {
        season = format_season g.season;
        upstream_game_id = g.id;
        period = g.period;
        postseason = g.postseason;
        time = trim_space g.time;
      };
    }
