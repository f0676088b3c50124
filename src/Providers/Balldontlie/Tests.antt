-- ===== src/Providers/Balldontlie/Tests.antt =====
-- A client that is answered with the game of one id on every page, and a Retry-After header of 30 seconds.
use nba_games_service.Base.{
  ℕ, ◌+◌, ◌*◌, ◌≡◌, refl, false, none, some, List, [], ◌∷◌, if◌then◌else◌, arith, String,
}
use nba_games_service.Base.Sort.{IsSorted}
use nba_games_service.Providers.Balldontlie.Dedupe.{dedupe}
use nba_games_service.Providers.Balldontlie.Dedupe.Unique.{
  first_with, last_with, count_id, is_here, dedupe_lem,
}
use nba_games_service.Base.Decimal.{pos, decimal}
use nba_games_service.Base.Strings.{trim_space, trim_left, trim_right}
use nba_games_service.Calendar.{utc, Civil, parse_date, read_two, read_dash, check_civil}
use nba_games_service.Domain.{Game}
use nba_games_service.Errors.{Result, ok}
use nba_games_service.Providers.Balldontlie.Headers.{
  parse_retry_after, parse_retry_after-decimal, second,
}
use nba_games_service.Providers.Balldontlie.Client.{Http, Client, fetch_games, page_pause}
use nba_games_service.Providers.Balldontlie.Client.Collecting.{Serves, collect, fetch_games-collect}
use nba_games_service.Providers.Balldontlie.Mapping.{GamesResponse, GameResponse, TeamResponse}
use nba_games_service.Providers.Balldontlie.Client.Pages.{fetch_games-ends}

abbrev raw_team : TeamResponse
raw_team = record {
  id = pos 2;
  abbreviation = "BOS";
  city = "Boston";
  conference = "East";
  division = "Atlantic";
  full_name = "Boston Celtics";
  name = "Celtics";
}

abbrev raw_game : GameResponse
raw_game = record {
  id = pos 7;
  date = "2024-01-15";
  datetime = "";
  status = "Final";
  time = "";
  period = pos 4;
  postseason = false;
  home_team = raw_team;
  visitor_team = raw_team;
  home_team_score = pos 100;
  visitor_team_score = pos 99;
  season = pos 2023;
}

-- Three pages, whose game has the page's number for its status.
abbrev page_of : String → GamesResponse
page_of page = record { data_ = record raw_game { status = page } ∷ []; total_pages = pos 3 }

abbrev http : Http ℕ
http = record {
  bad_url = λ url. none;
  do_ = λ req n. (
    ok record {
      status_code = 200;
      body = "";
      retry_after = "";
      remaining = "";
      payload = some (page_of req.page);
    },
    n + 1,
  );
  pause = λ n. (none, n);
  now = λ n. 0;
  load_location = λ name. none;
  parse_time = λ text. none;
}

abbrev client : Client
client = record {
  base_url = "http://localhost";
  api_key = "";
  loc = utc;
  max_pages = 5;
  page_delay = pos 0;
}

fetch_games-ends_example :
    (out : Result (List Game) × ℕ) × (fetch_games http client "2024-01-15" "" 0 ≡ some out)
fetch_games-ends_example = fetch_games-ends http client "2024-01-15" "" 0 (omega arith)

padded : trim_space " 30 " ≡ decimal 30
unfolding trim_space trim_left trim_right decimal
padded = refl

parse_retry_after-decimal_example : parse_retry_after (λ text. none) " 30 " 0 ≡ pos (30 * second)
parse_retry_after-decimal_example =
    parse_retry_after-decimal (λ text. none) " 30 " 0 30 padded (omega arith)

-- Items that are ids with a version.
abbrev versions : List (String × ℕ)
versions = ("b", 1) ∷ ("a", 1) ∷ ("b", 2) ∷ []

dedupe_lem_example :
    ((id : String)
      → (first_with (λ x. x.0) id (dedupe (λ x. x.0) versions)
          ≡ last_with (λ x. x.0) id versions none)
        × (count_id (λ x. x.0) id (dedupe (λ x. x.0) versions)
            ≡ (if is_here (last_with (λ x. x.0) id versions none) then 1 else 0)))
    × IsSorted (λ x. x.0) (dedupe (λ x. x.0) versions)
dedupe_lem_example = dedupe_lem (λ x. x.0) versions

abbrev january_15 : Civil
january_15 = record { year = 2024; month = 1; day = 15 }

parsed : parse_date "2024-01-15" ≡ some january_15
unfolding parse_date read_two read_dash check_civil
parsed = refl

abbrev pages : ℕ → GamesResponse
pages k = page_of (decimal k)

each_served : Serves http client "2024-01-15" pages
each_served k s = refl

fetch_games-collect_example :
    (s' : ℕ) × (fetch_games http client "2024-01-15" "" 0
      ≡ some (ok (dedupe (λ g. g.id) (collect pages 1 3)), s'))
unfolding page_pause
fetch_games-collect_example =
    fetch_games-collect http client "2024-01-15" "" pages 2 0 each_served refl refl {x = january_15}
      parsed (λ k. refl) (λ s. refl) (omega arith)
