-- ===== src/Providers/Balldontlie/Client.antt =====
-- client.go and transport.go. `Http` is the HTTP client, the clock and the wait between pages.
pub mod Pages
pub mod Collecting
use nba_games_service.Base.{
  ℕ, zero, suc, ◌+◌, Bool, true, false, not, ◌&&◌, ◌||◌, Option, none, some, List, [], ◌++◌, map,
  str_eq, if◌then◌else◌, ltb, leb, ◌==◌, length,
}
use nba_games_service.Base.Decimal.{ℤ, pos, negsuc, positive_or, decimal}
use nba_games_service.Base.Strings.{trim_slash}
use nba_games_service.Calendar.{Time, Location, utc, parse_date, format_date}
use nba_games_service.Domain.{Game}
use nba_games_service.Errors.{Error, other, Result, ok, err}
use nba_games_service.Providers.Provider.{Provider}
use nba_games_service.Providers.Balldontlie.Mapping.{GamesResponse, map_game}
use nba_games_service.Providers.Balldontlie.Headers.{Response, classify_error_response}
use nba_games_service.Providers.Balldontlie.Dedupe.{dedupe}
use Prim.Native.String
use Prim.Native.String.{String}

-- A GET request: the URL, the query's three keys, and the Authorization header, empty for none.
pub record Request : Type 0 where
  pub url : String
  pub date : String
  pub per_page : String
  pub page : String
  pub authorization : String

pub record Http {ℓ} (S : Type ℓ) : Type ℓ where
  pub bad_url : String → Option Error
  pub do_ : Request → S → Result (Response GamesResponse) × S
  pub pause : S → Option Error × S
  pub now : S → Time
  pub load_location : String → Option Location
  pub parse_time : String → Option Time

pub record Client : Type 0 where
  pub base_url : String
  pub api_key : String
  pub loc : Location
  pub max_pages : ℕ
  pub page_delay : ℤ

unfoldable pub normalize_base_url : String → String
normalize_base_url raw = trim_slash (if str_eq raw "" then "https://api.balldontlie.io/v1" else raw)

abbrev or_utc : Option Location → Location
or_utc none = utc
or_utc (some l) = l

unfoldable pub resolve_location : (String → Option Location) → String → Location
resolve_location load name = or_utc (load (if str_eq name "" then "America/New_York" else name))

unfoldable pub resolve_max_pages : ℤ → ℕ
resolve_max_pages max = positive_or max 5

unfoldable pub new_client : (String → Option Location) → String → String → String → ℤ → ℤ → Client
unfolding normalize_base_url resolve_location resolve_max_pages
new_client load base_url api_key timezone max_pages page_delay = record {
  base_url = normalize_base_url base_url;
  api_key = api_key;
  loc = resolve_location load timezone;
  max_pages = resolve_max_pages max_pages;
  page_delay = page_delay;
}

abbrev pub is_positive : ℤ → Bool
is_positive (pos (suc n)) = true
is_positive _ = false

-- `totalPages > 0` and the page is the last one, or the page is not full; or the page is the
-- client's last.
unfoldable pub is_last : ℕ → ℤ → ℕ → ℕ → Bool
is_last max_pages (pos (suc n)) count page = leb (suc n) page || leb max_pages page
is_last max_pages (pos zero) count page = count == 0 || ltb count 100 || leb max_pages page
is_last max_pages (negsuc n) count page = count == 0 || ltb count 100 || leb max_pages page

module _ {ℓ} {S : Type ℓ} (http : Http S) (c : Client) where
  unfoldable pub resolve_date : String → Location → S → String
  resolve_date date loc s =
      let today = format_date (loc (http.now s)) in
      if str_eq date "" then today else elim (parse_date date) [ some x ↦ date | none ↦ today ]

  unfoldable pub build_request : String → ℕ → Location → S → Result Request
  build_request date page loc s = elim (http.bad_url (String.◌++◌ c.base_url "/games")) [
    | some e ↦ err e
    | none ↦ ok record {
      url = String.◌++◌ c.base_url "/games";
      date = resolve_date date loc s;
      per_page = "100";
      page = decimal page;
      authorization = if str_eq c.api_key "" then "" else String.◌++◌ "Bearer " c.api_key;
    }
  ]

  unfoldable pub page_pause : S → Option Error × S
  page_pause s = if is_positive c.page_delay then http.pause s else (none, s)

  abbrev decoded : Option GamesResponse → Result GamesResponse
  decoded none = err (other "invalid JSON")
  decoded (some p) = ok p

  -- What `fetchPaged` takes from a response.
  unfoldable pub read_response : Response GamesResponse → S → Result GamesResponse
  read_response resp s =
      if resp.status_code == 200
      then decoded resp.payload
      else err (classify_error_response http.parse_time resp (http.now s))

  abbrev pub answered : Result (Response GamesResponse) × S → Result GamesResponse × S
  answered (err e, s) = (err e, s)
  answered (ok resp, s) = (read_response resp s, s)

  abbrev sent : Result Request → S → Result GamesResponse × S
  sent (err e) s = (err e, s)
  sent (ok req) s = answered (http.do_ req s)

  -- One page: the request, and the response to it.
  unfoldable pub fetch_page : String → ℕ → Location → S → Result GamesResponse × S
  fetch_page date page loc s = sent (build_request date page loc s) s

  -- The loop of `fetchPaged`, from a page on; `none` where the fuel runs out.
  unfoldable pub fetch_paged :
      String → Location → ℕ → ℕ → List Game → S → Option (Result (List Game) × S)
  fetch_paged date loc zero page all s = none
  fetch_paged date loc (suc fuel) page all s =
      let (got, s1) = fetch_page date page loc s in
      elim got [
        | err e ↦ some (err e, s1)
        | ok p ↦
            let all' = all ++ map map_game p.data_ in
            elim (is_last c.max_pages p.total_pages (length p.data_) page) [
              | true ↦ some (ok all', s1)
              | false ↦
                  let (stopped, s2) = page_pause s1 in
                  elim stopped [
                    | some e ↦ some (err e, s2)
                    | none ↦ fetch_paged date loc fuel (page + 1) all' s2
                  ]
            ]
      ]

  abbrev pub deduped : Option (Result (List Game) × S) → Option (Result (List Game) × S)
  deduped none = none
  deduped (some (err e, s)) = some (err e, s)
  deduped (some (ok games, s)) = some (ok (dedupe (λ g. g.id) games), s)

  abbrev pub location_for : String → Location
  location_for tz = if str_eq tz "" then c.loc else resolve_location http.load_location tz

  -- FetchGames. As much fuel as there are pages is enough.
  unfoldable pub fetch_games : String → String → S → Option (Result (List Game) × S)
  fetch_games date tz s = deduped (fetch_paged date (location_for tz) c.max_pages 1 [] s)
