-- ===== src/Providers/Balldontlie/Client/Collecting.antt =====
-- The games of a fetch from a server that answers every page.
use mathlib.Core.List.{append-nil, append_assoc}
use nba_games_service.Base.{
  ℕ, zero, suc, ◌+◌, ◌-◌, ◌≤◌, ◌<◌, ◌≡◌, sym, ap, ◌∙◌, refl, str_eq, true, false, none, some, List,
  [], ◌++◌, map, arith, length, if◌then◌else◌, ltb,
}
use nba_games_service.Base.Decimal.{pos, decimal}
use nba_games_service.Calendar.{Civil, Location, parse_date}
use nba_games_service.Domain.{Game}
use nba_games_service.Errors.{Result, ok, err}
use Prim.Native.String
use Prim.Native.String.{String}
use nba_games_service.Providers.Balldontlie.Headers.{Response}
use nba_games_service.Providers.Balldontlie.Dedupe.{dedupe}
use nba_games_service.Providers.Balldontlie.Mapping.{GamesResponse, map_game}
use nba_games_service.Providers.Balldontlie.Client.{
  Request, Http, Client, resolve_date, build_request, read_response, answered, fetch_page, is_last,
  page_pause, fetch_paged, fetch_games, deduped, location_for,
}

-- The games of `count` pages from a page on, in their order.
unfoldable pub collect : (ℕ → GamesResponse) → ℕ → ℕ → List Game
collect pages page zero = []
collect pages page (suc count) = map map_game (pages page).data_ ++ collect pages (page + 1) count

-- The request for a page of a date.
abbrev pub page_request : Client → String → ℕ → Request
page_request c date k = record {
  url = String.◌++◌ c.base_url "/games";
  date = date;
  per_page = "100";
  page = decimal k;
  authorization = if str_eq c.api_key "" then "" else String.◌++◌ "Bearer " c.api_key;
}

abbrev pub page_response : GamesResponse → Response GamesResponse
page_response p = record {
  status_code = 200;
  body = "";
  retry_after = "";
  remaining = "";
  payload = some p;
}

-- The server answers a request for a page with that page.
abbrev pub Serves {ℓ} : {S : Type ℓ} → Http S → Client → String → (ℕ → GamesResponse) → Type ℓ
Serves {S} http c date pages =
    (k : ℕ) (s : S) → (http.do_ (page_request c date k) s).0 ≡ ok (page_response (pages k))

module _ {ℓ} {S : Type ℓ} (http : Http S) (c : Client) (date : String) (pages : ℕ → GamesResponse)
    (serves : Serves http c date pages)
    (good : http.bad_url (String.◌++◌ c.base_url "/games") ≡ none) (named : str_eq date "" ≡ false)
    {x : Civil} (parses : parse_date date ≡ some x) where
  build_request-page :
      (k : ℕ) (loc : Location) (s : S)
      → build_request http c date k loc s ≡ ok (page_request c date k)
  unfolding build_request resolve_date
  build_request-page k loc s = rw (good, named, parses, build_request, resolve_date) refl

  fetch_page-Serves :
      (k : ℕ) (loc : Location) (s : S) → (fetch_page http c date k loc s).0 ≡ ok (pages k)
  unfolding fetch_page read_response
  fetch_page-Serves k loc s = rw (build_request-page k loc s) (by_answer _ (serves k s))
    where
      by_answer :
          (out : Result (Response GamesResponse) × S)
          → out.0 ≡ ok (page_response (pages k))
          → (answered http c out).0 ≡ ok (pages k)
      by_answer (err e, s') h = cc
      by_answer (ok resp, s') h = ground (arith, h)

module _ {ℓ} {S : Type ℓ} (http : Http S) (c : Client) (date : String) (loc : Location)
    (pages : ℕ → GamesResponse) (total : ℕ)
    (answers : (k : ℕ) (s : S) → (fetch_page http c date k loc s).0 ≡ ok (pages k))
    (totals : (k : ℕ) → (pages k).total_pages ≡ pos (suc total))
    (passes : (s : S) → (page_pause http c s).0 ≡ none) where
  abbrev last_page : ℕ
  last_page = if ltb (suc total) c.max_pages then suc total else c.max_pages

  is_last_at :
      (page : ℕ)
      → page ≡ last_page
      → is_last c.max_pages (pages page).total_pages (length (pages page).data_) page ≡ true
  unfolding is_last
  is_last_at page e = rw (totals page) (ground (arith, e))

  is_last_before :
      (page : ℕ)
      → page < last_page
      → is_last c.max_pages (pages page).total_pages (length (pages page).data_) page ≡ false
  unfolding is_last
  is_last_before page e = rw (totals page) (ground (arith, e))

  fetch_paged-collect :
      (fuel left page : ℕ) (all : List Game) (s : S)
      → page + left ≡ last_page
      → left < fuel
      → (s' : S) × (fetch_paged http c date loc fuel page all s
          ≡ some (ok (all ++ collect pages page (suc left)), s'))
  unfolding fetch_paged collect
  fetch_paged-collect zero left page all s e h = absurd (omega arith)
  fetch_paged-collect (suc fuel) zero page all s e h =
      let there : page ≡ last_page = omega arith in
      (
        (fetch_page http c date page loc s).1,
        rw (answers page s, is_last_at page there, fetch_paged)
            (ap (λ gs. some (ok (all ++ gs), (fetch_page http c date page loc s).1))
              (sym (append-nil (map map_game (pages page).data_)))),
      )
  fetch_paged-collect (suc fuel) (suc left) page all s e h =
      let s1 = (fetch_page http c date page loc s).1 in
      let s2 = (page_pause http c s1).1 in
      let (s3, ih) =
        fetch_paged-collect fuel left (page + 1) (all ++ map map_game (pages page).data_) s2
          (omega arith) (omega arith) in
      let here : page < last_page = omega arith in
      (
        s3,
        rw (answers page s, is_last_before page here, passes s1, fetch_paged)
            (ih
              ∙ ap (λ gs. some (ok gs, s3))
                  (append_assoc all (map map_game (pages page).data_)
                    (collect pages (page + 1) (suc left)))),
      )

  fetch_paged-all :
      1 ≤ c.max_pages
      → (s : S)
      → (s' : S) × (fetch_paged http c date loc c.max_pages 1 [] s
          ≡ some (ok (collect pages 1 last_page), s'))
  fetch_paged-all h s =
      let low : 1 ≤ last_page = ground (arith, h) in
      let high : last_page ≤ c.max_pages = ground (arith, h) in
      let (s', e) =
        fetch_paged-collect c.max_pages (last_page - 1) 1 [] s (omega arith) (omega arith) in
      let n : suc (last_page - 1) ≡ last_page = omega arith in
      (s', e ∙ ap (λ k. some (ok (collect pages 1 k), s')) n)

-- From a server that answers a request for the page `k` of a date with `pages k`, and says that there
-- are `total + 1` pages, a client that may ask for at least one page fetches the games of the pages
-- from 1 on, all of them but no more than `max_pages`, with repeated ids taken out, if its URL is
-- good, the date parses and is not empty, and no pause between pages is cut short.
pub fetch_games-collect {ℓ} :
    {S : Type ℓ} (http : Http S) (c : Client) (date tz : String) (pages : ℕ → GamesResponse)
    (total : ℕ) (s : S)
    → Serves http c date pages
    → http.bad_url (String.◌++◌ c.base_url "/games") ≡ none
    → str_eq date "" ≡ false
    → {x : Civil} → parse_date date ≡ some x
    → ((k : ℕ) → (pages k).total_pages ≡ pos (suc total))
    → ((s : S) → (page_pause http c s).0 ≡ none)
    → 1 ≤ c.max_pages
    → let last = if ltb (suc total) c.max_pages then suc total else c.max_pages in
      (s' : S) × (fetch_games http c date tz s
        ≡ some (ok (dedupe (λ g. g.id) (collect pages 1 last)), s'))
unfolding fetch_games
fetch_games-collect {S = S} http c date tz pages total s serves good named parses totals passes h =
    let loc = location_for http c tz in
    let answers =
      λ (k : ℕ) (s : S). fetch_page-Serves http c date pages serves good named parses k loc s in
    let (s', e) = fetch_paged-all http c date loc pages total answers totals passes h s in
    (s', ap (deduped http c) e)
