-- ===== src/Providers/Balldontlie/Client/Pages.antt =====
-- The pages of one fetch.
use nba_games_service.Base.{
  ℕ, zero, suc, ◌+◌, ◌≤◌, ◌<◌, ◌≡◌, refl, String, Bool, true, false, Option, none, some, List, [],
  ◌++◌, map, arith, length,
}
use nba_games_service.Base.Decimal.{ℤ, pos, negsuc}
use nba_games_service.Calendar.{Location}
use nba_games_service.Domain.{Game}
use nba_games_service.Errors.{Error, Result, ok, err}
use nba_games_service.Providers.Balldontlie.Mapping.{GamesResponse, map_game}
use nba_games_service.Providers.Balldontlie.Client.{
  Http, Client, fetch_page, is_last, page_pause, fetch_paged, fetch_games, deduped, location_for,
}

is_last-bound : (max : ℕ) (t : ℤ) (count page : ℕ) → max ≤ page → is_last max t count page ≡ true
unfolding is_last
is_last-bound max (pos zero) count page h = ground arith
is_last-bound max (pos (suc n)) count page h = ground arith
is_last-bound max (negsuc n) count page h = ground arith

module _ {ℓ} {S : Type ℓ} (http : Http S) (c : Client) (date : String) (loc : Location) where
  abbrev Out : Type ℓ
  Out = Result (List Game) × S

  -- A page that is read, and what follows it.
  reads :
      (last : Bool) (all : List Game) (s1 : S) (again : S → Option Out)
      → (last ≡ false → (s : S) → (out : Out) × (again s ≡ some out))
      → (stopped : Option Error) (s2 : S)
      → (out : Out) × (◌≡◌ {A = Option Out}
          (elim last [
            | true ↦ some (ok all, s1)
            | false ↦ elim stopped [ some e ↦ some (err e, s2) | none ↦ again s2 ]
          ])
          (some out))
  reads true all s1 again k stopped s2 = (_, refl)
  reads false all s1 again k (some e) s2 = (_, refl)
  reads false all s1 again k none s2 = k refl s2

  fetch_paged-ends :
      (fuel page : ℕ) (all : List Game) (s : S)
      → c.max_pages < page + fuel
      → 1 ≤ fuel
      → (out : Out) × (fetch_paged http c date loc fuel page all s ≡ some out)
  unfolding fetch_paged
  fetch_paged-ends zero page all s h k = absurd (omega arith)
  fetch_paged-ends (suc fuel) page all s h k =
      by_page (fetch_page http c date page loc s).0 (fetch_page http c date page loc s).1
        (λ all' s2 lt. fetch_paged-ends fuel (page + 1) all' s2 (omega arith) lt)
    where
      by_page :
          (got : Result GamesResponse) (s1 : S)
          → ((all' : List Game) (s2 : S)
              → 1 ≤ fuel
              → (out : Out) × (fetch_paged http c date loc fuel (page + 1) all' s2 ≡ some out))
          → (out : Out) × (◌≡◌ {A = Option Out}
              (elim got [
                | err e ↦ some (err e, s1)
                | ok p ↦ elim (is_last c.max_pages p.total_pages (length p.data_) page) [
                  | true ↦ some (ok (all ++ map map_game p.data_), s1)
                  | false ↦
                      let (stopped, s2) = page_pause http c s1 in
                      elim stopped [
                        | some e ↦ some (err e, s2)
                        | none ↦
                            fetch_paged http c date loc fuel
                              (page + 1)
                              (all ++ map map_game p.data_)
                              s2
                      ]
                ]
              ])
              (some out))
      by_page (err e) s1 ih = (_, refl)
      by_page (ok p) s1 ih =
          let all' = all ++ map map_game p.data_ in
          let bound = is_last-bound c.max_pages p.total_pages (length p.data_) page in
          reads (is_last c.max_pages p.total_pages (length p.data_) page) all' s1
            (λ s. fetch_paged http c date loc fuel (page + 1) all' s)
            (λ more s2. ih all' s2 (ground (arith, bound))) (page_pause http c s1).0
            (page_pause http c s1).1

deduped-some {ℓ} :
    {S : Type ℓ} (http : Http S) (c : Client) (o : Option (Result (List Game) × S))
    (out : Result (List Game) × S)
    → o ≡ some out
    → (out' : Result (List Game) × S) × (deduped http c o ≡ some out')
deduped-some http c none out e = cc
deduped-some http c (some (ok gs, s)) out e = (_, refl)
deduped-some http c (some (err x, s)) out e = (_, refl)

-- A fetch of a client that may ask for at least one page ends, whatever the server answers: fuel
-- for `max_pages` pages gives a result.
pub fetch_games-ends {ℓ} :
    {S : Type ℓ} (http : Http S) (c : Client) (date tz : String) (s : S)
    → 1 ≤ c.max_pages
    → (out : Result (List Game) × S) × (fetch_games http c date tz s ≡ some out)
unfolding fetch_games
fetch_games-ends http c date tz s h =
    let (out, e) =
      fetch_paged-ends http c date (location_for http c tz) c.max_pages 1 [] s (omega arith) h in
    deduped-some http c _ out e
