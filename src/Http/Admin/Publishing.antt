-- ===== src/Http/Admin/Publishing.antt =====
-- From a refresh by the admin handler to the answer of the games handler.
use nba_games_service.Base.{
  ℕ, ◌+◌, ◌≤◌, ◌≡◌, true, false, Option, none, some, List, ◌∷◌, sym, subst, ap, ◌∙◌, arith, str_eq,
}
use nba_games_service.Base.Strings.{trim_space}
use nba_games_service.Calendar.{Time, parse_date, format_date}
use nba_games_service.Calendar.Layout.{last_day}
use nba_games_service.Domain.{Game, TodayResponse, new_today_response}
use nba_games_service.Errors.{ok}
use nba_games_service.Http.Messages.{Request, write_json, games_body}
use nba_games_service.Http.Handlers.{Handler, games_today, load_snapshot}
use nba_games_service.Http.Handlers.Window.{games_today-window}
use nba_games_service.Http.Admin.{AdminHandler, refresh_snapshots, date_for}
use nba_games_service.Http.Admin.Refreshing.{refresh_snapshots-Refreshed}
use nba_games_service.Providers.Provider.{Provider}
use nba_games_service.Snapshots.Disk.{Disk}
use nba_games_service.Snapshots.Files.{Env}
use nba_games_service.Snapshots.Store.{load_games}
use nba_games_service.Snapshots.Store.Reading.{load_games-write_games_snapshot}
use nba_games_service.Snapshots.Writer.{
  Writer, cutoff_day, is_expired, prepared, write_games_snapshot,
}
use nba_games_service.Snapshots.Writer.Pruning.{games_path}

some_inj {ℓ} : {A : Type ℓ} {x y : A} → ◌≡◌ {A = Option A} (some x) (some y) → x ≡ y
some_inj {A} {x} e = ap (λ o. elim o as (λ _. A) [ none ↦ x | some z ↦ z ]) e

module _ {ℓ} {S : Type ℓ} (env reader : Env) (a : AdminHandler S) (h : Handler) (w : Writer)
    (p : Provider S) (now later : Time) (r g : Request) (d : Disk) (s : S) (n : ℕ) where
  abbrev after : Disk
  after = (refresh_snapshots env a now r d s).1

  -- A snapshot that loads is what a GET of a day in the window is answered.
  answered :
      (snap : TodayResponse)
      → str_eq g.method "GET" ≡ true
      → g.date ≡ format_date n
      → n ≤ last_day
      → h.loc later + 7 ≤ last_day
      → 7 ≤ h.loc later
      → n ≤ h.loc later + 7
      → h.loc later ≤ n + 7
      → (disk : Disk) → load_snapshot reader h disk g.date ≡ ok snap
      → games_today reader h disk later g
        ≡ write_json 200 (games_body (new_today_response snap.date snap.games))
  answered snap get dated small late early low high disk e =
      games_today-window reader h disk later g n get dated small early late ∙ ground (arith, e)

  -- If the admin handler and the games handler share a base path, then after a refresh that is
  -- answered 200, for a day that the write does not find expired and whose file can be read, a GET
  -- of that day while it is at most 7 days from today is answered 200 with the games that the
  -- provider gave, in the order of their ids; with the week on either side of today in years 0 to
  -- 9999.
  pub games_today-refresh_snapshots :
      a.writer ≡ some w
      → a.provider ≡ some p
      → h.snaps ≡ some w.base_path
      → (refresh_snapshots env a now r d s).0.status ≡ 200
      → date_for a now r ≡ format_date n
      → is_expired (cutoff_day env w) (parse_date (format_date n)) ≡ false
      → reader.read_error (games_path w (format_date n)) ≡ none
      → str_eq g.method "GET" ≡ true
      → g.date ≡ format_date n
      → n ≤ last_day
      → h.loc later + 7 ≤ last_day
      → 7 ≤ h.loc later
      → n ≤ h.loc later + 7
      → h.loc later ≤ n + 7
      → (games : List Game) × ((p (format_date n) (trim_space r.tz) s).0 ≡ ok games)
        × (games_today reader h after later g ≡ (
            let snap = prepared (format_date n) (new_today_response (format_date n) games) in
            write_json 200 (games_body (new_today_response snap.date snap.games))))
  unfolding load_snapshot
  games_today-refresh_snapshots hw hp hs k named live readable get dated small late early low high =
      let x = refresh_snapshots-Refreshed env a now r d s k in
      let same_w : x.writer ≡ w = some_inj (sym x.has_writer ∙ hw) in
      let same_p : x.provider ≡ p = some_inj (sym x.has_provider ∙ hp) in
      let games = x.game ∷ x.games in
      let date = format_date n in
      let stored : write_games_snapshot env (some w) date (new_today_response date games) d
          ≡ (ok tt, after) =
        subst
          (λ v.
            write_games_snapshot env (some v) date (new_today_response date games) d
            ≡ (ok tt, after))
          same_w
          (subst
            (λ t.
              write_games_snapshot env (some x.writer) t (new_today_response t games) d
              ≡ (ok tt, after))
            named x.stored) in
      let loaded : load_snapshot reader h after g.date
          ≡ ok (prepared date (new_today_response date games)) =
        ap (λ t. load_snapshot reader h after t) dated
        ∙ ap (λ b. load_games reader b date after) hs
        ∙ load_games-write_games_snapshot env reader w date (new_today_response date games) d after
            stored live readable in
      (
        games,
        ap (λ f. (f date (trim_space r.tz) s).0) (sym same_p)
            ∙ ap (λ t. (x.provider t (trim_space r.tz) s).0) (sym named)
            ∙ x.fetched,
        answered (prepared date (new_today_response date games)) get dated small late early low high
            after loaded,
      )
