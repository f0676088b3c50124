-- ===== src/Poller/Filling.antt =====
-- What a run of a poller's cycles leaves on the disk.
use nba_games_service.Base.{
  ◌≡◌, refl, String, false, Option, none, some, List, [], ◌∷◌, ◌∙◌, str_eq, if◌then◌else◌, arith,
  eq_iff,
}
use nba_games_service.Base.{All}
use nba_games_service.Calendar.{Time, format_date, parse_date}
use nba_games_service.Domain.{Game, new_today_response}
use nba_games_service.Errors.{Result, ok, err}
use nba_games_service.Snapshots.Files.{Env}
use nba_games_service.Snapshots.Sync.Filling.{filled, filled_twice}
use nba_games_service.Snapshots.Writer.{Writer, cutoff_day, is_expired}
use nba_games_service.Snapshots.Writer.Healthy.{IsHealthy, HasFiles}
use nba_games_service.Snapshots.Writer.Shelf.{shelf, shelve, shelf-write_games_snapshot}
use nba_games_service.Poller.{Poller, World, record_attempt, fetch_once, after_fetch}
use nba_games_service.Poller.Health.{Cycle, run}

abbrev answer : Result (List Game) → Option (List Game)
answer (err e) = none
answer (ok games) = some games

-- The games of the last fetch of a run that succeeds on a date, which may be none.
unfoldable pub polled {ℓ} :
    {S : Type ℓ} → Poller S → List Cycle → World S → String → Option (List Game)
polled p [] w x = none
polled p (c ∷ cs) w x =
    let today = format_date (p.loc c.now) in
    let later = polled p cs (fetch_once p c.env c.start c.now w) x in
    let here = if str_eq today x then answer (p.provider today "" w.outside).0 else none in
    elim later [ some gs ↦ some gs | none ↦ here ]

module _ {ℓ} {S : Type ℓ} (p : Poller S) (wr : Writer) (x : String)
    (has_writer : p.writer ≡ some wr) (named : str_eq x "" ≡ false) where
  fetch_fills :
      (env : Env) (start : Time) (today : String) (w : World S) (q : Result (List Game) × S)
      → IsHealthy env
      → is_expired (cutoff_day env wr) (parse_date x) ≡ false
      → HasFiles w.disk
      → HasFiles (after_fetch p env start today w q).disk
        × (shelf wr (after_fetch p env start today w q).disk x
            ≡ filled x (if str_eq today x then answer q.0 else none) (shelf wr w.disk x))
  unfolding shelve
  fetch_fills env start today w (err e, s) fine live h = (h, ground arith)
  fetch_fills env start today w (ok games, s) fine live h =
      let (_, files, at) =
        shelf-write_games_snapshot env wr today (new_today_response today games) w.disk fine h in
      rw has_writer (files, at x ∙ ground (arith, named, live, eq_iff today x, eq_iff x ""))

  -- Where nothing but reading may fail and no directory is in the way, after a run of a poller with a
  -- writer the snapshot of a date that is not empty and that no cycle finds expired holds the games
  -- of the last cycle that fetched on that date, even if there are none; if no fetch on that date
  -- succeeded, it is as it was.
  pub run-fills :
      (cs : List Cycle) (w : World S)
      → All (λ c. IsHealthy c.env) cs
      → All (λ c. is_expired (cutoff_day c.env wr) (parse_date x) ≡ false) cs
      → HasFiles w.disk
      → shelf wr (run p cs w).disk x ≡ filled x (polled p cs w x) (shelf wr w.disk x)
  unfolding run polled fetch_once
  run-fills [] w fine live h = refl
  run-fills (c ∷ cs) w (fine, fines) (live, lives) h =
      let today = format_date (p.loc c.now) in
      let w1 : World S = record w { status = record_attempt c.start w.status } in
      let (files, at) =
        fetch_fills c.env c.start today w1 (p.provider today "" w.outside) fine live h in
      run-fills cs (fetch_once p c.env c.start c.now w) fines lives files
      ∙ filled_twice x (polled p cs (fetch_once p c.env c.start c.now w) x)
          (if str_eq today x then answer (p.provider today "" w.outside).0 else none)
          (shelf wr w.disk x) (shelf wr (fetch_once p c.env c.start c.now w).disk x) at
