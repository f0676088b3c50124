-- ===== src/Snapshots/Sync/Reporting.antt =====
-- What a backfill of sync.go does beside its writes: the lines that it logs, and the waits between
-- its rounds.
use nba_games_service.Base.{
  ℕ, ◌+◌, ◌≡◌, refl, String, Option, List, [], ◌∷◌, if◌then◌else◌, arith, length,
}
use nba_games_service.Base.Decimal.{decimal}
use nba_games_service.Domain.{Game, new_today_response}
use nba_games_service.Errors.{Error, error_text, Result, ok, err}
use nba_games_service.Logging.{Logger, Line, log_info, log_warn}
use nba_games_service.Snapshots.Disk.{Disk}
use nba_games_service.Snapshots.Files.{Env}
use nba_games_service.Snapshots.Writer.{Writer, write_games_snapshot}
use nba_games_service.Snapshots.Sync.{
  Round, Schedule, write_fetched, fetch_and_write, backfill_loop, build_dates,
}

-- The four ends of fetchAndWrite, with the date.
pub data Report : Type 0 where
  fetch_failed : String → Error → Report
  no_games : String → Report
  write_failed : String → List Game → Error → Report
  stored : String → List Game → Report

-- The line of a round, or `sleep`, which ends with the context too.
pub data Act : Type 0 where
  logs : Option Line → Act
  waits : ℕ → Act

-- The line of a report; `elapsed` is the milliseconds that the round has taken.
unfoldable pub log_report : Option Logger → ℕ → Report → Option Line
log_report logger elapsed (fetch_failed date e) =
    log_warn logger "snapshot sync fetch failed" (("date", date) ∷ ("err", error_text e) ∷ [])
log_report logger elapsed (no_games date) =
    log_warn logger "snapshot sync received no games" (("date", date) ∷ [])
log_report logger elapsed (write_failed date games e) =
    log_warn logger "snapshot sync write failed" (("date", date) ∷ ("err", error_text e) ∷ [])
log_report logger elapsed (stored date games) =
    log_info logger "snapshot written"
      (("date", date) ∷ ("count", decimal (length games)) ∷ ("duration_ms", decimal elapsed) ∷ [])

-- The line of Run; `show` is `time.Duration.String`.
unfoldable pub log_start : (ℕ → String) → Option Logger → Schedule → Option Line
log_start show logger s = log_info logger "snapshot sync starting" (
    ("past_days", decimal s.days)
    ∷ ("future_days", decimal s.future_days)
    ∷ ("interval", show s.interval)
    ∷ ("daily_hour_utc", decimal s.daily_hour_utc)
    ∷ [])

abbrev pub write_report : String → List Game → Result (Unit {0}) → Report
write_report date games (err e) = write_failed date games e
write_report date games (ok tt) = stored date games

unfoldable pub told_write : Env → Option Writer → String → List Game → Disk → Report × Disk
told_write env w date [] d = (no_games date, d)
told_write env w date (g ∷ gs) d =
    let (result, after) = write_games_snapshot env w date (new_today_response date (g ∷ gs)) d in
    (write_report date (g ∷ gs) result, after)

-- fetchAndWrite, with what it logs.
unfoldable pub told_round : Round → Option Writer → String → Disk → Report × Disk
unfolding told_write
told_round r w date d = elim r.fetched [
  | err e ↦ (fetch_failed date e, d)
  | ok games ↦ told_write r.env w date games d
]

-- No wait follows the last date.
abbrev pub after_wait : ℕ → List String → List Act → List Act
after_wait interval [] acts = acts
after_wait interval (date ∷ dates) acts = waits interval ∷ acts

module _ (logger : Option Logger) (elapsed : ℕ → ℕ) (world : ℕ → Round) (w : Option Writer) where
  -- `elapsed` is the milliseconds that a round has taken.
  unfoldable pub told_loop : ℕ → ℕ → List String → Disk → List Act × Disk
  told_loop interval i [] d = ([], d)
  told_loop interval i (date ∷ dates) d =
      let (report, after) = told_round (world i) w date d in
      let (acts, last) = told_loop interval (i + 1) dates after in
      if (world i).done
      then ([], d)
      else (logs (log_report logger (elapsed i) report) ∷ after_wait interval dates acts, last)

  unfoldable pub told_backfill : Env → Schedule → ℕ → Disk → List Act × Disk
  told_backfill env s day d = told_loop s.interval 0 (build_dates env w s day d) d

told_write-disk :
    (env : Env) (w : Option Writer) (date : String) (games : List Game) (d : Disk)
    → (told_write env w date games d).1 ≡ write_fetched env w date games d
unfolding told_write
told_write-disk env w date [] d = unfold write_fetched in refl
told_write-disk env w date (g ∷ gs) d = unfold write_fetched in refl

told_round-disk :
    (r : Round) (w : Option Writer) (date : String) (d : Disk)
    → (told_round r w date d).1 ≡ fetch_and_write r w date d
unfolding told_round fetch_and_write
told_round-disk r w date d = by_fetched r.fetched
  where
    by_fetched :
        (f : Result (List Game))
        → let q = record r { fetched = f } in (told_round q w date d).1 ≡ fetch_and_write q w date d
    by_fetched (err e) = refl
    by_fetched (ok games) = told_write-disk r.env w date games d

-- The disk that a backfill leaves, with its lines or without.
pub told_loop-backfill_loop :
    (logger : Option Logger) (elapsed : ℕ → ℕ) (world : ℕ → Round) (w : Option Writer)
    (interval i : ℕ) (dates : List String) (d : Disk)
    → (told_loop logger elapsed world w interval i dates d).1 ≡ backfill_loop world w i dates d
unfolding told_loop backfill_loop
told_loop-backfill_loop logger elapsed world w interval i [] d = refl
told_loop-backfill_loop logger elapsed world w interval i (date ∷ dates) d =
    let later =
      told_loop-backfill_loop logger elapsed world w interval (i + 1) dates
        (told_round (world i) w date d).1 in
    ground (arith, later, told_round-disk (world i) w date d)
