-- ===== src/Poller/Reporting.antt =====
-- What a cycle of poller.go logs and measures: `logInfo`, `logError` and the call of
-- RecordPollerCycle in fetchOnce.
use nba_games_service.Base.{
  ℕ, ◌≡◌, refl, ap, String, true, false, Option, none, some, List, [], ◌∷◌, ◌++◌, length,
}
use nba_games_service.Base.Decimal.{pos, decimal, decimal_int}
use nba_games_service.Calendar.{Time, format_date}
use nba_games_service.Domain.{Game, new_today_response}
use nba_games_service.Errors.{Error, Result, ok, err}
use nba_games_service.Logging.{Logger, Line, log_info, log_error}
use nba_games_service.Metrics.Instruments.{Heard, poller_cycle, milliseconds}
use nba_games_service.Snapshots.Disk.{Disk}
use nba_games_service.Snapshots.Files.{Env}
use nba_games_service.Snapshots.Writer.{Writer, write_games_snapshot}
use nba_games_service.Poller.{
  Poller, World, record_attempt, record_failure, record_success, after_fetch, fetch_once,
  write_today,
}

-- What becomes of the games that a cycle has fetched.
pub data Kept : Type 0 where
  no_writer : Kept
  not_written : Error → Kept
  written : Kept

-- How a cycle ends: with the date of its fetch, and the error or the games.
pub data Report : Type 0 where
  fails : String → Error → Report
  refreshes : String → List Game → Kept → Report

-- The line of a write that fails.
abbrev pub kept_lines : Option Logger → Kept → List (Option Line)
kept_lines logger no_writer = []
kept_lines logger (not_written e) = log_error logger "poller snapshot write failed" (some e) [] ∷ []
kept_lines logger written = []

-- The lines of a cycle, which without a logger are none; `elapsed` is the time in nanoseconds at
-- which the line is written, since the cycle began.
unfoldable pub cycle_lines : Option Logger → ℕ → Report → List (Option Line)
cycle_lines logger elapsed (fails date e) =
    log_error logger "poller fetch failed" (some e)
      (("duration_ms", decimal_int (milliseconds (pos elapsed))) ∷ [])
    ∷ []
cycle_lines logger elapsed (refreshes date games kept) =
    kept_lines logger kept
    ++ log_info logger "poller refreshed games" (
        ("count", decimal (length games))
        ∷ ("duration_ms", decimal_int (milliseconds (pos elapsed)))
        ∷ [])
      ∷ []

-- The lines of the goroutine that Start makes, at its start and at its end.
abbrev pub started_line : Option Logger → ℕ → Option Line
started_line logger interval =
    log_info logger "poller started"
      (("duration_ms", decimal_int (milliseconds (pos interval))) ∷ [])

abbrev pub stopped_line : Option Logger → Option Line
stopped_line logger = log_info logger "poller stopped" []

-- What the recorder hears of a cycle; `elapsed` is the time that the fetch took.
unfoldable pub cycle_event : ℕ → Report → Heard
cycle_event elapsed (fails date e) = poller_cycle (pos elapsed) true
cycle_event elapsed (refreshes date games kept) = poller_cycle (pos elapsed) false

abbrev pub kept_of : Result (Unit {0}) → Kept
kept_of (err e) = not_written e
kept_of (ok tt) = written

unfoldable pub told_write : Env → Option Writer → String → List Game → Disk → Kept × Disk
told_write env none today games d = (no_writer, d)
told_write env (some w) today games d =
    let (result, after) =
      write_games_snapshot env (some w) today (new_today_response today games) d in
    (kept_of result, after)

told_write-write_today :
    (env : Env) (o : Option Writer) (today : String) (games : List Game) (d : Disk)
    → (told_write env o today games d).1 ≡ write_today env o today games d
unfolding told_write
told_write-write_today env none today games d = refl
told_write-write_today env (some w) today games d = refl

module _ {ℓ} {S : Type ℓ} (p : Poller S) where
  unfoldable pub told_fetch :
      Env → Time → String → World S → Result (List Game) × S → Report × World S
  told_fetch env start today w (err e, s) = (
    fails today e,
    record { status = record_failure e start w.status; disk = w.disk; outside = s },
  )
  told_fetch env start today w (ok games, s) =
      let (kept, after) = told_write env p.writer today games w.disk in
      (
        refreshes today games kept,
        record { status = record_success start w.status; disk = after; outside = s },
      )

  -- fetchOnce, with how it ends.
  unfoldable pub told_once : Env → Time → Time → World S → Report × World S
  told_once env start now w =
      let today = format_date (p.loc now) in
      let w1 = record w { status = record_attempt start w.status } in
      told_fetch env start today w1 (p.provider today "" w1.outside)

  told_fetch-after_fetch :
      (env : Env) (start : Time) (today : String) (w : World S) (r : Result (List Game) × S)
      → (told_fetch env start today w r).1 ≡ after_fetch p env start today w r
  unfolding told_fetch
  told_fetch-after_fetch env start today w (err e, s) = refl
  told_fetch-after_fetch env start today w (ok games, s) =
      ap (λ after. record { status = record_success start w.status; disk = after; outside = s })
        (told_write-write_today env p.writer today games w.disk)

  -- A cycle leaves the same with its report and without.
  pub told_once-fetch_once :
      (env : Env) (start now : Time) (w : World S)
      → (told_once env start now w).1 ≡ fetch_once p env start now w
  unfolding told_once fetch_once
  told_once-fetch_once env start now w =
      told_fetch-after_fetch env start (format_date (p.loc now))
        (record w { status = record_attempt start w.status })
        (p.provider (format_date (p.loc now)) "" w.outside)
