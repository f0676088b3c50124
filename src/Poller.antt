-- ===== src/Poller.antt =====
-- internal/poller/poller.go. A time of `none` is Go's zero `Time`.
pub mod Health
pub mod Lifecycle
pub mod Filling
pub mod Reporting
pub mod Telling
mod Tests
use nba_games_service.Base.{
  ℕ, ◌+◌, String, Bool, true, false, Option, none, some, List, if◌then◌else◌, ltb,
}
use nba_games_service.Calendar.{Time, Location, format_date}
use nba_games_service.Domain.{Game, new_today_response}
use nba_games_service.Errors.{Error, error_text, Result, ok, err}
use nba_games_service.Providers.Provider.{Provider}
use nba_games_service.Snapshots.Disk.{Disk}
use nba_games_service.Snapshots.Files.{Env}
use nba_games_service.Snapshots.Writer.{Writer, write_games_snapshot}

pub record Status : Type 0 where
  pub consecutive_failures : ℕ
  pub last_error : String
  pub last_attempt : Option Time
  pub last_success : Option Time

abbrev pub no_status : Status
no_status = record {
  consecutive_failures = 0;
  last_error = "";
  last_attempt = none;
  last_success = none;
}

unfoldable pub is_ready : Status → Bool
is_ready s = elim s.last_success [ none ↦ false | some t ↦ ltb s.consecutive_failures 3 ]

unfoldable pub record_attempt : Time → Status → Status
record_attempt at s = record s { last_attempt = some at }

unfoldable pub record_success : Time → Status → Status
record_success at s = record s { consecutive_failures = 0; last_error = ""; last_success = some at }

unfoldable pub record_failure : Error → Time → Status → Status
record_failure e at s = record s {
  consecutive_failures = s.consecutive_failures + 1;
  last_error = error_text e;
  last_attempt = some at;
}

-- The poller's provider, writer (nil is `none`) and location.
pub record Poller {ℓ} (S : Type ℓ) : Type ℓ where
  pub provider : Provider S
  pub writer : Option Writer
  pub loc : Location

-- What a poller changes: its status, the disk, and the state of its provider.
pub record World {ℓ} (S : Type ℓ) : Type ℓ where
  pub status : Status
  pub disk : Disk
  pub outside : S

-- The write after a fetch; its error is logged and dropped.
abbrev pub write_today : Env → Option Writer → String → List Game → Disk → Disk
write_today env none today games d = d
write_today env (some w) today games d =
    (write_games_snapshot env (some w) today (new_today_response today games) d).1

module _ {ℓ} {S : Type ℓ} (p : Poller S) where
  abbrev pub after_fetch : Env → Time → String → World S → Result (List Game) × S → World S
  after_fetch env start today w (err e, s) = record {
    status = record_failure e start w.status;
    disk = w.disk;
    outside = s;
  }
  after_fetch env start today w (ok games, s) = record {
    status = record_success start w.status;
    disk = write_today env p.writer today games w.disk;
    outside = s;
  }

  -- One cycle: `start` is the first reading of the clock and `now` the second.
  unfoldable pub fetch_once : Env → Time → Time → World S → World S
  fetch_once env start now w =
      let today = format_date (p.loc now) in
      let w1 = record w { status = record_attempt start w.status } in
      after_fetch env start today w1 (p.provider today "" w1.outside)
