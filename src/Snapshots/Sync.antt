-- ===== src/Snapshots/Sync.antt =====
-- internal/snapshots/sync.go.
pub mod Dates
pub mod Filling
pub mod Reporting
pub mod Telling
mod Tests
use nba_games_service.Base.{
  ℕ, zero, suc, ◌+◌, ◌-◌, ◌*◌, ◌/◌, ◌%◌, String, Bool, false, not, ◌||◌, Option, none, some, List,
  [], ◌∷◌, ◌++◌, str_eq, ltb, ◌==◌, if◌then◌else◌,
}
use nba_games_service.Base.Decimal.{ℤ, pos, negsuc, positive_or}
use nba_games_service.Calendar.{Time, Location, format_date, nanos_per_day}
use nba_games_service.Domain.{Game, new_today_response}
use nba_games_service.Errors.{Result, ok, err}
use nba_games_service.Snapshots.Disk.{Disk}
use nba_games_service.Snapshots.Files.{Env, stat_ok}
use nba_games_service.Snapshots.Writer.{Writer, kind_games, snapshot_path, write_games_snapshot}

-- `SyncConfig` as it is given.
pub record SyncConfig : Type 0 where
  pub enabled : Bool
  pub days : ℤ
  pub future_days : ℤ
  pub interval : ℤ
  pub daily_hour_utc : ℤ

-- The syncer's configuration after NewSyncer's defaults; `interval` in nanoseconds.
pub record Schedule : Type 0 where
  pub enabled : Bool
  pub days : ℕ
  pub future_days : ℕ
  pub interval : ℕ
  pub daily_hour_utc : ℕ

abbrev pub minute : ℕ
minute = 60000000000

hour_or_two : ℤ → ℕ
hour_or_two (pos n) = if ltb 23 n then 2 else n
hour_or_two (negsuc n) = 2

at_least_zero : ℤ → ℕ
at_least_zero (pos n) = n
at_least_zero (negsuc n) = 0

unfoldable pub new_schedule : SyncConfig → Schedule
unfolding hour_or_two at_least_zero
new_schedule cfg = record {
  enabled = cfg.enabled;
  days = positive_or cfg.days 7;
  future_days = at_least_zero cfg.future_days;
  interval = positive_or cfg.interval minute;
  daily_hour_utc = hour_or_two cfg.daily_hour_utc;
}

unfoldable pub has_snapshot : Env → Option Writer → String → Disk → Bool
has_snapshot env none date d = false
has_snapshot env (some w) date d =
    if str_eq w.base_path ""
    then false
    else if str_eq date ""
    then false
    else stat_ok env (snapshot_path w kind_games date) d

module _ (missing : String → Bool) (day : ℕ) where
  -- `for i := i; ...; i++` over days before `day`, with the rounds that are left.
  pub past_dates : ℕ → ℕ → List String
  past_dates zero i = []
  past_dates (suc left) i =
      let rest = past_dates left (i + 1) in
      let date = format_date (day - i) in if missing date then date ∷ rest else rest

  pub future_dates : ℕ → ℕ → List String
  future_dates zero i = []
  future_dates (suc left) i =
      let rest = future_dates left (i + 1) in
      let date = format_date (day + i) in if missing date then date ∷ rest else rest

-- `day` is the civil day of `now`.
unfoldable pub build_dates : Env → Option Writer → Schedule → ℕ → Disk → List String
build_dates env w s day d =
    let missing = λ (date : String). not (has_snapshot env w date d) in
    format_date day
    ∷ format_date (day - 1)
    ∷ (past_dates missing day (s.days - 2) 2 ++ future_dates missing day s.future_days 1)

-- What a round of the backfill meets: whether the context is done, what the provider returns, and
-- the file system and clock of the write.
pub record Round : Type 0 where
  pub done : Bool
  pub fetched : Result (List Game)
  pub env : Env

write_fetched : Env → Option Writer → String → List Game → Disk → Disk
write_fetched env w date [] d = d
write_fetched env w date (g ∷ gs) d =
    (write_games_snapshot env w date (new_today_response date (g ∷ gs)) d).1

unfoldable pub fetch_and_write : Round → Option Writer → String → Disk → Disk
unfolding write_fetched
fetch_and_write r w date d = elim r.fetched [
  | err e ↦ d
  | ok games ↦ write_fetched r.env w date games d
]

-- The loop of `backfill`; the wait between rounds changes nothing that is kept.
unfoldable pub backfill_loop : (ℕ → Round) → Option Writer → ℕ → List String → Disk → Disk
backfill_loop world w i [] d = d
backfill_loop world w i (date ∷ dates) d =
    let rest = backfill_loop world w (i + 1) dates (fetch_and_write (world i) w date d) in
    if (world i).done then d else rest

unfoldable pub backfill : (ℕ → Round) → Env → Option Writer → Schedule → ℕ → Disk → Disk
backfill world env w s day d = backfill_loop world w 0 (build_dates env w s day d) d

abbrev hour_utc : Time → ℕ
hour_utc t = t % nanos_per_day / (60 * minute)

-- One tick of `daily`, at `tick`, which reads the clock again at `now`.
unfoldable pub daily_tick :
    (ℕ → Round) → Env → Option Writer → Schedule → Location → Time → Time → Disk → Disk
daily_tick world env w s loc tick now d =
    if hour_utc tick == s.daily_hour_utc then backfill world env w s (loc now) d else d

-- A tick of the hourly ticker, and what a backfill at it meets.
pub record Tick : Type 0 where
  pub tick : Time
  pub now : Time
  pub world : ℕ → Round
  pub env : Env

-- The loop of `daily`, over the ticks that come before the context is done.
unfoldable pub daily : Option Writer → Schedule → Location → List Tick → Disk → Disk
daily w s loc [] d = d
daily w s loc (t ∷ ts) d = daily w s loc ts (daily_tick t.world t.env w s loc t.tick t.now d)

-- Run, of a syncer whose provider is there or not; `first` is what the first backfill meets.
unfoldable pub run : Option Writer → Bool → Schedule → Location → Tick → List Tick → Disk → Disk
run none has_provider s loc first ticks d = d
run (some w) has_provider s loc first ticks d =
    if not s.enabled || not has_provider
    then d
    else daily (some w) s loc ticks (backfill first.world first.env (some w) s (loc first.now) d)
