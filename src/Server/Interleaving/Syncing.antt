-- ===== src/Server/Interleaving/Syncing.antt =====
-- A run of the syncer is made of the calls of it that the interleaving knows.
use nba_games_service.Base.{
  ℕ, ◌*◌, ◌/◌, ◌%◌, ◌+◌, String, Bool, true, false, some, List, [], ◌∷◌, not, ◌||◌, ◌==◌,
  if◌then◌else◌,
}
use nba_games_service.Calendar.{Location, nanos_per_day}
use nba_games_service.Http.Admin.{AdminHandler}
use nba_games_service.Poller.{Poller, World}
use nba_games_service.Server.Interleaving.{syncs, Reach, here, next}
use nba_games_service.Snapshots.Disk.{Disk}
use nba_games_service.Snapshots.Sync.{
  minute, Round, Schedule, Tick, fetch_and_write, backfill_loop, backfill, build_dates, daily_tick,
  daily, run,
}
use nba_games_service.Snapshots.Writer.{Writer}

module _ {ℓ} {S : Type ℓ} (p : Poller S) (w : Writer) (a : AdminHandler S) (s : World S) where
  -- The state with another disk.
  abbrev on : Disk → World S
  on d = record s { disk = d }

  either_way :
      (b : Bool) (d d' : Disk)
      → Reach p w a s (on d)
      → Reach p w a s (on d')
      → Reach p w a s (on (if b then d else d'))
  either_way true d d' r q = r
  either_way false d d' r q = q

  Reach-backfill_loop :
      (world : ℕ → Round) (i : ℕ) (dates : List String) (d : Disk)
      → Reach p w a s (on d)
      → Reach p w a s (on (backfill_loop world (some w) i dates d))
  unfolding backfill_loop
  Reach-backfill_loop world i [] d r = r
  Reach-backfill_loop world i (date ∷ dates) d r =
      let rest =
        Reach-backfill_loop world (i + 1) dates (fetch_and_write (world i) (some w) date d)
          (next r (syncs (world i) date (on d))) in
      either_way (world i).done d
        (backfill_loop world (some w) (i + 1) dates (fetch_and_write (world i) (some w) date d)) r
        rest

  Reach-daily_tick :
      (c : Schedule) (loc : Location) (t : Tick) (d : Disk)
      → Reach p w a s (on d)
      → Reach p w a s (on (daily_tick t.world t.env (some w) c loc t.tick t.now d))
  unfolding daily_tick backfill
  Reach-daily_tick c loc t d r =
      either_way (t.tick % nanos_per_day / (60 * minute) == c.daily_hour_utc)
        (backfill t.world t.env (some w) c (loc t.now) d) d
        (Reach-backfill_loop t.world 0 (build_dates t.env (some w) c (loc t.now) d) d r) r

  Reach-daily :
      (c : Schedule) (loc : Location) (ticks : List Tick) (d : Disk)
      → Reach p w a s (on d)
      → Reach p w a s (on (daily (some w) c loc ticks d))
  unfolding daily
  Reach-daily c loc [] d r = r
  Reach-daily c loc (t ∷ ts) d r =
      Reach-daily c loc ts (daily_tick t.world t.env (some w) c loc t.tick t.now d)
        (Reach-daily_tick c loc t d r)

  -- What a run of the syncer does to the disk, some calls of the syncer do.
  pub Reach-run :
      (has_provider : Bool) (c : Schedule) (loc : Location) (first : Tick) (ticks : List Tick)
      → Reach p w a s (on (run (some w) has_provider c loc first ticks s.disk))
  unfolding run backfill
  Reach-run has_provider c loc first ticks =
      let filled = backfill first.world first.env (some w) c (loc first.now) s.disk in
      either_way (not c.enabled || not has_provider) s.disk (daily (some w) c loc ticks filled) here
        (Reach-daily c loc ticks filled (
          Reach-backfill_loop first.world 0
            (build_dates first.env (some w) c (loc first.now) s.disk) s.disk here))
