-- ===== src/Poller/Tests.antt =====
-- Two cycles of a poller without a writer: one fails, and one succeeds.
use nba_games_service.Base.{
  ℕ, zero, suc, ◌+◌, ◌≡◌, ◌≤◌, refl, false, some, ◌&&◌, none, List, [], ◌∷◌, ltb,
}
use nba_games_service.Calendar.{utc, parse_date, read_two, read_dash, check_civil, ordinal}
use nba_games_service.Errors.{other, provider_unavailable, ok, err}
use nba_games_service.Snapshots.Files.{Env, healthy}
use nba_games_service.Poller.{Poller, World, is_ready, no_status}
use nba_games_service.Poller.Lifecycle.{
  Lifecycle, new_lifecycle, start, launch, stop, stopped, waiting, calls_start, launches,
  calls_stop, warms, Reach, here, next, Inv, Reach-Inv,
}
use nba_games_service.Poller.Lifecycle.Stopping.{stopped-cycles}
use nba_games_service.Poller.Filling.{polled, run-fills}
use nba_games_service.Snapshots.Disk.{find_node}
use nba_games_service.Snapshots.Sync.Filling.{filled}
use nba_games_service.Snapshots.Writer.{Writer, cutoff_day, is_expired}
use nba_games_service.Snapshots.Writer.Healthy.{IsHealthy, HasFiles}
use nba_games_service.Snapshots.Writer.Shelf.{shelf}
use nba_games_service.Poller.Telling.{Tells, replay, trouble, told_run, told_run-Tells}
use nba_games_service.Poller.Health.{Cycle, run, failures, trailing, succeeded, is_ready-run}

abbrev env : Env
env = record {
  mkdir_error = λ _ _. none;
  read_error = λ _. none;
  list_error = λ _ _. none;
  write_fault = λ _. healthy;
  rename_error = λ _ _. none;
  remove_error = λ _. none;
  stat_error = λ _. none;
  refreshed_at = 0;
  pruned_at = 0;
  generated_at = 0;
}

-- The provider fails on its first call.
abbrev flaky : Poller ℕ
flaky = record {
  provider = λ date tz n. (elim n [ zero ↦ err provider_unavailable | suc m ↦ ok [] ], n + 1);
  writer = none;
  loc = utc;
}

abbrev cycles : List Cycle
cycles = record { env = env; start = 0; now = 0 } ∷ record { env = env; start = 5; now = 5 } ∷ []

abbrev fresh : World ℕ
fresh = record { status = no_status; disk = []; outside = 0 }

is_ready-run_example : is_ready (run flaky cycles fresh).status ≡ (
    succeeded (failures flaky cycles fresh) false
    && ltb (trailing (failures flaky cycles fresh) 0) 3)
is_ready-run_example = is_ready-run flaky cycles fresh refl

abbrev launched : Lifecycle
launched = launch (start new_lifecycle)

to_launched : Reach new_lifecycle launched
to_launched = next (next here (calls_start new_lifecycle)) (launches (start new_lifecycle) refl)

-- A poller that is stopped before its first fetch.
abbrev halted : Lifecycle
halted = stop launched

to_halted : Reach new_lifecycle halted
to_halted = next to_launched (calls_stop launched)

abbrev after_warming : Lifecycle
after_warming = record halted { phase = waiting; cycles = 1 }

Reach-Inv_example : Inv halted
Reach-Inv_example = Reach-Inv to_halted

stopped-cycles_example :
    (after_warming.ticker ≡ stopped) × (after_warming.cycles ≤ halted.cycles + 2)
stopped-cycles_example = stopped-cycles to_halted refl (next here (warms halted refl))

fine : IsHealthy env
fine = record {
  makes = λ b c. refl;
  lists = λ b c. refl;
  writes = λ p. refl;
  renames = λ p q. refl;
  removes = λ p. refl;
}

abbrev writer : Writer
writer = record { base_path = "data"; retention_days = 14 }

abbrev storing : Poller ℕ
storing = record flaky { writer = some writer }

kept : is_expired (cutoff_day env writer) (parse_date "0001-01-01") ≡ false
unfolding parse_date utc read_two read_dash check_civil ordinal
kept = refl

no_directories : HasFiles []
unfolding find_node
no_directories q e = cc

run-fills_example :
    shelf writer (run storing cycles fresh).disk "0001-01-01"
    ≡ filled "0001-01-01" (polled storing cycles fresh "0001-01-01") (shelf writer [] "0001-01-01")
run-fills_example =
    run-fills storing writer "0001-01-01" refl refl cycles fresh (fine, (fine, tt))
      (kept, (kept, tt)) no_directories

-- The second cycle cannot write.
abbrev bad_cycles : List Cycle
bad_cycles =
    record { env = env; start = 0; now = 0 }
    ∷ record {
      env = record env { rename_error = λ p q. some (other "no space") };
      start = 5;
      now = 5;
    }
    ∷ []

told_run-Tells_example :
    let (reports, after) = told_run storing bad_cycles fresh in
    (after ≡ run storing bad_cycles fresh)
    × (trouble after.status ≡ replay reports (trouble no_status))
    × Tells "0001-01-01" reports
        (shelf writer [] "0001-01-01")
        (shelf writer after.disk "0001-01-01")
told_run-Tells_example =
    told_run-Tells storing writer refl "0001-01-01" bad_cycles fresh (kept, (kept, tt))
