-- ===== src/Providers/Tests.antt =====
-- The rate limiter with two calls.
use nba_games_service.Base.{◌+◌, ◌-◌, ◌*◌, ◌≤◌, arith, ◌≡◌, true, refl}
use nba_games_service.Base.Decimal.{pos, positive_or}
use nba_games_service.Providers.Limited.{
  Limiter, new_limiter, arrives, elapses, fires, passes, Reach, here, next, passed-Reach,
}

abbrev fresh : Limiter
fresh = new_limiter (pos 1000)

-- Two calls wait for the one tick that there is.
abbrev crowded : Limiter
crowded = record fresh { arrived = 2; waiting = 2; buffered = 1; fired = 1; now = 1500 }

to_crowded : Reach fresh crowded
to_crowded =
    next
      (next (next (next here (arrives fresh)) (arrives record fresh { arrived = 1; waiting = 1 }))
        (elapses record fresh { arrived = 2; waiting = 2 } 1500))
      (fires record fresh { arrived = 2; waiting = 2; now = 1500 } refl (omega arith))

abbrev one_passed : Limiter
one_passed = record crowded { buffered = 0; waiting = 1; passed = 1 }

passed-Reach_example :
    (one_passed.passed * positive_or (pos 1000) 60000000000 ≤ one_passed.now)
    × (one_passed.passed ≤ crowded.passed + (one_passed.fired - crowded.fired) + 1)
    × (crowded.closed ≡ true → one_passed.passed ≤ crowded.passed + 1)
    × (one_passed.arrived ≡ one_passed.waiting + one_passed.passed + one_passed.canceled)
passed-Reach_example =
    passed-Reach (pos 1000) to_crowded (next here (passes crowded (omega arith) refl))
