-- ===== src/Metrics/Racing/Tests.antt =====
-- Two failed attempts that overlap, and one attempt and one rate limit that do not.
use nba_games_service.Base.{true, false, List, [], ◌∷◌, ◌≡◌}
use nba_games_service.Base.Decimal.{pos}
use nba_games_service.Metrics.{ProviderStats, snapshot}
use nba_games_service.Metrics.Racing.{
  call_due, attempt_left, error_left, limit_left, Recording, attempt_at, failure_at, limit_at,
  advance, new_attempt, new_limit, Race, new_race, begins, moves, Reach, here, next,
}
use nba_games_service.Metrics.Racing.Bounds.{Bounded, Reach-Bounded}
use nba_games_service.Metrics.Racing.Turns.{
  attempt_returned, limit_returned, Turns, hear_recordings, Turns-hear_recordings,
}

first_moves :
    {s : ProviderStats} {g : Recording} {gs : List Recording}
    → Reach (record { stats = s; recordings = g ∷ gs })
    → Reach (record { stats = (advance g s).1; recordings = (advance g s).0 ∷ gs })
first_moves {s} {g} {gs} r = next r (moves s [] g gs)

second_moves :
    {s : ProviderStats} {x g : Recording} {gs : List Recording}
    → Reach (record { stats = s; recordings = x ∷ g ∷ gs })
    → Reach (record { stats = (advance g s).1; recordings = x ∷ (advance g s).0 ∷ gs })
second_moves {s} {x} {g} {gs} r = next r (moves s (x ∷ []) g gs)

abbrev both_began : Race
both_began = record {
  stats = new_race.stats;
  recordings = attempt_at (pos 7) true call_due ∷ attempt_at (pos 5) true call_due ∷ [];
}

both_begin : Reach both_began
both_begin =
    next (next here (begins new_race (new_attempt (pos 5) true)))
      (begins _ (new_attempt (pos 7) true))

-- One attempt is lost, and there are more errors than attempts.
abbrev one_lost : Race
one_lost = record {
  stats = record {
    calls = 1;
    errors = 2;
    rate_limit_hits = 0;
    last_retry_after = pos 0;
    last_call_latency = pos 5;
  };
  recordings = failure_at (pos 7) error_left ∷ failure_at (pos 5) error_left ∷ [];
}

loses_one : Reach one_lost
unfolding advance
loses_one =
    let both_read = second_moves (first_moves both_begin) in
    let first_returned = first_moves (first_moves (first_moves (first_moves both_read))) in
    second_moves (second_moves (second_moves (second_moves first_returned)))

Reach-Bounded_example : Bounded one_lost
Reach-Bounded_example = Reach-Bounded loses_one

abbrev both_heard : List Recording
both_heard = limit_at (pos 30) limit_left ∷ attempt_at (pos 7) false attempt_left ∷ []

abbrev in_turn : Race
in_turn = record {
  stats = record {
    calls = 1;
    errors = 0;
    rate_limit_hits = 1;
    last_retry_after = pos 30;
    last_call_latency = pos 7;
  };
  recordings = both_heard;
}

turn_moves :
    {s : ProviderStats} {g : Recording} {gs : List Recording}
    → Turns (record { stats = s; recordings = g ∷ gs })
    → Turns (record { stats = (advance g s).1; recordings = (advance g s).0 ∷ gs })
turn_moves {s} {g} {gs} r = Turns.moves s [] g gs r

both_taken : Turns in_turn
unfolding advance
both_taken =
    let attempt =
      turn_moves
        (turn_moves (turn_moves (Turns.begins Turns.here (new_attempt (pos 7) false) tt))) in
    turn_moves (
      turn_moves
        (turn_moves (Turns.begins attempt (new_limit (pos 30)) (attempt_returned (pos 7), tt))))

Turns-hear_recordings_example :
    in_turn.stats ≡ snapshot (hear_recordings "balldontlie" both_heard) "balldontlie"
Turns-hear_recordings_example =
    Turns-hear_recordings "balldontlie" both_taken
      (limit_returned (pos 30), (attempt_returned (pos 7), tt))
