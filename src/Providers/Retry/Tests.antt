-- ===== src/Providers/Retry/Tests.antt =====
-- A provider that fails twice, is rate limited once, and is asked up to three times.
use nba_games_service.Base.{
  ℕ, zero, suc, ◌+◌, ◌*◌, ◌-◌, ◌≡◌, refl, List, [], arith, ltb, if◌then◌else◌,
}
use nba_games_service.Base.Decimal.{pos}
use nba_games_service.Domain.{Game}
use nba_games_service.Errors.{
  Error, provider_unavailable, rate_limited, as_rate_limit_error, Result, ok, err,
}
use nba_games_service.Metrics.{new_recorder}
use nba_games_service.Providers.Retry.{RetryingProvider, is_err, compute_delay, fetch_games}
use nba_games_service.Providers.Retry.Delay.{FitsLimit, DrawsBelow, compute_delay-FitsLimit}
use nba_games_service.Providers.Retry.Counting.{Counter, Counted}
use nba_games_service.Providers.Retry.Attempts.{fetch_games-Counted}
use nba_games_service.Providers.Retry.Scripted.{calm, scripted, first_ok, fetch_games-first_ok}

abbrev limit : Error
limit = rate_limited record {
  provider = "balldontlie";
  status_code = pos 429;
  retry_after = pos 30;
  remaining = "0";
  message = "";
}

abbrev script : ℕ → Result (List Game)
script zero = err provider_unavailable
script (suc zero) = err limit
script (suc (suc n)) = ok []

abbrev provider : RetryingProvider ℕ
provider = scripted script (λ n. n - 1) "balldontlie" 3 200

draws : DrawsBelow (calm script (λ n. n - 1) "balldontlie" 3 200)
draws n s h = omega arith

compute_delay-FitsLimit_example :
    FitsLimit
      (as_rate_limit_error provider_unavailable)
      (1 * 200)
      (compute_delay
        (calm script (λ n. n - 1) "balldontlie" 3 200)
        provider
        provider_unavailable
        1
        new_recorder
        1).0
compute_delay-FitsLimit_example =
    compute_delay-FitsLimit (calm script (λ n. n - 1) "balldontlie" 3 200) provider draws
      provider_unavailable 1 new_recorder 1 (omega arith)

failed-script :
    (n : ℕ)
    → ◌≡◌ {A = ℕ}
        (if ltb (n + 1) 2 then n + 1 else 2)
        ((if ltb n 2 then n else 2) + (if is_err (script n) then 1 else 0))
failed-script zero = refl
failed-script (suc zero) = refl
failed-script (suc (suc n)) = ground arith

-- The state is the number of calls; the first two fail.
abbrev counter : Counter (calm script (λ n. n - 1) "balldontlie" 3 200) provider.game_provider
counter = record {
  called = λ n. n;
  failed = λ n. if ltb n 2 then n else 2;
  called-p = λ date tz n. omega arith;
  failed-p = λ date tz n. failed-script n;
  called-int63n = λ k n. refl;
  failed-int63n = λ k n. refl;
  called-wait = λ k n. refl;
  failed-wait = λ k n. refl;
}

fetch_games-Counted_example : Counted counter "balldontlie" 3 new_recorder 0 (
    fetch_games
      (calm script (λ n. n - 1) "balldontlie" 3 200)
      provider
      "2024-01-15"
      ""
      new_recorder
      0)
fetch_games-Counted_example =
    fetch_games-Counted (calm script (λ n. n - 1) "balldontlie" 3 200) provider counter "2024-01-15"
      "" new_recorder 0 refl (omega arith)

fetch_games-first_ok_example :
    let out =
      fetch_games
        (calm script (λ n. n - 1) "balldontlie" 3 200)
        provider
        "2024-01-15"
        ""
        new_recorder
        0 in
    (out.0 ≡ (first_ok script (λ n. n - 1) "balldontlie" 3 200 (3 - 1) 0).0)
    × (out.2 ≡ (first_ok script (λ n. n - 1) "balldontlie" 3 200 (3 - 1) 0).1)
fetch_games-first_ok_example =
    fetch_games-first_ok script (λ n. n - 1) "balldontlie" 3 200 "2024-01-15" "" new_recorder 0
