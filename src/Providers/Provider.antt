-- ===== src/Providers/Provider.antt =====
-- internal/providers/provider.go, and the rate limiter of limit_provider.go. What a provider and the
-- runtime read and change is a state of any type `S`.
use nba_games_service.Base.{ℕ, String, Option, none, some, List, str_eq, if◌then◌else◌}
use nba_games_service.Calendar.{Location}
use nba_games_service.Base.Decimal.{ℤ}
use nba_games_service.Domain.{Game}
use nba_games_service.Errors.{Error, provider_unavailable, Result, err}

-- `FetchGames(ctx, date, tz)`.
abbrev pub Provider {ℓ} : Type ℓ → Type ℓ
Provider S = String → String → S → Result (List Game) × S

-- ResolveTimezone of timezone.go, which nothing calls; `load_location` is `time.LoadLocation`.
abbrev pub resolve_timezone : (String → Option Location) → String → Option Location
resolve_timezone load_location tz = if str_eq tz "" then none else load_location tz

-- What a wrapper uses of Go's runtime: `ctx.Err()`; the time a call took; `rng.Int63n(n)`; a wait
-- for that many nanoseconds, which the context may end; the wait for a ticker.
pub record Runtime {ℓ} (S : Type ℓ) : Type ℓ where
  pub ctx_err : S → Option Error
  pub elapsed : S → ℤ
  pub int63n : ℕ → S → ℕ × S
  pub wait : ℕ → S → Option Error × S
  pub wait_tick : S → Option Error × S

-- NewRateLimitedProvider's `FetchGames`, of a provider that is not nil: a call is passed on after a
-- tick, and is not made if the context ends first.
unfoldable pub rate_limited_fetch {ℓ} : {S : Type ℓ} → Runtime S → Option (Provider S) → Provider S
rate_limited_fetch rt none date tz s = (err provider_unavailable, s)
rate_limited_fetch rt (some next) date tz s =
    let (stopped, s') = rt.wait_tick s in
    elim stopped [ none ↦ next date tz s' | some e ↦ (err e, s') ]
