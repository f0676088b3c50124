-- ===== src/Providers/Retry.antt =====
-- internal/providers/retry_provider.go. The state of a call is the metrics and the outside state.
pub mod Delay
pub mod Counting
pub mod Attempts
pub mod Calm
pub mod Scripted
pub mod Reporting
mod Tests
use nba_games_service.Base.{
  ℕ, zero, suc, ◌+◌, ◌-◌, ◌*◌, ◌/◌, String, Bool, true, false, Option, none, some, List, str_eq,
  if◌then◌else◌, ◌==◌,
}
use nba_games_service.Base.Decimal.{ℤ, pos, negsuc, positive_or, wrap_64}
use nba_games_service.Domain.{Game}
use nba_games_service.Errors.{Error, RateLimitError, as_rate_limit_error, Result, ok, err}
use nba_games_service.Metrics.{Recorder, record_provider_attempt, record_rate_limit}
use nba_games_service.Providers.Provider.{Provider, Runtime}

pub record RetryingProvider {ℓ} (S : Type ℓ) : Type ℓ where
  pub game_provider : Provider S
  pub provider_name : String
  pub max_attempts : ℕ
  pub backoff : ℕ

-- NewRetryingProvider; `type_name` is the provider's `%T`. 200 ms is in nanoseconds.
unfoldable pub new_retrying_provider {ℓ} :
    {S : Type ℓ} → Provider S → String → String → ℤ → ℤ → RetryingProvider S
new_retrying_provider inner type_name provider_name max_attempts backoff = record {
  game_provider = inner;
  provider_name = if str_eq provider_name "" then type_name else provider_name;
  max_attempts = positive_or max_attempts 3;
  backoff = positive_or backoff 200000000;
}

abbrev pub is_err {ℓ} : {A : Type ℓ} → Result A → Bool
is_err (ok a) = false
is_err (err e) = true

-- `backoffFn`: `time.Duration(attempt) * backoff`, which may wrap.
unfoldable pub backoff_fn {ℓ} : {S : Type ℓ} → RetryingProvider S → ℕ → ℤ
backoff_fn r attempt = wrap_64 (attempt * r.backoff)

module _ {ℓ} {S : Type ℓ} (rt : Runtime S) (r : RetryingProvider S) where
  unfoldable pub jitter_delay : ℤ → S → ℕ × S
  jitter_delay (negsuc n) s = (0, s)
  jitter_delay (pos base) s =
      let half = base / 2 in
      let (n, s') = rt.int63n (half + 1) s in
      if base == 0 then (0, s) else if half == 0 then (base, s) else (half + n, s')

  abbrev pub requested_or : ℤ → Option RateLimitError → S → ℕ × S
  requested_or base none s = jitter_delay base s
  requested_or base (some e) s = elim e.retry_after [
    | pos n ↦ elim n [ zero ↦ jitter_delay base s | suc m ↦ (suc m, s) ]
    | negsuc n ↦ jitter_delay base s
  ]

  abbrev pub count_limit : Option RateLimitError → Recorder → Recorder
  count_limit none m = m
  count_limit (some e) m = record_rate_limit r.provider_name e.retry_after m

  -- The delay, the metrics and the outside state.
  unfoldable pub compute_delay : Error → ℕ → Recorder → S → ℕ × Recorder × S
  compute_delay e attempt m s =
      let limit = as_rate_limit_error e in
      let (delay, s') = requested_or (backoff_fn r attempt) limit s in
      (delay, count_limit limit m, s')

  unfoldable pub sleep : ℕ → S → Option Error × S
  sleep zero s = (none, s)
  sleep (suc n) s = rt.wait (suc n) s

  -- One call of the provider, and its record.
  unfoldable pub try_once : String → String → Recorder → S → Result (List Game) × Recorder × S
  try_once date tz m s =
      let (res, s') = r.game_provider date tz s in
      (res, record_provider_attempt r.provider_name (rt.elapsed s') (is_err res) m, s')

  -- The loop of `FetchGames` from the given attempt on, with the attempts left after it.
  unfoldable pub fetch_loop :
      String → String → ℕ → ℕ → Recorder → S → Result (List Game) × Recorder × S
  fetch_loop date tz zero attempt m s =
      let (res, m1, s1) = try_once date tz m s in
      elim res [
        | ok games ↦ (ok games, m1, s1)
        | err e ↦ elim (rt.ctx_err s1) [ some c ↦ (err c, m1, s1) | none ↦ (err e, m1, s1) ]
      ]
  fetch_loop date tz (suc left) attempt m s =
      let (res, m1, s1) = try_once date tz m s in
      elim res [
        | ok games ↦ (ok games, m1, s1)
        | err e ↦ elim (rt.ctx_err s1) [
          | some c ↦ (err c, m1, s1)
          | none ↦
              let (delay, m2, s2) = compute_delay e attempt m1 s1 in
              let (stopped, s3) = sleep delay s2 in
              elim stopped [
                | some c ↦ (err c, m2, s3)
                | none ↦ fetch_loop date tz left (attempt + 1) m2 s3
              ]
        ]
      ]

  -- FetchGames; a retrying provider has at least one attempt.
  unfoldable pub fetch_games : String → String → Recorder → S → Result (List Game) × Recorder × S
  fetch_games date tz m s = fetch_loop date tz (r.max_attempts - 1) 1 m s
