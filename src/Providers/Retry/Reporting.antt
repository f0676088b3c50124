-- ===== src/Providers/Retry/Reporting.antt =====
-- What a fetch of retry_provider.go logs: `log` and `logRetry`, with logWithProvider of logging.go.
pub mod Telling
use nba_games_service.Base.{
  eq_refl, ℕ, zero, suc, ◌+◌, ◌-◌, ◌≤◌, ◌==◌, ◌&&◌, leb, ltb, String, Bool, true, false, Option,
  none, some, List, [], ◌∷◌, ◌++◌, ◌≡◌, refl, sym, ap, ◌∙◌, arith, inl, inr, str_eq, if◌then◌else◌,
}
use nba_games_service.Base.Decimal.{ℤ, pos, negsuc, decimal, decimal_int}
use nba_games_service.Domain.{Game}
use nba_games_service.Errors.{
  Error, error_text, RateLimitError, as_rate_limit_error, Result, Result-cases, ok, err,
}
use nba_games_service.Logging.{Logger, Level, Attrs, Line, log_line, from_context}
use nba_games_service.Metrics.{Recorder, is_positive}
use nba_games_service.Metrics.Instruments.{milliseconds}
use nba_games_service.Providers.Provider.{Runtime}
use nba_games_service.Providers.Retry.{
  RetryingProvider, is_err, try_once, compute_delay, sleep, fetch_loop, fetch_games,
}

-- A success after a failure, a retry with its delay, and the end of the attempts.
pub data Report : Type 0 where
  recovers : (attempt : ℕ) → Report
  retries : (attempt delay : ℕ) → Error → Report
  gives_up : (attempts : ℕ) → Error → Report

-- What a rate limit adds to a retry.
unfoldable pub limit_attrs : Option RateLimitError → Attrs
limit_attrs none = []
limit_attrs (some e) =
    ("status_code", decimal_int e.status_code)
    ∷ ((if is_positive e.retry_after
          then ("retry_after_ms", decimal_int (milliseconds e.retry_after)) ∷ []
          else [])
        ++ (if str_eq e.remaining "" then [] else ("rate_limit_remaining", e.remaining) ∷ []))

unfoldable pub log_with_provider : Option Logger → Level → String → String → Attrs → Option Line
log_with_provider logger level provider message attrs =
    log_line logger level message (attrs ++ ("provider", provider) ∷ [])

module _ {ℓ} {S : Type ℓ} (r : RetryingProvider S) where
  -- `log` of a report; `context` is the logger in the context, and `logger` is the provider's own.
  unfoldable pub log_report : Option Logger → Option Logger → Report → Option Line
  log_report context logger (recovers attempt) =
      log_with_provider (from_context context logger) Level.info r.provider_name
        "provider fetch succeeded"
        (("provider", r.provider_name) ∷ ("attempt", decimal attempt) ∷ [])
  log_report context logger (retries attempt delay e) =
      log_with_provider (from_context context logger) Level.warn r.provider_name
        "provider fetch retry"
        (("provider", r.provider_name)
          ∷ ("attempt", decimal attempt)
          ∷ ("max_attempts", decimal r.max_attempts)
          ∷ ("backoff_ms", decimal_int (milliseconds (pos delay)))
          ∷ ("err", error_text e)
          ∷ limit_attrs (as_rate_limit_error e))
  log_report context logger (gives_up attempts e) =
      log_with_provider (from_context context logger) Level.warn r.provider_name
        "provider fetch failed"
        (("provider", r.provider_name)
          ∷ ("attempts", decimal attempts)
          ∷ ("err", error_text e)
          ∷ [])

-- The result, the metrics and the outside state.
abbrev pub Outcome {ℓ} : Type ℓ → Type ℓ
Outcome S = Result (List Game) × Recorder × S

abbrev pub success : ℕ → List Report
success attempt = if ltb 1 attempt then recovers attempt ∷ [] else []

module _ {ℓ} {S : Type ℓ} (rt : Runtime S) (r : RetryingProvider S) (date tz : String) where
  -- The loop of FetchGames, with what it reports.
  unfoldable pub reported_loop : ℕ → ℕ → Recorder → S → List Report × Outcome S
  reported_loop zero attempt m s =
      let (res, m1, s1) = try_once rt r date tz m s in
      elim res [
        | ok games ↦ (success attempt, (ok games, m1, s1))
        | err e ↦ elim (rt.ctx_err s1) [
          | some c ↦ ([], (err c, m1, s1))
          | none ↦ (gives_up r.max_attempts e ∷ [], (err e, m1, s1))
        ]
      ]
  reported_loop (suc left) attempt m s =
      let (res, m1, s1) = try_once rt r date tz m s in
      elim res [
        | ok games ↦ (success attempt, (ok games, m1, s1))
        | err e ↦ elim (rt.ctx_err s1) [
          | some c ↦ ([], (err c, m1, s1))
          | none ↦
              let (delay, m2, s2) = compute_delay rt r e attempt m1 s1 in
              let (stopped, s3) = sleep rt r delay s2 in
              elim stopped [
                | some c ↦ (retries attempt delay e ∷ [], (err c, m2, s3))
                | none ↦
                    let (reports, out) = reported_loop left (attempt + 1) m2 s3 in
                    (retries attempt delay e ∷ reports, out)
              ]
        ]
      ]

  unfoldable pub reported_fetch : Recorder → S → List Report × Outcome S
  reported_fetch m s = reported_loop (r.max_attempts - 1) 1 m s
