-- ===== src/Providers/Retry/Delay.antt =====
-- The wait between attempts: `computeDelay` and `jitterDelay`.
use nba_games_service.Base.{
  ℕ, zero, suc, ◌+◌, ◌*◌, ◌/◌, ◌≤◌, ◌<◌, ◌≡◌, refl, Option, none, some, arith,
}
use nba_games_service.Base.Decimal.{ℤ, pos, negsuc, two_63, wrap_64-pos}
use nba_games_service.Errors.{Error, RateLimitError, as_rate_limit_error}
use nba_games_service.Metrics.{Recorder}
use nba_games_service.Providers.Provider.{Runtime}
use nba_games_service.Providers.Retry.{
  RetryingProvider, backoff_fn, jitter_delay, compute_delay, requested_or,
}

-- What `delay` may be, by the error and the base: the provider's Retry-After where it gives one,
-- and else from half the base up to the base.
abbrev pub FitsLimit : Option RateLimitError → ℕ → ℕ → Type 0
FitsLimit none base delay = (base / 2 ≤ delay) × (delay ≤ base)
FitsLimit (some e) base delay = elim e.retry_after [
  | pos n ↦ elim n [ zero ↦ (base / 2 ≤ delay) × (delay ≤ base) | suc k ↦ delay ≡ suc k ]
  | negsuc n ↦ (base / 2 ≤ delay) × (delay ≤ base)
]

-- `Int63n(n)` is below `n`.
abbrev pub DrawsBelow {ℓ} : {S : Type ℓ} → Runtime S → Type ℓ
DrawsBelow {S} rt = (n : ℕ) (s : S) → 0 < n → (rt.int63n n s).0 < n

backoff_fn-pos {ℓ} :
    {S : Type ℓ} (r : RetryingProvider S) (attempt : ℕ)
    → attempt * r.backoff < two_63
    → backoff_fn r attempt ≡ pos (attempt * r.backoff)
unfolding backoff_fn
backoff_fn-pos r attempt fits = wrap_64-pos (attempt * r.backoff) fits

module _ {ℓ} {S : Type ℓ} (rt : Runtime S) (r : RetryingProvider S) (draws : DrawsBelow rt) where
  jitter_delay-bounds :
      (base : ℕ) (s : S) → let d = (jitter_delay rt r (pos base) s).0 in (base / 2 ≤ d) × (d ≤ base)
  unfolding jitter_delay
  jitter_delay-bounds base s = (
    ground (arith, draws (base / 2 + 1) s (omega arith)),
    ground (arith, draws (base / 2 + 1) s (omega arith)),
  )

  requested_or-Fits :
      (base : ℕ) (e : Option RateLimitError) (s : S)
      → FitsLimit e base (requested_or rt r (pos base) e s).0
  requested_or-Fits base none s = jitter_delay-bounds base s
  requested_or-Fits base (some e) s = by_request e.retry_after
    where
      by_request :
          (n : ℤ)
          → FitsLimit
              (some (record e { retry_after = n }))
              base
              (requested_or rt r (pos base) (some (record e { retry_after = n })) s).0
      by_request (pos zero) = jitter_delay-bounds base s
      by_request (pos (suc n)) = refl
      by_request (negsuc n) = jitter_delay-bounds base s

  -- If draws are in range, and the attempt's share of the backoff, `attempt * backoff`, fits in a
  -- `time.Duration`, then the wait after a failed attempt is the provider's Retry-After where the
  -- error is a rate limit that gives a positive one, and else at least half of that share and at
  -- most the share.
  pub compute_delay-FitsLimit :
      (e : Error) (attempt : ℕ) (m : Recorder) (s : S)
      → attempt * r.backoff < two_63
      → FitsLimit (as_rate_limit_error e) (attempt * r.backoff) (compute_delay rt r e attempt m s).0
  unfolding compute_delay
  compute_delay-FitsLimit e attempt m s fits =
      rw (backoff_fn-pos r attempt fits)
        (requested_or-Fits (attempt * r.backoff) (as_rate_limit_error e) s)
