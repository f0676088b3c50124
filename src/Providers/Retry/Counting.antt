-- ===== src/Providers/Retry/Counting.antt =====
-- A count of the calls that the loop of retry_provider.go makes, which its waits leave as it is.
use nba_games_service.Base.{
  ℕ, zero, suc, ◌+◌, ◌-◌, ◌/◌, ◌≤◌, ◌≡◌, refl, String, Bool, true, false, List, Option, none, some,
  arith, if◌then◌else◌,
}
use nba_games_service.Base.Decimal.{ℤ, pos, negsuc}
use nba_games_service.Domain.{Game}
use nba_games_service.Errors.{RateLimitError, Result}
use nba_games_service.Metrics.{Recorder, snapshot}
use nba_games_service.Providers.Provider.{Provider, Runtime}
use nba_games_service.Providers.Retry.{RetryingProvider, is_err, jitter_delay, requested_or, sleep}

abbrev pub is_on : Recorder → Bool
is_on none = false
is_on (some m) = true

-- A count of the calls of a provider, and of those that fail, in the state: a call adds to it, and
-- nothing else does that the runtime offers.
pub record Counter {ℓ} {S : Type ℓ} (rt : Runtime S) (p : Provider S) : Type ℓ where
  pub called : S → ℕ
  pub failed : S → ℕ
  pub called-p : (date tz : String) (s : S) → called (p date tz s).1 ≡ called s + 1
  pub failed-p :
      (date tz : String) (s : S)
      → failed (p date tz s).1 ≡ failed s + (if is_err (p date tz s).0 then 1 else 0)
  pub called-int63n : (n : ℕ) (s : S) → called (rt.int63n n s).1 ≡ called s
  pub failed-int63n : (n : ℕ) (s : S) → failed (rt.int63n n s).1 ≡ failed s
  pub called-wait : (n : ℕ) (s : S) → called (rt.wait n s).1 ≡ called s
  pub failed-wait : (n : ℕ) (s : S) → failed (rt.wait n s).1 ≡ failed s

-- From the metrics `m` and the state `s`, the provider has been called at least once and at most
-- `most` times; if the result is an error every call failed, and else every call but the last. The
-- metrics say the same.
pub record Counted {ℓ} {S : Type ℓ} {rt : Runtime S} {p : Provider S} (c : Counter rt p)
    (name : String) (most : ℕ) (m : Recorder) (s : S) (out : Result (List Game) × Recorder × S)
    : Type 0 where
  pub tries : ℕ
  pub low : 1 ≤ tries
  pub high : tries ≤ most
  pub on : is_on out.1 ≡ true
  pub calls : (snapshot out.1 name).calls ≡ (snapshot m name).calls + tries
  pub errors :
      (snapshot out.1 name).errors
      ≡ (snapshot m name).errors + (if is_err out.0 then tries else tries - 1)
  pub called : c.called out.2 ≡ c.called s + tries
  pub failed : c.failed out.2 ≡ c.failed s + (if is_err out.0 then tries else tries - 1)

module _ {ℓ} {S : Type ℓ} (rt : Runtime S) (r : RetryingProvider S)
    (c : Counter rt r.game_provider) where
  -- States with the same counts.
  abbrev pub Same : S → S → Type 0
  Same s s' = (c.called s' ≡ c.called s) × (c.failed s' ≡ c.failed s)

  jitter_delay-Same : (base : ℤ) (s : S) → Same s (jitter_delay rt r base s).1
  unfolding jitter_delay
  jitter_delay-Same (negsuc n) s = (refl, refl)
  jitter_delay-Same (pos base) s = (
    ground (arith, c.called-int63n (base / 2 + 1) s),
    ground (arith, c.failed-int63n (base / 2 + 1) s),
  )

  pub requested_or-Same :
      (base : ℤ) (e : Option RateLimitError) (s : S) → Same s (requested_or rt r base e s).1
  requested_or-Same base none s = jitter_delay-Same base s
  requested_or-Same base (some e) s = by_request e.retry_after
    where
      by_request :
          (n : ℤ) → Same s (requested_or rt r base (some (record e { retry_after = n })) s).1
      by_request (pos zero) = jitter_delay-Same base s
      by_request (pos (suc n)) = (refl, refl)
      by_request (negsuc n) = jitter_delay-Same base s

  pub sleep-Same : (n : ℕ) (s : S) → Same s (sleep rt r n s).1
  unfolding sleep
  sleep-Same zero s = (refl, refl)
  sleep-Same (suc n) s = (c.called-wait (suc n) s, c.failed-wait (suc n) s)
