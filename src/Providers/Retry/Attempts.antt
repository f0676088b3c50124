-- ===== src/Providers/Retry/Attempts.antt =====
-- How often the provider is called, by a count of its own and by that of the metrics.
use nba_games_service.Base.{
  ℕ, zero, suc, ◌+◌, ◌-◌, ◌≤◌, ◌≡◌, refl, String, true, List, Option, none, some, arith, eq_refl,
  subst, ◌∙◌, if◌then◌else◌,
}
use nba_games_service.Domain.{Game}
use nba_games_service.Errors.{Error, RateLimitError, as_rate_limit_error, Result, ok, err}
use nba_games_service.Metrics.{
  Recorder, snapshot, record_provider_attempt, record_rate_limit, snapshot-record_provider_attempt,
  snapshot-record_rate_limit,
}
use nba_games_service.Providers.Provider.{Runtime}
use nba_games_service.Providers.Retry.{
  RetryingProvider, is_err, try_once, backoff_fn, compute_delay, count_limit, sleep, fetch_loop,
  fetch_games,
}
use nba_games_service.Providers.Retry.Counting.{
  is_on, Counter, Counted, Same, requested_or-Same, sleep-Same,
}

module _ {ℓ} {S : Type ℓ} (rt : Runtime S) (r : RetryingProvider S) (c : Counter rt r.game_provider)
    (date tz : String) where
  abbrev name : String
  name = r.provider_name

  -- After one call with the result `res`.
  pub record Tried (m : Recorder) (s : S) (res : Result (List Game)) (m1 : Recorder) (s1 : S)
      : Type 0 where
    pub on : is_on m1 ≡ true
    pub calls : (snapshot m1 name).calls ≡ (snapshot m name).calls + 1
    pub errors :
        (snapshot m1 name).errors ≡ (snapshot m name).errors + (if is_err res then 1 else 0)
    pub called : c.called s1 ≡ c.called s + 1
    pub failed : c.failed s1 ≡ c.failed s + (if is_err res then 1 else 0)

  try_once-Tried :
      (m : Recorder) (s : S)
      → is_on m ≡ true
      → let out = try_once rt r date tz m s in Tried m s out.0 out.1 out.2
  unfolding try_once
  try_once-Tried none s h = cc
  try_once-Tried (some m) s h =
      let (res, s1) = r.game_provider date tz s in
      let e = snapshot-record_provider_attempt m name name (rt.elapsed s1) (is_err res) in
      record {
        on = unfold record_provider_attempt in refl;
        calls = ground (arith, e, eq_refl name);
        errors = ground (arith, e, eq_refl name);
        called = c.called-p date tz s;
        failed = c.failed-p date tz s;
      }

  count_limit-same :
      (e : Option RateLimitError) (m : Recorder)
      → is_on m ≡ true
      → let m' = count_limit rt r e m in
        (is_on m' ≡ true)
        × ((snapshot m' name).calls ≡ (snapshot m name).calls)
        × ((snapshot m' name).errors ≡ (snapshot m name).errors)
  count_limit-same none m h = (h, refl, refl)
  count_limit-same (some e) none h = cc
  count_limit-same (some e) (some m) h =
      let f = snapshot-record_rate_limit m name name e.retry_after in
      (
        unfold record_rate_limit in refl,
        ground (arith, f, eq_refl name),
        ground (arith, f, eq_refl name),
      )

  -- A call that ends the loop.
  ends :
      (most : ℕ) (m : Recorder) (s : S) (res : Result (List Game)) (m1 : Recorder) (s1 s2 : S)
      (out : Result (List Game))
      → Tried m s res m1 s1
      → Same rt r c s1 s2
      → is_err out ≡ is_err res
      → Counted c name (suc most) m s (out, m1, s2)
  ends most m s res m1 s1 s2 out t q e = record {
    tries = 1;
    low = omega arith;
    high = omega arith;
    on = t.on;
    calls = t.calls;
    errors = rw e (ground (arith, t.errors));
    called = q.0 ∙ t.called;
    failed = rw e (ground (arith, t.failed, q.1));
  }

  -- A failed call that others follow.
  goes_on :
      (most : ℕ) (m : Recorder) (s : S) (m2 : Recorder) (s1 s3 : S) (x : Error)
      (out : Result (List Game) × Recorder × S)
      → Tried m s (err x) m2 s1
      → Same rt r c s1 s3
      → Counted c name most m2 s3 out
      → Counted c name (suc most) m s out
  goes_on most m s m2 s1 s3 x out t q k = record {
    tries = suc k.tries;
    low = omega arith;
    high = omega (arith, k.high);
    on = k.on;
    calls = omega (arith, k.calls, t.calls);
    errors = ground (arith, k.errors, t.errors, k.low);
    called = omega (arith, k.called, t.called, q.0);
    failed = ground (arith, k.failed, t.failed, q.1, k.low);
  }

  limited-Tried :
      (e : Error) (l : Option RateLimitError) (m : Recorder) (s : S) (m1 : Recorder) (s1 : S)
      → Tried m s (err e) m1 s1
      → Tried m s (err e) (count_limit rt r l m1) s1
  limited-Tried e l m s m1 s1 t =
      let (on, a, b) = count_limit-same l m1 t.on in
      record {
        on = on;
        calls = a ∙ t.calls;
        errors = b ∙ t.errors;
        called = t.called;
        failed = t.failed;
      }

  -- A failed call, and the wait after it.
  waits :
      (left : ℕ) (m : Recorder) (s : S) (m2 : Recorder) (s1 : S) (e : Error)
      (again : S → Result (List Game) × Recorder × S)
      → Tried m s (err e) m2 s1
      → ((s3 : S) → Counted c name (suc left) m2 s3 (again s3))
      → (stopped : Option Error) (s3 : S) → Same rt r c s1 s3
      → Counted c name
          (suc (suc left))
          m
          s
          (elim stopped [ some x ↦ (err x, m2, s3) | none ↦ again s3 ])
  waits left m s m2 s1 e again t k (some x) s3 q =
      ends (suc left) m s (err e) m2 s1 s3 (err x) t q refl
  waits left m s m2 s1 e again t k none s3 q =
      goes_on (suc left) m s m2 s1 s3 e (again s3) t q (k s3)

  fetch_loop-Counted :
      (left attempt : ℕ) (m : Recorder) (s : S)
      → is_on m ≡ true
      → Counted c name (suc left) m s (fetch_loop rt r date tz left attempt m s)
  unfolding fetch_loop compute_delay
  fetch_loop-Counted zero attempt m s h = last _ _ _ (try_once-Tried m s h) (rt.ctx_err _)
    where
      last :
          (res : Result (List Game)) (m1 : Recorder) (s1 : S)
          → Tried m s res m1 s1
          → (cut : Option Error)
          → Counted c name 1 m s (elim res [
            | ok games ↦ (ok games, m1, s1)
            | err e ↦ elim cut [ some x ↦ (err x, m1, s1) | none ↦ (err e, m1, s1) ]
          ])
      last (ok games) m1 s1 t cut = ends 0 m s (ok games) m1 s1 s1 (ok games) t (refl, refl) refl
      last (err e) m1 s1 t (some x) = ends 0 m s (err e) m1 s1 s1 (err x) t (refl, refl) refl
      last (err e) m1 s1 t none = ends 0 m s (err e) m1 s1 s1 (err e) t (refl, refl) refl
  fetch_loop-Counted (suc left) attempt m s h =
      next _ _ _ (try_once-Tried m s h) (λ m2 s3 on. fetch_loop-Counted left (attempt + 1) m2 s3 on)
        (rt.ctx_err _)
    where
      next :
          (res : Result (List Game)) (m1 : Recorder) (s1 : S)
          → Tried m s res m1 s1
          → ((m2 : Recorder) (s3 : S)
              → is_on m2 ≡ true
              → Counted c name (suc left) m2 s3 (fetch_loop rt r date tz left (attempt + 1) m2 s3))
          → (cut : Option Error)
          → Counted c name (suc (suc left)) m s (elim res [
            | ok games ↦ (ok games, m1, s1)
            | err e ↦ elim cut [
              | some x ↦ (err x, m1, s1)
              | none ↦
                  let (delay, m2, s2) = compute_delay rt r e attempt m1 s1 in
                  let (stopped, s3) = sleep rt r delay s2 in
                  elim stopped [
                    | some x ↦ (err x, m2, s3)
                    | none ↦ fetch_loop rt r date tz left (attempt + 1) m2 s3
                  ]
            ]
          ])
      next (ok games) m1 s1 t k cut =
          ends (suc left) m s (ok games) m1 s1 s1 (ok games) t (refl, refl) refl
      next (err e) m1 s1 t k (some x) =
          ends (suc left) m s (err e) m1 s1 s1 (err x) t (refl, refl) refl
      next (err e) m1 s1 t k none =
          let t2 = limited-Tried e (as_rate_limit_error e) m s m1 s1 t in
          let (delay, m2, s2) = compute_delay rt r e attempt m1 s1 in
          let (a, b) = requested_or-Same rt r c (backoff_fn r attempt) (as_rate_limit_error e) s1 in
          let (a', b') = sleep-Same rt r c delay s2 in
          waits left m s _ s1 e _ t2 (λ s3. k _ s3 t2.on) _ _ (a' ∙ a, b' ∙ b)

  -- With metrics on, at least one attempt allowed, and a count of the provider's calls and of those
  -- that fail, to which waits and random numbers add nothing: a fetch calls the provider at least
  -- once and at most `max_attempts` times; if it fails, every call failed, and if it succeeds, every
  -- call but the last did. The metrics have as many more calls and errors as the count.
  pub fetch_games-Counted :
      (m : Recorder) (s : S)
      → is_on m ≡ true
      → 1 ≤ r.max_attempts
      → Counted c name r.max_attempts m s (fetch_games rt r date tz m s)
  unfolding fetch_games
  fetch_games-Counted m s h low =
      let e : suc (r.max_attempts - 1) ≡ r.max_attempts = omega arith in
      subst (λ k. Counted c name k m s (fetch_loop rt r date tz (r.max_attempts - 1) 1 m s)) e
        (fetch_loop-Counted (r.max_attempts - 1) 1 m s h)
