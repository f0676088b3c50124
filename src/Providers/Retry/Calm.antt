-- ===== src/Providers/Retry/Calm.antt =====
-- The retry loop where the context is never done, and retry loops inside one another.
use nba_games_service.Base.{
  ℕ, zero, suc, ◌+◌, ◌-◌, ◌*◌, ◌≤◌, ◌≡◌, refl, sym, String, inl, inr, List, Option, none, some,
  arith, ap, ◌∙◌,
}
use mathlib.Core.Path.{ap₂}
use native.Mathlib.Nat.{suc-mul}
use nba_games_service.Base.Decimal.{ℤ, pos, negsuc}
use nba_games_service.Domain.{Game}
use nba_games_service.Errors.{
  Error, RateLimitError, as_rate_limit_error, Result, Result-cases, ok, err,
}
use nba_games_service.Metrics.{Recorder}
use nba_games_service.Providers.Provider.{Provider, Runtime}
use nba_games_service.Providers.Retry.{
  RetryingProvider, try_once, jitter_delay, requested_or, backoff_fn, compute_delay, sleep,
  fetch_loop, fetch_games,
}

-- A context that is never done, and waits that pass; `draw` gives the random numbers.
abbrev pub calm_runtime {ℓ} : {S : Type ℓ} → (ℕ → ℕ) → Runtime S
calm_runtime draw = record {
  ctx_err = λ s. none;
  elapsed = λ s. pos 0;
  int63n = λ n s. (draw n, s);
  wait = λ n s. (none, s);
  wait_tick = λ s. (none, s);
}

module _ {ℓ} {S : Type ℓ} (draw : ℕ → ℕ) (r : RetryingProvider S) where
  abbrev rt : Runtime S
  rt = calm_runtime draw

  jitter_stays : (base : ℤ) (s : S) → (jitter_delay rt r base s).1 ≡ s
  unfolding jitter_delay
  jitter_stays (pos base) s = ground arith
  jitter_stays (negsuc n) s = refl

  delay_stays :
      (e : Error) (attempt : ℕ) (m : Recorder) (s : S) → (compute_delay rt r e attempt m s).2 ≡ s
  unfolding compute_delay
  delay_stays e attempt m s = requested_stays (as_rate_limit_error e)
    where
      requested_stays :
          (l : Option RateLimitError) → (requested_or rt r (backoff_fn r attempt) l s).1 ≡ s
      requested_stays none = jitter_stays (backoff_fn r attempt) s
      requested_stays (some x) = by_request x.retry_after
        where
          by_request :
              (n : ℤ)
              → (requested_or rt r (backoff_fn r attempt) (some (record x { retry_after = n })) s).1
                ≡ s
          by_request (pos zero) = jitter_stays (backoff_fn r attempt) s
          by_request (pos (suc n)) = refl
          by_request (negsuc n) = jitter_stays (backoff_fn r attempt) s

  sleep_stays : (n : ℕ) (s : S) → sleep rt r n s ≡ (none, s)
  unfolding sleep
  sleep_stays zero s = refl
  sleep_stays (suc n) s = refl

  abbrev Out : Type ℓ
  Out = Result (List Game) × Recorder × S

  -- The wait changes the metrics only.
  after_wait :
      (again : Recorder → S → Out) (e : Error) (attempt : ℕ) (m : Recorder) (s : S)
      → let (delay, m2, s2) = compute_delay rt r e attempt m s in
        let (stopped, s3) = sleep rt r delay s2 in
        ◌≡◌ {A = Out} (elim stopped [ some c ↦ (err c, m2, s3) | none ↦ again m2 s3 ]) (again m2 s)
  after_wait again e attempt m s =
      let (delay, m2, s2) = compute_delay rt r e attempt m s in
      ap (λ q. elim q.0 as (λ _. Out) [ some c ↦ (err c, m2, q.1) | none ↦ again m2 q.1 ])
        (sleep_stays delay s2)
      ∙ ap (again m2) (delay_stays e attempt m s)

-- Calls of a provider until one succeeds: at most `left` more than one.
unfoldable pub first_answer {ℓ} :
    {S : Type ℓ} → Provider S → String → String → ℕ → S → Result (List Game) × S
first_answer p date tz zero s = p date tz s
first_answer p date tz (suc left) s =
    let (res, s1) = p date tz s in
    elim res [ ok gs ↦ (ok gs, s1) | err e ↦ first_answer p date tz left s1 ]

module _ {ℓ} {S : Type ℓ} (draw : ℕ → ℕ) (r : RetryingProvider S) (date tz : String) where
  abbrev p : Provider S
  p = r.game_provider

  pub fetch_loop-first_answer :
      (left attempt : ℕ) (m : Recorder) (s : S)
      → let out = fetch_loop (calm_runtime draw) r date tz left attempt m s in
        (out.0 ≡ (first_answer p date tz left s).0) × (out.2 ≡ (first_answer p date tz left s).1)
  unfolding fetch_loop first_answer try_once
  fetch_loop-first_answer zero attempt m s = (ground arith, ground arith)
  fetch_loop-first_answer (suc left) attempt m s = elim (Result-cases (p date tz s).0) [
    | inl (gs, e) ↦ rw (e, fetch_loop, first_answer, try_once) (refl, refl)
    | inr (x, e) ↦
        let (res, m1, s1) = try_once (calm_runtime draw) r date tz m s in
        let m2 = (compute_delay (calm_runtime draw) r x attempt m1 s1).1 in
        let (ih0, ih1) = fetch_loop-first_answer left (attempt + 1) m2 s1 in
        let w =
          after_wait draw r (λ m s. fetch_loop (calm_runtime draw) r date tz left (attempt + 1) m s)
            x attempt m1 s1 in
        rw (e, fetch_loop, first_answer, try_once) (ap (λ o. o.0) w ∙ ih0, ap (λ o. o.2) w ∙ ih1)
  ]

-- A retrying provider as a provider, with its own metrics.
abbrev pub as_provider {ℓ} : {S : Type ℓ} → (ℕ → ℕ) → RetryingProvider S → Recorder → Provider S
as_provider draw r m date tz s =
    let out = fetch_games (calm_runtime draw) r date tz m s in (out.0, out.2)

module _ {ℓ} {S : Type ℓ} (p : Provider S) (date tz : String) where
  abbrev goes_on : ℕ → Result (List Game) × S → Result (List Game) × S
  goes_on left q = elim q.0 [ ok gs ↦ (ok gs, q.1) | err e ↦ first_answer p date tz left q.1 ]

  first_answer-append :
      (a b : ℕ) (s : S)
      → first_answer p date tz (a + suc b) s ≡ goes_on b (first_answer p date tz a s)
  unfolding first_answer
  first_answer-append zero b s =
      let e : 0 + suc b ≡ suc b = omega arith in ap (λ n. first_answer p date tz n s) e
  first_answer-append (suc a) b s =
      let e : suc a + suc b ≡ suc (a + suc b) = omega arith in
      ap (λ n. first_answer p date tz n s) e
      ∙ by_answer (p date tz s) (λ s1. first_answer-append a b s1)
    where
      by_answer :
          (q : Result (List Game) × S)
          → ((s1 : S)
              → first_answer p date tz (a + suc b) s1 ≡ goes_on b (first_answer p date tz a s1))
          → ◌≡◌ {A = Result (List Game) × S}
              (elim q.0 [ ok gs ↦ (ok gs, q.1) | err e ↦ first_answer p date tz (a + suc b) q.1 ])
              (goes_on b (elim q.0 [ ok gs ↦ (ok gs, q.1) | err e ↦ first_answer p date tz a q.1 ]))
      by_answer (ok gs, s1) ih = refl
      by_answer (err e, s1) ih = ih s1

product : (a b : ℕ) → 1 ≤ a → 1 ≤ b → (a - 1) * suc (b - 1) + (b - 1) ≡ a * b - 1
product zero b h k = absurd (omega arith)
product (suc a) zero h k = absurd (omega arith)
product (suc a) (suc b) h k =
    let e : suc a - 1 ≡ a = omega arith in
    let f : suc b - 1 ≡ b = omega arith in rw (e, f, suc-mul) (omega arith)

module _ {ℓ} {S : Type ℓ} (draw : ℕ → ℕ) (inner : RetryingProvider S) (m : Recorder)
    (date tz : String) where
  abbrev wrapped : Provider S
  wrapped = as_provider draw inner m

  abbrev more : ℕ
  more = inner.max_attempts - 1

  wrapped-first_answer :
      (s : S) → wrapped date tz s ≡ first_answer inner.game_provider date tz more s
  unfolding fetch_games
  wrapped-first_answer s =
      let (a, b) = fetch_loop-first_answer draw inner date tz more 1 m s in ap₂ (λ x y. (x, y)) a b

  first_answer-wrapped :
      (left : ℕ) (s : S)
      → first_answer wrapped date tz left s
        ≡ first_answer inner.game_provider date tz (left * suc more + more) s
  unfolding first_answer
  first_answer-wrapped zero s =
      wrapped-first_answer s ∙ ap (λ n. first_answer inner.game_provider date tz n s) (omega arith)
  first_answer-wrapped (suc left) s =
      ap
        (λ q. elim q.0 as (λ _. Result (List Game) × S) [
          | ok gs ↦ (ok gs, q.1)
          | err e ↦ first_answer wrapped date tz left q.1
        ])
        (wrapped-first_answer s)
      ∙ by_answer (first_answer inner.game_provider date tz more s)
          (λ s1. first_answer-wrapped left s1)
      ∙ sym (first_answer-append inner.game_provider date tz more (left * suc more + more) s)
      ∙ ap (λ n. first_answer inner.game_provider date tz n s) (omega arith)
    where
      by_answer :
          (q : Result (List Game) × S)
          → ((s1 : S)
              → first_answer wrapped date tz left s1
                ≡ first_answer inner.game_provider date tz (left * suc more + more) s1)
          → ◌≡◌ {A = Result (List Game) × S}
              (elim q.0 [ ok gs ↦ (ok gs, q.1) | err e ↦ first_answer wrapped date tz left q.1 ])
              (goes_on inner.game_provider date tz (left * suc more + more) q)
      by_answer (ok gs, s1) ih = refl
      by_answer (err e, s1) ih = ih s1

  -- Where the context is never done, a retrying provider around a retrying provider answers as one
  -- whose attempts are the product of theirs, and leaves the innermost provider in the same state.
  -- Both have at least one attempt.
  pub fetch_games-nested :
      (name : String) (max_attempts backoff : ℕ) (m' : Recorder) (s : S)
      → 1 ≤ max_attempts
      → 1 ≤ inner.max_attempts
      → let outer : RetryingProvider S = record {
        game_provider = wrapped;
        provider_name = name;
        max_attempts = max_attempts;
        backoff = backoff;
      } in
        let out = fetch_games (calm_runtime draw) outer date tz m' s in
        let ref =
          first_answer inner.game_provider date tz (max_attempts * inner.max_attempts - 1) s in
        (out.0 ≡ ref.0) × (out.2 ≡ ref.1)
  unfolding fetch_games
  fetch_games-nested name max_attempts backoff m' s h k =
      let outer : RetryingProvider S = record {
        game_provider = wrapped;
        provider_name = name;
        max_attempts = max_attempts;
        backoff = backoff;
      } in
      let (a, b) = fetch_loop-first_answer draw outer date tz (max_attempts - 1) 1 m' s in
      let count : (max_attempts - 1) * suc more + more ≡ max_attempts * inner.max_attempts - 1 =
        product max_attempts inner.max_attempts h k in
      let e =
        first_answer-wrapped (max_attempts - 1) s
        ∙ ap (λ n. first_answer inner.game_provider date tz n s) count in
      (a ∙ ap (λ q. q.0) e, b ∙ ap (λ q. q.1) e)
