-- ===== src/Providers/Retry/Reporting/Telling.antt =====
-- What the log lines of retry_provider.go tell of a fetch.
use nba_games_service.Base.{
  ◌⊎◌, inl, inr, eq_refl, ℕ, zero, suc, ◌+◌, ◌-◌, ◌≤◌, ◌==◌, ◌&&◌, ltb, String, Bool, true, false,
  Option, none, some, List, [], ◌∷◌, ◌≡◌, refl, arith, str_eq,
}
use nba_games_service.Domain.{Game}
use nba_games_service.Errors.{Error, error_text, Result, ok, err}
use nba_games_service.Metrics.{Recorder}
use nba_games_service.Providers.Provider.{Runtime}
use nba_games_service.Providers.Retry.{
  RetryingProvider, try_once, compute_delay, sleep, fetch_loop, fetch_games,
}
use nba_games_service.Providers.Retry.Reporting.{
  Report, recovers, retries, gives_up, Outcome, success, reported_loop, reported_fetch,
}

-- Whether the reports from an attempt on tell how a fetch of `most` attempts went.
abbrev pub tells : ℕ → ℕ → List Report → Result (List Game) → Bool
tells most attempt [] (ok games) = attempt == 1
tells most attempt [] (err e) = true
tells most attempt (recovers n ∷ []) (ok games) = n == attempt && ltb 1 n
tells most attempt (gives_up n e ∷ []) (err e') =
    n == most && attempt == most && str_eq (error_text e) (error_text e')
tells most attempt (retries n delay e ∷ rest) res =
    n == attempt && ltb attempt most && tells most (attempt + 1) rest res
tells most attempt _ res = false

abbrev has_given_up : List Report → Bool
has_given_up [] = false
has_given_up (gives_up n e ∷ rest) = true
has_given_up (_ ∷ rest) = has_given_up rest

module _ {ℓ} {S : Type ℓ} (rt : Runtime S) (r : RetryingProvider S) (date tz : String) where
  -- The context has ended with an error, before or during a wait.
  abbrev Ended : Error → Type ℓ
  Ended e =
      ((s : S) × (rt.ctx_err s ≡ some e))
      ⊎ ((delay : ℕ) × (s : S) × ((sleep rt r delay s).0 ≡ some e))

  -- Why a fetch ends.
  abbrev Reason : List Report → Result (List Game) → Type ℓ
  Reason reports (ok games) = Unit
  Reason reports (err e) = (has_given_up reports ≡ true) ⊎ Ended e

  Reason-more :
      (x : Report) (reports : List Report) (res : Result (List Game))
      → Reason reports res
      → Reason (x ∷ reports) res
  Reason-more x reports (ok games) why = tt
  Reason-more (recovers n) reports (err e) why = why
  Reason-more (retries n delay f) reports (err e) why = why
  Reason-more (gives_up n f) reports (err e) why = inl refl

  -- The reports from an attempt on, and what the loop without them returns.
  abbrev pub Told : ℕ → List Report × Outcome S → Outcome S → Type ℓ
  Told attempt out plain =
      (out.1 ≡ plain)
      × (tells r.max_attempts attempt out.0 (out.1).0 ≡ true)
      × Reason out.0 (out.1).0

  reported_loop-Told :
      (left attempt : ℕ) (m : Recorder) (s : S)
      → 1 ≤ attempt
      → attempt + left ≡ r.max_attempts
      → Told attempt
          (reported_loop rt r date tz left attempt m s)
          (fetch_loop rt r date tz left attempt m s)
  unfolding reported_loop fetch_loop
  reported_loop-Told zero attempt m s low total =
      go (try_once rt r date tz m s).0 _ _ (rt.ctx_err _) refl
    where
      go :
          (res : Result (List Game)) (m1 : Recorder) (s1 : S) (c : Option Error)
          → rt.ctx_err s1 ≡ c
          → Told attempt
              (elim res as (λ _. List Report × Outcome S) [
                | ok games ↦ (success attempt, (ok games, m1, s1))
                | err e ↦ elim c [
                  | some x ↦ ([], (err x, m1, s1))
                  | none ↦ (gives_up r.max_attempts e ∷ [], (err e, m1, s1))
                ]
              ])
              (elim res as (λ _. Outcome S) [
                | ok games ↦ (ok games, m1, s1)
                | err e ↦ elim c [ some x ↦ (err x, m1, s1) | none ↦ (err e, m1, s1) ]
              ])
      go (ok games) m1 s1 c f = (refl, ground arith, tt)
      go (err e) m1 s1 (some x) f = (refl, refl, inr (inl (s1, f)))
      go (err e) m1 s1 none f = (refl, ground (arith, eq_refl (error_text e)), inl refl)
  reported_loop-Told (suc left) attempt m s low total =
      next (try_once rt r date tz m s).0 _ _ (rt.ctx_err _) refl
        (λ m2 s3. reported_loop-Told left (attempt + 1) m2 s3 (omega arith) (omega arith))
    where
      waits :
          (delay : ℕ) (e : Error) (m2 : Recorder) (s2 s3 : S) (stopped : Option Error)
          (again : List Report × Outcome S) (plain : Outcome S)
          → (sleep rt r delay s2).0 ≡ stopped
          → Told (attempt + 1) again plain
          → Told attempt
              (elim stopped as (λ _. List Report × Outcome S) [
                | some c ↦ (retries attempt delay e ∷ [], (err c, m2, s3))
                | none ↦ (retries attempt delay e ∷ again.0, again.1)
              ])
              (elim stopped as (λ _. Outcome S) [ some c ↦ (err c, m2, s3) | none ↦ plain ])
      waits delay e m2 s2 s3 (some c) again plain f k =
          (refl, ground arith, inr (inr (delay, s2, f)))
      waits delay e m2 s2 s3 none again plain f (k, t, why) =
          (k, ground (arith, t), Reason-more (retries attempt delay e) again.0 again.1.0 why)

      next :
          (res : Result (List Game)) (m1 : Recorder) (s1 : S) (c : Option Error)
          → rt.ctx_err s1 ≡ c
          → ((m2 : Recorder) (s3 : S)
              → Told
                  (attempt + 1)
                  (reported_loop rt r date tz left (attempt + 1) m2 s3)
                  (fetch_loop rt r date tz left (attempt + 1) m2 s3))
          → Told attempt
              (elim res as (λ _. List Report × Outcome S) [
                | ok games ↦ (success attempt, (ok games, m1, s1))
                | err e ↦ elim c [
                  | some x ↦ ([], (err x, m1, s1))
                  | none ↦
                      let (delay, m2, s2) = compute_delay rt r e attempt m1 s1 in
                      let (stopped, s3) = sleep rt r delay s2 in
                      elim stopped [
                        | some x ↦ (retries attempt delay e ∷ [], (err x, m2, s3))
                        | none ↦
                            let (reports, out) =
                              reported_loop rt r date tz left (attempt + 1) m2 s3 in
                            (retries attempt delay e ∷ reports, out)
                      ]
                ]
              ])
              (elim res as (λ _. Outcome S) [
                | ok games ↦ (ok games, m1, s1)
                | err e ↦ elim c [
                  | some x ↦ (err x, m1, s1)
                  | none ↦
                      let (delay, m2, s2) = compute_delay rt r e attempt m1 s1 in
                      let (stopped, s3) = sleep rt r delay s2 in
                      elim stopped [
                        | some x ↦ (err x, m2, s3)
                        | none ↦ fetch_loop rt r date tz left (attempt + 1) m2 s3
                      ]
                ]
              ])
      next (ok games) m1 s1 c f k = (refl, ground arith, tt)
      next (err e) m1 s1 (some x) f k = (refl, refl, inr (inl (s1, f)))
      next (err e) m1 s1 none f k =
          let (delay, m2, s2) = compute_delay rt r e attempt m1 s1 in
          let (stopped, s3) = sleep rt r delay s2 in
          waits delay e m2 s2 s3 stopped (reported_loop rt r date tz left (attempt + 1) m2 s3)
            (fetch_loop rt r date tz left (attempt + 1) m2 s3) refl (k m2 s3)

  -- A fetch with its reports returns what a fetch returns, if at least one attempt is allowed, and
  -- the reports tell how it went: the first attempts, each with its number and before the last
  -- one allowed, and then, if the fetch succeeds, the number of the attempt that did, if it is not
  -- the first; if it fails, either that all attempts are used up, with the error that is
  -- returned, or nothing more, and then the context has ended with this error.
  pub reported_fetch-Told :
      (m : Recorder) (s : S)
      → 1 ≤ r.max_attempts
      → Told 1 (reported_fetch rt r date tz m s) (fetch_games rt r date tz m s)
  unfolding reported_fetch fetch_games
  reported_fetch-Told m s h =
      reported_loop-Told (r.max_attempts - 1) 1 m s (omega arith) (omega arith)
