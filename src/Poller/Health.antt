-- ===== src/Poller/Health.antt =====
-- When the poller counts as ready, over a run of its cycles.
use nba_games_service.Base.{
  ℕ, ◌+◌, ◌≡◌, refl, Bool, true, false, ◌&&◌, none, some, List, [], ◌∷◌, if◌then◌else◌, ltb, arith,
  ap, ◌∙◌,
}
use mathlib.Core.Path.{ap₂}
use nba_games_service.Calendar.{Time, format_date}
use nba_games_service.Domain.{Game}
use nba_games_service.Errors.{Result, ok, err}
use nba_games_service.Snapshots.Files.{Env}
use nba_games_service.Poller.{
  Status, Poller, World, is_ready, record_attempt, record_success, record_failure, fetch_once,
  after_fetch, no_status,
}

-- What each of a run's cycles meets.
pub record Cycle : Type 0 where
  pub env : Env
  pub start : Time
  pub now : Time

module _ {ℓ} {S : Type ℓ} (p : Poller S) where
  unfoldable pub run : List Cycle → World S → World S
  run [] w = w
  run (c ∷ cs) w = run cs (fetch_once p c.env c.start c.now w)

  -- Whether the cycle's fetch fails.
  abbrev pub fails : Result (List Game) → Bool
  fails (ok g) = false
  fails (err e) = true

  -- For each cycle of a run in order, whether its fetch fails.
  unfoldable pub failures : List Cycle → World S → List Bool
  failures [] w = []
  failures (c ∷ cs) w =
      fails (p.provider (format_date (p.loc c.now)) "" w.outside).0
      ∷ failures cs (fetch_once p c.env c.start c.now w)

-- The number of failures at the end of a list, `n` and whether there was a success before it.
pub trailing : List Bool → ℕ → ℕ
trailing [] n = n
trailing (f ∷ fs) n = trailing fs (if f then n + 1 else 0)

pub succeeded : List Bool → Bool → Bool
succeeded [] b = b
succeeded (f ∷ fs) b = succeeded fs (if f then b else true)

abbrev pub has_success : Status → Bool
has_success s = elim s.last_success [ none ↦ false | some t ↦ true ]

is_ready_lem : (s : Status) → is_ready s ≡ (has_success s && ltb s.consecutive_failures 3)
unfolding is_ready
is_ready_lem s = ground arith

module _ {ℓ} {S : Type ℓ} (p : Poller S) where
  fetch_once-status :
      (c : Cycle) (w : World S)
      → let f = fails p (p.provider (format_date (p.loc c.now)) "" w.outside).0 in
        let s = (fetch_once p c.env c.start c.now w).status in
        (s.consecutive_failures ≡ (if f then w.status.consecutive_failures + 1 else 0))
        × (has_success s ≡ (if f then has_success w.status else true))
  unfolding fetch_once record_attempt record_success record_failure
  fetch_once-status c w = by_result (p.provider (format_date (p.loc c.now)) "" w.outside)
    where
      by_result :
          (r : Result (List Game) × S)
          → let s =
              (after_fetch p c.env c.start
                (format_date (p.loc c.now))
                (record w { status = record_attempt c.start w.status })
                r).status in
            (s.consecutive_failures
              ≡ (if fails p r.0 then w.status.consecutive_failures + 1 else 0))
            × (has_success s ≡ (if fails p r.0 then has_success w.status else true))
      by_result (ok g, s) = (refl, refl)
      by_result (err e, s) = (refl, refl)

  run-status :
      (cs : List Cycle) (w : World S)
      → ((run p cs w).status.consecutive_failures
          ≡ trailing (failures p cs w) w.status.consecutive_failures)
        × (has_success (run p cs w).status ≡ succeeded (failures p cs w) (has_success w.status))
  unfolding run failures trailing succeeded
  run-status [] w = (refl, refl)
  run-status (c ∷ cs) w =
      let (a, b) = fetch_once-status c w in
      let (ih0, ih1) = run-status cs (fetch_once p c.env c.start c.now w) in
      (
        ih0 ∙ ap (trailing (failures p cs (fetch_once p c.env c.start c.now w))) a,
        ih1 ∙ ap (succeeded (failures p cs (fetch_once p c.env c.start c.now w))) b,
      )

  -- From a new poller's status, after a run of cycles the poller is ready exactly if some fetch of
  -- the run succeeded and fewer than three failed since the last that did.
  pub is_ready-run :
      (cs : List Cycle) (w : World S)
      → w.status ≡ no_status
      → is_ready (run p cs w).status
        ≡ (succeeded (failures p cs w) false && ltb (trailing (failures p cs w) 0) 3)
  is_ready-run cs w e =
      let (a, b) = run-status cs w in
      is_ready_lem (run p cs w).status
      ∙ ap₂ (λ x n. x && ltb n 3) (b ∙ ap (λ s. succeeded (failures p cs w) (has_success s)) e)
          (a ∙ ap (λ s. trailing (failures p cs w) s.consecutive_failures) e)
