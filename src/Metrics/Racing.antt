-- ===== src/Metrics/Racing.antt =====
-- Calls of RecordProviderAttempt and RecordRateLimit of metrics.go that overlap, a read or a write of
-- a counter at a time: ensureStats takes the lock to find the counters of a provider, and they are
-- changed after it is released.
pub mod Bounds
pub mod Turns
mod Tests
use nba_games_service.Base.{ℕ, zero, suc, ◌+◌, Bool, List, [], ◌∷◌, ◌++◌, if◌then◌else◌, ◌≡◌}
use nba_games_service.Base.Decimal.{ℤ}
use nba_games_service.Metrics.{ProviderStats, no_stats, is_positive}

-- Where a call of RecordProviderAttempt stands. What it has read of a counter is its own.
pub data AttemptStage : Type 0 where
  call_due : AttemptStage
  call_read : ℕ → AttemptStage
  latency_due : AttemptStage
  attempt_left : AttemptStage

-- And of one that has an error, after that.
pub data ErrorStage : Type 0 where
  error_due : ErrorStage
  error_read : ℕ → ErrorStage
  error_left : ErrorStage

-- And of RecordRateLimit.
pub data LimitStage : Type 0 where
  limit_due : LimitStage
  limit_read : ℕ → LimitStage
  wait_due : LimitStage
  limit_left : LimitStage

-- A call on the counters of one provider, with its arguments.
pub data Recording : Type 0 where
  attempt_at : ℤ → Bool → AttemptStage → Recording
  failure_at : ℤ → ErrorStage → Recording
  limit_at : ℤ → LimitStage → Recording

-- One read or write of a call.
unfoldable pub advance : Recording → ProviderStats → Recording × ProviderStats
advance (attempt_at t failed call_due) s = (attempt_at t failed (call_read s.calls), s)
advance (attempt_at t failed (call_read n)) s =
    (attempt_at t failed latency_due, record s { calls = n + 1 })
advance (attempt_at t failed latency_due) s = (
  if failed then failure_at t error_due else attempt_at t failed attempt_left,
  record s { last_call_latency = t },
)
advance (attempt_at t failed attempt_left) s = (attempt_at t failed attempt_left, s)
advance (failure_at t error_due) s = (failure_at t (error_read s.errors), s)
advance (failure_at t (error_read n)) s = (failure_at t error_left, record s { errors = n + 1 })
advance (failure_at t error_left) s = (failure_at t error_left, s)
advance (limit_at t limit_due) s = (limit_at t (limit_read s.rate_limit_hits), s)
advance (limit_at t (limit_read n)) s = (limit_at t wait_due, record s { rate_limit_hits = n + 1 })
advance (limit_at t wait_due) s = (
  limit_at t limit_left,
  record s { last_retry_after = if is_positive t then t else s.last_retry_after },
)
advance (limit_at t limit_left) s = (limit_at t limit_left, s)

-- A call that has found the counters.
pub data IsNew : Recording → Type 0 where
  new_attempt : (t : ℤ) (failed : Bool) → IsNew (attempt_at t failed call_due)
  new_limit : (t : ℤ) → IsNew (limit_at t limit_due)

pub record Race : Type 0 where
  pub stats : ProviderStats
  pub recordings : List Recording

abbrev pub new_race : Race
new_race = record { stats = no_stats; recordings = [] }

-- A call begins, or any call takes a step.
pub data Step : Race → Race → Type 0 where
  begins :
      (r : Race) {g : Recording}
      → IsNew g
      → Step r (record { stats = r.stats; recordings = g ∷ r.recordings })
  moves :
      (s : ProviderStats) (xs : List Recording) (g : Recording) (ys : List Recording)
      → Step
          (record { stats = s; recordings = xs ++ g ∷ ys })
          (record { stats = (advance g s).1; recordings = xs ++ (advance g s).0 ∷ ys })

pub data Reach : Race → Type 0 where
  here : Reach new_race
  next : {r q : Race} → Reach r → Step r q → Reach q

abbrev pub total : (Recording → ℕ) → List Recording → ℕ
total f [] = 0
total f (g ∷ gs) = f g + total f gs
