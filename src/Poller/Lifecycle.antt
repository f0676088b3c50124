-- ===== src/Poller/Lifecycle.antt =====
-- Start, Stop and the goroutine of poller.go, as steps that may come in any order.
pub mod Stopping
use nba_games_service.Base.{
  ℕ, ◌+◌, ◌≤◌, ◌≡◌, ◌≢◌, ◌⊎◌, Bool, true, false, if◌then◌else◌, refl, arith,
}

pub data Ticker : Type 0 where
  no_ticker running stopped : Ticker

-- The goroutine: not there, about to be made by a call of Start, before its first fetch, in its
-- `select`, or returned.
pub data Phase : Type 0 where
  absent launching warming waiting ended : Phase

-- `buffered` counts the ticks in the ticker's channel, `closes` the calls of `close(p.done)`, and
-- `loops` the goroutines made; `cycles` counts the calls of `fetchOnce`.
pub record Lifecycle : Type 0 where
  pub started : Bool
  pub stop_once : Bool
  pub context_done : Bool
  pub ticker : Ticker
  pub buffered : ℕ
  pub phase : Phase
  pub cycles : ℕ
  pub loops : ℕ
  pub closes : ℕ

abbrev pub new_lifecycle : Lifecycle
new_lifecycle = record {
  started = false;
  stop_once = false;
  context_done = false;
  ticker = no_ticker;
  buffered = 0;
  phase = absent;
  cycles = 0;
  loops = 0;
  closes = 0;
}

-- What Start does under its lock.
abbrev pub start : Lifecycle → Lifecycle
start l = if l.started then l else record l { started = true; phase = launching }

-- The rest of Start: the ticker and the goroutine.
abbrev pub launch : Lifecycle → Lifecycle
launch l = record l { ticker = running; phase = warming; loops = l.loops + 1 }

abbrev pub stop_ticker : Ticker → Ticker
stop_ticker no_ticker = no_ticker
stop_ticker running = stopped
stop_ticker stopped = stopped

abbrev pub stop : Lifecycle → Lifecycle
stop l =
    if l.stop_once
    then l
    else record l { stop_once = true; closes = l.closes + 1; ticker = stop_ticker l.ticker }

-- `p.done` is closed exactly when `stopOnce` has run. A ticker keeps at most one tick, also after
-- it is stopped, and `select` takes any case that is ready.
pub data Step : Lifecycle → Lifecycle → Type 0 where
  calls_start : (l : Lifecycle) → Step l (start l)
  launches : (l : Lifecycle) → l.phase ≡ launching → Step l (launch l)
  calls_stop : (l : Lifecycle) → Step l (stop l)
  cancels : (l : Lifecycle) → Step l (record l { context_done = true })
  fires : (l : Lifecycle) → l.ticker ≡ running → Step l (record l { buffered = 1 })
  warms :
      (l : Lifecycle)
      → l.phase ≡ warming
      → Step l (record l { phase = waiting; cycles = l.cycles + 1 })
  ticks :
      (l : Lifecycle)
      → l.phase ≡ waiting
      → l.buffered ≡ 1
      → Step l (record l { buffered = 0; cycles = l.cycles + 1 })
  leaves :
      (l : Lifecycle)
      → l.phase ≡ waiting
      → (l.stop_once ≡ true) ⊎ (l.context_done ≡ true)
      → Step l (record l { phase = ended; ticker = stop_ticker l.ticker })

pub data Reach (s : Lifecycle) : Lifecycle → Type 0 where
  here : Reach s s
  next : {t u : Lifecycle} → Reach s t → Step t u → Reach s u

-- What holds of a poller at any time: nothing runs before Start; there is a ticker and one goroutine
-- from the launch on; a goroutine that returned has stopped the ticker; the channel is closed once,
-- by the first Stop; the ticker's channel holds at most one tick.
abbrev pub Inv : Lifecycle → Type 0
Inv l =
    (l.started ≡ false → l.phase ≡ absent)
    × (((l.phase ≡ absent) ⊎ (l.phase ≡ launching))
        → (l.loops ≡ 0) × (l.ticker ≡ no_ticker) × (l.buffered ≡ 0))
    × (((l.phase ≡ absent) ⊎ (l.phase ≡ launching)) ⊎ ((l.loops ≡ 1) × (l.ticker ≢ no_ticker)))
    × (l.phase ≡ ended → l.ticker ≡ stopped)
    × (l.closes ≡ (if l.stop_once then 1 else 0))
    × (l.buffered ≤ 1)

new_lifecycle-Inv : Inv new_lifecycle
new_lifecycle-Inv = ground arith

Step-Inv : {l m : Lifecycle} → Step l m → Inv l → Inv m
Step-Inv (calls_start l) v = ground arith
Step-Inv (launches l e) v = ground arith
Step-Inv (calls_stop l) v = ground arith
Step-Inv (cancels l) v = ground arith
Step-Inv (fires l e) v = ground arith
Step-Inv (warms l e) v = ground arith
Step-Inv (ticks l e f) v = ground arith
Step-Inv (leaves l e f) v = ground arith

-- In any order of calls of Start and Stop, ticks and cancellation, at most one goroutine is made, a
-- goroutine that returns leaves the ticker stopped, and the channel is closed once, at the first
-- Stop, so no call closes it twice.
pub Reach-Inv : {l : Lifecycle} → Reach new_lifecycle l → Inv l
Reach-Inv here = new_lifecycle-Inv
Reach-Inv (next r s) = Step-Inv s (Reach-Inv r)
