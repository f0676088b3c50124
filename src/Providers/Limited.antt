-- ===== src/Providers/Limited.antt =====
-- The rate limiter of internal/providers/limit_provider.go: calls that wait for one ticker, as steps
-- in any order.
use native.Mathlib.Nat.{mul-le-mul_right}
use nba_games_service.Base.Decimal.{ℤ, positive_or}
use nba_games_service.Base.{refl, subst, ◌*◌, ◌∙◌, ℕ, ◌+◌, ◌-◌, ◌≤◌, ◌≡◌, Bool, true, false, arith}

-- `buffered` counts the ticks in the ticker's channel and `fired` all ticks so far; of the calls,
-- `waiting` are in their `select`, `passed` went on to the provider inside, and `canceled` returned
-- the error of their context. `now` is the time since the ticker was made, in nanoseconds.
pub record Limiter : Type 0 where
  pub interval : ℕ
  pub now : ℕ
  pub closed : Bool
  pub buffered : ℕ
  pub fired : ℕ
  pub arrived : ℕ
  pub waiting : ℕ
  pub passed : ℕ
  pub canceled : ℕ

-- NewRateLimitedProvider makes the ticker; the interval is a minute, where none is given.
abbrev pub new_limiter : ℤ → Limiter
new_limiter interval = record {
  interval = positive_or interval 60000000000;
  now = 0;
  closed = false;
  buffered = 0;
  fired = 0;
  arrived = 0;
  waiting = 0;
  passed = 0;
  canceled = 0;
}

-- A call of FetchGames that finds a provider inside, with its `select`, the ticker, and Close. A
-- ticker keeps at most one tick, also after it is stopped, and no tick comes before its time.
pub data Step : Limiter → Limiter → Type 0 where
  arrives : (l : Limiter) → Step l (record l { arrived = l.arrived + 1; waiting = l.waiting + 1 })
  elapses : (l : Limiter) (n : ℕ) → Step l (record l { now = l.now + n })
  fires :
      (l : Limiter)
      → l.closed ≡ false
      → (l.fired + 1) * l.interval ≤ l.now
      → Step l (record l { buffered = 1; fired = l.fired + 1 })
  passes :
      (l : Limiter)
      → 1 ≤ l.waiting
      → l.buffered ≡ 1
      → Step l (record l { buffered = 0; waiting = l.waiting - 1; passed = l.passed + 1 })
  cancels :
      (l : Limiter)
      → 1 ≤ l.waiting
      → Step l (record l { waiting = l.waiting - 1; canceled = l.canceled + 1 })
  closes : (l : Limiter) → Step l (record l { closed = true })

pub data Reach (s : Limiter) : Limiter → Type 0 where
  here : Reach s s
  next : {t u : Limiter} → Reach s t → Step t u → Reach s u

abbrev Inv : Limiter → Type 0
Inv l =
    (l.buffered ≤ 1)
    × (l.arrived ≡ l.waiting + l.passed + l.canceled)
    × (l.passed + l.buffered ≤ l.fired)
    × (l.fired * l.interval ≤ l.now)

Step-Inv : {l m : Limiter} → Step l m → Inv l → Inv m
Step-Inv (arrives l) v = ground arith
Step-Inv (elapses l n) v = ground arith
Step-Inv (fires l e t) v = ground (arith, t)
Step-Inv (passes l e f) v = ground arith
Step-Inv (cancels l e) v = ground arith
Step-Inv (closes l) v = ground arith

Reach-Inv : {l m : Limiter} → Reach l m → Inv l → Inv m
Reach-Inv here v = v
Reach-Inv (next r s) v = Step-Inv s (Reach-Inv r v)

-- From one state to a later one: the calls that passed are paid for by ticks.
abbrev Paid : Limiter → Limiter → Type 0
Paid l m =
    (m.passed + m.buffered + l.fired ≤ l.passed + l.buffered + m.fired)
    × (l.fired ≤ m.fired)
    × (l.closed ≡ true → (m.closed ≡ true) × (m.fired ≡ l.fired))

Step-Paid : (k : Limiter) {l m : Limiter} → Step l m → Paid k l → Paid k m
Step-Paid k (arrives l) v = ground arith
Step-Paid k (elapses l n) v = ground arith
Step-Paid k (fires l e t) v = ground arith
Step-Paid k (passes l e f) v = ground arith
Step-Paid k (cancels l e) v = ground arith
Step-Paid k (closes l) v = ground arith

Reach-Paid : {l m : Limiter} → Reach l m → Paid l m
Reach-Paid {l} here = ground arith
Reach-Paid {l} (next r s) = Step-Paid l s (Reach-Paid r)

-- A limiter keeps its interval.
Reach-interval : {l m : Limiter} → Reach l m → m.interval ≡ l.interval
Reach-interval here = refl
Reach-interval (next r (arrives l)) = Reach-interval r
Reach-interval (next r (elapses l n)) = Reach-interval r
Reach-interval (next r (fires l e t)) = Reach-interval r
Reach-interval (next r (passes l e f)) = Reach-interval r
Reach-interval (next r (cancels l e)) = Reach-interval r
Reach-interval (next r (closes l)) = Reach-interval r

-- Whenever calls come, and whatever cancels them, the calls that have gone on to the provider inside
-- are at most as many as there are whole intervals since the limiter was made; between any two
-- moments at most one more than there are ticks goes on, and once Close has run at most one does.
-- No call is lost: each waits, has gone on, or was canceled.
pub passed-Reach :
    (interval : ℤ) {l m : Limiter}
    → Reach (new_limiter interval) l
    → Reach l m
    → (m.passed * positive_or interval 60000000000 ≤ m.now)
      × (m.passed ≤ l.passed + (m.fired - l.fired) + 1)
      × (l.closed ≡ true → m.passed ≤ l.passed + 1)
      × (m.arrived ≡ m.waiting + m.passed + m.canceled)
passed-Reach interval {l} {m} r q =
    let v = Reach-Inv r (ground arith) in
    let (kept, all, paid_for, timely) = Reach-Inv q v in
    let paid = Reach-Paid q in
    let few : m.passed ≤ m.fired = omega (arith, paid_for) in
    let in_time : m.passed * m.interval ≤ m.now =
      omega (arith, mul-le-mul_right m.interval few, timely) in
    (
      subst (λ k. m.passed * k ≤ m.now) (Reach-interval q ∙ Reach-interval r) in_time,
      ground (arith, v, paid, kept),
      ground (arith, v, paid, kept),
      all,
    )
