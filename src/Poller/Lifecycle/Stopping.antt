-- ===== src/Poller/Lifecycle/Stopping.antt =====
-- What a poller does once its ticker is stopped.
use nba_games_service.Base.{ℕ, ◌+◌, ◌≤◌, ◌≡◌, ◌⊎◌, inl, inr, true, refl, arith}
use nba_games_service.Poller.Lifecycle.{
  stopped, warming, waiting, ended, Lifecycle, new_lifecycle, Step, Reach, here, next, calls_start,
  launches, calls_stop, cancels, fires, warms, ticks, leaves, Inv, Reach-Inv, Step-Inv,
}

-- The cycles made, and those that nothing can hold back any more.
abbrev bound : Lifecycle → ℕ
bound l = l.cycles + l.buffered + elim l.phase [ warming ↦ 1 | _ ↦ 0 ]

Step-bound :
    {l m : Lifecycle}
    → Step l m
    → Inv l
    → l.ticker ≡ stopped
    → (m.ticker ≡ stopped) × (bound m ≤ bound l)
Step-bound (calls_start l) v e = ground arith
Step-bound (launches l f) v e = ground arith
Step-bound (calls_stop l) v e = ground arith
Step-bound (cancels l) v e = ground arith
Step-bound (fires l f) v e = ground arith
Step-bound (warms l f) v e = ground arith
Step-bound (ticks l f g) v e = ground arith
Step-bound (leaves l f g) v e = ground arith

Reach-bound :
    {l m : Lifecycle}
    → Inv l
    → l.ticker ≡ stopped
    → Reach l m
    → Inv m × (m.ticker ≡ stopped) × (bound m ≤ bound l)
Reach-bound v e here = (v, e, omega arith)
Reach-bound v e (next r s) =
    let (w, t, b) = Reach-bound v e r in
    let (t', b') = Step-bound s w t in (Step-Inv s w, t', omega arith)

-- Once the ticker is stopped, it stays stopped, and a poller makes at most two more cycles whatever
-- follows: the one before its first `select`, and one for a tick that is waiting.
pub stopped-cycles :
    {l m : Lifecycle}
    → Reach new_lifecycle l
    → l.ticker ≡ stopped
    → Reach l m
    → (m.ticker ≡ stopped) × (m.cycles ≤ l.cycles + 2)
stopped-cycles {l} {m} r e r' =
    let v = Reach-Inv r in let (w, t, b) = Reach-bound v e r' in (t, ground (arith, v, b))

-- After Stop or a cancellation, a goroutine that has not returned has a way to return, and has then
-- stopped the ticker.
pub stopped-ends :
    {l : Lifecycle}
    → Reach new_lifecycle l
    → (l.stop_once ≡ true) ⊎ (l.context_done ≡ true)
    → (l.phase ≡ warming) ⊎ (l.phase ≡ waiting)
    → (m : Lifecycle) × Reach l m × (m.phase ≡ ended) × (m.ticker ≡ stopped)
stopped-ends {l} r d (inr w) =
    let s = leaves l w d in (_, next here s, refl, ground (arith, Reach-Inv (next r s)))
stopped-ends {l} r d (inl w) =
    let s1 = warms l w in
    let s2 = leaves (record l { phase = waiting; cycles = l.cycles + 1 }) refl d in
    (_, next (next here s1) s2, refl, ground (arith, Reach-Inv (next (next r s1) s2)))
