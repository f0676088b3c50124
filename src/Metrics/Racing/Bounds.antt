-- ===== src/Metrics/Racing/Bounds.antt =====
-- The counters of metrics.go under calls that overlap: none is above what has been written, and none
-- is 0 once it has been written.
use nba_games_service.Base.{
  ℕ, ◌+◌, ◌≤◌, ◌≡◌, ◌⊎◌, true, false, List, [], ◌∷◌, ◌++◌, arith, All, All-append,
}
use nba_games_service.Metrics.{ProviderStats}
use nba_games_service.Metrics.Racing.{
  call_due, call_read, latency_due, attempt_left, error_due, error_read, error_left, limit_due,
  limit_read, wait_due, limit_left, Recording, attempt_at, failure_at, limit_at, advance,
  new_attempt, new_limit, Race, Step, begins, moves, Reach, here, next, total,
}

-- One if the call has written the counter of calls, of errors or of rate limits.
abbrev pub called : Recording → ℕ
called (attempt_at t failed call_due) = 0
called (attempt_at t failed (call_read n)) = 0
called (attempt_at t failed _) = 1
called (failure_at t _) = 1
called (limit_at t _) = 0

abbrev pub erred : Recording → ℕ
erred (failure_at t error_left) = 1
erred _ = 0

abbrev pub hit : Recording → ℕ
hit (limit_at t wait_due) = 1
hit (limit_at t limit_left) = 1
hit _ = 0

-- What the call has read of a counter and is about to add to.
abbrev seen_calls : Recording → ℕ
seen_calls (attempt_at t failed (call_read n)) = n
seen_calls _ = 0

abbrev seen_errors : Recording → ℕ
seen_errors (failure_at t (error_read n)) = n
seen_errors _ = 0

abbrev seen_hits : Recording → ℕ
seen_hits (limit_at t (limit_read n)) = n
seen_hits _ = 0

-- A step of a call either leaves a counter, and has read at most what it is, or writes one more than
-- what it had read.
abbrev Keeps :
    (ProviderStats → ℕ) → (Recording → ℕ) → (Recording → ℕ) → Recording → ProviderStats → Type 0
Keeps field stored seen g s =
    ((field (advance g s).1 ≡ field s)
      × (stored (advance g s).0 ≡ stored g)
      × (seen (advance g s).0 ≤ field s))
    ⊎ ((field (advance g s).1 ≡ seen g + 1)
        × (stored (advance g s).0 ≡ stored g + 1)
        × (seen (advance g s).0 ≡ 0))

advance_lem :
    (g : Recording) (s : ProviderStats)
    → Keeps (λ s. s.calls) called seen_calls g s
      × Keeps (λ s. s.errors) erred seen_errors g s
      × Keeps (λ s. s.rate_limit_hits) hit seen_hits g s
unfolding advance
advance_lem (attempt_at t failed call_due) s = ground arith
advance_lem (attempt_at t failed (call_read n)) s = ground arith
advance_lem (attempt_at t true latency_due) s = ground arith
advance_lem (attempt_at t false latency_due) s = ground arith
advance_lem (attempt_at t failed attempt_left) s = ground arith
advance_lem (failure_at t error_due) s = ground arith
advance_lem (failure_at t (error_read n)) s = ground arith
advance_lem (failure_at t error_left) s = ground arith
advance_lem (limit_at t limit_due) s = ground arith
advance_lem (limit_at t (limit_read n)) s = ground arith
advance_lem (limit_at t wait_due) s = ground arith
advance_lem (limit_at t limit_left) s = ground arith

-- A counter that has been written `n` times.
abbrev pub Between : ℕ → ℕ → Type 0
Between m n = (m ≤ n) × (1 ≤ n → 1 ≤ m)

total-append :
    (f : Recording → ℕ) (xs ys : List Recording) → total f (xs ++ ys) ≡ total f xs + total f ys
total-append f [] ys = omega arith
total-append f (x ∷ xs) ys = omega (arith, total-append f xs ys)

module _ (field : ProviderStats → ℕ) (stored seen : Recording → ℕ) where
  -- No call has read more of the counter than has been written.
  abbrev SeenUpTo : ℕ → List Recording → Type 0
  SeenUpTo n = All (λ g. seen g ≤ n)

  SeenUpTo-le : (m n : ℕ) → m ≤ n → (gs : List Recording) → SeenUpTo m gs → SeenUpTo n gs
  SeenUpTo-le m n h [] a = tt
  SeenUpTo-le m n h (g ∷ gs) a = (omega (arith, a.0), SeenUpTo-le m n h gs a.1)

  SeenUpTo-split :
      (n : ℕ) (xs ys : List Recording) → SeenUpTo n (xs ++ ys) → SeenUpTo n xs × SeenUpTo n ys
  SeenUpTo-split n [] ys a = (tt, a)
  SeenUpTo-split n (x ∷ xs) ys a = let (p, q) = SeenUpTo-split n xs ys a.1 in ((a.0, p), q)

  abbrev Inv : Race → Type 0
  Inv r = let n = total stored r.recordings in Between (field r.stats) n × SeenUpTo n r.recordings

  moves-Inv :
      (s : ProviderStats) (xs : List Recording) (g : Recording) (ys : List Recording)
      → Keeps field stored seen g s
      → Inv (record { stats = s; recordings = xs ++ g ∷ ys })
      → Inv (record { stats = (advance g s).1; recordings = xs ++ (advance g s).0 ∷ ys })
  moves-Inv s xs g ys k (b, a) =
      let g' = (advance g s).0 in
      let before = total-append stored xs (g ∷ ys) in
      let after = total-append stored xs (g' ∷ ys) in
      let more : total stored (xs ++ g ∷ ys) ≤ total stored (xs ++ g' ∷ ys) =
        ground (arith, before, after, k) in
      let (p, (own, q)) = SeenUpTo-split _ xs (g ∷ ys) a in
      let kept = SeenUpTo-le _ _ more in
      (
        ground (arith, before, after, k, b, own),
        All-append (λ g. seen g ≤ _) xs (g' ∷ ys) (kept xs p)
            (ground (arith, before, after, k, b), kept ys q),
      )

-- Of the calls, those that have written each counter.
abbrev pub Bounded : Race → Type 0
Bounded r =
    Between r.stats.calls (total called r.recordings)
    × Between r.stats.errors (total erred r.recordings)
    × Between r.stats.rate_limit_hits (total hit r.recordings)

abbrev AllInv : Race → Type 0
AllInv r =
    Inv (λ s. s.calls) called seen_calls r
    × Inv (λ s. s.errors) erred seen_errors r
    × Inv (λ s. s.rate_limit_hits) hit seen_hits r

Step-Inv : {r q : Race} → Step r q → AllInv r → AllInv q
Step-Inv (begins r (new_attempt t failed)) v = ground arith
Step-Inv (begins r (new_limit t)) v = ground arith
Step-Inv (moves s xs g ys) (v, w, u) =
    let (a, b, c) = advance_lem g s in
    (
      moves-Inv (λ s. s.calls) called seen_calls s xs g ys a v,
      moves-Inv (λ s. s.errors) erred seen_errors s xs g ys b w,
      moves-Inv (λ s. s.rate_limit_hits) hit seen_hits s xs g ys c u,
    )

Reach-Inv : {r : Race} → Reach r → AllInv r
Reach-Inv here = ground arith
Reach-Inv (next r s) = Step-Inv s (Reach-Inv r)

-- Calls overlap in any way, a read or a write of a counter at a time. Then the counters of calls, of
-- errors and of rate limits are at most the number of calls that have written them, and at least 1 if
-- one has.
pub Reach-Bounded : {r : Race} → Reach r → Bounded r
Reach-Bounded r = let ((a, _), (b, _), (c, _)) = Reach-Inv r in (a, b, c)
