-- ===== src/Metrics/Racing/Turns.antt =====
-- Calls of metrics.go that come one after another.
use nba_games_service.Base.{
  ℕ, zero, suc, ◌≡◌, ◌∙◌, sym, ap, subst, refl, true, false, String, some, List, [], ◌∷◌, ◌++◌, All,
  eq_refl,
}
use nba_games_service.Base.Assoc.{lookup}
use nba_games_service.Base.Decimal.{ℤ}
use nba_games_service.Metrics.{
  ProviderStats, no_stats, Event, attempt, limit, hear, new_recorder, Recorder, snapshot,
  record_provider_attempt, record_rate_limit, snapshot-record_provider_attempt,
  snapshot-record_rate_limit,
}
use nba_games_service.Metrics.Racing.{
  call_due, call_read, latency_due, attempt_left, error_due, error_read, error_left, limit_due,
  limit_read, wait_due, limit_left, Recording, attempt_at, failure_at, limit_at, advance, IsNew,
  new_attempt, new_limit, Race, new_race,
}

-- A call that has returned.
pub data HasLeft : Recording → Type 0 where
  attempt_returned : (t : ℤ) → HasLeft (attempt_at t false attempt_left)
  failure_returned : (t : ℤ) → HasLeft (failure_at t error_left)
  limit_returned : (t : ℤ) → HasLeft (limit_at t limit_left)

-- The runs in which a call begins only when all others have returned.
pub data Turns : Race → Type 0 where
  here : Turns new_race
  begins :
      {r : Race} {g : Recording}
      → Turns r
      → IsNew g
      → All HasLeft r.recordings
      → Turns (record { stats = r.stats; recordings = g ∷ r.recordings })
  moves :
      (s : ProviderStats) (xs : List Recording) (g : Recording) (ys : List Recording)
      → Turns (record { stats = s; recordings = xs ++ g ∷ ys })
      → Turns (record { stats = (advance g s).1; recordings = xs ++ (advance g s).0 ∷ ys })

-- The call, as an event of the provider.
abbrev pub event_of : String → Recording → Event
event_of p (attempt_at t failed _) = attempt p t failed
event_of p (failure_at t _) = attempt p t true
event_of p (limit_at t _) = limit p t

-- A recorder that has heard of the calls, of which the last comes first.
unfoldable pub hear_recordings : String → List Recording → Recorder
hear_recordings p [] = new_recorder
hear_recordings p (g ∷ gs) = hear (event_of p g) (hear_recordings p gs)

-- The rest of a call.
unfoldable run_to_end : ℕ → Recording → ProviderStats → ProviderStats
unfolding advance
run_to_end zero g s = s
run_to_end (suc n) g s = run_to_end n (advance g s).0 (advance g s).1

run_to_end-HasLeft : {g : Recording} (s : ProviderStats) → HasLeft g → run_to_end 5 g s ≡ s
unfolding run_to_end
run_to_end-HasLeft s (attempt_returned t) = refl
run_to_end-HasLeft s (failure_returned t) = refl
run_to_end-HasLeft s (limit_returned t) = refl

advance-HasLeft : {g : Recording} (s : ProviderStats) → HasLeft g → advance g s ≡ (g, s)
unfolding advance
advance-HasLeft s (attempt_returned t) = refl
advance-HasLeft s (failure_returned t) = refl
advance-HasLeft s (limit_returned t) = refl

run_to_end-advance :
    (g : Recording) (s : ProviderStats)
    → run_to_end 5 (advance g s).0 (advance g s).1 ≡ run_to_end 5 g s
unfolding run_to_end
run_to_end-advance (attempt_at t true call_due) s = refl
run_to_end-advance (attempt_at t false call_due) s = refl
run_to_end-advance (attempt_at t true (call_read n)) s = refl
run_to_end-advance (attempt_at t false (call_read n)) s = refl
run_to_end-advance (attempt_at t true latency_due) s = refl
run_to_end-advance (attempt_at t false latency_due) s = refl
run_to_end-advance (attempt_at t failed attempt_left) s = refl
run_to_end-advance (failure_at t error_due) s = refl
run_to_end-advance (failure_at t (error_read n)) s = refl
run_to_end-advance (failure_at t error_left) s = refl
run_to_end-advance (limit_at t limit_due) s = refl
run_to_end-advance (limit_at t (limit_read n)) s = refl
run_to_end-advance (limit_at t wait_due) s = refl
run_to_end-advance (limit_at t limit_left) s = refl

event_of-advance :
    (p : String) (g : Recording) (s : ProviderStats) → event_of p (advance g s).0 ≡ event_of p g
unfolding advance
event_of-advance p (attempt_at t failed call_due) s = refl
event_of-advance p (attempt_at t failed (call_read n)) s = refl
event_of-advance p (attempt_at t true latency_due) s = refl
event_of-advance p (attempt_at t false latency_due) s = refl
event_of-advance p (attempt_at t failed attempt_left) s = refl
event_of-advance p (failure_at t error_due) s = refl
event_of-advance p (failure_at t (error_read n)) s = refl
event_of-advance p (failure_at t error_left) s = refl
event_of-advance p (limit_at t limit_due) s = refl
event_of-advance p (limit_at t (limit_read n)) s = refl
event_of-advance p (limit_at t wait_due) s = refl
event_of-advance p (limit_at t limit_left) s = refl

hear-some :
    (e : Event) (m : List (String × ProviderStats))
    → (m' : List (String × ProviderStats)) × (hear e (some m) ≡ some m')
unfolding hear record_provider_attempt record_rate_limit
hear-some (attempt q t failed) m = (_, refl)
hear-some (limit q t) m = (_, refl)

All-middle :
    (xs : List Recording) (g : Recording) (ys : List Recording)
    → All HasLeft (xs ++ g ∷ ys)
    → HasLeft g
All-middle [] g ys a = a.0
All-middle (x ∷ xs) g ys a = All-middle xs g ys a.1

module _ (p : String) where
  -- The counters that the sequential recorder has.
  abbrev heard : List Recording → ProviderStats
  heard gs = snapshot (hear_recordings p gs) p

  hear_recordings-some :
      (gs : List Recording) → (m : List (String × ProviderStats)) × (hear_recordings p gs ≡ some m)
  unfolding hear_recordings
  hear_recordings-some [] = ([], refl)
  hear_recordings-some (g ∷ gs) =
      let (m, e) = hear_recordings-some gs in
      let (m', k) = hear-some (event_of p g) m in (m', ap (hear (event_of p g)) e ∙ k)

  run_to_end-IsNew :
      {g : Recording} (gs : List Recording) → IsNew g → run_to_end 5 g (heard gs) ≡ heard (g ∷ gs)
  unfolding run_to_end hear_recordings hear
  run_to_end-IsNew gs (new_attempt t true) =
      let (m, e) = hear_recordings-some gs in
      rw (e, snapshot-record_provider_attempt m p p t true, eq_refl p) refl
  run_to_end-IsNew gs (new_attempt t false) =
      let (m, e) = hear_recordings-some gs in
      rw (e, snapshot-record_provider_attempt m p p t false, eq_refl p) refl
  run_to_end-IsNew gs (new_limit t) =
      let (m, e) = hear_recordings-some gs in
      rw (e, snapshot-record_rate_limit m p p t, eq_refl p) refl

  abbrev TurnInv : ProviderStats → List Recording → Type 0
  TurnInv s [] = s ≡ no_stats
  TurnInv s (g ∷ gs) = All HasLeft gs × (run_to_end 5 g s ≡ heard (g ∷ gs))

  HasLeft-heard :
      (s : ProviderStats) (gs : List Recording) → TurnInv s gs → All HasLeft gs → s ≡ heard gs
  unfolding hear_recordings snapshot lookup
  HasLeft-heard s [] v h = v
  HasLeft-heard s (g ∷ gs) v h = sym (run_to_end-HasLeft s h.0) ∙ v.1

  moves-TurnInv :
      (s : ProviderStats) (xs : List Recording) (g : Recording) (ys : List Recording)
      → TurnInv s (xs ++ g ∷ ys)
      → TurnInv (advance g s).1 (xs ++ (advance g s).0 ∷ ys)
  unfolding hear_recordings
  moves-TurnInv s [] g ys v = (
    v.0,
    run_to_end-advance g s
        ∙ v.1
        ∙ ap (λ e. snapshot (hear e (hear_recordings p ys)) p) (sym (event_of-advance p g s)),
  )
  moves-TurnInv s (x ∷ xs) g ys v =
      let still = advance-HasLeft s (All-middle xs g ys v.0) in
      subst (λ q. TurnInv q.1 (x ∷ xs ++ q.0 ∷ ys)) (sym still) v

  Turns-TurnInv : {r : Race} → Turns r → TurnInv r.stats r.recordings
  Turns-TurnInv here = refl
  Turns-TurnInv (begins {r} {g} ts n h) =
      let before = HasLeft-heard r.stats r.recordings (Turns-TurnInv ts) h in
      (h, ap (run_to_end 5 g) before ∙ run_to_end-IsNew r.recordings n)
  Turns-TurnInv (moves s xs g ys ts) = moves-TurnInv s xs g ys (Turns-TurnInv ts)

-- If a call begins only when all others have returned, then, once all have, the counters of the
-- provider are those of a recorder that has heard of the calls in their order, each as a whole.
pub Turns-hear_recordings :
    (p : String) {r : Race}
    → Turns r
    → All HasLeft r.recordings
    → r.stats ≡ snapshot (hear_recordings p r.recordings) p
Turns-hear_recordings p {r} ts h = HasLeft-heard p r.stats r.recordings (Turns-TurnInv p ts) h
