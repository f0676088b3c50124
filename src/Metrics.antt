-- ===== src/Metrics.antt =====
-- internal/metrics/metrics.go: counters for each provider.
pub mod Instruments
pub mod Telemetry
pub mod Racing
mod Tests
use nba_games_service.Base.{
  ℕ, zero, suc, ◌+◌, ◌≡◌, refl, String, Bool, true, false, Option, none, some, List, [], ◌∷◌,
  str_eq, if◌then◌else◌, arith, eq_iff, eq_refl, Bool-cases, inl, inr, ap, ◌∙◌,
}
use nba_games_service.Base.Assoc.{lookup, insert, lookup-insert}
use nba_games_service.Base.Decimal.{ℤ, pos, negsuc}

-- `providerStats` and the exported `Snapshot`; times in nanoseconds.
pub record ProviderStats : Type 0 where
  pub calls : ℕ
  pub errors : ℕ
  pub rate_limit_hits : ℕ
  pub last_retry_after : ℤ
  pub last_call_latency : ℤ

-- A nil recorder is `none`.
abbrev pub Recorder : Type 0
Recorder = Option (List (String × ProviderStats))

abbrev pub new_recorder : Recorder
new_recorder = some []

abbrev pub no_stats : ProviderStats
no_stats = record {
  calls = 0;
  errors = 0;
  rate_limit_hits = 0;
  last_retry_after = pos 0;
  last_call_latency = pos 0;
}

abbrev stats_or_none : Option ProviderStats → ProviderStats
stats_or_none none = no_stats
stats_or_none (some s) = s

-- `(*Recorder).Snapshot`, and `ensureStats` as a value.
unfoldable pub snapshot : Recorder → String → ProviderStats
snapshot none provider = no_stats
snapshot (some m) provider = stats_or_none (lookup provider m)

-- ProviderCalls, ProviderErrors, RateLimitHits, LastRetryAfter and LastCallLatency.
module _ (m : Recorder) (provider : String) where
  abbrev pub provider_calls : ℕ
  provider_calls = (snapshot m provider).calls

  abbrev pub provider_errors : ℕ
  provider_errors = (snapshot m provider).errors

  abbrev pub rate_limit_hits : ℕ
  rate_limit_hits = (snapshot m provider).rate_limit_hits

  abbrev pub last_retry_after : ℤ
  last_retry_after = (snapshot m provider).last_retry_after

  abbrev pub last_call_latency : ℤ
  last_call_latency = (snapshot m provider).last_call_latency

abbrev pub is_positive : ℤ → Bool
is_positive (pos (suc n)) = true
is_positive _ = false

-- The update of the stats that `ensureStats` returns.
abbrev update : Recorder → String → (ProviderStats → ProviderStats) → Recorder
update none provider f = none
update (some m) provider f = some (insert provider (f (snapshot (some m) provider)) m)

-- `failed` says that there is an error.
abbrev attempted : ℤ → Bool → ProviderStats → ProviderStats
attempted duration failed s = record s {
  calls = s.calls + 1;
  last_call_latency = duration;
  errors = if failed then s.errors + 1 else s.errors;
}

unfoldable pub record_provider_attempt : String → ℤ → Bool → Recorder → Recorder
record_provider_attempt provider duration failed r = update r provider (attempted duration failed)

abbrev limited : ℤ → ProviderStats → ProviderStats
limited retry_after s = record s {
  rate_limit_hits = s.rate_limit_hits + 1;
  last_retry_after = if is_positive retry_after then retry_after else s.last_retry_after;
}

unfoldable pub record_rate_limit : String → ℤ → Recorder → Recorder
record_rate_limit provider retry_after r = update r provider (limited retry_after)

snapshot-update :
    (m : List (String × ProviderStats)) (p q : String) (f : ProviderStats → ProviderStats)
    → snapshot (update (some m) p f) q
      ≡ (if str_eq p q then f (snapshot (some m) q) else snapshot (some m) q)
unfolding snapshot
snapshot-update m p q f = ground (arith, lookup-insert p q (f (snapshot (some m) p)) m, eq_iff p q)

pub snapshot-record_provider_attempt :
    (m : List (String × ProviderStats)) (p q : String) (t : ℤ) (failed : Bool)
    → snapshot (record_provider_attempt p t failed (some m)) q
      ≡ (if str_eq p q then attempted t failed (snapshot (some m) q) else snapshot (some m) q)
unfolding record_provider_attempt
snapshot-record_provider_attempt m p q t failed = snapshot-update m p q (attempted t failed)

pub snapshot-record_rate_limit :
    (m : List (String × ProviderStats)) (p q : String) (t : ℤ)
    → snapshot (record_rate_limit p t (some m)) q
      ≡ (if str_eq p q then limited t (snapshot (some m) q) else snapshot (some m) q)
unfolding record_rate_limit
snapshot-record_rate_limit m p q t = snapshot-update m p q (limited t)

-- What a recorder hears of.
pub data Event : Type 0 where
  attempt : String → ℤ → Bool → Event
  limit : String → ℤ → Event

unfoldable pub hear : Event → Recorder → Recorder
hear (attempt p t failed) r = record_provider_attempt p t failed r
hear (limit p t) r = record_rate_limit p t r

unfoldable pub hear_all : List Event → Recorder → Recorder
hear_all [] r = r
hear_all (e ∷ es) r = hear_all es (hear e r)

-- One exactly if the event is an attempt at `q`; a failed one; a rate limit of `q`.
abbrev pub is_call : String → Event → ℕ
is_call q (attempt p t failed) = if str_eq p q then 1 else 0
is_call q (limit p t) = 0

abbrev pub is_failure : String → Event → ℕ
is_failure q (attempt p t failed) = if str_eq p q then (if failed then 1 else 0) else 0
is_failure q (limit p t) = 0

abbrev pub is_limit : String → Event → ℕ
is_limit q (attempt p t failed) = 0
is_limit q (limit p t) = if str_eq p q then 1 else 0

pub total : (Event → ℕ) → List Event → ℕ
total f [] = 0
total f (e ∷ es) = f e + total f es

heard :
    (es : List Event) (m : List (String × ProviderStats)) (q : String)
    → let s = snapshot (hear_all es (some m)) q in
      let s0 = snapshot (some m) q in
      (s.calls ≡ s0.calls + total (is_call q) es)
      × (s.errors ≡ s0.errors + total (is_failure q) es)
      × (s.rate_limit_hits ≡ s0.rate_limit_hits + total (is_limit q) es)
unfolding hear_all hear total record_provider_attempt record_rate_limit
heard [] m q = (omega arith, omega arith, omega arith)
heard (attempt p t failed ∷ es) m q =
    let (a, b, c) = heard es (insert p (attempted t failed (snapshot (some m) p)) m) q in
    let e = snapshot-record_provider_attempt m p q t failed in
    (ground (arith, a, e), ground (arith, b, e), ground (arith, c, e))
heard (limit p t ∷ es) m q =
    let (a, b, c) = heard es (insert p (limited t (snapshot (some m) p)) m) q in
    let e = snapshot-record_rate_limit m p q t in
    (ground (arith, a, e), ground (arith, b, e), ground (arith, c, e))

-- A new recorder that has heard a list of events counts, for each provider, the attempts, the
-- failed ones and the rate limits that are in the list.
pub snapshot-hear_all :
    (es : List Event) (q : String)
    → let s = snapshot (hear_all es new_recorder) q in
      (s.calls ≡ total (is_call q) es)
      × (s.errors ≡ total (is_failure q) es)
      × (s.rate_limit_hits ≡ total (is_limit q) es)
snapshot-hear_all es q =
    let (a, b, c) = heard es [] q in
    unfold snapshot lookup in (omega arith, omega arith, omega arith)
