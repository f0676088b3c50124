-- ===== src/Metrics/Instruments/Agreement.antt =====
-- The instruments count what the recorder counts.
use nba_games_service.Base.{
  ℕ, ◌+◌, ◌≡◌, String, Bool, false, Option, some, List, [], ◌∷◌, ◌++◌, ◌&&◌, refl, sym, subst, ◌∙◌,
  arith, str_eq, if◌then◌else◌,
}
use nba_games_service.Errors.{Error, Result, ok}
use nba_games_service.Metrics.{
  attempt, limit, is_call, is_failure, is_limit, total, snapshot, hear_all, new_recorder,
  snapshot-hear_all,
}
use nba_games_service.Metrics.Instruments.{
  Kind, and_then, OtelInstruments, new_otel_instruments, text, Attributes, Sample, added, measured,
  Heard, provider_event, http_request, poller_cycle, otel_http_request, otel_provider_attempt,
  otel_rate_limit, otel_poller, observe, observe_all, provider_events,
}

abbrev is_provider : String → Attributes → Bool
is_provider q ((key, text p) ∷ []) = str_eq key "provider" && str_eq p q
is_provider q _ = false

-- What was added to a counter for a provider.
unfoldable pub added_to : String → String → List Sample → ℕ
added_to name q [] = 0
added_to name q (added n v attrs ∷ xs) =
    let rest = added_to name q xs in if str_eq n name && is_provider q attrs then v + rest else rest
added_to name q (measured n v attrs ∷ xs) = added_to name q xs

added_to-append :
    (name q : String) (xs ys : List Sample)
    → added_to name q (xs ++ ys) ≡ added_to name q xs + added_to name q ys
unfolding added_to
added_to-append name q [] ys = ground arith
added_to-append name q (added n v attrs ∷ xs) ys = ground (arith, added_to-append name q xs ys)
added_to-append name q (measured n v attrs ∷ xs) ys = ground (arith, added_to-append name q xs ys)

abbrev made : OtelInstruments
made = record {
  requests = "http_requests_total";
  request_latency_ms = "http_request_duration_ms";
  provider_attempts = "provider_attempts_total";
  provider_errors = "provider_errors_total";
  provider_latency_ms = "provider_duration_ms";
  rate_limit_hits = "provider_rate_limit_hits_total";
  retry_after_ms = "provider_retry_after_ms";
  poller_cycles = "poller_cycles_total";
  poller_errors = "poller_errors_total";
  poller_latency_ms = "poller_cycle_duration_ms";
}

and_then_inv :
    (make : Kind → String → Option Error) (k : Kind) (name : String)
    (f : String → Result OtelInstruments) (o : OtelInstruments)
    → and_then make k name f ≡ ok o
    → f name ≡ ok o
and_then_inv make k name f o e = ground (arith, e)

new_otel_instruments-made :
    (make : Kind → String → Option Error) (o : OtelInstruments)
    → new_otel_instruments make ≡ ok o
    → o ≡ made
unfolding new_otel_instruments
new_otel_instruments-made make o e = ground (arith, e)

observed :
    (hs : List Heard) (q : String)
    → (added_to "provider_attempts_total" q (observe_all (some made) hs)
        ≡ total (is_call q) (provider_events hs))
      × (added_to "provider_errors_total" q (observe_all (some made) hs)
          ≡ total (is_failure q) (provider_events hs))
      × (added_to "provider_rate_limit_hits_total" q (observe_all (some made) hs)
          ≡ total (is_limit q) (provider_events hs))
unfolding observe_all observe provider_events added_to otel_http_request otel_provider_attempt
    otel_rate_limit otel_poller total
observed [] q = (refl, refl, refl)
observed (provider_event (attempt p t failed) ∷ hs) q =
    let (a, b, c) = observed hs q in (ground (arith, a), ground (arith, b), ground (arith, c))
observed (provider_event (limit p t) ∷ hs) q =
    let (a, b, c) = observed hs q in (ground (arith, a), ground (arith, b), ground (arith, c))
observed (http_request m p s t ∷ hs) q = observed hs q
observed (poller_cycle t failed ∷ hs) q =
    let (a, b, c) = observed hs q in (ground (arith, a), ground (arith, b), ground (arith, c))

-- Once all instruments are made, whatever a new recorder hears, the attempts, errors and rate limits
-- that its instruments have counted for a provider are those that its snapshot of the provider shows.
pub snapshot-observe_all :
    (make : Kind → String → Option Error) (o : OtelInstruments) (hs : List Heard) (q : String)
    → new_otel_instruments make ≡ ok o
    → let s = snapshot (hear_all (provider_events hs) new_recorder) q in
      let out = observe_all (some o) hs in
      (added_to o.provider_attempts q out ≡ s.calls)
      × (added_to o.provider_errors q out ≡ s.errors)
      × (added_to o.rate_limit_hits q out ≡ s.rate_limit_hits)
snapshot-observe_all make o hs q e =
    let (a, b, c) = observed hs q in
    let (a', b', c') = snapshot-hear_all (provider_events hs) q in
    let s = snapshot (hear_all (provider_events hs) new_recorder) q in
    subst
      (λ x.
        (added_to x.provider_attempts q (observe_all (some x) hs) ≡ s.calls)
        × (added_to x.provider_errors q (observe_all (some x) hs) ≡ s.errors)
        × (added_to x.rate_limit_hits q (observe_all (some x) hs) ≡ s.rate_limit_hits))
      (sym (new_otel_instruments-made make o e)) (a ∙ sym a', b ∙ sym b', c ∙ sym c')
