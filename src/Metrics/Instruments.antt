-- ===== src/Metrics/Instruments.antt =====
-- The OpenTelemetry instruments of internal/metrics/otel.go, and what a recorder passes on to them.
pub mod Agreement
use nba_games_service.Base.{
  ℕ, zero, suc, ◌+◌, ◌/◌, ◌≡◌, String, Bool, true, false, Option, none, some, List, [], ◌∷◌, ◌++◌,
  ◌&&◌, refl, ap, ◌∙◌, arith, str_eq, if◌then◌else◌,
}
use nba_games_service.Base.Decimal.{ℤ, pos, negsuc}
use nba_games_service.Errors.{Error, Result, ok, err}
use nba_games_service.Metrics.{Event, attempt, limit, is_positive}

pub data Kind : Type 0 where
  counter histogram : Kind

-- An instrument is known by the name that the meter made it under.
pub record OtelInstruments : Type 0 where
  pub requests : String
  pub request_latency_ms : String
  pub provider_attempts : String
  pub provider_errors : String
  pub provider_latency_ms : String
  pub rate_limit_hits : String
  pub retry_after_ms : String
  pub poller_cycles : String
  pub poller_errors : String
  pub poller_latency_ms : String

-- `make` is the meter: the error of making an instrument, if there is one.
abbrev pub and_then :
    (Kind → String → Option Error)
    → Kind
    → String
    → (String → Result OtelInstruments)
    → Result OtelInstruments
and_then make k name f = elim (make k name) [ none ↦ f name | some e ↦ err e ]

-- newOtelInstruments.
unfoldable pub new_otel_instruments : (Kind → String → Option Error) → Result OtelInstruments
new_otel_instruments make = and_then make counter "http_requests_total" λ requests.
    and_then make histogram "http_request_duration_ms" λ request_latency.
      and_then make counter "provider_attempts_total" λ provider_attempts.
        and_then make counter "provider_errors_total" λ provider_errors.
          and_then make histogram "provider_duration_ms" λ provider_latency.
            and_then make counter "provider_rate_limit_hits_total" λ rate_limit_hits.
              and_then make histogram "provider_retry_after_ms" λ retry_after.
                and_then make counter "poller_cycles_total" λ poller_cycles.
                  and_then make counter "poller_errors_total" λ poller_errors.
                    and_then make histogram "poller_cycle_duration_ms" λ poller_latency. ok record {
                      requests = requests;
                      request_latency_ms = request_latency;
                      provider_attempts = provider_attempts;
                      provider_errors = provider_errors;
                      provider_latency_ms = provider_latency;
                      rate_limit_hits = rate_limit_hits;
                      retry_after_ms = retry_after;
                      poller_cycles = poller_cycles;
                      poller_errors = poller_errors;
                      poller_latency_ms = poller_latency;
                    }

pub data Attribute : Type 0 where
  text : String → Attribute
  number : ℕ → Attribute

abbrev pub Attributes : Type 0
Attributes = List (String × Attribute)

-- One call of `Add` or `Record`: the instrument, the value, the attributes.
pub data Sample : Type 0 where
  added : String → ℕ → Attributes → Sample
  measured : String → ℤ → Attributes → Sample

-- `duration.Milliseconds()`, of nanoseconds; its float64 is exact below 2 ^ 53.
unfoldable pub milliseconds : ℤ → ℤ
milliseconds (pos n) = pos (n / 1000000)
milliseconds (negsuc n) = elim ((n + 1) / 1000000) [ zero ↦ pos 0 | suc m ↦ negsuc m ]

abbrev provider_attr : String → Attributes
provider_attr provider = ("provider", text provider) ∷ []

unfoldable pub otel_http_request : Option OtelInstruments → String → String → ℕ → ℤ → List Sample
otel_http_request none method path status duration = []
otel_http_request (some o) method path status duration =
    let attrs : Attributes =
      ("method", text method) ∷ ("path", text path) ∷ ("status", number status) ∷ [] in
    added o.requests 1 attrs ∷ measured o.request_latency_ms (milliseconds duration) attrs ∷ []

unfoldable pub otel_provider_attempt : Option OtelInstruments → String → ℤ → Bool → List Sample
otel_provider_attempt none provider duration failed = []
otel_provider_attempt (some o) provider duration failed =
    added o.provider_attempts 1 (provider_attr provider)
    ∷ measured o.provider_latency_ms (milliseconds duration) (provider_attr provider)
    ∷ (if failed then added o.provider_errors 1 (provider_attr provider) ∷ [] else [])

unfoldable pub otel_rate_limit : Option OtelInstruments → String → ℤ → List Sample
otel_rate_limit none provider retry_after = []
otel_rate_limit (some o) provider retry_after =
    added o.rate_limit_hits 1 (provider_attr provider)
    ∷ (if is_positive retry_after
        then measured o.retry_after_ms (milliseconds retry_after) (provider_attr provider) ∷ []
        else [])

unfoldable pub otel_poller : Option OtelInstruments → ℤ → Bool → List Sample
otel_poller none duration failed = []
otel_poller (some o) duration failed =
    added o.poller_cycles 1 []
    ∷ measured o.poller_latency_ms (milliseconds duration) []
    ∷ (if failed then added o.poller_errors 1 [] ∷ [] else [])

-- A call of a recorder: one that its counters keep, RecordHTTPRequest, or RecordPollerCycle.
pub data Heard : Type 0 where
  provider_event : Event → Heard
  http_request : String → String → ℕ → ℤ → Heard
  poller_cycle : ℤ → Bool → Heard

-- What a recorder that is not nil passes on.
unfoldable pub observe : Option OtelInstruments → Heard → List Sample
observe o (provider_event (attempt p t failed)) = otel_provider_attempt o p t failed
observe o (provider_event (limit p t)) = otel_rate_limit o p t
observe o (http_request method path status t) = otel_http_request o method path status t
observe o (poller_cycle t failed) = otel_poller o t failed

unfoldable pub observe_all : Option OtelInstruments → List Heard → List Sample
observe_all o [] = []
observe_all o (h ∷ hs) = observe o h ++ observe_all o hs

unfoldable pub provider_events : List Heard → List Event
provider_events [] = []
provider_events (provider_event e ∷ hs) = e ∷ provider_events hs
provider_events (http_request m p s t ∷ hs) = provider_events hs
provider_events (poller_cycle t failed ∷ hs) = provider_events hs
