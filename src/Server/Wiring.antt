-- ===== src/Server/Wiring.antt =====
-- How internal/server puts the parts together: provider.go, provider_factory.go, provider_name.go, and
-- the provider of server.go.
use nba_games_service.Base.{
  ℕ, ◌≤◌, ◌≡◌, sym, ap, ◌∙◌, String, Option, none, some, List, str_eq, if◌then◌else◌, ◌||◌, arith,
}
use nba_games_service.Base.Decimal.{pos}
use nba_games_service.Calendar.{Time}
use nba_games_service.Config.{Config}
use nba_games_service.Domain.{Game}
use nba_games_service.Errors.{provider_unavailable, Result, err}
use nba_games_service.Metrics.{Recorder}
use nba_games_service.Providers.Provider.{Provider, Runtime, rate_limited_fetch}
use nba_games_service.Providers.Balldontlie.Client as client
use nba_games_service.Providers.Balldontlie.Client.{Http, Client, new_client, resolve_max_pages}
use nba_games_service.Providers.Balldontlie.Client.Pages.{fetch_games-ends}
use nba_games_service.Providers.Fixture as fixture
use nba_games_service.Providers.Retry as retry
use nba_games_service.Providers.Retry.{RetryingProvider, new_retrying_provider}
use nba_games_service.Providers.Retry.Calm.{calm_runtime, first_answer, fetch_games-nested}

-- `clock` is `time.Now`, `lower` is `strings.ToLower`, and `type_name` is a provider's `%T`.
pub record Outside {ℓ} (S : Type ℓ) : Type ℓ where
  pub http : Http S
  pub clock : S → Time
  pub lower : String → String

-- `none` is fuel that runs out.
abbrev pub returned {ℓ} :
    {S : Type ℓ} → S → Option (Result (List Game) × S) → Result (List Game) × S
returned s none = (err provider_unavailable, s)
returned s (some out) = out

module _ {ℓ} {S : Type ℓ} (o : Outside S) (cfg : Config) where
  -- `balldontlie.NewClient`, as `selectProvider` calls it: there is no page delay.
  abbrev pub configured_client : Client
  configured_client =
      let b = cfg.balldontlie in
      new_client o.http.load_location b.base_url b.api_key b.timezone (pos b.max_pages) (pos 0)

  abbrev pub client_provider : Provider S
  client_provider date tz s = returned s (client.fetch_games o.http configured_client date tz s)

  unfoldable pub select_provider : Provider S
  select_provider =
      if str_eq cfg.provider "fixture" || str_eq cfg.provider ""
      then fixture.fetch_games o.clock
      else if str_eq cfg.provider "balldontlie"
      then client_provider
      else fixture.fetch_games o.clock

  -- normalizeProviderName, of a provider's type, if there is a provider.
  unfoldable pub normalize_provider_name : Option String → String
  normalize_provider_name type_name =
      if str_eq cfg.provider ""
      then elim type_name [ none ↦ "provider" | some t ↦ o.lower t ]
      else o.lower cfg.provider

  abbrev base_type : String
  base_type =
      if str_eq cfg.provider "balldontlie" then "*balldontlie.Client" else "*fixture.Provider"

module _ {ℓ} {S : Type ℓ} (rt : Runtime S) (o : Outside S) (cfg : Config) where
  -- `providerFactory.build`.
  unfoldable pub build : RetryingProvider S
  build =
      new_retrying_provider (rate_limited_fetch rt (some (select_provider o cfg)))
        "*providers.rateLimitedProvider" (normalize_provider_name o cfg (some (base_type o cfg)))
        (pos 0) (pos 0)

  -- The provider that New makes has a nil recorder.
  abbrev built_provider : Provider S
  built_provider date tz s = let out = retry.fetch_games rt build date tz none s in (out.0, out.2)

  -- New: the provider of the poller, the syncer and the admin handler, which newServerWithMetrics
  -- makes of the provider that `build` returns.
  unfoldable pub new_server : RetryingProvider S
  new_server =
      new_retrying_provider built_provider "*providers.retryingProvider"
        (normalize_provider_name o cfg (some "*providers.retryingProvider")) (pos 0) (pos 0)

module _ {ℓ} {S : Type ℓ} (o : Outside S) (cfg : Config) where
  resolved_pages : 1 ≤ (configured_client o cfg).max_pages
  unfolding new_client resolve_max_pages
  resolved_pages = ground arith

  -- The provider of the configured client gives what the client returns.
  pub client_provider-returns :
      (date tz : String) (s : S)
      → client.fetch_games o.http (configured_client o cfg) date tz s
        ≡ some (client_provider o cfg date tz s)
  client_provider-returns date tz s =
      let (out, e) = fetch_games-ends o.http (configured_client o cfg) date tz s resolved_pages in
      e ∙ ap (λ q. some (returned s q)) (sym e)

-- Where the context is never done and all waits pass, a fetch of the service is the first success of
-- up to nine calls of the selected provider, or the ninth error: three attempts of three attempts.
pub fetch_games-new_server {ℓ} :
    {S : Type ℓ} (o : Outside S) (cfg : Config) (draw : ℕ → ℕ) (date tz : String) (m : Recorder)
    (s : S)
    → let out =
        retry.fetch_games (calm_runtime draw) (new_server (calm_runtime draw) o cfg) date tz m s in
      let ref = first_answer (select_provider o cfg) date tz 8 s in
      (out.0 ≡ ref.0) × (out.2 ≡ ref.1)
unfolding new_server build new_retrying_provider rate_limited_fetch
fetch_games-new_server o cfg draw date tz m s =
    fetch_games-nested draw (build (calm_runtime draw) o cfg) none date tz
      (new_server (calm_runtime draw) o cfg).provider_name 3 200000000 m s (omega arith)
      (omega arith)
