-- ===== src/Server/Life/Ending.antt =====
-- How a service that main of cmd/server/main.go makes starts, waits and ends.
use Prim.Native.String.{◌++◌}
use nba_games_service.Base.{
  ℕ, String, Bool, true, false, Option, none, some, List, [], ◌∷◌, ◌≡◌, ◌&&◌, ◌||◌, not, refl, sym,
  subst, arith, str_eq, if◌then◌else◌, Bool-cases, inl, inr,
}
use nba_games_service.Base.Decimal.{ℤ}
use nba_games_service.Config.{
  Getenv, load_config, load_metrics, load_snapshot_sync, env_or_default, bool_env_or_default,
}
use nba_games_service.Logging.{Logger}
use nba_games_service.Metrics.Telemetry.{Exporters, exporters_work, build_metrics-exporters_work}
use nba_games_service.Providers.Provider.{Runtime}
use nba_games_service.Server.Assembly.{Process, build_snapshots}
use nba_games_service.Server.Shutdown.{
  Call, Parts, no_error, server_closed, failed_with, starts_metrics_server, starts_http_server,
  starts_poller, stops_telemetry, stops_metrics_server, stops_poller, stops_http_server,
  closes_provider, times, in_order, logged_count, failures, start_all, graceful_shutdown, run,
  launch_stops,
}
use nba_games_service.Server.Life.{
  Answers, Event, signal, http_returns, metrics_returns, Server, listens_at, listen_and_serve,
  context_done, run_until, build_http_server, new, main, parts_of, has_close,
}
use nba_games_service.Server.Wiring.{Outside}

-- A signal, or an error of the HTTP server but that it was closed.
abbrev pub is_end : Event → Bool
is_end signal = true
is_end (http_returns (failed_with e)) = true
is_end _ = false

abbrev pub has_end : List Event → Bool
has_end [] = false
has_end (e ∷ es) = is_end e || has_end es

abbrev pub one_if : Bool → ℕ
one_if b = if b then 1 else 0

context_done-has_end : (es : List Event) → context_done es ≡ has_end es
unfolding context_done launch_stops
context_done-has_end [] = refl
context_done-has_end (signal ∷ es) = refl
context_done-has_end (http_returns no_error ∷ es) = context_done-has_end es
context_done-has_end (http_returns server_closed ∷ es) = context_done-has_end es
context_done-has_end (http_returns (failed_with e) ∷ es) = refl
context_done-has_end (metrics_returns no_error ∷ es) = context_done-has_end es
context_done-has_end (metrics_returns server_closed ∷ es) = context_done-has_end es
context_done-has_end (metrics_returns (failed_with e) ∷ es) = context_done-has_end es

-- What a server has done after some events, by whether its telemetry works and is stopped.
abbrev pub Lives : Bool → Bool → Parts → List Event → List (Call × Bool) × Bool → Type 0
Lives telemetry stops p es out =
    (out.1 ≡ has_end es)
    × (times starts_http_server out.0 ≡ 1)
    × (times starts_poller out.0 ≡ 1)
    × (times starts_metrics_server out.0 ≡ one_if telemetry)
    × (times stops_http_server out.0 ≡ one_if out.1)
    × (times stops_poller out.0 ≡ one_if out.1)
    × (times stops_metrics_server out.0 ≡ one_if (out.1 && telemetry))
    × (times stops_telemetry out.0 ≡ one_if (out.1 && stops))
    × (times closes_provider out.0 ≡ 0)
    × (in_order false out.0 ≡ true)
    × (logged_count out.0 ≡ (if out.1 then failures p else 0))

run_until-Lives :
    (p : Parts) (es : List Event)
    → p.provider_closes ≡ false
    → Lives p.has_metrics_server p.has_metrics_stop p es (run_until true p es)
unfolding run_until run start_all graceful_shutdown
run_until-Lives p es h = ground (arith, context_done-has_end es)

-- Telemetry is not turned off and nothing that it needs fails.
abbrev pub works : Exporters → Getenv → Bool
works exporters getenv =
    (load_metrics getenv).enabled && exporters_work exporters (load_metrics getenv)

-- There is something to stop.
abbrev pub stops : Exporters → Getenv → Bool
stops exporters getenv =
    not (load_metrics getenv).enabled || exporters_work exporters (load_metrics getenv)

module _ {ℓ} {S : Type ℓ} (rt : Runtime S) (o : Outside S) (x : Process) (exporters : Exporters)
    (getenv : Getenv) (parse_duration : String → Option ℤ) where
  made : Server S
  made = new rt o x exporters (load_config getenv parse_duration)

  main_inv :
      (logger : Logger) (s : Server S)
      → main rt o x exporters getenv parse_duration ≡ some (logger, s)
      → s ≡ made
  unfolding main made
  main_inv logger s e = elim (Bool-cases (str_eq (getenv "SKIP_SERVER_RUN") "1")) [
    | inl h ↦ ground (arith, e)
    | inr h ↦ ground (arith, e)
  ]

  has_metrics_server-made :
      (a : Answers) → (parts_of made a).has_metrics_server ≡ works exporters getenv
  unfolding parts_of made new load_config
  has_metrics_server-made a = ground (
    arith,
    let (_, _, server, _, _, _) =
          build_metrics-exporters_work exporters (load_metrics getenv) [] none in
        server,
  )

  has_metrics_stop-made :
      (a : Answers) → (parts_of made a).has_metrics_stop ≡ stops exporters getenv
  unfolding parts_of made new load_config
  has_metrics_stop-made a =
      let (_, _, _, _, _, stop) =
        build_metrics-exporters_work exporters (load_metrics getenv) [] none in
      stop

  made_closes : (a : Answers) → (parts_of made a).provider_closes ≡ false
  unfolding parts_of made new has_close
  made_closes a = refl

  made_syncs : made.syncer_runs ≡ bool_env_or_default getenv "SNAPSHOT_SYNC_ENABLED" true
  unfolding made new load_config build_snapshots load_snapshot_sync
  made_syncs = refl

  made-Lives :
      (a : Answers) (es : List Event)
      → Lives
          (works exporters getenv)
          (stops exporters getenv)
          (parts_of made a)
          es
          (run_until true (parts_of made a) es)
  made-Lives a es =
      subst
        (λ t.
          Lives t (stops exporters getenv) (parts_of made a) es
            (run_until true (parts_of made a) es))
        (has_metrics_server-made a)
        (subst
          (λ t.
            Lives (parts_of made a).has_metrics_server t (parts_of made a) es
              (run_until true (parts_of made a) es))
          (has_metrics_stop-made a) (run_until-Lives (parts_of made a) es (made_closes a)))

  made_listens :
      listen_and_serve made.http_server ≡ listens_at (":" ++ env_or_default getenv "PORT" "4000")
  unfolding made new build_http_server listen_and_serve load_config
  made_listens = refl

  -- The service that main makes listens at the configured port, or 4000. It starts the HTTP server
  -- and the poller, and the metrics server exactly if the telemetry works. It runs until there is a
  -- signal or the HTTP server fails, whatever becomes of the metrics server. Run then stops once each
  -- of these that it has started, and the telemetry if there is something to stop, and logs each
  -- error of that; it does not close the provider. The goroutine of the syncer, which is none of
  -- these, is started with the service exactly if SNAPSHOT_SYNC_ENABLED
  -- does not turn it off.
  pub main-Lives :
      (logger : Logger) (s : Server S) (a : Answers) (es : List Event)
      → main rt o x exporters getenv parse_duration ≡ some (logger, s)
      → (listen_and_serve s.http_server ≡ listens_at (":" ++ env_or_default getenv "PORT" "4000"))
        × (s.syncer_runs ≡ bool_env_or_default getenv "SNAPSHOT_SYNC_ENABLED" true)
        × Lives
            (works exporters getenv)
            (stops exporters getenv)
            (parts_of s a)
            es
            (run_until true (parts_of s a) es)
  main-Lives logger s a es e =
      subst
        (λ (t : Server S).
          (listen_and_serve t.http_server ≡ listens_at (":" ++ env_or_default getenv "PORT" "4000"))
          × (t.syncer_runs ≡ bool_env_or_default getenv "SNAPSHOT_SYNC_ENABLED" true)
          × Lives (works exporters getenv) (stops exporters getenv) (parts_of t a) es
              (run_until true (parts_of t a) es))
        (sym (main_inv logger s e)) (made_listens, made_syncs, made-Lives a es)
