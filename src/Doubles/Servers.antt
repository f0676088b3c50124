-- ===== src/Doubles/Servers.antt =====
-- The doubles of internal/testutil/server_stubs.go, behind the httpServer interface of
-- internal/server/http_server.go, in a server that newServerWithDeps makes.
use nba_games_service.Base.{ℕ, ◌+◌, String, Bool, false, Option, none, List, [], ◌∷◌, ◌≡◌, arith}
use nba_games_service.Errors.{Error, other}
use nba_games_service.Doubles.{StubPoller, stub_start, stub_stop}
use nba_games_service.Server.Life.{Event, run_until}
use nba_games_service.Server.Life.Ending.{one_if}
use nba_games_service.Server.Shutdown.{
  Call, Parts, Served, no_error, server_closed, failed_with, starts_http_server, starts_poller,
  stops_poller, stops_http_server, run, start_all, graceful_shutdown,
}

-- `httpServer`, without the handler. `shutdown` is told the error of the context, if the context ends
-- before the server is done.
pub record HttpServerOps {ℓ} (S : Type ℓ) : Type ℓ where
  pub listen_and_serve : S → Served × S
  pub shutdown : Option Error → S → Option Error × S
  pub addr : S → String

pub record StubHttpServer : Type 0 where
  pub addr_val : String
  pub listen_calls : ℕ
  pub shutdown_calls : ℕ
  pub listen_err : Served
  pub shutdown_err : Option Error

abbrev pub stub_http_server : HttpServerOps StubHttpServer
stub_http_server = record {
  listen_and_serve = λ s. (s.listen_err, record s { listen_calls = s.listen_calls + 1 });
  shutdown = λ ended s. (s.shutdown_err, record s { shutdown_calls = s.shutdown_calls + 1 });
  addr = λ s. s.addr_val;
}

-- `BlockingHTTPServer`; `Unblock` is what is done first, where the context does not end.
pub record BlockingHttpServer : Type 0 where
  pub addr_val : String
  pub shutdown_calls : ℕ

abbrev pub blocking_http_server : HttpServerOps BlockingHttpServer
blocking_http_server = record {
  listen_and_serve = λ s. (no_error, s);
  shutdown = λ ended s. (ended, record s { shutdown_calls = s.shutdown_calls + 1 });
  addr = λ s. s.addr_val;
}

-- `ErrHTTPServer` and `CloseableHTTPServer`, by their `ShutdownCalls`.
abbrev pub err_http_server : HttpServerOps ℕ
err_http_server = record {
  listen_and_serve = λ n. (failed_with (other "listen failure"), n);
  shutdown = λ ended n. (none, n + 1);
  addr = λ n. ":0";
}

abbrev pub closeable_http_server : HttpServerOps ℕ
closeable_http_server = record {
  listen_and_serve = λ n. (server_closed, n);
  shutdown = λ ended n. (none, n + 1);
  addr = λ n. ":0";
}

module _ {ℓ} {S : Type ℓ} (ops : HttpServerOps S) (ended : Option Error) where
  -- What newServerWithDeps puts together has no metrics server and no telemetry.
  abbrev pub deps_parts : StubPoller → S → Parts
  deps_parts p s = record {
    has_metrics_stop = false;
    has_metrics_server = false;
    provider_closes = false;
    telemetry_error = none;
    metrics_server_error = none;
    poller_error = (stub_stop p).0;
    http_error = (ops.shutdown ended s).0;
  }

  -- A call of Run, made on the poller and the HTTP server.
  abbrev pub perform : Call → StubPoller × S → StubPoller × S
  perform starts_http_server x = (x.0, (ops.listen_and_serve x.1).1)
  perform starts_poller x = (stub_start x.0, x.1)
  perform stops_poller x = ((stub_stop x.0).1, x.1)
  perform stops_http_server x = (x.0, (ops.shutdown ended x.1).1)
  perform _ x = x

  abbrev pub perform_all : List (Call × Bool) → StubPoller × S → StubPoller × S
  perform_all [] x = x
  perform_all (c ∷ cs) x = perform_all cs (perform c.0 x)

-- A server of doubles, run through any events, has started the poller and listened once, and has
-- stopped both once if it has returned.
pub perform_all-run_until :
    (ended : Option Error) (has_logger : Bool) (es : List Event) (p : StubPoller)
    (s : StubHttpServer)
    → let out = run_until has_logger (deps_parts stub_http_server ended p s) es in
      let after = perform_all stub_http_server ended out.0 (p, s) in
      let stopped = one_if out.1 in
      (after.0.start_calls ≡ p.start_calls + 1)
      × (after.0.stop_calls ≡ p.stop_calls + stopped)
      × (after.1.listen_calls ≡ s.listen_calls + 1)
      × (after.1.shutdown_calls ≡ s.shutdown_calls + stopped)
unfolding run_until run start_all graceful_shutdown
perform_all-run_until ended has_logger es p s = ground arith
