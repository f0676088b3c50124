-- ===== src/Server.antt =====
-- internal/server: the handler that `buildHTTPServer` makes. Construction and shutdown are in the
-- children.
pub mod Serving
pub mod Wiring
pub mod Shutdown
pub mod Interleaving
pub mod Assembly
pub mod Life
mod Tests
use nba_games_service.Base.{ℕ, String, List, Option, none, some}
use nba_games_service.Calendar.{Time}
use nba_games_service.Http.Messages.{Request, Response, text_body, write_json}
use nba_games_service.Http.Handlers.{Handler, serve_http}
use nba_games_service.Http.Admin.{AdminHandler, Answer, refresh_snapshots}
use nba_games_service.Http.Router.{Route, to_handler, to_admin, not_routed, redirect, route}
use nba_games_service.Http.Logged.{Exchange, logging_middleware, with_request_id}
use nba_games_service.Snapshots.Disk.{Disk}
use nba_games_service.Snapshots.Files.{Env}

-- What one request meets: the file system, the clock, and the sources of a new id.
pub record Moment : Type 0 where
  pub env : Env
  pub now : Time
  pub random : Option (List ℕ)
  pub stamp : List ℕ

-- `clean` is the path cleaning of `http.ServeMux`, and `unescape` is `url.PathUnescape`. The admin
-- handler's token is the one that the route depends on.
pub record Service {ℓ} (S : Type ℓ) : Type ℓ where
  pub handler : Handler
  pub admin : AdminHandler S
  pub recorder : Option (Unit {0})
  pub clean : String → String
  pub unescape : String → Option String

module _ {ℓ} {S : Type ℓ} (v : Service S) where
  abbrev pub routed : Moment → Disk → S → Request → Route → Answer S
  routed m d s r to_handler = (serve_http m.env v.handler d v.unescape m.now r, d, s)
  routed m d s r to_admin = refresh_snapshots m.env v.admin m.now r d s
  routed m d s r not_routed = (write_json 404 (text_body "404 page not found"), d, s)
  routed m d s r (redirect path) = (write_json 301 (text_body path), d, s)

  -- The router, with its effects.
  abbrev pub serve_routed : Moment → Disk → S → Request → Answer S
  serve_routed m d s r = routed m d s r (route v.clean v.admin.token r.path)

  -- One request, through the middleware and the router: what is answered and recorded, the disk and
  -- the state of the provider.
  unfoldable pub serve : Moment → Disk → S → Request → Exchange × Disk × S
  serve m d s r =
      let x = logging_middleware m.random m.stamp v.recorder (λ q. (serve_routed m d s q).0) r in
      let ans = serve_routed m d s (with_request_id r x.id_header) in (x, ans.1, ans.2)
