-- ===== src/Server/Assembly.antt =====
-- What New of internal/server/server.go makes of a configuration: newServerWithMetrics, buildSnapshots of
-- snapshots_factory.go, and the construction of the parts.
use nba_games_service.Base.{String, Bool, Option, none, some, [], ◌≡◌, refl}
use nba_games_service.Base.Decimal.{pos}
use nba_games_service.Base.Sort.{IsSorted}
use nba_games_service.Calendar.{Location, resolve_location}
use nba_games_service.Config.{Config, SnapshotSyncConfig}
use nba_games_service.Domain.{TodayResponse}
use nba_games_service.Errors.{ok}
use nba_games_service.Http.Admin.{new_admin_handler}
use nba_games_service.Http.Handlers.{new_handler}
use nba_games_service.Poller.{Poller, World, Status}
use nba_games_service.Providers.Provider.{Provider, Runtime}
use nba_games_service.Providers.Retry as retry
use nba_games_service.Server.{Service}
use nba_games_service.Server.Wiring.{Outside, new_server}
use nba_games_service.Server.Interleaving.{Reach, load_games-Reach}
use nba_games_service.Snapshots.Files.{Env}
use nba_games_service.Snapshots.Store.{FsStore, new_fs_store, load_games}
use nba_games_service.Snapshots.Sync.{Schedule, new_schedule}
use nba_games_service.Snapshots.Writer.{Writer, new_writer}

-- What the HTTP side uses of the process and of Go's libraries: `time.Local`, the cleaning of paths,
-- and `url.PathUnescape`.
pub record Process : Type 0 where
  pub local : Location
  pub clean : String → String
  pub unescape : String → Option String

-- `snapshotComponents`; the syncer is its schedule, and `syncer_runs` says that a goroutine of it is
-- started, `go syncer.Run(context.Background())`.
pub record SnapshotComponents : Type 0 where
  pub store : FsStore
  pub writer : Writer
  pub syncer : Schedule
  pub syncer_runs : Bool

unfoldable pub build_snapshots : SnapshotSyncConfig → SnapshotComponents
build_snapshots c = record {
  store = new_fs_store c.snapshot_folder;
  writer = new_writer c.snapshot_folder c.retention_days;
  syncer = new_schedule record {
    enabled = c.enabled;
    days = pos c.days;
    future_days = pos c.future_days;
    interval = pos c.interval;
    daily_hour_utc = pos c.daily_hour_utc;
  };
  syncer_runs = c.enabled;
}

module _ {ℓ} {S : Type ℓ} (rt : Runtime S) (o : Outside S) (x : Process) (cfg : Config) where
  -- The server's provider; what it records is not kept here.
  abbrev pub provider : Provider S
  provider date tz s =
      let out = retry.fetch_games rt (new_server rt o cfg) date tz none s in (out.0, out.2)

  abbrev pub loc : Location
  loc = resolve_location o.http.load_location cfg.balldontlie.timezone

  -- `poller.New`.
  unfoldable pub new_poller : Poller S
  new_poller = record {
    provider = provider;
    writer = some (build_snapshots cfg.snapshots).writer;
    loc = loc;
  }

  -- The handlers, where the poller's status is `status`.
  unfoldable pub new_service : Status → Service S
  new_service status = record {
    handler = new_handler (some (build_snapshots cfg.snapshots).store) (some status) (some loc);
    admin =
        new_admin_handler (some (build_snapshots cfg.snapshots).writer) (some provider)
          cfg.snapshots.admin_token x.local o.http.load_location;
    recorder = some tt;
    clean = x.clean;
    unescape = x.unescape;
  }

  -- On an assembled server, whatever the poller, the syncer and the admin handler do, the store of its
  -- handlers loads for a date only a snapshot of that date, in order.
  pub load_games-new_service :
      {s t : World S} (status : Status) (reader : Env) (date : String) (snap : TodayResponse)
      → s.disk ≡ []
      → Reach new_poller (build_snapshots cfg.snapshots).writer (new_service status).admin s t
      → load_games reader (new_service status).handler.snaps date t.disk ≡ ok snap
      → (snap.date ≡ date) × IsSorted (λ g. g.id) snap.games
  unfolding new_poller new_service build_snapshots new_writer
  load_games-new_service {s} {t} status reader date snap empty r e =
      load_games-Reach new_poller (build_snapshots cfg.snapshots).writer (new_service status).admin
        refl refl {s = s} {t = t} reader date snap empty r e
