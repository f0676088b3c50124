-- ===== src/Doubles.antt =====
-- The test doubles and fixtures of internal/teststubs/stubs.go and internal/testutil.
pub mod Standing
pub mod Servers
pub mod Serving
mod Tests
use Prim.Native.String.{◌++◌}
use nba_games_service.Base.{
  ℕ, ◌+◌, String, Bool, true, false, Option, none, some, List, [], ◌∷◌, str_eq, if◌then◌else◌,
}
use nba_games_service.Base.Assoc.{lookup, insert}
use nba_games_service.Base.Decimal.{pos}
use nba_games_service.Domain.{Team, Game, GameStatusKind, TodayResponse, new_today_response}
use nba_games_service.Errors.{Error, other, provider_unavailable, Result, ok, err}
use nba_games_service.Poller.{Status}
use nba_games_service.Providers.Provider.{Provider}
use nba_games_service.Snapshots.Disk.{FilePath}
use nba_games_service.Snapshots.Store.{find_in}
use nba_games_service.Snapshots.Writer.{Writer, base_path_of, game_snapshot_path}

abbrev empty_team : Team
empty_team = record {
  id = "";
  name = "";
  full_name = "";
  abbreviation = "";
  city = "";
  conference = "";
  division = "";
}

abbrev pub sample_game : String → Game
sample_game id = record {
  id = id;
  provider = "test";
  home_team = record empty_team { id = "home"; name = "Home" };
  away_team = record empty_team { id = "away"; name = "Away" };
  start_time = "";
  status = "Scheduled";
  status_kind = GameStatusKind.scheduled;
  score = record { home = pos 0; away = pos 0 };
  meta = record {
    season = "2023-2024";
    upstream_game_id = pos 1;
    period = pos 0;
    postseason = false;
    time = "";
  };
}

abbrev pub sample_today_response : String → String → TodayResponse
sample_today_response date id = new_today_response date (sample_game id ∷ [])

abbrev pub sample_team : String → Team
sample_team id = record {
  id = id;
  name = "Team " ++ id;
  full_name = "Full Team " ++ id;
  abbreviation = "T" ++ id;
  city = "City";
  conference = "East";
  division = "Atlantic";
}

module _ {ℓ} {S : Type ℓ} where
  abbrev pub good_provider : List Game → Provider S
  good_provider games date tz s = (ok games, s)

  abbrev pub err_provider : Error → Provider S
  err_provider e date tz s = (err e, s)

  abbrev pub empty_provider : Provider S
  empty_provider date tz s = (ok [], s)

  abbrev pub unavailable_provider : Provider S
  unavailable_provider date tz s = (err provider_unavailable, s)

-- A channel that a fetch closes, if there is one.
abbrev close_channel : Option Bool → Option Bool
close_channel none = none
close_channel (some closed) = some true

abbrev pub notifying_provider : List Game → Provider (Option Bool)
notifying_provider games date tz notify = (ok games, close_channel notify)

-- `StubProvider`; its fields `Games` and `Err` do not change.
pub record StubProvider : Type 0 where
  pub calls : ℕ
  pub notify : Option Bool

-- FetchGames; the games beside an error are left out.
abbrev pub stub_fetch_games : List Game → Option Error → Provider StubProvider
stub_fetch_games games e date tz s = (
  elim e [ none ↦ ok games | some x ↦ err x ],
  record s { calls = s.calls + 1; notify = close_channel s.notify },
)

-- A nil map is `none`.
abbrev Snapshots : Type 0
Snapshots = Option (List (String × TodayResponse))

abbrev pub entries : Snapshots → List (String × TodayResponse)
entries none = []
entries (some m) = m

pub record StubSnapshotStore : Type 0 where
  pub games : Snapshots
  pub load_err : Option Error
  pub find_game : Option Game

abbrev pub loaded : Option TodayResponse → Result TodayResponse
loaded none = err (other "snapshot not found")
loaded (some r) = ok r

unfoldable pub stub_load_games : StubSnapshotStore → String → Result TodayResponse
stub_load_games s date = elim s.load_err [
  | some e ↦ err e
  | none ↦ elim s.games [
    | none ↦ err (other "snapshot not found")
    | some m ↦ loaded (lookup date m)
  ]
]

abbrev has_id : Option Game → String → Bool
has_id none id = false
has_id (some g) id = str_eq g.id id

abbrev pub found : String → Option TodayResponse → Option Game
found id none = none
found id (some r) = find_in id r.games

unfoldable pub stub_find_game_by_id : StubSnapshotStore → String → String → Option Game
stub_find_game_by_id s date id =
    if has_id s.find_game id
    then s.find_game
    else elim s.games [ none ↦ none | some m ↦ found id (lookup date m) ]

pub record StubSnapshotWriter : Type 0 where
  pub written : Snapshots
  pub error : Option Error

-- WriteGamesSnapshot keeps what it is given.
unfoldable pub stub_write_games_snapshot :
    String → TodayResponse → StubSnapshotWriter → Result (Unit {0}) × StubSnapshotWriter
stub_write_games_snapshot date snapshot w = elim w.error [
  | some e ↦ (err e, w)
  | none ↦ (ok tt, record w { written = some (insert date snapshot (entries w.written)) })
]

-- `StubPoller`.
pub record StubPoller : Type 0 where
  pub start_calls : ℕ
  pub stop_calls : ℕ
  pub error : Option Error
  pub status_val : Status

abbrev pub stub_start : StubPoller → StubPoller
stub_start p = record p { start_calls = p.start_calls + 1 }

abbrev pub stub_stop : StubPoller → Option Error × StubPoller
stub_stop p = (p.error, record p { stop_calls = p.stop_calls + 1 })

-- SnapshotPath.
abbrev pub expected_path : Writer → String → FilePath
expected_path w date = game_snapshot_path (base_path_of (some w)) date
