-- ===== src/Snapshots/Store.antt =====
-- internal/snapshots/fs_store.go.
pub mod Reading
use nba_games_service.Base.{
  String, Bool, true, false, Option, none, some, List, [], ◌∷◌, str_eq, if◌then◌else◌,
}
use nba_games_service.Domain.{Game, TodayResponse}
use nba_games_service.Errors.{Error, other, Result, ok, err}
use nba_games_service.Snapshots.Disk.{FilePath, path, Document, Disk, decode_snapshot}
use nba_games_service.Snapshots.Names.{json_name}
use nba_games_service.Snapshots.Files.{Env, read_file}
use nba_games_service.Snapshots.Writer.{kind_games}

-- `FSStore`: its base path. A nil store is `none`.
abbrev pub FsStore : Type 0
FsStore = String

abbrev pub new_fs_store : String → FsStore
new_fs_store base_path = base_path

abbrev pub decoded : Result Document → Result TodayResponse
decoded (err e) = err e
decoded (ok x) = elim (decode_snapshot x) [ none ↦ err (other "invalid JSON") | some s ↦ ok s ]

unfoldable pub load : Env → Option FsStore → String → String → Disk → Result TodayResponse
load env none kind date d = err (other "snapshot store not configured")
load env (some base) kind date d =
    if str_eq date ""
    then err (other "snapshot date required")
    else decoded (read_file env (path base kind (json_name date)) d)

abbrev pub with_default_date : String → Result TodayResponse → Result TodayResponse
with_default_date date (err e) = err e
with_default_date date (ok s) = ok (if str_eq s.date "" then record s { date = date } else s)

unfoldable pub load_games : Env → Option FsStore → String → Disk → Result TodayResponse
load_games env s date d = with_default_date date (load env s kind_games date d)

-- The loop of FindGameByID.
unfoldable pub find_in : String → List Game → Option Game
find_in id [] = none
find_in id (g ∷ gs) = if str_eq g.id id then some g else find_in id gs

abbrev pub games_or_none : Result TodayResponse → List Game
games_or_none (err e) = []
games_or_none (ok s) = s.games

unfoldable pub find_game_by_id : Env → Option FsStore → String → String → Disk → Option Game
find_game_by_id env s date id d = find_in id (games_or_none (load_games env s date d))
