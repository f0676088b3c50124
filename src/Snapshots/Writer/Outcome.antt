-- ===== src/Snapshots/Writer/Outcome.antt =====
-- What the result of a call of WriteGamesSnapshot, of writer.go, says of the files.
use nba_games_service.Base.{
  ◌≡◌, ◌⊎◌, refl, String, false, Option, some, if◌then◌else◌, str_eq, arith,
}
use nba_games_service.Calendar.{parse_date}
use nba_games_service.Domain.{TodayResponse}
use nba_games_service.Errors.{Result, ok, err}
use nba_games_service.Snapshots.Disk.{snapshot_json, Node, file, Disk}
use nba_games_service.Snapshots.Files.{Env}
use nba_games_service.Snapshots.Writer.{
  Writer, cutoff_day, is_expired, prepared, write_games_snapshot,
}
use nba_games_service.Snapshots.Writer.Shelf.{shelf}
use nba_games_service.Snapshots.Writer.Storing.{write_games_snapshot_stores}
use nba_games_service.Snapshots.Writer.Tearing.{write_games_snapshot-IsWhole}

abbrev whole : String → TodayResponse → Option Node
whole date snapshot = some (file (snapshot_json (prepared date snapshot)))

-- The file of `x`, which was `o` and is `n`, after a write for `date`.
abbrev pub Ends :
    String → String → TodayResponse → Result (Unit {0}) → Option Node → Option Node → Type 0
Ends x date snapshot (ok tt) o n = n ≡ (if str_eq date x then whole date snapshot else o)
Ends x date snapshot (err e) o n = (n ≡ o) ⊎ ((date ≡ x) × (n ≡ whole date snapshot))

-- A write that succeeds replaces the file of its date by the whole snapshot; one that fails may have
-- done so. The files of other dates in the retention window stay as they are.
pub write_games_snapshot-Ends :
    (env : Env) (w : Writer) (date : String) (snapshot : TodayResponse) (d : Disk) (x : String)
    → is_expired (cutoff_day env w) (parse_date x) ≡ false
    → let (result, after) = write_games_snapshot env (some w) date snapshot d in
      Ends x date snapshot result (shelf w d x) (shelf w after x)
write_games_snapshot-Ends env w date snapshot d x live =
    by_result (write_games_snapshot env (some w) date snapshot d) refl
  where
    by_result :
        (r : Result (Unit {0}) × Disk)
        → write_games_snapshot env (some w) date snapshot d ≡ r
        → Ends x date snapshot r.0 (shelf w d x) (shelf w r.1 x)
    by_result (ok tt, after) e = write_games_snapshot_stores env w date snapshot d after e x live
    by_result (err f, after) e =
        ground (arith, e, live, write_games_snapshot-IsWhole env w date snapshot d x)
