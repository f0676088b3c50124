-- ===== src/Snapshots/Writer.antt =====
-- internal/snapshots/writer.go, manifest.go and paths.go.
pub mod Listing
pub mod Pruning
pub mod Replacing
pub mod Agreement
pub mod Storing
pub mod Tearing
pub mod Healthy
pub mod Shelf
pub mod Unordered
pub mod Outcome
use nba_games_service.Base.{
  ℕ, ◌-◌, String, Bool, true, false, Option, none, some, List, [], ◌∷◌, ◌++◌, str_eq, if◌then◌else◌,
  not, ltb,
}
use nba_games_service.Base.Decimal.{ℤ, positive_or}
use nba_games_service.Base.Sort.{sort_by, sort_strings}
use nba_games_service.Calendar.{Civil, Time, utc, ordinal, parse_date}
use nba_games_service.Domain.{Game, TodayResponse}
use nba_games_service.Errors.{Error, other, Result, ok, err}
use nba_games_service.Snapshots.Disk.{
  FilePath, path, Manifest, Document, snapshot_json, manifest_json, decode_manifest, same_bytes,
  Disk,
}
use nba_games_service.Snapshots.Names.{ext, cut_json, json_name, tmp_name}
use nba_games_service.Snapshots.Files.{
  Env, Io, ◌>>=◌, ◌>>◌, fail, Entry, mkdir_all, read_file, write_file, rename, remove, read_dir,
}

pub record Writer : Type 0 where
  pub base_path : String
  pub retention_days : ℕ

-- BasePath, of a writer that may be nil.
abbrev pub base_path_of : Option Writer → String
base_path_of none = ""
base_path_of (some w) = w.base_path

-- The only `snapshotKind`.
abbrev pub kind_games : String
kind_games = "games"

unfoldable pub new_writer : String → ℤ → Writer
new_writer base_path retention_days = record {
  base_path = base_path;
  retention_days = positive_or retention_days 14;
}

unfoldable pub game_snapshot_path : String → String → FilePath
unfolding json_name
game_snapshot_path base_path date = path base_path "games" (json_name date)

unfoldable pub snapshot_path : Writer → String → String → FilePath
unfolding game_snapshot_path
snapshot_path w kind date =
    if str_eq kind kind_games
    then game_snapshot_path w.base_path date
    else path w.base_path kind (json_name date)

abbrev pub manifest_path : String → FilePath
manifest_path base = path base "" "manifest.json"

abbrev pub tmp_path : FilePath → FilePath
tmp_path p = path p.base p.dir (tmp_name p.name)

unfoldable pub default_manifest : Time → ℕ → Manifest
default_manifest now retention_days = record {
  version = 1;
  generated_at = now;
  retention_games_days = retention_days;
  games_dates = [];
  games_last_refreshed = 0;
}

abbrev decoded_or : Manifest → Result Document → Manifest
decoded_or m (err e) = m
decoded_or m (ok x) = elim (decode_manifest x) [ none ↦ m | some m' ↦ m' ]

-- `m, _ := readManifest(...)`: the default where the file cannot be read or decoded.
unfoldable pub read_manifest : Env → FilePath → ℕ → Disk → Manifest
read_manifest env p retention_days d =
    decoded_or (default_manifest env.refreshed_at retention_days) (read_file env p d)

-- `os.WriteFile(tmp, data, 0o644)`, then `os.Rename(tmp, target)`, in both places that do this.
unfoldable pub replace_file : Env → FilePath → Document → Io (Unit {0})
replace_file env target x = do
  write_file env (tmp_path target) x
  rename env (tmp_path target) target

unfoldable pub write_manifest : Env → String → Manifest → Io (Unit {0})
write_manifest env base m =
    replace_file env (manifest_path base)
      (manifest_json (record m { generated_at = env.generated_at }))

unfoldable pub contains_date : List String → String → Bool
contains_date [] date = false
contains_date (d ∷ ds) date =
    let rest = contains_date ds date in if str_eq d date then true else rest

-- The loop of `listDates`.
unfoldable pub collect_dates : List String → List Entry → List String
unfolding contains_date ext cut_json
collect_dates seen [] = []
collect_dates seen ((name, is_dir) ∷ es) =
    let same = collect_dates seen es in
    let base = cut_json name in
    let more = base ∷ collect_dates (base ∷ seen) es in
    if is_dir
    then same
    else if not (str_eq (ext name) ".json")
    then same
    else if contains_date seen base
    then same
    else more

abbrev dates_of : Result (List Entry) → Result (List String)
dates_of (err e) = err e
dates_of (ok es) = ok (sort_strings (collect_dates [] es))

unfoldable pub list_dates : Env → Writer → String → Disk → Result (List String)
unfolding collect_dates read_dir sort_by
list_dates env w kind d = dates_of (read_dir env w.base_path kind d)

-- `parsed.Before(cutoff)`; a date that does not parse is kept.
abbrev pub is_expired : ℕ → Option Civil → Bool
is_expired cutoff none = false
is_expired cutoff (some c) = ltb (ordinal c) cutoff

-- The loop of `pruneOldSnapshots`.
unfoldable pub prune_loop : Env → Writer → String → ℕ → List String → Disk → List String × Disk
unfolding remove parse_date snapshot_path
prune_loop env w kind cutoff [] d = ([], d)
prune_loop env w kind cutoff (x ∷ xs) d =
    let expired = is_expired cutoff (parse_date x) in
    let d' = if expired then remove env (snapshot_path w kind x) d else d in
    let (keep, rest) = prune_loop env w kind cutoff xs d' in
    (if expired then keep else x ∷ keep, rest)

-- Midnight of the UTC day, `retentionDays` days before. Day numbers stop at 0, and no date that
-- parses comes before day 0.
abbrev pub cutoff_day : Env → Writer → ℕ
cutoff_day env w = utc env.pruned_at - w.retention_days

unfoldable pub prune_old_snapshots : Env → Writer → String → List String → Disk → List String × Disk
prune_old_snapshots env w kind dates d =
    let (keep, d') = prune_loop env w kind (cutoff_day env w) dates d in (sort_strings keep, d')

abbrev pub with_date : List String → String → List String
with_date dates date = if not (contains_date dates date) then dates ++ date ∷ [] else dates

abbrev pub refreshed : Env → Writer → String → List String → Manifest → Manifest
refreshed env w kind pruned m =
    if str_eq kind kind_games
    then record m {
      games_dates = pruned;
      games_last_refreshed = env.refreshed_at;
      retention_games_days = w.retention_days;
    }
    else m

unfoldable pub update_manifest : Env → Writer → String → String → Io (Unit {0})
update_manifest env w kind date d = elim (list_dates env w kind d) [
  | err e ↦ (err e, d)
  | ok dates ↦
      let (pruned, d') = prune_old_snapshots env w kind (with_date dates date) d in
      let m = read_manifest env (manifest_path w.base_path) w.retention_days d in
      write_manifest env w.base_path (refreshed env w kind pruned m) d'
]

abbrev pub is_same : Result Document → TodayResponse → Bool
is_same (err e) payload = false
is_same (ok x) payload = same_bytes x payload

-- A file that holds the same bytes is not written again.
unfoldable pub replace_unless_same : Env → FilePath → TodayResponse → Io (Unit {0})
replace_unless_same env target payload d =
    if is_same (read_file env target d) payload
    then (ok tt, d)
    else replace_file env target (snapshot_json payload) d

-- `MarshalIndent` does not fail on a snapshot.
unfoldable pub store_payload : Env → Writer → String → String → TodayResponse → Io (Unit {0})
store_payload env w kind date payload = do
  let target = snapshot_path w kind date
  mkdir_all env target.base target.dir
  replace_unless_same env target payload
  update_manifest env w kind date

unfoldable pub write_snapshot :
    Env → Option Writer → String → String → TodayResponse → Io (Unit {0})
write_snapshot env none kind date payload = fail (other "snapshot writer not configured")
write_snapshot env (some w) kind date payload =
    if str_eq date "" then fail (other "date required") else store_payload env w kind date payload

-- What WriteGamesSnapshot stores: the date filled in, the games in the order of their ids.
unfoldable pub prepared : String → TodayResponse → TodayResponse
unfolding sort_by
prepared date snapshot = record {
  date = if str_eq snapshot.date "" then date else snapshot.date;
  games = sort_by (λ g. g.id) snapshot.games;
}

unfoldable pub write_games_snapshot : Env → Option Writer → String → TodayResponse → Io (Unit {0})
write_games_snapshot env w date snapshot =
    write_snapshot env w kind_games date (prepared date snapshot)
