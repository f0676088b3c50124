-- ===== src/Snapshots/Overlap.antt =====
-- Calls of WriteGamesSnapshot that overlap, a call of the file system at a time: writer.go and
-- manifest.go, which take no lock. Any number of goroutines share one writer.
pub mod Whole
pub mod Invariant
pub mod Replacing
pub mod Alone
pub mod Reading
mod Tests
use nba_games_service.Base.{
  ℕ, ◌==◌, String, Bool, true, false, Option, none, some, List, [], ◌∷◌, ◌≡◌, ◌⊎◌, str_eq,
  if◌then◌else◌,
}
use nba_games_service.Calendar.{parse_date}
use nba_games_service.Domain.{TodayResponse}
use nba_games_service.Errors.{ok}
use nba_games_service.Snapshots.Disk.{
  FilePath, Document, snapshot_json, Node, file, Disk, find_node, put_node, drop_node,
}
use nba_games_service.Snapshots.Files.{Env, remove}
use nba_games_service.Snapshots.Writer.{
  Writer, kind_games, manifest_path, tmp_path, list_dates, with_date, cutoff_day, is_expired,
  prepared,
}
use nba_games_service.Snapshots.Writer.Pruning.{games_path}

-- Where a goroutine stands: outside, or in a call for a date and its snapshot.
pub data Pc : Type 0 where
  idle : Pc
  entered : String → TodayResponse → Pc  -- before the temporary file is opened
  writing : String → TodayResponse → Pc  -- in os.WriteFile of the temporary file
  renaming : String → TodayResponse → Pc
  updating : String → Pc  -- start of updateManifest
  pruning : String → ℕ → List String → Pc  -- with the cutoff, and the dates left
  recording : Pc  -- in os.WriteFile of the manifest's temporary file
  placing : Pc

-- The date whose files a goroutine may be about to change on its own behalf.
abbrev pub date_of : Pc → Option String
date_of (entered date snapshot) = some date
date_of (writing date snapshot) = some date
date_of (renaming date snapshot) = some date
date_of _ = none

-- One step of a goroutine. A file that is being written holds some part of the text. Two calls share
-- the temporary file of the manifest, so what one writes may go to the file that the other has
-- already renamed; what is written there may be anything.
pub data Move (w : Writer) (d : Disk) : Pc → Disk → Pc → Type 0 where
  begins :
      (date : String) (snapshot : TodayResponse)
      → str_eq date "" ≡ false
      → Move w d idle d (entered date snapshot)
  same :
      {date : String} {snapshot : TodayResponse}
      → find_node (games_path w date) d ≡ some (file (snapshot_json (prepared date snapshot)))
      → Move w d (entered date snapshot) d (updating date)
  opens :
      {date : String} {snapshot : TodayResponse} (part : Document)
      → Move w d
          (entered date snapshot)
          (put_node (tmp_path (games_path w date)) (file part) d)
          (writing date snapshot)
  writes :
      {date : String} {snapshot : TodayResponse} (part : Document)
      → Move w d
          (writing date snapshot)
          (put_node (tmp_path (games_path w date)) (file part) d)
          (writing date snapshot)
  closes :
      {date : String} {snapshot : TodayResponse}
      → Move w d
          (writing date snapshot)
          (put_node
            (tmp_path (games_path w date))
            (file (snapshot_json (prepared date snapshot)))
            d)
          (renaming date snapshot)
  renames :
      {date : String} {snapshot : TodayResponse} (n : Node)
      → find_node (tmp_path (games_path w date)) d ≡ some n
      → Move w d
          (renaming date snapshot)
          (put_node (games_path w date) n (drop_node (tmp_path (games_path w date)) d))
          (updating date)
  lists :
      {date : String} (env : Env) (dates : List String)
      → list_dates env w kind_games d ≡ ok dates
      → Move w d (updating date) d (pruning date (cutoff_day env w) (with_date dates date))
  keeps :
      {date x : String} {cutoff : ℕ} {xs : List String}
      → is_expired cutoff (parse_date x) ≡ false
      → Move w d (pruning date cutoff (x ∷ xs)) d (pruning date cutoff xs)
  prunes :
      {date x : String} {cutoff : ℕ} {xs : List String} (env : Env)
      → is_expired cutoff (parse_date x) ≡ true
      → Move w d
          (pruning date cutoff (x ∷ xs))
          (remove env (games_path w x) d)
          (pruning date cutoff xs)
  opens_manifest :
      {date : String} {cutoff : ℕ} (part : Document)
      → Move w d
          (pruning date cutoff [])
          (put_node (tmp_path (manifest_path w.base_path)) (file part) d)
          recording
  writes_manifest :
      (p : FilePath) (part : Document)
      → (p ≡ tmp_path (manifest_path w.base_path)) ⊎ (p ≡ manifest_path w.base_path)
      → Move w d recording (put_node p (file part) d) recording
  closes_manifest : Move w d recording d placing
  places :
      (n : Node)
      → find_node (tmp_path (manifest_path w.base_path)) d ≡ some n
      → Move w d placing
          (put_node
            (manifest_path w.base_path)
            n
            (drop_node (tmp_path (manifest_path w.base_path)) d))
          idle
  -- A call of the file system fails, and the error is returned.
  fails : {p : Pc} → Move w d p d idle

-- Moves of one goroutine, with no other in between.
pub data Moves (w : Writer) : Disk → Pc → Disk → Pc → Type 0 where
  done : {d : Disk} {p : Pc} → Moves w d p d p
  next :
      {d d' d'' : Disk} {p p' p'' : Pc}
      → Move w d p d' p'
      → Moves w d' p' d'' p''
      → Moves w d p d'' p''

pub record System : Type 0 where
  pub disk : Disk
  pub pc : ℕ → Pc

abbrev pub set_pc : (ℕ → Pc) → ℕ → Pc → ℕ → Pc
set_pc f i p j = if i == j then p else f j

-- One goroutine moves.
pub data Step (w : Writer) (s : System) : System → Type 0 where
  turn :
      (i : ℕ) {d : Disk} {p : Pc}
      → Move w s.disk (s.pc i) d p
      → Step w s record { disk = d; pc = set_pc s.pc i p }

abbrev pub at_rest : Disk → System
at_rest d = record { disk = d; pc = λ i. idle }

pub data Reach (w : Writer) (d : Disk) : System → Type 0 where
  start : Reach w d (at_rest d)
  later : {s t : System} → Reach w d s → Step w s t → Reach w d t

-- No two goroutines are on one date.
abbrev pub Distinct : System → Type 0
Distinct s = (i j : ℕ) (x : String) → date_of (s.pc i) ≡ some x → date_of (s.pc j) ≡ some x → i ≡ j

-- In no state of a run are two goroutines on one date.
pub Apart : {w : Writer} {d : Disk} {s : System} → Reach w d s → Type 0
Apart start = Unit {0}
Apart (later {t = t} r st) = Apart r × Distinct t

Begins : {w : Writer} {d d' : Disk} {p p' : Pc} → Move w d p d' p' → String → TodayResponse → Type 0
Begins (begins date snapshot e) x t = (date ≡ x) × (snapshot ≡ t)
Begins _ x t = ⊥

Started : {w : Writer} {s t : System} → Step w s t → String → TodayResponse → Type 0
Started (turn i mv) x t = Begins mv x t

-- A call for the date and the snapshot has begun in the run.
pub Begun : {w : Writer} {d : Disk} {s : System} → Reach w d s → String → TodayResponse → Type 0
Begun start x t = ⊥
Begun (later r st) x t = Begun r x t ⊎ Started st x t
