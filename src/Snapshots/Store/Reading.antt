-- ===== src/Snapshots/Store/Reading.antt =====
-- Reading back what the writer stored.
use nba_games_service.Base.{
  String, Bool, true, false, Option, none, some, List, [], ◌∷◌, ◌≡◌, ◌≢◌, refl, ap, ◌∙◌, arith,
  str_eq, if◌then◌else◌, eq_iff, eq_refl,
}
use nba_games_service.Base.Sort.{sort_by, insert_by}
use nba_games_service.Calendar.{parse_date}
use nba_games_service.Domain.{Game, TodayResponse}
use nba_games_service.Errors.{ok}
use nba_games_service.Snapshots.Disk.{Disk, file, snapshot_json, find_node, decode_snapshot}
use nba_games_service.Snapshots.Files.{Env, read_file}
use nba_games_service.Snapshots.Writer.{
  Writer, cutoff_day, is_expired, prepared, write_games_snapshot, write_snapshot,
}
use nba_games_service.Snapshots.Writer.Pruning.{games_path}
use nba_games_service.Snapshots.Writer.Storing.{write_games_snapshot_stores}
use nba_games_service.Snapshots.Store.{
  load, load_games, find_in, games_or_none, find_game_by_id, with_default_date,
}

-- Some game of the list has the id.
pub has_id : String → List Game → Bool
has_id id [] = false
has_id id (g ∷ gs) = if str_eq g.id id then true else has_id id gs

abbrev pub is_some : Option Game → Bool
is_some none = false
is_some (some g) = true

has_id-insert_by :
    (id : String) (g : Game) (gs : List Game)
    → has_id id (insert_by (λ g. g.id) g gs) ≡ has_id id (g ∷ gs)
unfolding has_id insert_by
has_id-insert_by id g [] = refl
has_id-insert_by id g (h ∷ gs) = ground (arith, has_id-insert_by id g gs)

has_id-sort_by : (id : String) (gs : List Game) → has_id id (sort_by (λ g. g.id) gs) ≡ has_id id gs
unfolding has_id sort_by
has_id-sort_by id [] = refl
has_id-sort_by id (g ∷ gs) =
    has_id-insert_by id g (sort_by (λ g. g.id) gs) ∙ ground (arith, has_id-sort_by id gs)

is_some-find_in : (id : String) (gs : List Game) → is_some (find_in id gs) ≡ has_id id gs
unfolding find_in has_id
is_some-find_in id [] = refl
is_some-find_in id (g ∷ gs) = ground (arith, is_some-find_in id gs)

find_in-id : (id : String) (gs : List Game) (g : Game) → find_in id gs ≡ some g → g.id ≡ id
unfolding find_in
find_in-id id [] g e = cc
find_in-id id (h ∷ gs) g e = ground (arith, eq_iff h.id id, find_in-id id gs g)

read_file_at :
    (env : Env) (w : Writer) (x : String) (t : TodayResponse) (d : Disk)
    → env.read_error (games_path w x) ≡ none
    → find_node (games_path w x) d ≡ some (file (snapshot_json t))
    → read_file env (games_path w x) d ≡ ok (snapshot_json t)
unfolding read_file
read_file_at env w x t d h e = ground arith

-- A stored snapshot loads, with the date filled in where it was empty.
pub load_games_at :
    (env : Env) (w : Writer) (x : String) (t : TodayResponse) (d : Disk)
    → x ≢ ""
    → env.read_error (games_path w x) ≡ none
    → find_node (games_path w x) d ≡ some (file (snapshot_json t))
    → load_games env (some w.base_path) x d ≡ with_default_date x (ok t)
unfolding load_games load decode_snapshot
load_games_at env w x t d ne h e = ground (arith, read_file_at env w x t d h e, eq_iff x "")

pub date-nonempty :
    (env : Env) (w : Writer) (date : String) (snapshot : TodayResponse) (d d' : Disk)
    → write_games_snapshot env (some w) date snapshot d ≡ (ok tt, d')
    → date ≢ ""
unfolding write_games_snapshot write_snapshot
date-nonempty env w date snapshot d d' e h =
    cc (rw ((eq_iff date "").1 h, write_games_snapshot) at e)

pub prepared_dated :
    (date : String) (snapshot : TodayResponse)
    → date ≢ ""
    → str_eq (prepared date snapshot).date "" ≡ false
unfolding prepared
prepared_dated date snapshot h = ground (arith, eq_iff snapshot.date "", eq_iff date "")

-- What the writer stored under a date in the retention window, the store loads, if the file can be
-- read: the snapshot with its date filled in and its games in the order of their ids.
pub load_games-write_games_snapshot :
    (env reader : Env) (w : Writer) (date : String) (snapshot : TodayResponse) (d d' : Disk)
    → write_games_snapshot env (some w) date snapshot d ≡ (ok tt, d')
    → is_expired (cutoff_day env w) (parse_date date) ≡ false
    → reader.read_error (games_path w date) ≡ none
    → load_games reader (some w.base_path) date d' ≡ ok (prepared date snapshot)
load_games-write_games_snapshot env reader w date snapshot d d' e live readable =
    let ne = date-nonempty env w date snapshot d d' e in
    let there = write_games_snapshot_stores env w date snapshot d d' e date live in
    load_games_at reader w date (prepared date snapshot) d' ne readable (there ∙ rw (eq_refl date))
    ∙ rw (prepared_dated date snapshot ne)

has_id-prepared :
    (id date : String) (snapshot : TodayResponse)
    → has_id id (prepared date snapshot).games ≡ has_id id snapshot.games
unfolding prepared
has_id-prepared id date snapshot = has_id-sort_by id snapshot.games

-- After a snapshot is written under a date in the retention window, if the file can be read, looking
-- up an id on that date finds a game exactly if the snapshot has one with the id, and what it finds
-- has the id.
pub find_game_by_id-write_games_snapshot :
    (env reader : Env) (w : Writer) (date id : String) (snapshot : TodayResponse) (d d' : Disk)
    → write_games_snapshot env (some w) date snapshot d ≡ (ok tt, d')
    → is_expired (cutoff_day env w) (parse_date date) ≡ false
    → reader.read_error (games_path w date) ≡ none
    → (is_some (find_game_by_id reader (some w.base_path) date id d') ≡ has_id id snapshot.games)
      × ((g : Game) → find_game_by_id reader (some w.base_path) date id d' ≡ some g → g.id ≡ id)
unfolding find_game_by_id
find_game_by_id-write_games_snapshot env reader w date id snapshot d d' e live readable =
    let loaded = load_games-write_games_snapshot env reader w date snapshot d d' e live readable in
    (
      ap (λ r. is_some (find_in id (games_or_none r))) loaded
          ∙ is_some-find_in id (prepared date snapshot).games
          ∙ has_id-prepared id date snapshot,
      λ g h. find_in-id id _ g h,
    )
