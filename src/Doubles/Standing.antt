-- ===== src/Doubles/Standing.antt =====
-- The doubles of internal/teststubs in place of the writer and the store of internal/snapshots.
use nba_games_service.Base.{
  String, false, Option, none, some, [], ◌≡◌, ◌≢◌, refl, sym, ap, ◌∙◌, arith, str_eq, eq_iff,
  Option-cases, Bool-cases, subst, inl, inr,
}
use nba_games_service.Base.Assoc.{lookup, insert, lookup-insert}
use nba_games_service.Calendar.{parse_date}
use nba_games_service.Domain.{TodayResponse}
use nba_games_service.Errors.{Result, ok, err}
use nba_games_service.Snapshots.Disk.{snapshot_json, Node, file, Disk, find_node}
use nba_games_service.Snapshots.Files.{Env, read_file, no_such_file}
use nba_games_service.Snapshots.Store.{load, load_games, find_game_by_id, find_in}
use nba_games_service.Snapshots.Store.Reading.{load_games_at, date-nonempty, prepared_dated}
use nba_games_service.Snapshots.Writer.{
  Writer, write_games_snapshot, prepared, is_expired, cutoff_day,
}
use nba_games_service.Snapshots.Writer.Pruning.{games_path}
use nba_games_service.Snapshots.Writer.Storing.{write_games_snapshot_stores}
use nba_games_service.Doubles.{
  StubSnapshotStore, StubSnapshotWriter, stub_write_games_snapshot, stub_load_games,
  stub_find_game_by_id, entries, loaded, found,
}

-- Writes that succeed, to the disk and to the double, of snapshots that have their date and their
-- games in order. No write takes `x` for expired.
pub data Writes (w : Writer) (x : String) : Disk → StubSnapshotWriter → Type 0 where
  none_yet : Writes w x [] record { written = none; error = none }
  then_write :
      {d d' : Disk} {s : StubSnapshotWriter} (env : Env) (date : String) (snapshot : TodayResponse)
      → Writes w x d s
      → prepared date snapshot ≡ snapshot
      → is_expired (cutoff_day env w) (parse_date x) ≡ false
      → write_games_snapshot env (some w) date snapshot d ≡ (ok tt, d')
      → Writes w x d' (stub_write_games_snapshot date snapshot s).1

abbrev stored : Option TodayResponse → Option Node
stored none = none
stored (some t) = some (file (snapshot_json t))

abbrev Dated : Option TodayResponse → Type 0
Dated none = Unit {0}
Dated (some t) = str_eq t.date "" ≡ false

abbrev Stands : Writer → String → Disk → StubSnapshotWriter → Type 0
Stands w x d s =
    (s.error ≡ none)
    × (find_node (games_path w x) d ≡ stored (lookup x (entries s.written)))
    × Dated (lookup x (entries s.written))

abbrev kept : StubSnapshotWriter → String → TodayResponse → StubSnapshotWriter
kept s date snapshot = record s { written = some (insert date snapshot (entries s.written)) }

stub_kept :
    (s : StubSnapshotWriter) (date : String) (snapshot : TodayResponse)
    → s.error ≡ none
    → (stub_write_games_snapshot date snapshot s).1 ≡ kept s date snapshot
unfolding stub_write_games_snapshot
stub_kept s date snapshot e = ground arith

module _ (w : Writer) (x : String) (d d' : Disk) (s : StubSnapshotWriter) (env : Env)
    (date : String) (snapshot : TodayResponse) (stands : Stands w x d s)
    (p : prepared date snapshot ≡ snapshot)
    (live : is_expired (cutoff_day env w) (parse_date x) ≡ false)
    (e : write_games_snapshot env (some w) date snapshot d ≡ (ok tt, d')) where
  snapshot_dated : str_eq snapshot.date "" ≡ false
  snapshot_dated =
      ap (λ (t : TodayResponse). str_eq t.date "") (sym p)
      ∙ prepared_dated date snapshot (date-nonempty env w date snapshot d d' e)

  kept-Stands : Stands w x d' (kept s date snapshot)
  kept-Stands =
      let (no_error, same, dated) = stands in
      let there = write_games_snapshot_stores env w date snapshot d d' e x live in
      let looked = lookup-insert date x snapshot (entries s.written) in
      elim (Bool-cases (str_eq date x)) [
        | inl q ↦
            let now : lookup x (insert date snapshot (entries s.written)) ≡ some snapshot =
              looked ∙ rw q refl in
            (
              no_error,
              there ∙ rw q (ap (λ t. some (file (snapshot_json t))) p ∙ ap stored (sym now)),
              subst Dated (sym now) snapshot_dated,
            )
        | inr q ↦
            let now : lookup x (insert date snapshot (entries s.written))
                ≡ lookup x (entries s.written) =
              looked ∙ rw q refl in
            (no_error, there ∙ rw q (same ∙ ap stored (sym now)), subst Dated (sym now) dated)
      ]

Writes-Stands :
    {w : Writer} {x : String} {d : Disk} {s : StubSnapshotWriter} → Writes w x d s → Stands w x d s
Writes-Stands none_yet = (refl, unfold find_node lookup in refl, unfold lookup in tt)
Writes-Stands {w} {x} (then_write {d} {d'} {s} env date snapshot ws p live e) =
    let before = Writes-Stands ws in
    subst (Stands w x d') (sym (stub_kept s date snapshot before.0))
      (kept-Stands w x d d' s env date snapshot before p live e)

-- The store of the doubles, with what their writer has kept.
abbrev pub stub_store : StubSnapshotWriter → StubSnapshotStore
stub_store s = record { games = s.written; load_err = none; find_game = none }

-- Both fail, or both give the same.
abbrev pub Alike : Result TodayResponse → Result TodayResponse → Type 0
Alike (ok a) (ok b) = a ≡ b
Alike (err e) (err f) = Unit
Alike _ _ = ⊥

stub_load_at :
    (s : StubSnapshotWriter) (x : String)
    → stub_load_games (stub_store s) x ≡ loaded (lookup x (entries s.written))
unfolding stub_load_games lookup
stub_load_at s x = elim (Option-cases s.written) [
  | inl e ↦ rw (e, stub_load_games) refl
  | inr (m, e) ↦ rw (e, stub_load_games) refl
]

stub_find_at :
    (s : StubSnapshotWriter) (x id : String)
    → stub_find_game_by_id (stub_store s) x id ≡ found id (lookup x (entries s.written))
unfolding stub_find_game_by_id lookup
stub_find_at s x id = elim (Option-cases s.written) [
  | inl e ↦ rw (e, stub_find_game_by_id) refl
  | inr (m, e) ↦ rw (e, stub_find_game_by_id) refl
]

load_games_missing :
    (env : Env) (w : Writer) (x : String) (d : Disk)
    → x ≢ ""
    → env.read_error (games_path w x) ≡ none
    → find_node (games_path w x) d ≡ none
    → load_games env (some w.base_path) x d ≡ err no_such_file
unfolding load_games load read_file
load_games_missing env w x d ne h e = ground (arith, eq_iff x "")

-- After any writes of prepared snapshots that succeed, a date that is not empty, that none of them
-- finds expired and whose file can be read loads from the disk as it loads from the double: both
-- fail, or both give the same snapshot; and a lookup of a game on it gives the same.
pub stub_load_games-load_games :
    {w : Writer} {x : String} {d : Disk} {s : StubSnapshotWriter}
    → Writes w x d s
    → x ≢ ""
    → (reader : Env) → reader.read_error (games_path w x) ≡ none
    → Alike (load_games reader (some w.base_path) x d) (stub_load_games (stub_store s) x)
      × ((id : String)
          → find_game_by_id reader (some w.base_path) x id d
            ≡ stub_find_game_by_id (stub_store s) x id)
unfolding find_in
stub_load_games-load_games {w} {x} {d} {s} ws ne reader readable =
    let (no_error, same, dated) = Writes-Stands ws in
    elim (Option-cases (lookup x (entries s.written))) [
      | inl e ↦
          let missing = load_games_missing reader w x d ne readable (same ∙ ap stored e) in
          (
            rw (missing, stub_load_at s x, e) tt,
            λ id. unfold find_game_by_id in rw (missing, stub_find_at s x id, e) refl,
          )
      | inr (t, e) ↦
          let there : load_games reader (some w.base_path) x d ≡ ok t =
            load_games_at reader w x t d ne readable (same ∙ ap stored e)
            ∙ rw (subst Dated e dated) refl in
          (
            rw (there, stub_load_at s x, e) refl,
            λ id. unfold find_game_by_id in rw (there, stub_find_at s x id, e) refl,
          )
    ]
