-- ===== src/Snapshots/Writer/Shelf.antt =====
-- The snapshots on a disk as a function of the date, and what a write does to it.
use nba_games_service.Base.{
  ℕ, String, true, false, Option, none, some, ◌≡◌, ◌≢◌, refl, sym, subst, ap, ◌∙◌, arith, str_eq,
  if◌then◌else◌, eq_iff, Bool-cases, inl, inr,
}
use nba_games_service.Calendar.{parse_date}
use nba_games_service.Domain.{TodayResponse}
use nba_games_service.Errors.{ok}
use nba_games_service.Snapshots.Disk.{snapshot_json, Node, file, folder, Disk, find_node}
use nba_games_service.Snapshots.Files.{Env, is_file}
use nba_games_service.Snapshots.Writer.{
  Writer, kind_games, manifest_path, with_date, prune_old_snapshots, cutoff_day, update_manifest,
  store_payload, write_snapshot, prepared, write_games_snapshot, is_expired,
}
use nba_games_service.Snapshots.Writer.Agreement.{
  manifest_path_ne, tmp_path_ne_games, update_manifest_inv, find_node-write_manifest,
  contains_date-with_date,
}
use nba_games_service.Snapshots.Writer.Healthy.{IsHealthy, HasFiles, store_payload_ok}
use nba_games_service.Snapshots.Writer.Listing.{contains_date-list_dates}
use nba_games_service.Snapshots.Writer.Pruning.{games_path, is_file-prune_loop, prune_loop_or}
use nba_games_service.Snapshots.Writer.Storing.{
  write_games_snapshot_inv, write_games_snapshot_stores,
}

-- What stands under each date.
abbrev pub Shelf : Type 0
Shelf = String → Option Node

abbrev pub shelf : Writer → Disk → Shelf
shelf w d x = find_node (games_path w x) d

-- A write of a shelf: what comes before day `cutoff` goes, and the date's snapshot is replaced.
unfoldable pub shelve : ℕ → String → TodayResponse → Shelf → Shelf
shelve cutoff date snapshot s x =
    if str_eq date ""
    then s x
    else if is_expired cutoff (parse_date x)
    then none
    else if str_eq date x
    then some (file (snapshot_json (prepared date snapshot)))
    else s x

nothing_left : (o : Option Node) → o ≢ some folder → is_file o ≡ false → o ≡ none
nothing_left o h e = ground (arith, h, e)

module _ (env : Env) (fine : IsHealthy env) (w : Writer) (date : String) where
  -- An update of the manifest clears what has expired.
  update_clears :
      (x : String) (d d' : Disk)
      → find_node (games_path w x) d ≢ some folder
      → is_file (find_node (games_path w date) d) ≡ true
      → update_manifest env w kind_games date d ≡ (ok tt, d')
      → is_expired (cutoff_day env w) (parse_date x) ≡ true
      → find_node (games_path w x) d' ≡ none
  unfolding prune_old_snapshots
  update_clears x d d' h here e old =
      let (dates, listed, f) = update_manifest_inv env w date d d' e in
      let r = prune_old_snapshots env w kind_games (with_date dates date) d in
      let no_folder : find_node (games_path w x) r.1 ≢ some folder = λ k. ground (
        arith,
        h,
        k,
        prune_loop_or env w (cutoff_day env w) (with_date dates date) d (games_path w x),
      ) in
      let cleared : is_file (find_node (games_path w x) r.1) ≡ false = ground (
        arith,
        is_file-prune_loop env w (cutoff_day env w) fine.removes (with_date dates date) d x,
        contains_date-with_date env w dates date x,
        contains_date-list_dates env w d dates listed x,
        eq_iff date x,
        here,
        old,
      ) in
      find_node-write_manifest env w _ r.1 d' (games_path w x) f
      ∙ rw (manifest_path_ne w.base_path w x, tmp_path_ne_games (manifest_path w.base_path) w x)
          (nothing_left (find_node (games_path w x) r.1) no_folder cleared)

  shelf-write :
      (snapshot : TodayResponse) (d d' : Disk) (x : String)
      → HasFiles d
      → str_eq date "" ≡ false
      → write_games_snapshot env (some w) date snapshot d ≡ (ok tt, d')
      → shelf w d' x ≡ shelve (cutoff_day env w) date snapshot (shelf w d) x
  unfolding shelve
  shelf-write snapshot d d' x h ne e =
      elim (Bool-cases (is_expired (cutoff_day env w) (parse_date x))) [
        | inr live ↦ rw (ne, live) (write_games_snapshot_stores env w date snapshot d d' e x live)
        | inl old ↦
            let half = write_games_snapshot_inv env w date snapshot d d' e in
            let no_folder : find_node (games_path w x) half.disk ≢ some folder = λ k.
              ground (arith, h (games_path w x), k, half.target, half.others x, eq_iff date x) in
            rw (ne, old)
              (update_clears x half.disk d' no_folder (ap is_file half.target) half.updates old)
      ]

-- Where nothing but reading may fail and no directory is in the way, a write under a date returns
-- without an error, and under an empty one it changes nothing; in both cases the snapshots on the
-- disk are what the abstract write makes of them: the date's snapshot is replaced, everything that
-- has expired is gone, and all else is as it was. No directory is in the way then.
pub shelf-write_games_snapshot :
    (env : Env) (w : Writer) (date : String) (snapshot : TodayResponse) (d : Disk)
    → IsHealthy env
    → HasFiles d
    → let out = write_games_snapshot env (some w) date snapshot d in
      (str_eq date "" ≡ false → out.0 ≡ ok tt)
      × HasFiles out.1
      × ((x : String) → shelf w out.1 x ≡ shelve (cutoff_day env w) date snapshot (shelf w d) x)
unfolding write_games_snapshot write_snapshot shelve
shelf-write_games_snapshot env w date snapshot d fine h = elim (Bool-cases (str_eq date "")) [
  | inl e ↦ rw (e, write_games_snapshot, shelve) (λ k. cc, h, λ x. refl)
  | inr e ↦
      let (k, g) = store_payload_ok env fine w date (prepared date snapshot) d h in
      let same : write_games_snapshot env (some w) date snapshot d
          ≡ store_payload env w kind_games date (prepared date snapshot) d =
        rw (e, write_games_snapshot) refl in
      let done = ap (λ r. r.0) same ∙ k in
      (
        λ _. done,
        subst (λ r. HasFiles r.1) (sym same) g,
        λ x.
            shelf-write env fine w date snapshot d _ x h e
              (ap (λ a. (a, (write_games_snapshot env (some w) date snapshot d).1)) done),
      )
]
