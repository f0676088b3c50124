-- ===== src/Snapshots/Writer/Storing.antt =====
-- What WriteGamesSnapshot leaves on the disk.
use nba_games_service.Base.{
  String, true, false, none, some, ◌≡◌, refl, sym, ap, ◌∙◌, arith, str_eq, if◌then◌else◌, eq_iff,
  Bool-cases, inl, inr,
}
use nba_games_service.Calendar.{parse_date}
use nba_games_service.Domain.{TodayResponse, TodayResponse-discrete}
use nba_games_service.Errors.{Result, ok, err}
use nba_games_service.Snapshots.Disk.{
  FilePath, path_eq, path_eq_iff, Document, snapshot_json, manifest_json, foreign, file, Disk,
  find_node, same_bytes,
}
use nba_games_service.Snapshots.Files.{Env, Io, is_file, mkdir_all, read_file, bind_inv, ◌>>◌}
use nba_games_service.Snapshots.Writer.{
  Writer, kind_games, snapshot_path, manifest_path, tmp_path, with_date, prune_old_snapshots,
  cutoff_day, update_manifest, replace_unless_same, store_payload, write_snapshot, prepared,
  write_games_snapshot, is_expired, is_same,
}
use nba_games_service.Snapshots.Writer.Pruning.{
  games_path, games_path_iff, expired, prune_loop_kept,
}
use nba_games_service.Snapshots.Writer.Replacing.{find_node-replace_file}
use nba_games_service.Snapshots.Writer.Agreement.{
  manifest_path_ne, tmp_path_ne_games, Agrees, update_manifest_inv, update_manifest-Agrees,
  find_node-write_manifest,
}

same_bytes_inv : (x : Document) (t : TodayResponse) → same_bytes x t ≡ true → x ≡ snapshot_json t
unfolding same_bytes
same_bytes_inv (snapshot_json s) t h = go (TodayResponse-discrete s t) h
  where
    go :
        (r : Dec (s ≡ t))
        → elim r [ yes _ ↦ true | no _ ↦ false ] ≡ true
        → snapshot_json s ≡ snapshot_json t
    go (yes e) h = ap snapshot_json e
    go (no n) h = cc
same_bytes_inv (manifest_json m) t h = cc
same_bytes_inv (foreign a b c) t h = cc

module _ (env : Env) where
  read_file_inv :
      (p : FilePath) (d : Disk) (x : Document)
      → read_file env p d ≡ ok x
      → find_node p d ≡ some (file x)
  unfolding read_file
  read_file_inv p d x h = ground arith

  pub is_same_inv :
      (p : FilePath) (d : Disk) (t : TodayResponse)
      → is_same (read_file env p d) t ≡ true
      → find_node p d ≡ some (file (snapshot_json t))
  is_same_inv p d t h = go (read_file env p d) refl h
    where
      go :
          (r : Result Document)
          → read_file env p d ≡ r
          → is_same r t ≡ true
          → find_node p d ≡ some (file (snapshot_json t))
      go (ok x) e k = read_file_inv p d x e ∙ ap (λ y. some (file y)) (same_bytes_inv x t k)
      go (err x) e k = cc

  -- After a successful write of the payload it stands at the target; other paths stay.
  replace_unless_same_lem :
      (p q : FilePath) (t : TodayResponse) (d d' : Disk)
      → path_eq (tmp_path p) q ≡ false
      → replace_unless_same env p t d ≡ (ok tt, d')
      → find_node q d' ≡ (if path_eq p q then some (file (snapshot_json t)) else find_node q d)
  unfolding replace_unless_same
  replace_unless_same_lem p q t d d' h e = elim (Bool-cases (is_same (read_file env p d) t)) [
    | inl k ↦
        let same : d ≡ d' =
          ap (λ (r : Result (Unit {0}) × Disk). r.1) (rw (k, replace_unless_same) at e) in
        ground (arith, same, is_same_inv p d t k, path_eq_iff p q)
    | inr k ↦
        find_node-replace_file env p q (snapshot_json t) d d' (rw (k, replace_unless_same) at e)
        ∙ rw h
  ]

  mkdir_all_inv : (b x : String) (d d' : Disk) → mkdir_all env b x d ≡ (ok tt, d') → d ≡ d'
  unfolding mkdir_all
  mkdir_all_inv b x d d' e = ground arith

  module _ (w : Writer) (date : String) (snapshot : TodayResponse) (d d' : Disk) where
    -- The disk between the snapshot's replacement and the manifest's update.
    pub record Halfway : Type 0 where
      pub disk : Disk
      pub target :
          find_node (games_path w date) disk ≡ some (file (snapshot_json (prepared date snapshot)))
      pub others :
          (x : String)
          → str_eq date x ≡ false
          → find_node (games_path w x) disk ≡ find_node (games_path w x) d
      pub updates : update_manifest env w kind_games date disk ≡ (ok tt, d')

    store_payload_inv :
        store_payload env w kind_games date (prepared date snapshot) d ≡ (ok tt, d') → Halfway
    unfolding store_payload snapshot_path
    store_payload_inv e =
        let p : FilePath = games_path w date in
        let t : TodayResponse = prepared date snapshot in
        let last : Io (Unit {0}) = update_manifest env w kind_games date in
        let rest : Io (Unit {0}) = replace_unless_same env p t >> last in
        let (_, d1, e1, f1) = bind_inv (mkdir_all env p.base p.dir) (λ _. rest) d tt d' e in
        let (_, d2, e2, f2) = bind_inv (replace_unless_same env p t) (λ _. last) d1 tt d' f1 in
        let same : d ≡ d1 = mkdir_all_inv p.base p.dir d d1 e1 in
        record {
          disk = d2;
          target =
              replace_unless_same_lem p p t d1 d2 (tmp_path_ne_games p w date) e2
              ∙ rw ((path_eq_iff p p).1 refl);
          others = λ x h.
              replace_unless_same_lem p (games_path w x) t d1 d2 (tmp_path_ne_games p w x) e2
              ∙ rw (games_path_iff w date x, h) (ap (find_node (games_path w x)) (sym same));
          updates = f2;
        }

    pub write_games_snapshot_inv :
        write_games_snapshot env (some w) date snapshot d ≡ (ok tt, d') → Halfway
    unfolding write_games_snapshot write_snapshot
    write_games_snapshot_inv e = elim (Bool-cases (str_eq date "")) [
      | inl h ↦ absurd (cc (rw (h, write_games_snapshot) at e))
      | inr h ↦ store_payload_inv (rw (h, write_games_snapshot) at e)
    ]

    -- The manifest's update leaves alone what has not expired.
    update_keeps :
        (x : String) (disk : Disk)
        → update_manifest env w kind_games date disk ≡ (ok tt, d')
        → expired env w (cutoff_day env w) x ≡ false
        → find_node (games_path w x) d' ≡ find_node (games_path w x) disk
    unfolding prune_old_snapshots
    update_keeps x disk e live =
        let (dates, _, f) = update_manifest_inv env w date disk d' e in
        find_node-write_manifest env w _ _ d' (games_path w x) f
        ∙ rw (manifest_path_ne w.base_path w x, tmp_path_ne_games (manifest_path w.base_path) w x)
            (prune_loop_kept env w (cutoff_day env w) (with_date dates date) disk x live)

-- A successful write, with the date inside the retention window, leaves the prepared snapshot in
-- the date's file, and every other date in the window as it was.
pub write_games_snapshot_stores :
    (env : Env) (w : Writer) (date : String) (snapshot : TodayResponse) (d d' : Disk)
    → write_games_snapshot env (some w) date snapshot d ≡ (ok tt, d')
    → (x : String) → is_expired (cutoff_day env w) (parse_date x) ≡ false
    → find_node (games_path w x) d' ≡ (
        if str_eq date x
        then some (file (snapshot_json (prepared date snapshot)))
        else find_node (games_path w x) d)
write_games_snapshot_stores env w date snapshot d d' e x live =
    let h = write_games_snapshot_inv env w date snapshot d d' e in
    ground (
      arith,
      update_keeps env w date snapshot d d' x h.disk h.updates live,
      h.target,
      h.others x,
      eq_iff date x,
    )

-- If removals work, after a successful write the manifest is on the disk, its dates are sorted, and
-- they are exactly the dates whose snapshot files are on the disk.
pub write_games_snapshot-Agrees :
    (env : Env) (w : Writer) (date : String) (snapshot : TodayResponse) (d d' : Disk)
    → ((p : FilePath) → env.remove_error p ≡ none)
    → write_games_snapshot env (some w) date snapshot d ≡ (ok tt, d')
    → Agrees w d'
write_games_snapshot-Agrees env w date snapshot d d' removable e =
    let h = write_games_snapshot_inv env w date snapshot d d' e in
    update_manifest-Agrees env w removable date h.disk d' (ap is_file h.target) h.updates
