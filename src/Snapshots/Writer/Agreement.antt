-- ===== src/Snapshots/Writer/Agreement.antt =====
-- After a successful write the manifest lists exactly the snapshot files on the disk.
use nba_games_service.Base.{
  String, true, false, none, some, List, ◌≡◌, refl, sym, ap, ◌∙◌, arith, str_eq, if◌then◌else◌,
  eq_iff,
}
use nba_games_service.Base.Sort.{IsSorted, sort_by-IsSorted}
use nba_games_service.Errors.{Result, ok, err}
use nba_games_service.Snapshots.Disk.{
  FilePath, path_eq, path_eq_iff, Manifest, manifest_json, file, Disk, find_node,
}
use nba_games_service.Snapshots.Names.{ext-json_name, ext-tmp_name}
use nba_games_service.Snapshots.Files.{Env, is_file}
use nba_games_service.Snapshots.Writer.{
  Writer, kind_games, contains_date, manifest_path, tmp_path, list_dates, with_date, prune_loop,
  prune_old_snapshots, cutoff_day, refreshed, read_manifest, write_manifest, update_manifest,
}
use nba_games_service.Snapshots.Writer.Listing.{
  contains_date-list_dates, contains_date-sort_strings, contains_date-append,
}
use nba_games_service.Snapshots.Writer.Pruning.{
  games_path, contains_date-prune_loop, is_file-prune_loop,
}
use nba_games_service.Snapshots.Writer.Replacing.{find_node-replace_file}

-- A snapshot's path is neither the manifest's, nor a temporary one.
pub manifest_path_ne :
    (b : String) (w : Writer) (x : String) → path_eq (manifest_path b) (games_path w x) ≡ false
manifest_path_ne b w x =
    ground (arith, path_eq_iff (manifest_path b) (games_path w x), eq_iff "" "games")

pub tmp_path_ne_games :
    (p : FilePath) (w : Writer) (x : String) → path_eq (tmp_path p) (games_path w x) ≡ false
tmp_path_ne_games p w x = ground (
  arith,
  path_eq_iff (tmp_path p) (games_path w x),
  ext-tmp_name p.name,
  ext-json_name x,
  eq_iff ".tmp" ".json",
)

-- What is at the manifest's path, and what its dates say.
pub record Agrees (w : Writer) (d : Disk) : Type 0 where
  pub manifest : Manifest
  pub stored : find_node (manifest_path w.base_path) d ≡ some (file (manifest_json manifest))
  pub sorted : IsSorted (λ s. s) manifest.games_dates
  pub complete :
      (x : String) → contains_date manifest.games_dates x ≡ is_file (find_node (games_path w x) d)

module _ (env : Env) (w : Writer) where
  pub update_manifest_inv :
      (date : String) (d d' : Disk)
      → update_manifest env w kind_games date d ≡ (ok tt, d')
      → (dates : List String) × (list_dates env w kind_games d ≡ ok dates)
        × (let pruned = prune_old_snapshots env w kind_games (with_date dates date) d in
            let m = read_manifest env (manifest_path w.base_path) w.retention_days d in
            write_manifest env w.base_path (refreshed env w kind_games pruned.0 m) pruned.1
            ≡ (ok tt, d'))
  unfolding update_manifest
  update_manifest_inv date d d' = go (list_dates env w kind_games d) refl
    where
      go :
          (r : Result (List String))
          → list_dates env w kind_games d ≡ r
          → update_manifest env w kind_games date d ≡ (ok tt, d')
          → (dates : List String) × (list_dates env w kind_games d ≡ ok dates)
            × (let pruned = prune_old_snapshots env w kind_games (with_date dates date) d in
                let m = read_manifest env (manifest_path w.base_path) w.retention_days d in
                write_manifest env w.base_path (refreshed env w kind_games pruned.0 m) pruned.1
                ≡ (ok tt, d'))
      go (ok dates) f e = (dates, f, rw (f, update_manifest) at e)
      go (err x) f e = absurd (cc (rw (f, update_manifest) at e))

  -- What stands at a path after the manifest is written.
  pub find_node-write_manifest :
      (m : Manifest) (d d' : Disk) (q : FilePath)
      → write_manifest env w.base_path m d ≡ (ok tt, d')
      → find_node q d' ≡ (
          if path_eq (manifest_path w.base_path) q
          then some (file (manifest_json (record m { generated_at = env.generated_at })))
          else if path_eq (tmp_path (manifest_path w.base_path)) q
          then none
          else find_node q d)
  unfolding write_manifest
  find_node-write_manifest m d d' q e =
      find_node-replace_file env (manifest_path w.base_path) q _ d d' e

  pub contains_date-with_date :
      (dates : List String) (date x : String)
      → contains_date (with_date dates date) x
        ≡ (if contains_date dates x then true else str_eq date x)
  contains_date-with_date dates date x =
      ground (arith, contains_date-append dates date x, eq_iff date x)

  module _ (removable : (p : FilePath) → env.remove_error p ≡ none) (date : String)
      (d d' : Disk) where
    -- The loop over the dates, seen from one date.
    pruned_agree :
        (dates : List String) (x : String)
        → is_file (find_node (games_path w date) d) ≡ true
        → list_dates env w kind_games d ≡ ok dates
        → let r = prune_old_snapshots env w kind_games (with_date dates date) d in
          contains_date r.0 x ≡ is_file (find_node (games_path w x) r.1)
    unfolding prune_old_snapshots
    pruned_agree dates x here listed =
        contains_date-sort_strings
          (prune_loop env w kind_games (cutoff_day env w) (with_date dates date) d).0 x
        ∙ ground (
          arith,
          contains_date-prune_loop env w (cutoff_day env w) (with_date dates date) d x,
          is_file-prune_loop env w (cutoff_day env w) removable (with_date dates date) d x,
          contains_date-with_date dates date x,
          contains_date-list_dates env w d dates listed x,
          eq_iff date x,
        )

    pub update_manifest-Agrees :
        is_file (find_node (games_path w date) d) ≡ true
        → update_manifest env w kind_games date d ≡ (ok tt, d')
        → Agrees w d'
    update_manifest-Agrees here e =
        let (dates, listed, f) = update_manifest_inv date d d' e in
        let r : List String × Disk =
          prune_old_snapshots env w kind_games (with_date dates date) d in
        let m : Manifest = read_manifest env (manifest_path w.base_path) w.retention_days d in
        let after = λ (q : FilePath).
          find_node-write_manifest (refreshed env w kind_games r.0 m) r.1 d' q f in
        record {
          manifest = record (refreshed env w kind_games r.0 m) { generated_at = env.generated_at };
          stored =
              after (manifest_path w.base_path)
              ∙ rw ((path_eq_iff (manifest_path w.base_path) _).1 refl);
          sorted = unfold prune_old_snapshots in sort_by-IsSorted (λ s. s) _;
          complete = λ x.
              pruned_agree dates x here listed
              ∙ sym (
                  ap is_file (
                    after (games_path w x)
                    ∙ rw (
                      manifest_path_ne w.base_path w x,
                      tmp_path_ne_games (manifest_path w.base_path) w x,
                    )));
        }
