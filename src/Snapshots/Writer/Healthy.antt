-- ===== src/Snapshots/Writer/Healthy.antt =====
-- A write where nothing fails.
use nba_games_service.Base.{
  String, none, some, List, [], ◌≡◌, ◌≢◌, refl, sym, subst, ap, ◌∙◌, arith, Bool-cases, inl, inr,
}
use nba_games_service.Base.Sort.{sort_by, sort_strings}
use nba_games_service.Domain.{TodayResponse}
use nba_games_service.Errors.{Result, ok}
use nba_games_service.Snapshots.Disk.{
  FilePath, path_eq_iff, Document, snapshot_json, file, folder, Disk, find_node, put_node,
  find_node-put_node,
}
use nba_games_service.Snapshots.Files.{
  Env, Io, healthy, mkdir_all, write_file, rename, read_file, read_dir, entries_of, bind_ok, ◌>>◌,
}
use nba_games_service.Snapshots.Writer.{
  Writer, kind_games, collect_dates, snapshot_path, manifest_path, tmp_path, list_dates, with_date,
  prune_old_snapshots, cutoff_day, write_manifest, update_manifest, replace_file,
  replace_unless_same, is_same, store_payload,
}
use nba_games_service.Snapshots.Writer.Pruning.{games_path, prune_loop_or}
use nba_games_service.Snapshots.Writer.Replacing.{find_node-replace_file}

-- No call of the file system fails, but for reading, which the writer takes in its stride.
pub record IsHealthy (env : Env) : Type 0 where
  pub makes : (base dir : String) → env.mkdir_error base dir ≡ none
  pub lists : (base dir : String) → env.list_error base dir ≡ none
  pub writes : (p : FilePath) → env.write_fault p ≡ healthy
  pub renames : (p q : FilePath) → env.rename_error p q ≡ none
  pub removes : (p : FilePath) → env.remove_error p ≡ none

-- No directory stands where a file goes.
abbrev pub HasFiles : Disk → Type 0
HasFiles d = (q : FilePath) → find_node q d ≢ some folder

-- A call that returns, with the disk that it leaves.
returns : (r : Result (Unit {0}) × Disk) → r.0 ≡ ok tt → r ≡ (ok tt, r.1)
returns r e = ap (λ a. (a, r.1)) e

module _ (env : Env) (fine : IsHealthy env) where
  write_file_ok :
      (p : FilePath) (x : Document) (d : Disk)
      → HasFiles d
      → write_file env p x d ≡ (ok tt, put_node p (file x) d)
  unfolding write_file
  write_file_ok p x d h = ground (arith, h p, fine.writes p)

  HasFiles-put_node :
      (p : FilePath) (x : Document) (d : Disk) → HasFiles d → HasFiles (put_node p (file x) d)
  HasFiles-put_node p x d h q e = ground (arith, h q, find_node-put_node p q (file x) d, e)

  rename_ok :
      (p q : FilePath) (x : Document) (d : Disk)
      → HasFiles d
      → find_node p d ≡ some (file x)
      → (rename env p q d).0 ≡ ok tt
  unfolding rename
  rename_ok p q x d h e = ground (arith, h q, e, fine.renames p q)

  replace_file_ok :
      (p : FilePath) (x : Document) (d : Disk) → HasFiles d → (replace_file env p x d).0 ≡ ok tt
  unfolding replace_file
  replace_file_ok p x d h =
      let t : FilePath = tmp_path p in
      let d1 = put_node t (file x) d in
      let there : find_node t d1 ≡ some (file x) =
        find_node-put_node t t (file x) d ∙ rw ((path_eq_iff t t).1 refl) refl in
      ap (λ r. r.0)
        (bind_ok (write_file env t x) (λ _. rename env t p) d tt d1 (write_file_ok t x d h))
      ∙ rename_ok t p x d1 (HasFiles-put_node t x d h) there

  HasFiles-replace_file :
      (p : FilePath) (x : Document) (d : Disk) → HasFiles d → HasFiles (replace_file env p x d).1
  HasFiles-replace_file p x d h q e = ground (
    arith,
    h q,
    e,
    find_node-replace_file env p q x d _
        (returns (replace_file env p x d) (replace_file_ok p x d h)),
  )

  replace_unless_same_ok :
      (p : FilePath) (t : TodayResponse) (d : Disk)
      → HasFiles d
      → ((replace_unless_same env p t d).0 ≡ ok tt) × HasFiles (replace_unless_same env p t d).1
  unfolding replace_unless_same
  replace_unless_same_ok p t d h = elim (Bool-cases (is_same (read_file env p d) t)) [
    | inl e ↦ rw (e, replace_unless_same) (refl, h)
    | inr e ↦
        rw (e, replace_unless_same)
          (replace_file_ok p (snapshot_json t) d h, HasFiles-replace_file p (snapshot_json t) d h)
  ]

  list_dates_ok :
      (w : Writer) (d : Disk) → (dates : List String) × (list_dates env w kind_games d ≡ ok dates)
  unfolding list_dates read_dir
  list_dates_ok w d = (
    sort_strings (collect_dates [] (sort_by (λ e. e.0) (entries_of w.base_path kind_games d))),
    rw (fine.lists w.base_path kind_games, list_dates, read_dir) refl,
  )

  HasFiles-prune_old_snapshots :
      (w : Writer) (dates : List String) (d : Disk)
      → HasFiles d
      → HasFiles (prune_old_snapshots env w kind_games dates d).1
  unfolding prune_old_snapshots
  HasFiles-prune_old_snapshots w dates d h q e =
      ground (arith, h q, e, prune_loop_or env w (cutoff_day env w) dates d q)

  update_manifest_ok :
      (w : Writer) (date : String) (d : Disk)
      → HasFiles d
      → ((update_manifest env w kind_games date d).0 ≡ ok tt)
        × HasFiles (update_manifest env w kind_games date d).1
  unfolding update_manifest write_manifest
  update_manifest_ok w date d h =
      let (dates, e) = list_dates_ok w d in
      let r = prune_old_snapshots env w kind_games (with_date dates date) d in
      let g = HasFiles-prune_old_snapshots w (with_date dates date) d h in
      rw (e, update_manifest, write_manifest)
        (
          replace_file_ok (manifest_path w.base_path) _ r.1 g,
          HasFiles-replace_file (manifest_path w.base_path) _ r.1 g,
        )

  mkdir_all_ok : (b c : String) (d : Disk) → mkdir_all env b c d ≡ (ok tt, d)
  unfolding mkdir_all
  mkdir_all_ok b c d = ground (arith, fine.makes b c)

  pub store_payload_ok :
      (w : Writer) (date : String) (t : TodayResponse) (d : Disk)
      → HasFiles d
      → ((store_payload env w kind_games date t d).0 ≡ ok tt)
        × HasFiles (store_payload env w kind_games date t d).1
  unfolding store_payload snapshot_path
  store_payload_ok w date t d h =
      let p : FilePath = games_path w date in
      let replace : Io (Unit {0}) = replace_unless_same env p t in
      let last : Io (Unit {0}) = update_manifest env w kind_games date in
      let (e, g) = replace_unless_same_ok p t d h in
      let first : (mkdir_all env p.base p.dir >> (replace >> last)) d ≡ (replace >> last) d =
        bind_ok (mkdir_all env p.base p.dir) (λ _. replace >> last) d tt d
          (mkdir_all_ok p.base p.dir d) in
      let second : (replace >> last) d ≡ last (replace d).1 =
        bind_ok replace (λ _. last) d tt (replace d).1 (returns (replace d) e) in
      subst (λ r. (r.0 ≡ ok tt) × HasFiles r.1) (sym (first ∙ second))
        (update_manifest_ok w date (replace d).1 g)
