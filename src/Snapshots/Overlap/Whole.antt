-- ===== src/Snapshots/Overlap/Whole.antt =====
-- What overlapping calls of the writer leave under each date.
use nba_games_service.Base.{
  String, false, none, some, ◌≡◌, ◌≢◌, ◌⊎◌, inl, refl, ◌∙◌, arith, str_eq, eq_iff,
}
use nba_games_service.Domain.{TodayResponse}
use nba_games_service.Snapshots.Disk.{
  FilePath, path_eq, path_eq_iff, snapshot_json, Node, file, Disk, find_node, put_node, drop_node,
  find_node-put_node, find_node-drop_node,
}
use nba_games_service.Snapshots.Names.{tmp_name_inj, json_name}
use nba_games_service.Snapshots.Writer.{Writer, prepared, manifest_path, tmp_path}
use nba_games_service.Snapshots.Writer.Agreement.{manifest_path_ne, tmp_path_ne_games}
use nba_games_service.Snapshots.Writer.Pruning.{games_path, games_path_iff, remove_or, remove_ne}
use nba_games_service.Snapshots.Overlap.{
  Pc, renaming, date_of, Move, begins, same, opens, writes, closes, renames, lists, keeps, prunes,
  opens_manifest, writes_manifest, closes_manifest, places, fails,
}

-- The temporary file of a date is no other date's, and neither a snapshot nor the manifest.
tmp_iff :
    (w : Writer) (x y : String)
    → path_eq (tmp_path (games_path w x)) (tmp_path (games_path w y)) ≡ str_eq x y
tmp_iff w x y = ground (
  arith,
  path_eq_iff (tmp_path (games_path w x)) (tmp_path (games_path w y)),
  tmp_name_inj (json_name x) (json_name y),
  games_path_iff w x y,
  path_eq_iff (games_path w x) (games_path w y),
  eq_iff x y,
)

games_ne_tmp :
    (w : Writer) (x y : String) → path_eq (games_path w x) (tmp_path (games_path w y)) ≡ false
games_ne_tmp w x y = ground (
  arith,
  tmp_path_ne_games (games_path w y) w x,
  path_eq_iff (games_path w x) (tmp_path (games_path w y)),
  path_eq_iff (tmp_path (games_path w y)) (games_path w x),
)

manifest_ne_tmp :
    (w : Writer) (y : String)
    → path_eq (manifest_path w.base_path) (tmp_path (games_path w y)) ≡ false
manifest_ne_tmp w y =
    ground (
      arith,
      path_eq_iff (manifest_path w.base_path) (tmp_path (games_path w y)),
      eq_iff "" "games",
    )

manifest_tmp_ne_tmp :
    (w : Writer) (y : String)
    → path_eq (tmp_path (manifest_path w.base_path)) (tmp_path (games_path w y)) ≡ false
manifest_tmp_ne_tmp w y = ground (
  arith,
  path_eq_iff (tmp_path (manifest_path w.base_path)) (tmp_path (games_path w y)),
  eq_iff "" "games",
)

-- What a goroutine knows of the disk: before the rename, its temporary file is whole.
abbrev pub Holds : Writer → Disk → Pc → Type 0
Holds w d (renaming date snapshot) =
    find_node (tmp_path (games_path w date)) d
    ≡ some (file (snapshot_json (prepared date snapshot)))
Holds w d _ = Unit {0}

module _ (w : Writer) (d : Disk) where
  put_elsewhere :
      (p q : FilePath) (n : Node)
      → path_eq p q ≡ false
      → find_node q (put_node p n d) ≡ find_node q d
  put_elsewhere p q n e = find_node-put_node p q n d ∙ rw e refl

  moved_elsewhere :
      (p q r : FilePath) (n : Node)
      → path_eq p r ≡ false
      → path_eq q r ≡ false
      → find_node r (put_node p n (drop_node q d)) ≡ find_node r d
  moved_elsewhere p q r n e f =
      find_node-put_node p r n (drop_node q d) ∙ rw e (find_node-drop_node q r d ∙ rw f refl)

  -- A date's file after a step: as it was, gone, or the whole snapshot of a call that renames.
  pub Move-snapshot :
      {d' : Disk} {p p' : Pc} (x : String)
      → Move w d p d' p'
      → Holds w d p
      → (find_node (games_path w x) d' ≡ find_node (games_path w x) d)
        ⊎ (find_node (games_path w x) d' ≡ none)
        ⊎ ((snapshot : TodayResponse) × (p ≡ renaming x snapshot)
            × (find_node (games_path w x) d' ≡ some (file (snapshot_json (prepared x snapshot)))))
  Move-snapshot x (begins date snapshot e) h = inl refl
  Move-snapshot x (same e) h = inl refl
  Move-snapshot x (opens {date} part) h = inl (
      put_elsewhere (tmp_path (games_path w date)) (games_path w x) _
        (tmp_path_ne_games (games_path w date) w x))
  Move-snapshot x (writes {date} part) h = inl (
      put_elsewhere (tmp_path (games_path w date)) (games_path w x) _
        (tmp_path_ne_games (games_path w date) w x))
  Move-snapshot x (closes {date}) h = inl (
      put_elsewhere (tmp_path (games_path w date)) (games_path w x) _
        (tmp_path_ne_games (games_path w date) w x))
  Move-snapshot x (renames {date} {snapshot} n e) h = ground (
    arith,
    find_node-put_node (games_path w date) (games_path w x) n
        (drop_node (tmp_path (games_path w date)) d),
    find_node-drop_node (tmp_path (games_path w date)) (games_path w x) d,
    tmp_path_ne_games (games_path w date) w x,
    games_path_iff w date x,
    eq_iff date x,
  )
  Move-snapshot x (lists env dates e) h = inl refl
  Move-snapshot x (keeps e) h = inl refl
  Move-snapshot x (prunes {x = y} env e) h =
      ground (arith, remove_or env (games_path w y) (games_path w x) d)
  Move-snapshot x (opens_manifest part) h = inl (
      put_elsewhere (tmp_path (manifest_path w.base_path)) (games_path w x) _
        (tmp_path_ne_games (manifest_path w.base_path) w x))
  Move-snapshot x (writes_manifest q part e) h = inl (
      put_elsewhere q (games_path w x) _ (
        ground (
          arith,
          tmp_path_ne_games (manifest_path w.base_path) w x,
          manifest_path_ne w.base_path w x,
        )))
  Move-snapshot x closes_manifest h = inl refl
  Move-snapshot x (places n e) h = inl (
      moved_elsewhere (manifest_path w.base_path) (tmp_path (manifest_path w.base_path))
        (games_path w x) n (manifest_path_ne w.base_path w x)
        (tmp_path_ne_games (manifest_path w.base_path) w x))
  Move-snapshot x fails h = inl refl

  -- A goroutine leaves the temporary files of other dates alone.
  pub Move-tmp :
      {d' : Disk} {p p' : Pc} (y : String)
      → Move w d p d' p'
      → date_of p ≢ some y
      → find_node (tmp_path (games_path w y)) d' ≡ find_node (tmp_path (games_path w y)) d
  Move-tmp y (begins date snapshot e) h = refl
  Move-tmp y (same e) h = refl
  Move-tmp y (opens {date} part) h =
      put_elsewhere (tmp_path (games_path w date)) (tmp_path (games_path w y)) _
        (ground (arith, tmp_iff w date y, eq_iff date y))
  Move-tmp y (writes {date} part) h =
      put_elsewhere (tmp_path (games_path w date)) (tmp_path (games_path w y)) _
        (ground (arith, tmp_iff w date y, eq_iff date y))
  Move-tmp y (closes {date}) h =
      put_elsewhere (tmp_path (games_path w date)) (tmp_path (games_path w y)) _
        (ground (arith, tmp_iff w date y, eq_iff date y))
  Move-tmp y (renames {date} n e) h =
      moved_elsewhere (games_path w date) (tmp_path (games_path w date)) (tmp_path (games_path w y))
        n (games_ne_tmp w date y) (ground (arith, tmp_iff w date y, eq_iff date y))
  Move-tmp y (lists env dates e) h = refl
  Move-tmp y (keeps e) h = refl
  Move-tmp y (prunes {x} env e) h =
      remove_ne env (games_path w x) (tmp_path (games_path w y)) d (games_ne_tmp w x y)
  Move-tmp y (opens_manifest part) h =
      put_elsewhere (tmp_path (manifest_path w.base_path)) (tmp_path (games_path w y)) _
        (manifest_tmp_ne_tmp w y)
  Move-tmp y (writes_manifest q part e) h =
      put_elsewhere q (tmp_path (games_path w y)) _
        (ground (arith, manifest_tmp_ne_tmp w y, manifest_ne_tmp w y))
  Move-tmp y closes_manifest h = refl
  Move-tmp y (places n e) h =
      moved_elsewhere (manifest_path w.base_path) (tmp_path (manifest_path w.base_path))
        (tmp_path (games_path w y)) n (manifest_ne_tmp w y) (manifest_tmp_ne_tmp w y)
  Move-tmp y fails h = refl

  -- The mover knows what it needs of its own temporary file.
  pub Move-own : {d' : Disk} {p p' : Pc} → Move w d p d' p' → Holds w d' p'
  Move-own (begins date snapshot e) = tt
  Move-own (same e) = tt
  Move-own (opens part) = tt
  Move-own (writes part) = tt
  Move-own (closes {date} {snapshot}) =
      find_node-put_node (tmp_path (games_path w date)) (tmp_path (games_path w date))
        (file (snapshot_json (prepared date snapshot))) d
      ∙ ground (arith, tmp_iff w date date, eq_iff date date)
  Move-own (renames n e) = tt
  Move-own (lists env dates e) = tt
  Move-own (keeps e) = tt
  Move-own (prunes env e) = tt
  Move-own (opens_manifest part) = tt
  Move-own (writes_manifest q part e) = tt
  Move-own closes_manifest = tt
  Move-own (places n e) = tt
  Move-own fails = tt
