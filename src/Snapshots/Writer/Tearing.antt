-- ===== src/Snapshots/Writer/Tearing.antt =====
-- No failure leaves a snapshot file torn.
use nba_games_service.Base.{
  String, true, Option, none, some, List, ◌≡◌, refl, ◌∙◌, arith, str_eq, eq_iff, Bool-cases, inl,
  inr, ◌⊎◌,
}
use nba_games_service.Calendar.{parse_date}
use nba_games_service.Domain.{TodayResponse}
use nba_games_service.Errors.{Result, ok, err}
use nba_games_service.Snapshots.Disk.{
  FilePath, Manifest, snapshot_json, manifest_json, Node, file, Disk, find_node,
}
use nba_games_service.Snapshots.Files.{Env, Io, mkdir_all, bind_disk, ◌>>◌}
use nba_games_service.Snapshots.Writer.{
  Writer, kind_games, snapshot_path, manifest_path, list_dates, with_date, prune_old_snapshots,
  cutoff_day, write_manifest, update_manifest, replace_unless_same, store_payload, write_snapshot,
  prepared, write_games_snapshot, is_expired,
}
use nba_games_service.Snapshots.Writer.Pruning.{
  games_path, games_path_iff, expired, prune_loop_kept, prune_loop_or,
}
use nba_games_service.Snapshots.Writer.Replacing.{replace_file_or}
use nba_games_service.Snapshots.Writer.Agreement.{manifest_path_ne, tmp_path_ne_games}

-- What may have happened to the file of the date `x`: nothing, its removal after it expired, or, if
-- it is the date written, its replacement by the whole new snapshot.
abbrev pub IsWhole : Env → Writer → String → TodayResponse → String → Disk → Disk → Type 0
IsWhole env w date snapshot x d d' =
    (find_node (games_path w x) d' ≡ find_node (games_path w x) d)
    ⊎ ((is_expired (cutoff_day env w) (parse_date x) ≡ true)
        × (find_node (games_path w x) d' ≡ none))
    ⊎ ((date ≡ x)
        × (find_node (games_path w x) d' ≡ some (file (snapshot_json (prepared date snapshot)))))

module _ (env : Env) (w : Writer) (date : String) (snapshot : TodayResponse) (x : String) where
  abbrev Whole : Disk → Disk → Type 0
  Whole = IsWhole env w date snapshot x

  abbrev node : Disk → Option Node
  node d = find_node (games_path w x) d

  pruned_or :
      (dates : List String) (d : Disk)
      → (node (prune_old_snapshots env w kind_games dates d).1 ≡ node d)
        ⊎ ((expired env w (cutoff_day env w) x ≡ true)
            × (node (prune_old_snapshots env w kind_games dates d).1 ≡ none))
  unfolding prune_old_snapshots
  pruned_or dates d = elim (Bool-cases (expired env w (cutoff_day env w) x)) [
    | inr live ↦ inl (prune_loop_kept env w (cutoff_day env w) dates d x live)
    | inl old ↦ elim (prune_loop_or env w (cutoff_day env w) dates d (games_path w x)) [
      | inl e ↦ inl e
      | inr e ↦ inr (old, e)
    ]
  ]

  write_manifest_same :
      (m : Manifest) (d : Disk) → node (write_manifest env w.base_path m d).1 ≡ node d
  unfolding write_manifest
  write_manifest_same m d = ground (
    arith,
    replace_file_or env (manifest_path w.base_path) (games_path w x)
        (manifest_json (record m { generated_at = env.generated_at })) d
        (tmp_path_ne_games (manifest_path w.base_path) w x),
    manifest_path_ne w.base_path w x,
  )

  update_manifest_or :
      (d : Disk)
      → (node (update_manifest env w kind_games date d).1 ≡ node d)
        ⊎ ((expired env w (cutoff_day env w) x ≡ true)
            × (node (update_manifest env w kind_games date d).1 ≡ none))
  update_manifest_or d = go (list_dates env w kind_games d) refl
    where
      go :
          (r : Result (List String))
          → list_dates env w kind_games d ≡ r
          → (node (update_manifest env w kind_games date d).1 ≡ node d)
            ⊎ ((expired env w (cutoff_day env w) x ≡ true)
                × (node (update_manifest env w kind_games date d).1 ≡ none))
      go (err e) f = unfold update_manifest in rw (f, update_manifest) (inl refl)
      go (ok dates) f =
          unfold update_manifest in
          rw (f, update_manifest, write_manifest_same _ _) (pruned_or (with_date dates date) d)

  replace_unless_same_or :
      (d : Disk)
      → (node (replace_unless_same env (games_path w date) (prepared date snapshot) d).1 ≡ node d)
        ⊎ ((date ≡ x)
            × (node (replace_unless_same env (games_path w date) (prepared date snapshot) d).1
                ≡ some (file (snapshot_json (prepared date snapshot)))))
  unfolding replace_unless_same
  replace_unless_same_or d = ground (
    arith,
    replace_file_or env (games_path w date) (games_path w x)
        (snapshot_json (prepared date snapshot)) d (tmp_path_ne_games (games_path w date) w x),
    games_path_iff w date x,
    eq_iff date x,
  )

  Whole-after_update :
      (d e e' : Disk)
      → Whole d e
      → (node e' ≡ node e) ⊎ ((expired env w (cutoff_day env w) x ≡ true) × (node e' ≡ none))
      → Whole d e'
  Whole-after_update d e e' h (inr old) = inr (inl old)
  Whole-after_update d e e' (inl h) (inl k) = inl (k ∙ h)
  Whole-after_update d e e' (inr (inl (old, h))) (inl k) = inr (inl (old, k ∙ h))
  Whole-after_update d e e' (inr (inr (same, h))) (inl k) = inr (inr (same, k ∙ h))

  Whole-replace :
      (d e : Disk)
      → node e ≡ node d
      → Whole d (replace_unless_same env (games_path w date) (prepared date snapshot) e).1
  Whole-replace d e h = elim (replace_unless_same_or e) [
    | inl k ↦ inl (k ∙ h)
    | inr k ↦ inr (inr k)
  ]

  mkdir_all_same : (b c : String) (d : Disk) → node (mkdir_all env b c d).1 ≡ node d
  unfolding mkdir_all
  mkdir_all_same b c d = ground arith

  store_payload-Whole :
      (d : Disk) → Whole d (store_payload env w kind_games date (prepared date snapshot) d).1
  unfolding store_payload snapshot_path
  store_payload-Whole d =
      let p : FilePath = games_path w date in
      let replace : Io (Unit {0}) = replace_unless_same env p (prepared date snapshot) in
      let last : Io (Unit {0}) = update_manifest env w kind_games date in
      bind_disk (Whole d) (mkdir_all env p.base p.dir) (λ _. replace >> last) d
        (inl (mkdir_all_same p.base p.dir d))
        λ _.
          let d1 : Disk = (mkdir_all env p.base p.dir d).1 in
          let here : Whole d (replace d1).1 = Whole-replace d d1 (mkdir_all_same p.base p.dir d) in
          bind_disk (Whole d) replace (λ _. last) d1 here
            λ _.
              Whole-after_update d (replace d1).1 (last (replace d1).1).1 here
                (update_manifest_or (replace d1).1)

-- Whatever fails in a call of the writer, and whatever it returns, the file of every date is as it
-- was, or was removed because it had expired, or is the date's own file and holds the whole new
-- snapshot.
pub write_games_snapshot-IsWhole :
    (env : Env) (w : Writer) (date : String) (snapshot : TodayResponse) (d : Disk) (x : String)
    → IsWhole env w date snapshot x d (write_games_snapshot env (some w) date snapshot d).1
unfolding write_games_snapshot write_snapshot
write_games_snapshot-IsWhole env w date snapshot d x = elim (Bool-cases (str_eq date "")) [
  | inl h ↦ rw (h, write_games_snapshot) (inl refl)
  | inr h ↦ rw (h, write_games_snapshot) (store_payload-Whole env w date snapshot x d)
]
