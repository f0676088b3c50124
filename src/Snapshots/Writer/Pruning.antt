-- ===== src/Snapshots/Writer/Pruning.antt =====
-- What `pruneOldSnapshots` keeps, and what it does to the disk.
use nba_games_service.Base.{
  ℕ, String, Bool, true, false, not, ◌&&◌, none, List, [], ◌∷◌, ◌≡◌, refl, ap, ◌∙◌, arith, str_eq,
  if◌then◌else◌, eq_iff, inl, ◌⊎◌,
}
use nba_games_service.Calendar.{parse_date}
use nba_games_service.Snapshots.Disk.{
  FilePath, path, path_eq, path_eq_iff, Disk, find_node, find_node-drop_node,
}
use nba_games_service.Snapshots.Names.{json_name, cut_json-json_name}
use nba_games_service.Snapshots.Files.{Env, is_file, remove}
use nba_games_service.Snapshots.Writer.{
  Writer, contains_date, kind_games, snapshot_path, is_expired, prune_loop,
}

module _ (env : Env) (p q : FilePath) (d : Disk) where
  pub remove_ne : path_eq p q ≡ false → find_node q (remove env p d) ≡ find_node q d
  unfolding remove
  remove_ne h = ground (arith, find_node-drop_node p q d)

  -- A removal leaves a path as it is, or empty.
  pub remove_or :
      (find_node q (remove env p d) ≡ find_node q d) ⊎ (find_node q (remove env p d) ≡ none)
  unfolding remove
  remove_or = ground (arith, find_node-drop_node p q d)

  pub remove_self :
      env.remove_error p ≡ none
      → path_eq p q ≡ true
      → is_file (find_node q (remove env p d)) ≡ false
  unfolding remove
  remove_self h e = ground (arith, find_node-drop_node p q d, path_eq_iff p q)

-- The path of a games snapshot.
abbrev pub games_path : Writer → String → FilePath
games_path w x = path w.base_path "games" (json_name x)

pub snapshot_path-games : (w : Writer) (x : String) → snapshot_path w kind_games x ≡ games_path w x
unfolding snapshot_path
snapshot_path-games w x = refl

pub games_path_iff :
    (w : Writer) (x y : String) → path_eq (games_path w x) (games_path w y) ≡ str_eq x y
games_path_iff w x y = ground (
  arith,
  path_eq_iff (games_path w x) (games_path w y),
  eq_iff x y,
  cut_json-json_name x,
  cut_json-json_name y,
)

module _ (env : Env) (w : Writer) (cutoff : ℕ) where
  abbrev pub expired : String → Bool
  expired x = is_expired cutoff (parse_date x)

  abbrev pub pruned : List String → Disk → List String × Disk
  pruned xs d = prune_loop env w kind_games cutoff xs d

  prune_step : String → Disk → Disk
  prune_step x d = if expired x then remove env (games_path w x) d else d

  pruned-cons :
      (y : String) (xs : List String) (d : Disk)
      → (pruned (y ∷ xs) d).1 ≡ (pruned xs (prune_step y d)).1
  unfolding prune_loop prune_step snapshot_path
  pruned-cons y xs d = refl

  kept-cons :
      (y : String) (xs : List String) (d : Disk)
      → (pruned (y ∷ xs) d).0
        ≡ (if expired y then (pruned xs (prune_step y d)).0 else y ∷ (pruned xs (prune_step y d)).0)
  unfolding prune_loop prune_step snapshot_path
  kept-cons y xs d = refl

  prune_step_ne :
      (y : String) (q : FilePath) (d : Disk)
      → path_eq (games_path w y) q ≡ false
      → find_node q (prune_step y d) ≡ find_node q d
  unfolding prune_step
  prune_step_ne y q d h = ground (arith, remove_ne env (games_path w y) q d h)

  prune_step_kept :
      (y x : String) (d : Disk)
      → expired x ≡ false
      → find_node (games_path w x) (prune_step y d) ≡ find_node (games_path w x) d
  unfolding prune_step
  prune_step_kept y x d h =
      ground
        (arith, remove_ne env (games_path w y) (games_path w x) d, games_path_iff w y x, eq_iff y x)

  prune_step_or :
      (y : String) (q : FilePath) (d : Disk)
      → (find_node q (prune_step y d) ≡ find_node q d) ⊎ (find_node q (prune_step y d) ≡ none)
  unfolding prune_step
  prune_step_or y q d = ground (arith, remove_or env (games_path w y) q d)

  is_file-prune_step :
      ((p : FilePath) → env.remove_error p ≡ none)
      → (y x : String) (d : Disk)
      → is_file (find_node (games_path w x) (prune_step y d))
        ≡ (if str_eq y x && expired x then false else is_file (find_node (games_path w x) d))
  unfolding prune_step
  is_file-prune_step h y x d = ground (
    arith,
    remove_ne env (games_path w y) (games_path w x) d,
    remove_self env (games_path w y) (games_path w x) d (h (games_path w y)),
    games_path_iff w y x,
    eq_iff y x,
  )

  -- The kept dates are those that have not expired.
  pub contains_date-prune_loop :
      (xs : List String) (d : Disk) (x : String)
      → contains_date (pruned xs d).0 x ≡ (contains_date xs x && not (expired x))
  unfolding contains_date
  contains_date-prune_loop [] d x = unfold prune_loop in refl
  contains_date-prune_loop (y ∷ xs) d x =
      ap (λ l. contains_date l x) (kept-cons y xs d)
      ∙ ground (arith, contains_date-prune_loop xs (prune_step y d) x, eq_iff y x)

  -- A path that is no snapshot's stays as it is.
  pub prune_loop_ne :
      (xs : List String) (d : Disk) (q : FilePath)
      → ((x : String) → path_eq (games_path w x) q ≡ false)
      → find_node q (pruned xs d).1 ≡ find_node q d
  prune_loop_ne [] d q h = unfold prune_loop in refl
  prune_loop_ne (y ∷ xs) d q h =
      ap (find_node q) (pruned-cons y xs d)
      ∙ prune_loop_ne xs (prune_step y d) q h
      ∙ prune_step_ne y q d (h y)

  -- What has not expired stays as it is.
  pub prune_loop_kept :
      (xs : List String) (d : Disk) (x : String)
      → expired x ≡ false
      → find_node (games_path w x) (pruned xs d).1 ≡ find_node (games_path w x) d
  prune_loop_kept [] d x h = unfold prune_loop in refl
  prune_loop_kept (y ∷ xs) d x h =
      ap (find_node (games_path w x)) (pruned-cons y xs d)
      ∙ prune_loop_kept xs (prune_step y d) x h
      ∙ prune_step_kept y x d h

  -- Every path stays as it is, or is emptied.
  pub prune_loop_or :
      (xs : List String) (d : Disk) (q : FilePath)
      → (find_node q (pruned xs d).1 ≡ find_node q d) ⊎ (find_node q (pruned xs d).1 ≡ none)
  prune_loop_or [] d q = inl (unfold prune_loop in refl)
  prune_loop_or (y ∷ xs) d q =
      ground (arith, pruned-cons y xs d, prune_loop_or xs (prune_step y d) q, prune_step_or y q d)

  -- If removals work, what has expired is gone.
  pub is_file-prune_loop :
      ((p : FilePath) → env.remove_error p ≡ none)
      → (xs : List String) (d : Disk) (x : String)
      → is_file (find_node (games_path w x) (pruned xs d).1) ≡ (
          if contains_date xs x && expired x then false else is_file (find_node (games_path w x) d))
  unfolding contains_date
  is_file-prune_loop h [] d x = unfold prune_loop in refl
  is_file-prune_loop h (y ∷ xs) d x =
      ap (λ e. is_file (find_node (games_path w x) e)) (pruned-cons y xs d)
      ∙ is_file-prune_loop h xs (prune_step y d) x
      ∙ ground (arith, is_file-prune_step h y x d)
