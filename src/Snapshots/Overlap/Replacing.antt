-- ===== src/Snapshots/Overlap/Replacing.antt =====
-- How the replacement of a file ends, by the disk it leaves: writer.go and manifest.go.
use nba_games_service.Base.{Option, none, some, [], ◌∷◌, ◌≡◌, ◌⊎◌, inl, inr, refl, ◌∙◌, arith}
use nba_games_service.Errors.{Error, ok, err}
use nba_games_service.Snapshots.Disk.{
  FilePath, path_eq_iff, Document, Node, file, folder, Disk, find_node, put_node, drop_node,
  find_node-put_node,
}
use nba_games_service.Snapshots.Files.{
  Env, WriteFault, healthy, untouched, torn, write_file, rename, bind_ok, bind_err, is_a_directory,
}
use nba_games_service.Snapshots.Writer.{tmp_path, replace_file}
use nba_games_service.Snapshots.Writer.Replacing.{rename_cases}

pub put_node_twice :
    (p : FilePath) (m n : Node) (d : Disk) → put_node p n (put_node p m d) ≡ put_node p n d
unfolding put_node
put_node_twice p m n [] = ground (arith, path_eq_iff p p)
put_node_twice p m n ((q, k) ∷ d) = ground (arith, path_eq_iff p p, put_node_twice p m n d)

-- The three ends of a file's replacement: not begun, begun and failed, or done.
abbrev pub Replaces : Env → FilePath → Document → Disk → Type 0
Replaces env p x d =
    ((e : Error) × (replace_file env p x d ≡ (err e, d)))
    ⊎ ((e : Error) × (part : Document) × (replace_file env p x d
          ≡ (err e, put_node (tmp_path p) (file part) d)))
    ⊎ ((find_node (tmp_path p) (put_node (tmp_path p) (file x) d) ≡ some (file x))
        × (replace_file env p x d ≡ (
          ok tt,
          put_node p (file x) (drop_node (tmp_path p) (put_node (tmp_path p) (file x) d)),
        )))

module _ (env : Env) (p : FilePath) (x : Document) (d : Disk) where
  found : find_node (tmp_path p) (put_node (tmp_path p) (file x) d) ≡ some (file x)
  found =
      find_node-put_node (tmp_path p) (tmp_path p) (file x) d
      ∙ ground (arith, path_eq_iff (tmp_path p) (tmp_path p))

  write_ends :
      (write_file env (tmp_path p) x d ≡ (ok tt, put_node (tmp_path p) (file x) d))
      ⊎ ((e : Error) × (write_file env (tmp_path p) x d ≡ (err e, d)))
      ⊎ ((e : Error) × (part : Document) × (write_file env (tmp_path p) x d
            ≡ (err e, put_node (tmp_path p) (file part) d)))
  unfolding write_file
  write_ends = go (env.write_fault (tmp_path p)) refl (find_node (tmp_path p) d) refl
    where
      go :
          (f : WriteFault)
          → env.write_fault (tmp_path p) ≡ f
          → (o : Option Node) → find_node (tmp_path p) d ≡ o
          → (write_file env (tmp_path p) x d ≡ (ok tt, put_node (tmp_path p) (file x) d))
            ⊎ ((e : Error) × (write_file env (tmp_path p) x d ≡ (err e, d)))
            ⊎ ((e : Error) × (part : Document) × (write_file env (tmp_path p) x d
                  ≡ (err e, put_node (tmp_path p) (file part) d)))
      go (untouched er) e o f = inr (inl (er, ground arith))
      go (torn er part) e o f = inr (inr (er, part, ground arith))
      go healthy e (some folder) f = inr (inl (is_a_directory, ground arith))
      go healthy e (some (file y)) f = inl (ground arith)
      go healthy e none f = inl (ground arith)

  pub Replaces-cases : Replaces env p x d
  unfolding replace_file
  Replaces-cases = elim write_ends [
    | inr (inl (er, e)) ↦
        inl (er, bind_err (write_file env (tmp_path p) x) (λ _. rename env (tmp_path p) p) d er d e)
    | inr (inr (er, part, e)) ↦ inr (
        inl (
          er,
          part,
          bind_err (write_file env (tmp_path p) x) (λ _. rename env (tmp_path p) p) d er _ e,
        ))
    | inl e ↦
        let whole : replace_file env p x d
            ≡ rename env (tmp_path p) p (put_node (tmp_path p) (file x) d) =
          bind_ok (write_file env (tmp_path p) x) (λ _. rename env (tmp_path p) p) d tt _ e in
        elim (rename_cases env (tmp_path p) p (file x) (put_node (tmp_path p) (file x) d) found) [
          | inl g ↦ inr (inr (found, whole ∙ g))
          | inr (er, g) ↦ inr (inl (er, x, whole ∙ g))
        ]
  ]
