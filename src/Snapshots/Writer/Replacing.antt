-- ===== src/Snapshots/Writer/Replacing.antt =====
-- A file is replaced through a temporary file beside it.
use Prim.Native.String.{count}
use text.Mathlib.TextLemmas.{length-append}
use nba_games_service.Base.{
  ◌+◌, String, true, false, Option, none, some, ◌≡◌, refl, sym, ap, ◌∙◌, arith, if◌then◌else◌,
  Bool-cases, inl, inr, ◌⊎◌,
}
use nba_games_service.Errors.{Error, Result, ok, err}
use nba_games_service.Snapshots.Disk.{
  FilePath, path_eq, path_eq_iff, Document, Node, file, folder, Disk, put_node, drop_node,
  find_node, find_node-put_node, find_node-drop_node,
}
use nba_games_service.Snapshots.Names.{tmp_name}
use nba_games_service.Snapshots.Files.{
  Env, WriteFault, healthy, untouched, torn, write_file, rename, is_a_directory, bind_ok, bind_err,
}
use nba_games_service.Snapshots.Writer.{tmp_path, replace_file}

tmp_name_longer : (name : String) → count (tmp_name name) ≡ count name + 4
unfolding tmp_name
tmp_name_longer name = length-append name ".tmp"

pub tmp_path_ne : (p : FilePath) → path_eq (tmp_path p) p ≡ false
tmp_path_ne p = elim (Bool-cases (path_eq (tmp_path p) p)) [
  | inr h ↦ h
  | inl h ↦
      let e = (path_eq_iff (tmp_path p) p).0 h in
      absurd (omega (arith, tmp_name_longer p.name, ap (λ (q : FilePath). count q.name) e))
]

path_eq_refl : (p : FilePath) → path_eq p p ≡ true
path_eq_refl p = (path_eq_iff p p).1 refl

-- A failed step leaves every path but `p` alone.
abbrev Fails : FilePath → Disk → Result (Unit {0}) × Disk → Type 0
Fails p d r =
    (e : Error) × (d' : Disk) × (r ≡ (err e, d'))
    × ((q : FilePath) → path_eq p q ≡ false → find_node q d' ≡ find_node q d)

module _ (env : Env) where
  write_file_cases :
      (p : FilePath) (x : Document) (d : Disk)
      → (write_file env p x d ≡ (ok tt, put_node p (file x) d)) ⊎ Fails p d (write_file env p x d)
  unfolding write_file
  write_file_cases p x d = go (env.write_fault p) refl (find_node p d) refl
    where
      go :
          (f : WriteFault)
          → env.write_fault p ≡ f
          → (o : Option Node) → find_node p d ≡ o
          → (write_file env p x d ≡ (ok tt, put_node p (file x) d))
            ⊎ Fails p d (write_file env p x d)
      go healthy e none f = inl (ground arith)
      go healthy e (some folder) f = inr (is_a_directory, d, ground arith, λ q h. refl)
      go healthy e (some (file y)) f = inl (ground arith)
      go (untouched er) e o f = inr (er, d, ground arith, λ q h. refl)
      go (torn er part) e o f = inr (
        er,
        put_node p (file part) d,
        ground arith,
        λ q h. find_node-put_node p q (file part) d ∙ rw h,
      )

  pub rename_cases :
      (p q : FilePath) (n : Node) (d : Disk)
      → find_node p d ≡ some n
      → (rename env p q d ≡ (ok tt, put_node q n (drop_node p d)))
        ⊎ ((e : Error) × (rename env p q d ≡ (err e, d)))
  unfolding rename
  rename_cases p q n d f = go (env.rename_error p q) refl (find_node q d) refl
    where
      go :
          (r : Option Error)
          → env.rename_error p q ≡ r
          → (o : Option Node) → find_node q d ≡ o
          → (rename env p q d ≡ (ok tt, put_node q n (drop_node p d)))
            ⊎ ((e : Error) × (rename env p q d ≡ (err e, d)))
      go (some er) e o g = inr (er, ground arith)
      go none e none g = inl (ground arith)
      go none e (some folder) g = inr (is_a_directory, ground arith)
      go none e (some (file y)) g = inl (ground arith)

  module _ (p : FilePath) (x : Document) (d : Disk) where
    abbrev tmp : FilePath
    tmp = tmp_path p

    abbrev written : Disk
    written = put_node tmp (file x) d

    abbrev replaced : Disk
    replaced = put_node p (file x) (drop_node tmp written)

    written_at : find_node tmp written ≡ some (file x)
    written_at = find_node-put_node tmp tmp (file x) d ∙ rw (path_eq_refl tmp)

    find_node-replaced :
        (q : FilePath)
        → find_node q replaced
          ≡ (if path_eq p q then some (file x) else if path_eq tmp q then none else find_node q d)
    find_node-replaced q = ground (
      arith,
      find_node-put_node p q (file x) (drop_node tmp written),
      find_node-drop_node tmp q written,
      find_node-put_node tmp q (file x) d,
    )

    replace_file_cases :
        (replace_file env p x d ≡ (ok tt, replaced)) ⊎ Fails tmp d (replace_file env p x d)
    replace_file_cases = elim (write_file_cases tmp x d) [
      | inr (e, d', f, frame) ↦ inr (e, d', stopped e d' f, frame)
      | inl f ↦ elim (rename_cases tmp p (file x) written written_at) [
        | inl g ↦ inl (renamed f ∙ g)
        | inr (e, g) ↦
            inr (e, written, renamed f ∙ g, λ q h. find_node-put_node tmp q (file x) d ∙ rw h)
      ]
    ]
      where
        stopped :
            (e : Error) (d' : Disk)
            → write_file env tmp x d ≡ (err e, d')
            → replace_file env p x d ≡ (err e, d')
        stopped e d' f =
            unfold replace_file in bind_err (write_file env tmp x) (λ _. rename env tmp p) d e d' f

        renamed :
            write_file env tmp x d ≡ (ok tt, written)
            → replace_file env p x d ≡ rename env tmp p written
        renamed f =
            unfold replace_file in
            bind_ok (write_file env tmp x) (λ _. rename env tmp p) d tt written f

-- A successful replacement puts the document at the target, leaves nothing at the temporary path,
-- and every other path as it was.
pub find_node-replace_file :
    (env : Env) (p q : FilePath) (x : Document) (d d' : Disk)
    → replace_file env p x d ≡ (ok tt, d')
    → find_node q d' ≡ (
        if path_eq p q
        then some (file x)
        else if path_eq (tmp_path p) q
        then none
        else find_node q d)
find_node-replace_file env p q x d d' e = elim (replace_file_cases env p x d) [
  | inl f ↦
      let same : replaced env p x d ≡ d' = ap (λ (r : Result (Unit {0}) × Disk). r.1) (sym f ∙ e) in
      ap (find_node q) (sym same) ∙ find_node-replaced env p x d q
  | inr (er, d1, f, _) ↦ absurd (cc (f, e))
]

-- Whatever fails, every path but the temporary one is as it was, or is the target with the document.
pub replace_file_or :
    (env : Env) (p q : FilePath) (x : Document) (d : Disk)
    → path_eq (tmp_path p) q ≡ false
    → (find_node q (replace_file env p x d).1 ≡ find_node q d)
      ⊎ ((path_eq p q ≡ true) × (find_node q (replace_file env p x d).1 ≡ some (file x)))
replace_file_or env p q x d h = elim (replace_file_cases env p x d) [
  | inl f ↦ rw f (ground (arith, find_node-replaced env p x d q))
  | inr (er, d1, f, frame) ↦ rw f (inl (frame q h))
]
