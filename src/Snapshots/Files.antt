-- ===== src/Snapshots/Files.antt =====
-- The calls of `os` that internal/snapshots makes. What can go wrong with each, and what the clock
-- shows at each reading of one call of the writer, is an `Env`; it may be any.
use nba_games_service.Base.{
  String, Bool, true, false, ◌&&◌, Option, none, some, List, [], ◌∷◌, str_eq, if◌then◌else◌, ◌≡◌,
  ap, refl, sym, subst,
}
use nba_games_service.Base.Sort.{sort_by}
use nba_games_service.Calendar.{Time}
use nba_games_service.Errors.{Error, other, Result, ok, err}
use nba_games_service.Snapshots.Disk.{
  FilePath, Document, Node, file, folder, Disk, find_node, put_node, drop_node,
}

-- A failed write may leave the file as it was, or leave part of the text in it.
pub data WriteFault : Type 0 where
  healthy : WriteFault
  untouched : Error → WriteFault
  torn : Error → Document → WriteFault

pub record Env : Type 0 where
  pub mkdir_error : String → String → Option Error
  pub read_error : FilePath → Option Error
  pub list_error : String → String → Option Error
  pub write_fault : FilePath → WriteFault
  pub rename_error : FilePath → FilePath → Option Error
  pub remove_error : FilePath → Option Error
  pub stat_error : FilePath → Option Error
  pub refreshed_at : Time
  pub pruned_at : Time
  pub generated_at : Time

-- A call that may change the disk.
abbrev pub Io {ℓ} : Type ℓ → Type ℓ
Io A = Disk → Result A × Disk

infixl 5 ◌>>=◌ ◌>>◌
abbrev pub ◌>>=◌ {ℓ κ} : {A : Type ℓ} {B : Type κ} → Io A → (A → Io B) → Io B
◌>>=◌ m f d = let (r, d') = m d in elim r [ ok a ↦ f a d' | err e ↦ (err e, d') ]

abbrev pub ◌>>◌ {ℓ} : {B : Type ℓ} → Io (Unit {0}) → Io B → Io B
m >> k = m >>= λ _. k

abbrev pub fail {ℓ} : {A : Type ℓ} → Error → Io A
fail e d = (err e, d)

abbrev pub no_such_file : Error
no_such_file = other "no such file or directory"

abbrev pub is_a_directory : Error
is_a_directory = other "is a directory"

abbrev pub contents : Option Node → Result Document
contents none = err no_such_file
contents (some folder) = err is_a_directory
contents (some (file x)) = ok x

abbrev is_folder : Option Node → Bool
is_folder (some folder) = true
is_folder _ = false

abbrev pub is_file : Option Node → Bool
is_file (some (file x)) = true
is_file _ = false

module _ (env : Env) where
  -- Directories are not stored: a missing one lists as empty, which is how `listDates` takes it.
  unfoldable pub mkdir_all : String → String → Io (Unit {0})
  mkdir_all base dir d = elim (env.mkdir_error base dir) [ none ↦ (ok tt, d) | some e ↦ (err e, d) ]

  -- `os.ReadFile`, or `os.Open` and reading to the end.
  unfoldable pub read_file : FilePath → Disk → Result Document
  read_file p d = elim (env.read_error p) [ none ↦ contents (find_node p d) | some e ↦ err e ]

  unfoldable pub write_file : FilePath → Document → Io (Unit {0})
  write_file p x d = elim (env.write_fault p) [
    | healthy ↦
        if is_folder (find_node p d)
        then (err is_a_directory, d)
        else (ok tt, put_node p (file x) d)
    | untouched e ↦ (err e, d)
    | torn e part ↦ (err e, put_node p (file part) d)
  ]

  abbrev move_node : FilePath → FilePath → Option Node → Io (Unit {0})
  move_node p q none d = (err no_such_file, d)
  move_node p q (some n) d =
      if is_folder (find_node q d)
      then (err is_a_directory, d)
      else (ok tt, put_node q n (drop_node p d))

  -- `os.Rename(p, q)` replaces a file at `q`.
  unfoldable pub rename : FilePath → FilePath → Io (Unit {0})
  rename p q d = elim (env.rename_error p q) [
    | none ↦ move_node p q (find_node p d) d
    | some e ↦ (err e, d)
  ]

  -- `_ = os.Remove(p)`: a directory that is not empty stays, and so does what cannot be removed.
  unfoldable pub remove : FilePath → Disk → Disk
  remove p d = elim (env.remove_error p) [
    | none ↦ if is_folder (find_node p d) then d else drop_node p d
    | some e ↦ d
  ]

  -- `_, err := os.Stat(p)`; `err == nil`
  unfoldable pub stat_ok : FilePath → Disk → Bool
  stat_ok p d = elim (env.stat_error p) [
    | none ↦ elim (find_node p d) [ none ↦ false | some n ↦ true ]
    | some e ↦ false
  ]

-- An entry of a directory: its name, and whether it is a directory.
abbrev pub Entry : Type 0
Entry = String × Bool

unfoldable pub without_name : String → List Entry → List Entry
without_name name [] = []
without_name name (e ∷ es) =
    let rest = without_name name es in if str_eq e.0 name then rest else e ∷ rest

unfoldable pub entries_of : String → String → Disk → List Entry
unfolding without_name
entries_of base dir [] = []
entries_of base dir ((q, n) ∷ d) =
    let rest = entries_of base dir d in
    if str_eq q.base base && str_eq q.dir dir
    then (q.name, is_folder (some n)) ∷ without_name q.name rest
    else rest

-- `os.ReadDir`, with its entries sorted by name.
unfoldable pub read_dir : Env → String → String → Disk → Result (List Entry)
unfolding entries_of
read_dir env base dir d = elim (env.list_error base dir) [
  | none ↦ ok (sort_by (λ e. e.0) (entries_of base dir d))
  | some e ↦ err e
]

-- A step that returns goes on; a step that fails ends the call.
pub bind_ok {ℓ κ} :
    {A : Type ℓ} {B : Type κ} (m : Io A) (f : A → Io B) (d : Disk) (a : A) (d' : Disk)
    → m d ≡ (ok a, d')
    → (m >>= f) d ≡ f a d'
bind_ok m f d a d' e = ap (λ r. elim r.0 [ ok a ↦ f a r.1 | err e ↦ (err e, r.1) ]) e

pub bind_err {ℓ κ} :
    {A : Type ℓ} {B : Type κ} (m : Io A) (f : A → Io B) (d : Disk) (e : Error) (d' : Disk)
    → m d ≡ (err e, d')
    → (m >>= f) d ≡ (err e, d')
bind_err m f d e d' h = ap (λ r. elim r.0 [ ok a ↦ f a r.1 | err e ↦ (err e, r.1) ]) h

-- A successful call, taken apart.
pub bind_inv {ℓ κ} :
    {A : Type ℓ} {B : Type κ} (m : Io A) (f : A → Io B) (d : Disk) (b : B) (d' : Disk)
    → (m >>= f) d ≡ (ok b, d')
    → (a : A) × (d1 : Disk) × (m d ≡ (ok a, d1)) × (f a d1 ≡ (ok b, d'))
bind_inv {A} {B} m f d b d' = go (m d).0 (m d).1 refl
  where
    go :
        (r : Result A) (d1 : Disk)
        → m d ≡ (r, d1)
        → elim r [ ok a ↦ f a d1 | err e ↦ (err e, d1) ] ≡ (ok b, d')
        → (a : A) × (d2 : Disk) × (m d ≡ (ok a, d2)) × (f a d2 ≡ (ok b, d'))
    go (ok a) d1 e h = (a, d1, e, h)
    go (err x) d1 e h = cc

-- What holds of the disk after a step, and after what may follow it, holds after both.
pub bind_disk {ℓ κ μ} :
    {A : Type ℓ} {B : Type κ} (P : Disk → Type μ) (m : Io A) (f : A → Io B) (d : Disk)
    → P (m d).1
    → ((a : A) → P (f a (m d).1).1)
    → P ((m >>= f) d).1
bind_disk {A} {B} P m f d h k = go (m d).0 h
  where
    go :
        (r : Result A)
        → P (m d).1
        → P (elim r as (λ _. Result B × Disk) [ ok a ↦ f a (m d).1 | err e ↦ (err e, (m d).1) ]).1
    go (ok a) h = k a
    go (err e) h = h

-- What holds after both steps, by how the first one ends.
pub bind_at {ℓ κ μ} :
    {A : Type ℓ} {B : Type κ} (P : Result B × Disk → Type μ) (m : Io A) (f : A → Io B) (d : Disk)
    (r : Result A) (d' : Disk)
    → m d ≡ (r, d')
    → P (elim r as (λ _. Result B × Disk) [ ok a ↦ f a d' | err e ↦ (err e, d') ])
    → P ((m >>= f) d)
bind_at P m f d (ok a) d' e h = subst P (sym (bind_ok m f d a d' e)) h
bind_at P m f d (err x) d' e h = subst P (sym (bind_err m f d x d' e)) h
