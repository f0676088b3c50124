-- ===== src/Snapshots/Writer/Listing.antt =====
-- What `listDates` returns: the dates of the snapshot files on the disk, in order.
use nba_games_service.Base.{
  String, Bool, true, false, not, ◌&&◌, List, [], ◌∷◌, ◌++◌, ◌≡◌, refl, ap, ◌∙◌, arith, str_eq,
  if◌then◌else◌, eq_iff,
}
use nba_games_service.Base.Sort.{insert_by, sort_by, sort_strings}
use nba_games_service.Snapshots.Disk.{path, path_eq, file, folder, Disk, find_node}
use nba_games_service.Snapshots.Names.{
  ext, cut_json, json_name, ext-json_name, cut_json-json_name, json_name-cut_json,
}
use nba_games_service.Snapshots.Files.{Env, Entry, is_file, without_name, entries_of, read_dir}
use nba_games_service.Snapshots.Writer.{
  Writer, contains_date, collect_dates, list_dates, dates_of, kind_games,
}
use nba_games_service.Errors.{Result, ok, err}

contains_date-insert_by :
    (y : String) (ys : List String) (x : String)
    → contains_date (insert_by (λ s. s) y ys) x ≡ (if str_eq y x then true else contains_date ys x)
unfolding contains_date insert_by
contains_date-insert_by y [] x = refl
contains_date-insert_by y (z ∷ ys) x = ground (arith, contains_date-insert_by y ys x)

pub contains_date-sort_strings :
    (xs : List String) (x : String) → contains_date (sort_strings xs) x ≡ contains_date xs x
unfolding contains_date sort_by
contains_date-sort_strings [] x = refl
contains_date-sort_strings (y ∷ xs) x =
    contains_date-insert_by y (sort_strings xs) x ∙ ground (arith, contains_date-sort_strings xs x)

pub contains_date-append :
    (xs : List String) (y x : String)
    → contains_date (xs ++ y ∷ []) x ≡ (if contains_date xs x then true else str_eq y x)
unfolding contains_date
contains_date-append [] y x = ground arith
contains_date-append (z ∷ xs) y x = ground (arith, contains_date-append xs y x)

contains_date_nil : (b : Bool) (x : String) → (if contains_date [] x then false else b) ≡ b
unfolding contains_date
contains_date_nil b x = refl

-- There is a file entry named "x.json".
lists : List Entry → String → Bool
lists [] x = false
lists ((name, is_dir) ∷ es) x = if str_eq name (json_name x) && not is_dir then true else lists es x

name_iff :
    (name x : String)
    → (str_eq (ext name) ".json" && str_eq (cut_json name) x) ≡ str_eq name (json_name x)
name_iff name x = ground (
  arith,
  eq_iff (ext name) ".json",
  eq_iff (cut_json name) x,
  eq_iff name (json_name x),
  ext-json_name x,
  cut_json-json_name x,
  json_name-cut_json name,
)

contains_date-collect_dates :
    (seen : List String) (es : List Entry) (x : String)
    → contains_date (collect_dates seen es) x ≡ (if contains_date seen x then false else lists es x)
unfolding collect_dates lists
contains_date-collect_dates seen [] x = ground arith
contains_date-collect_dates seen ((name, is_dir) ∷ es) x = ground (
  arith,
  name_iff name x,
  contains_date-collect_dates seen es x,
  contains_date-collect_dates (cut_json name ∷ seen) es x,
  eq_iff (cut_json name) x,
)

lists-insert_by :
    (e : Entry) (es : List Entry) (x : String)
    → lists (insert_by (λ e. e.0) e es) x ≡ lists (e ∷ es) x
unfolding lists insert_by
lists-insert_by e [] x = refl
lists-insert_by e (f ∷ es) x = ground (arith, lists-insert_by e es x)

lists-sort_by : (es : List Entry) (x : String) → lists (sort_by (λ e. e.0) es) x ≡ lists es x
unfolding lists sort_by
lists-sort_by [] x = refl
lists-sort_by (e ∷ es) x =
    lists-insert_by e (sort_by (λ e. e.0) es) x ∙ ground (arith, lists-sort_by es x)

lists-without_name :
    (n : String) (es : List Entry) (x : String)
    → lists (without_name n es) x ≡ (if str_eq n (json_name x) then false else lists es x)
unfolding lists without_name
lists-without_name n [] x = ground arith
lists-without_name n ((m, b) ∷ es) x =
    ground
      (arith, lists-without_name n es x, eq_iff m n, eq_iff n (json_name x), eq_iff m (json_name x))

lists-entries_of :
    (base dir : String) (d : Disk) (x : String)
    → lists (entries_of base dir d) x ≡ is_file (find_node (path base dir (json_name x)) d)
unfolding lists entries_of find_node path_eq
lists-entries_of base dir [] x = refl
lists-entries_of base dir ((q, file c) ∷ d) x =
    ground
      (arith, lists-entries_of base dir d x, lists-without_name q.name (entries_of base dir d) x)
lists-entries_of base dir ((q, folder) ∷ d) x =
    ground
      (arith, lists-entries_of base dir d x, lists-without_name q.name (entries_of base dir d) x)

dates_of_inv :
    (r : Result (List Entry)) (dates : List String)
    → dates_of r ≡ ok dates
    → (es : List Entry) × (r ≡ ok es) × (dates ≡ sort_strings (collect_dates [] es))
dates_of_inv (ok es) dates e = (es, refl, ground arith)
dates_of_inv (err x) dates e = cc

read_dir_inv :
    (env : Env) (base dir : String) (d : Disk) (es : List Entry)
    → read_dir env base dir d ≡ ok es
    → es ≡ sort_by (λ e. e.0) (entries_of base dir d)
unfolding read_dir
read_dir_inv env base dir d es e = ground arith

module _ (env : Env) (w : Writer) (d : Disk) (dates : List String)
    (listed : list_dates env w kind_games d ≡ ok dates) where
  -- If the snapshots are listed without an error, a date is listed exactly if its snapshot file is
  -- there.
  pub contains_date-list_dates :
      (x : String)
      → contains_date dates x ≡ is_file (find_node (path w.base_path "games" (json_name x)) d)
  unfolding list_dates
  contains_date-list_dates x =
      let (es, e, f) = dates_of_inv (read_dir env w.base_path kind_games d) dates listed in
      ap (λ l. contains_date l x) f
      ∙ contains_date-sort_strings (collect_dates [] es) x
      ∙ contains_date-collect_dates [] es x
      ∙ contains_date_nil (lists es x) x
      ∙ ap (λ l. lists l x) (read_dir_inv env w.base_path kind_games d es e)
      ∙ lists-sort_by (entries_of w.base_path kind_games d) x
      ∙ lists-entries_of w.base_path kind_games d x
