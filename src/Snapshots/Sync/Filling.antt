-- ===== src/Snapshots/Sync/Filling.antt =====
-- What a backfill leaves on the disk.
use nba_games_service.Base.{
  ℕ, ◌+◌, String, false, Option, none, some, List, [], ◌∷◌, ◌≡◌, refl, ◌∙◌, arith, str_eq,
  if◌then◌else◌, eq_iff, Bool-cases, inl, inr,
}
use nba_games_service.Calendar.{parse_date}
use nba_games_service.Domain.{Game, new_today_response}
use nba_games_service.Errors.{Result, ok, err}
use nba_games_service.Snapshots.Disk.{snapshot_json, Node, file, Disk}
use nba_games_service.Snapshots.Files.{Env}
use nba_games_service.Snapshots.Writer.{Writer, cutoff_day, is_expired, prepared}
use nba_games_service.Snapshots.Writer.Healthy.{IsHealthy, HasFiles}
use nba_games_service.Snapshots.Writer.Shelf.{shelf, shelve, shelf-write_games_snapshot}
use nba_games_service.Snapshots.Sync.{
  Round, Schedule, write_fetched, fetch_and_write, backfill_loop, build_dates, backfill,
}

abbrev fetched_games : Result (List Game) → Option (List Game)
fetched_games (err e) = none
fetched_games (ok []) = none
fetched_games (ok (g ∷ gs)) = some (g ∷ gs)

-- The games that the last round for a date gives, of those before the context is done, from round
-- `i` on.
unfoldable pub games_for : (ℕ → Round) → ℕ → List String → String → Option (List Game)
games_for world i [] x = none
games_for world i (date ∷ dates) x =
    let later = games_for world (i + 1) dates x in
    let here = if str_eq date x then fetched_games (world i).fetched else none in
    if (world i).done then none else elim later [ some gs ↦ some gs | none ↦ here ]

-- The snapshot of the games, if there are any, or what is there.
abbrev pub filled : String → Option (List Game) → Option Node → Option Node
filled x none o = o
filled x (some gs) o = some (file (snapshot_json (prepared x (new_today_response x gs))))

pub filled_twice :
    (x : String) (later here : Option (List Game)) (o o' : Option Node)
    → o' ≡ filled x here o
    → filled x later o' ≡ filled x (elim later [ some gs ↦ some gs | none ↦ here ]) o
filled_twice x none here o o' e = e
filled_twice x (some gs) here o o' e = refl

module _ (w : Writer) (x : String) (named : str_eq x "" ≡ false) where
  round_fills :
      (r : Round) (date : String) (d : Disk)
      → IsHealthy r.env
      → is_expired (cutoff_day r.env w) (parse_date x) ≡ false
      → HasFiles d
      → HasFiles (fetch_and_write r (some w) date d)
        × (shelf w (fetch_and_write r (some w) date d) x
            ≡ filled x (if str_eq date x then fetched_games r.fetched else none) (shelf w d x))
  unfolding fetch_and_write write_fetched shelve
  round_fills r date d fine live h = by_fetched r.fetched
    where
      by_fetched :
          (f : Result (List Game))
          → let q = record r { fetched = f } in
            HasFiles (fetch_and_write q (some w) date d)
            × (shelf w (fetch_and_write q (some w) date d) x
                ≡ filled x (if str_eq date x then fetched_games f else none) (shelf w d x))
      by_fetched (err e) = (h, ground arith)
      by_fetched (ok []) = (h, ground arith)
      by_fetched (ok (g ∷ gs)) =
          let (_, files, at) =
            shelf-write_games_snapshot r.env w date (new_today_response date (g ∷ gs)) d fine h in
          (files, at x ∙ ground (arith, named, live, eq_iff date x, eq_iff x ""))

  loop_fills :
      (world : ℕ → Round) (i : ℕ) (dates : List String) (d : Disk)
      → ((j : ℕ) → IsHealthy (world j).env)
      → ((j : ℕ) → is_expired (cutoff_day (world j).env w) (parse_date x) ≡ false)
      → HasFiles d
      → HasFiles (backfill_loop world (some w) i dates d)
        × (shelf w (backfill_loop world (some w) i dates d) x
            ≡ filled x (games_for world i dates x) (shelf w d x))
  unfolding backfill_loop games_for fetch_and_write
  loop_fills world i [] d fine live h = (h, refl)
  loop_fills world i (date ∷ dates) d fine live h =
      let (files, at) = round_fills (world i) date d (fine i) (live i) h in
      let (files', at') =
        loop_fills world (i + 1) dates (fetch_and_write (world i) (some w) date d) fine live
          files in
      elim (Bool-cases (world i).done) [
        | inl e ↦ rw (e, backfill_loop, games_for) (h, refl)
        | inr e ↦
            rw (e, backfill_loop, games_for)
              (
                files',
                at'
                    ∙ filled_twice x (games_for world (i + 1) dates x)
                        (if str_eq date x then fetched_games (world i).fetched else none)
                        (shelf w d x) (shelf w (fetch_and_write (world i) (some w) date d) x) at,
              )
      ]

-- Where nothing but reading may fail and no directory is in the way, after a backfill the snapshot
-- of a date that is not empty and that no round finds expired holds the games that the last round
-- for the date gave before the context was done; if none did, it is as it was.
pub backfill-fills :
    (world : ℕ → Round) (env : Env) (w : Writer) (s : Schedule) (day : ℕ) (d : Disk) (x : String)
    → ((j : ℕ) → IsHealthy (world j).env)
    → HasFiles d
    → str_eq x "" ≡ false
    → ((j : ℕ) → is_expired (cutoff_day (world j).env w) (parse_date x) ≡ false)
    → shelf w (backfill world env (some w) s day d) x
      ≡ filled x (games_for world 0 (build_dates env (some w) s day d) x) (shelf w d x)
unfolding backfill
backfill-fills world env w s day d x fine h named live =
    (loop_fills w x named world 0 (build_dates env (some w) s day d) d fine live h).1
