-- ===== src/Snapshots/Sync/Telling.antt =====
-- The lines of a backfill of sync.go against what it has done to the disk.
use nba_games_service.Base.{
  ℕ, ◌+◌, ◌≡◌, refl, String, Bool, true, false, Option, none, some, List, [], ◌∷◌, ◌++◌,
  if◌then◌else◌, str_eq, length,
}
use nba_games_service.Base.Decimal.{decimal}
use nba_games_service.Logging.{Logger, Line, Attrs, log_info, log_warn}
use nba_games_service.Calendar.{parse_date}
use nba_games_service.Domain.{Game, new_today_response}
use nba_games_service.Errors.{Error, error_text, Result, ok, err}
use nba_games_service.Snapshots.Disk.{Node, Disk}
use nba_games_service.Snapshots.Files.{Env}
use nba_games_service.Snapshots.Writer.{Writer, cutoff_day, is_expired}
use nba_games_service.Snapshots.Writer.Shelf.{shelf}
use nba_games_service.Snapshots.Writer.Outcome.{Ends, write_games_snapshot-Ends}
use nba_games_service.Snapshots.Sync.{Round, Schedule, build_dates, backfill}
use nba_games_service.Snapshots.Sync.Reporting.{
  Report, fetch_failed, no_games, write_failed, stored, log_report, Act, logs, waits, write_report,
  told_round, told_write, after_wait, told_loop, told_backfill, told_loop-backfill_loop,
}

-- What a report says of the file of `x`, which was `o` and is `n`, in a round that has fetched `f`.
Says : String → Result (List Game) → Report → Option Node → Option Node → Type 0
Says x f (stored date games) o n =
    (f ≡ ok games) × Ends x date (new_today_response date games) (ok tt) o n
Says x f (write_failed date games e) o n =
    (f ≡ ok games) × Ends x date (new_today_response date games) (err e) o n
Says x f _ o n = n ≡ o

-- The attributes of a line that a snapshot has been written, after the logger's own.
abbrev pub written_attrs : String → List Game → ℕ → Attrs
written_attrs date games elapsed =
    ("date", date) ∷ ("count", decimal (length games)) ∷ ("duration_ms", decimal elapsed) ∷ []

-- What a line says of the file of `x`, by its message: which date was written, with how many games,
-- or for which the write failed.
abbrev pub LineSays :
    Logger → String → Result (List Game) → Option Line → Option Node → Option Node → Type 0
LineSays l x f none o n = ⊥
LineSays l x f (some line) o n =
    if str_eq line.message "snapshot written"
    then ((date : String) × (games : List Game) × (elapsed : ℕ) × (line.attrs
          ≡ l.attrs ++ written_attrs date games elapsed)
        × (f ≡ ok games)
        × Ends x date (new_today_response date games) (ok tt) o n)
    else if str_eq line.message "snapshot sync write failed"
    then ((date : String) × (games : List Game) × (e : Error) × (line.attrs
          ≡ l.attrs ++ ("date", date) ∷ ("err", error_text e) ∷ [])
        × (f ≡ ok games)
        × Ends x date (new_today_response date games) (err e) o n)
    else (n ≡ o)

-- And what a list of acts says, from the round `i` on; each round has one line.
abbrev pub Tells : Logger → String → (ℕ → Round) → ℕ → List Act → Option Node → Option Node → Type 0
Tells l x world i [] o n = n ≡ o
Tells l x world i (logs line ∷ acts) o n =
    (between : Option Node) × LineSays l x (world i).fetched line o between
    × Tells l x world (i + 1) acts between n
Tells l x world i (waits interval ∷ acts) o n = Tells l x world i acts o n

-- One wait of the interval between any two rounds, and none at an end but for that before a round
-- that finds the context done.
abbrev pub Paced : ℕ → List Act → Type 0
Paced interval [] = Unit
Paced interval (waits n ∷ acts) = ⊥
Paced interval (logs r ∷ []) = Unit
Paced interval (logs r ∷ logs q ∷ acts) = ⊥
Paced interval (logs r ∷ waits n ∷ acts) = (n ≡ interval) × Paced interval acts

-- A loop that may stop before a round.
either_of {κ} :
    (P : List Act → Disk → Type κ) (done : Bool) (acts acts' : List Act) (d d' : Disk)
    → P acts d
    → P acts' d'
    → let out : List Act × Disk = if done then (acts, d) else (acts', d') in P out.0 out.1
either_of P true acts acts' d d' h k = h
either_of P false acts acts' d d' h k = k

module _ (logger : Option Logger) (elapsed : ℕ → ℕ) (world : ℕ → Round) (w : Option Writer) where
  told_loop-Paced :
      (interval i : ℕ) (dates : List String) (d : Disk)
      → Paced interval (told_loop logger elapsed world w interval i dates d).0
  unfolding told_loop
  told_loop-Paced interval i [] d = tt
  told_loop-Paced interval i (date ∷ []) d =
      either_of (λ acts _. Paced interval acts) (world i).done [] _ d _ tt tt
  told_loop-Paced interval i (date ∷ next ∷ dates) d =
      either_of (λ acts _. Paced interval acts) (world i).done [] _ d _ tt
        (refl, told_loop-Paced interval (i + 1) (next ∷ dates) (told_round (world i) w date d).1)

module _ (w : Writer) (x : String) where
  write_report-Says :
      (date : String) (games : List Game) (result : Result (Unit {0})) (o n : Option Node)
      → Ends x date (new_today_response date games) result o n
      → Says x (ok games) (write_report date games result) o n
  unfolding Says
  write_report-Says date games (ok tt) o n h = (refl, h)
  write_report-Says date games (err e) o n h = (refl, h)

  told_write-Says :
      (env : Env) (date : String) (games : List Game) (d : Disk)
      → is_expired (cutoff_day env w) (parse_date x) ≡ false
      → let (r, after) = told_write env (some w) date games d in
        Says x (ok games) r (shelf w d x) (shelf w after x)
  unfolding told_write Says
  told_write-Says env date [] d live = refl
  told_write-Says env date (g ∷ gs) d live =
      write_report-Says date (g ∷ gs) _ _ _
        (write_games_snapshot-Ends env w date (new_today_response date (g ∷ gs)) d x live)

  told_round-Says :
      (round : Round) (date : String) (d : Disk)
      → is_expired (cutoff_day round.env w) (parse_date x) ≡ false
      → let (r, after) = told_round round (some w) date d in
        Says x round.fetched r (shelf w d x) (shelf w after x)
  unfolding told_round Says
  told_round-Says round date d live = by_fetched round.fetched
    where
      by_fetched :
          (f : Result (List Game))
          → let (r, after) = told_round (record round { fetched = f }) (some w) date d in
            Says x f r (shelf w d x) (shelf w after x)
      by_fetched (err e) = refl
      by_fetched (ok games) = told_write-Says round.env date games d live

  -- The line says what the report does.
  log_report-LineSays :
      (l : Logger) (elapsed : ℕ) (f : Result (List Game)) (r : Report) (o n : Option Node)
      → Says x f r o n
      → LineSays l x f (log_report (some l) elapsed r) o n
  unfolding Says log_report log_info log_warn
  log_report-LineSays l elapsed f (fetch_failed date e) o n h = h
  log_report-LineSays l elapsed f (no_games date) o n h = h
  log_report-LineSays l elapsed f (write_failed date games e) o n (h, k) =
      (date, games, e, refl, h, k)
  log_report-LineSays l elapsed f (stored date games) o n (h, k) =
      (date, games, elapsed, refl, h, k)

  module _ (l : Logger) (elapsed : ℕ → ℕ) (world : ℕ → Round) (interval : ℕ) where
    after_wait-Tells :
        (i : ℕ) (dates : List String) (acts : List Act) (o n : Option Node)
        → Tells l x world i acts o n
        → Tells l x world i (after_wait interval dates acts) o n
    after_wait-Tells i [] acts o n h = h
    after_wait-Tells i (date ∷ dates) acts o n h = h

    told_loop-Tells :
        (i : ℕ) (dates : List String) (d : Disk)
        → ((j : ℕ) → is_expired (cutoff_day (world j).env w) (parse_date x) ≡ false)
        → let (acts, after) = told_loop (some l) elapsed world (some w) interval i dates d in
          Tells l x world i acts (shelf w d x) (shelf w after x)
    unfolding told_loop
    told_loop-Tells i [] d live = refl
    told_loop-Tells i (date ∷ dates) d live =
        let between : Disk = (told_round (world i) (some w) date d).1 in
        either_of (λ acts after. Tells l x world i acts (shelf w d x) (shelf w after x))
          (world i).done [] _ d _ refl
          (
            shelf w between x,
            log_report-LineSays l (elapsed i) (world i).fetched _ _ _
                (told_round-Says (world i) date d (live i)),
            after_wait-Tells (i + 1) dates _ _ _ (told_loop-Tells (i + 1) dates between live),
          )

-- Whatever fails, a backfill with a logger leaves the disk of the backfill without its lines, and
-- waits for the interval between any two rounds. Each round logs one line. For a date that no round
-- finds expired, the lines tell what becomes of its snapshot: where a line says "snapshot written"
-- for it, it is replaced by the whole snapshot of the games that the round fetched, whose number is
-- the line's count; where one says "snapshot sync write failed" for it, it may be; and otherwise it
-- stays as it is.
pub told_backfill-Tells :
    (l : Logger) (elapsed : ℕ → ℕ) (world : ℕ → Round) (env : Env) (w : Writer) (s : Schedule)
    (day : ℕ) (d : Disk) (x : String)
    → ((j : ℕ) → is_expired (cutoff_day (world j).env w) (parse_date x) ≡ false)
    → let (acts, after) = told_backfill (some l) elapsed world (some w) env s day d in
      (after ≡ backfill world env (some w) s day d)
      × Paced s.interval acts
      × Tells l x world 0 acts (shelf w d x) (shelf w after x)
unfolding told_backfill backfill
told_backfill-Tells l elapsed world env w s day d x live =
    let dates = build_dates env (some w) s day d in
    (
      told_loop-backfill_loop (some l) elapsed world (some w) s.interval 0 dates d,
      told_loop-Paced (some l) elapsed world (some w) s.interval 0 dates d,
      told_loop-Tells w x l elapsed world s.interval 0 dates d live,
    )
