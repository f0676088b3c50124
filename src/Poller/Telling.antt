-- ===== src/Poller/Telling.antt =====
-- The lines of a poller's cycles, of poller.go, against what they have done.
use nba_games_service.Base.{
  ℕ, ◌+◌, ◌≡◌, refl, sym, ap, ◌∙◌, subst, String, false, Option, some, List, [], ◌∷◌, All,
}
use nba_games_service.Calendar.{Time, format_date, parse_date}
use nba_games_service.Domain.{Game, new_today_response}
use nba_games_service.Errors.{error_text, Result, ok, err}
use nba_games_service.Snapshots.Disk.{Node, Disk}
use nba_games_service.Snapshots.Files.{Env}
use nba_games_service.Snapshots.Writer.{Writer, cutoff_day, is_expired}
use nba_games_service.Snapshots.Writer.Outcome.{Ends, write_games_snapshot-Ends}
use nba_games_service.Snapshots.Writer.Shelf.{shelf}
use nba_games_service.Poller.{Status, Poller, World, record_attempt, record_failure, record_success}
use nba_games_service.Poller.Health.{Cycle, run}
use nba_games_service.Poller.Reporting.{
  no_writer, not_written, written, Report, fails, refreshes, kept_of, told_write, told_fetch,
  told_once, told_once-fetch_once,
}

-- What a report says of the file of `x`, which was `o` and is `n`.
abbrev pub Says : String → Report → Option Node → Option Node → Type 0
Says x (fails date e) o n = n ≡ o
Says x (refreshes date games no_writer) o n = n ≡ o
Says x (refreshes date games (not_written e)) o n =
    Ends x date (new_today_response date games) (err e) o n
Says x (refreshes date games written) o n = Ends x date (new_today_response date games) (ok tt) o n

abbrev pub Tells : String → List Report → Option Node → Option Node → Type 0
Tells x [] o n = n ≡ o
Tells x (r ∷ rs) o n = (between : Option Node) × Says x r o between × Tells x rs between n

-- The failures in a row and the last error, by the reports.
abbrev pub replay : List Report → ℕ × String → ℕ × String
replay [] a = a
replay (fails date e ∷ rs) a = replay rs (a.0 + 1, error_text e)
replay (refreshes date games kept ∷ rs) a = replay rs (0, "")

abbrev pub trouble : Status → ℕ × String
trouble s = (s.consecutive_failures, s.last_error)

module _ {ℓ} {S : Type ℓ} (p : Poller S) where
  -- A run, with the reports of its cycles.
  unfoldable pub told_run : List Cycle → World S → List Report × World S
  told_run [] w = ([], w)
  told_run (c ∷ cs) w =
      let (report, between) = told_once p c.env c.start c.now w in
      let (reports, last) = told_run cs between in (report ∷ reports, last)

  told_run-run : (cs : List Cycle) (w : World S) → (told_run cs w).1 ≡ run p cs w
  unfolding told_run run
  told_run-run [] w = refl
  told_run-run (c ∷ cs) w =
      told_run-run cs (told_once p c.env c.start c.now w).1
      ∙ ap (run p cs) (told_once-fetch_once p c.env c.start c.now w)

  told_fetch-trouble :
      (env : Env) (start : Time) (today : String) (w : World S) (r : Result (List Game) × S)
      → let (report, after) = told_fetch p env start today w r in
        trouble after.status ≡ replay (report ∷ []) (trouble w.status)
  unfolding told_fetch record_failure record_success
  told_fetch-trouble env start today w (err e, s) = refl
  told_fetch-trouble env start today w (ok games, s) = refl

  replay-cons :
      (r : Report) (rs : List Report) (a : ℕ × String)
      → replay (r ∷ rs) a ≡ replay rs (replay (r ∷ []) a)
  replay-cons (fails date e) rs a = refl
  replay-cons (refreshes date games kept) rs a = refl

  told_run-trouble :
      (cs : List Cycle) (w : World S)
      → let (reports, after) = told_run cs w in
        trouble after.status ≡ replay reports (trouble w.status)
  unfolding told_run told_once record_attempt
  told_run-trouble [] w = refl
  told_run-trouble (c ∷ cs) w =
      let today = format_date (p.loc c.now) in
      let w1 = record w { status = record_attempt c.start w.status } in
      let (report, between) = told_once p c.env c.start c.now w in
      let reports = (told_run cs between).0 in
      told_run-trouble cs between
      ∙ ap (replay reports)
          (told_fetch-trouble c.env c.start today w1 (p.provider today "" w1.outside))
      ∙ sym (replay-cons report reports (trouble w.status))

  module _ (wr : Writer) (has_writer : p.writer ≡ some wr) (x : String) where
    kept_of-Says :
        (today : String) (games : List Game) (result : Result (Unit {0})) (o n : Option Node)
        → Ends x today (new_today_response today games) result o n
        → Says x (refreshes today games (kept_of result)) o n
    kept_of-Says today games (ok tt) o n h = h
    kept_of-Says today games (err e) o n h = h

    told_write-Says :
        (env : Env) (today : String) (games : List Game) (d : Disk)
        → is_expired (cutoff_day env wr) (parse_date x) ≡ false
        → let (kept, after) = told_write env (some wr) today games d in
          Says x (refreshes today games kept) (shelf wr d x) (shelf wr after x)
    unfolding told_write
    told_write-Says env today games d live =
        kept_of-Says today games _ _ _
          (write_games_snapshot-Ends env wr today (new_today_response today games) d x live)

    told_fetch-Says :
        (env : Env) (start : Time) (today : String) (w : World S) (r : Result (List Game) × S)
        → is_expired (cutoff_day env wr) (parse_date x) ≡ false
        → let (report, after) = told_fetch p env start today w r in
          Says x report (shelf wr w.disk x) (shelf wr after.disk x)
    unfolding told_fetch
    told_fetch-Says env start today w (err e, s) live = refl
    told_fetch-Says env start today w (ok games, s) live =
        subst
          (λ o.
            let (kept, after) = told_write env o today games w.disk in
            Says x (refreshes today games kept) (shelf wr w.disk x) (shelf wr after x))
          (sym has_writer) (told_write-Says env today games w.disk live)

    told_run-disk :
        (cs : List Cycle) (w : World S)
        → All (λ c. is_expired (cutoff_day c.env wr) (parse_date x) ≡ false) cs
        → let (reports, after) = told_run cs w in
          Tells x reports (shelf wr w.disk x) (shelf wr after.disk x)
    unfolding told_run told_once
    told_run-disk [] w live = refl
    told_run-disk (c ∷ cs) w live =
        let today = format_date (p.loc c.now) in
        let w1 = record w { status = record_attempt c.start w.status } in
        let between : World S = (told_once p c.env c.start c.now w).1 in
        (
          shelf wr between.disk x,
          told_fetch-Says c.env c.start today w1 (p.provider today "" w1.outside) live.0,
          told_run-disk cs between live.1,
        )

    -- Whatever fails, a run of a poller with a writer that reports its cycles ends as one that does
    -- not. Its reports tell the failures in a row and the last error of its status, and, for a date
    -- that no cycle finds expired, what becomes of the snapshot: it is replaced by the whole snapshot
    -- of the games where a report says so, where one says that a write failed it may be, and otherwise
    -- it stays as it is.
    pub told_run-Tells :
        (cs : List Cycle) (w : World S)
        → All (λ c. is_expired (cutoff_day c.env wr) (parse_date x) ≡ false) cs
        → let (reports, after) = told_run cs w in
          (after ≡ run p cs w)
          × (trouble after.status ≡ replay reports (trouble w.status))
          × Tells x reports (shelf wr w.disk x) (shelf wr after.disk x)
    told_run-Tells cs w live = (told_run-run cs w, told_run-trouble cs w, told_run-disk cs w live)
