-- ===== src/Snapshots/Overlap/Reading.antt =====
-- What fs_store.go loads while calls of writer.go overlap.
use nba_games_service.Base.{
  String, none, some, ◌≡◌, ◌≢◌, ◌⊎◌, inl, inr, refl, ap, ◌∙◌, arith, str_eq, eq_iff, Option-cases,
  Bool-cases, if◌then◌else◌,
}
use nba_games_service.Domain.{TodayResponse}
use nba_games_service.Errors.{Error, other, Result, ok, err}
use nba_games_service.Snapshots.Disk.{snapshot_json, file, Disk, find_node}
use nba_games_service.Snapshots.Files.{Env, read_file, contents, no_such_file}
use nba_games_service.Snapshots.Store.{decoded, load, load_games, with_default_date}
use nba_games_service.Snapshots.Store.Reading.{load_games_at, prepared_dated}
use nba_games_service.Snapshots.Writer.{Writer, prepared}
use nba_games_service.Snapshots.Writer.Pruning.{games_path}
use nba_games_service.Snapshots.Overlap.{System, Reach, Apart, Begun}
use nba_games_service.Snapshots.Overlap.Invariant.{overlap-whole}

abbrev pub Fails : Result TodayResponse → Type 0
Fails r = (e : Error) × (r ≡ err e)

module _ (reader : Env) (w : Writer) (x : String) where
  -- Loading a date looks at its file only.
  load_games_same :
      (d d' : Disk)
      → find_node (games_path w x) d' ≡ find_node (games_path w x) d
      → load_games reader (some w.base_path) x d' ≡ load_games reader (some w.base_path) x d
  unfolding load_games load read_file
  load_games_same d d' e =
      ap
        (λ n. with_default_date x (
          if str_eq x ""
          then err (other "snapshot date required")
          else decoded
              (elim (reader.read_error (games_path w x)) [ none ↦ contents n | some f ↦ err f ])))
        e

  load_games-none :
      (d : Disk)
      → find_node (games_path w x) d ≡ none
      → Fails (load_games reader (some w.base_path) x d)
  unfolding load_games load read_file
  load_games-none d e = elim (Bool-cases (str_eq x "")) [
    | inl q ↦ (other "snapshot date required", ground (arith, q))
    | inr q ↦ elim (Option-cases (reader.read_error (games_path w x))) [
      | inl k ↦ (no_such_file, ground (arith, q, k, e))
      | inr (f, k) ↦ (f, ground (arith, q, k))
    ]
  ]

  load_games_stored :
      (t : TodayResponse) (d : Disk)
      → x ≢ ""
      → find_node (games_path w x) d ≡ some (file (snapshot_json (prepared x t)))
      → Fails (load_games reader (some w.base_path) x d)
        ⊎ (load_games reader (some w.base_path) x d ≡ ok (prepared x t))
  unfolding load_games load read_file
  load_games_stored t d ne e = elim (Option-cases (reader.read_error (games_path w x))) [
    | inl k ↦
        inr (load_games_at reader w x (prepared x t) d ne k e ∙ rw (prepared_dated x t ne) refl)
    | inr (f, k) ↦ inl (f, ground (arith, k, eq_iff x ""))
  ]

  -- Calls of the writer overlap, and in no state of the run two goroutines are on one date. Then the
  -- store loads for a date that is not empty, at each moment, what it would have loaded before the
  -- first call, or it fails, or it loads the whole prepared snapshot of a call that has begun.
  pub load_games-overlap :
      {d : Disk} {s : System} (r : Reach w d s)
      → Apart r
      → x ≢ ""
      → let out = load_games reader (some w.base_path) x s.disk in
        (out ≡ load_games reader (some w.base_path) x d)
        ⊎ Fails out
        ⊎ ((t : TodayResponse) × Begun r x t × (out ≡ ok (prepared x t)))
  load_games-overlap {d} {s} r apart ne = elim (overlap-whole r apart x) [
    | inl e ↦ inl (load_games_same d s.disk e)
    | inr (inl e) ↦ inr (inl (load_games-none s.disk e))
    | inr (inr (t, b, e)) ↦ elim (load_games_stored t s.disk ne e) [
      | inl f ↦ inr (inl f)
      | inr k ↦ inr (inr (t, b, k))
    ]
  ]
