-- ===== src/Snapshots/Overlap/Alone.antt =====
-- A call of writer.go that no other overlaps, as moves of one goroutine.
use nba_games_service.Base.{
  ℕ, String, Bool, true, false, if◌then◌else◌, some, List, [], ◌∷◌, ◌≡◌, inl, inr, refl, ◌∙◌,
  str_eq, Bool-cases, Option-cases, subst, sym,
}
use nba_games_service.Base.Sort.{sort_strings}
use nba_games_service.Errors.{Error, Result, ok, err}
use nba_games_service.Calendar.{parse_date}
use nba_games_service.Domain.{TodayResponse}
use nba_games_service.Snapshots.Disk.{
  FilePath, Manifest, snapshot_json, manifest_json, file, Disk, put_node,
}
use nba_games_service.Snapshots.Files.{Env, Io, mkdir_all, read_file, ◌>>◌, remove, bind_at}
use nba_games_service.Snapshots.Writer.{
  Writer, kind_games, prepared, tmp_path, manifest_path, snapshot_path, is_same, replace_file,
  replace_unless_same, update_manifest, write_manifest, prune_loop, prune_old_snapshots, list_dates,
  with_date, cutoff_day, refreshed, read_manifest, is_expired, store_payload, write_snapshot,
  write_games_snapshot,
}
use nba_games_service.Snapshots.Writer.Pruning.{games_path}
use nba_games_service.Snapshots.Writer.Storing.{is_same_inv}
use nba_games_service.Snapshots.Overlap.{
  Pc, idle, entered, writing, renaming, updating, pruning, Move, same, opens, closes, renames,
  lists, keeps, prunes, opens_manifest, closes_manifest, places, fails, Moves, done, next,
}
use nba_games_service.Snapshots.Overlap.Replacing.{put_node_twice, Replaces-cases}

-- What a move is in a call with this environment: it lists and removes with the environment, and
-- what it puts in the manifest's place is a whole manifest of the call's times.
abbrev pub Fits : {w : Writer} {d d' : Disk} {p p' : Pc} → Env → Move w d p d' p' → Type 0
Fits env (lists env' dates e) = env' ≡ env
Fits env (prunes env' e) = env' ≡ env
Fits {w} env (places n e) =
    (m : Manifest) × (n ≡ file (manifest_json m))
    × (m.generated_at ≡ env.generated_at)
    × (m.games_last_refreshed ≡ env.refreshed_at)
    × (m.retention_games_days ≡ w.retention_days)
Fits env _ = Unit

abbrev pub is_failure : {w : Writer} {d d' : Disk} {p p' : Pc} → Move w d p d' p' → Bool
is_failure fails = true
is_failure _ = false

abbrev pub IsEmpty : {w : Writer} {d d' : Disk} {p p' : Pc} → Moves w d p d' p' → Type 0
IsEmpty done = Unit
IsEmpty (next mv ms) = ⊥

-- The moves of a call that returns `r`: they fit, and the last one fails if there is an error, and
-- else none does.
abbrev pub Returns :
    {w : Writer} {d d' : Disk} {p p' : Pc} → Env → Result (Unit {0}) → Moves w d p d' p' → Type 0
Returns env r done = r ≡ ok tt
Returns env r (next mv ms) =
    Fits env mv
    × (if is_failure mv then ((e : Error) × (r ≡ err e) × IsEmpty ms) else Returns env r ms)

-- How a call goes on from a point to what it returns, and the disk it leaves.
abbrev End : Env → Writer → Disk → Pc → Result (Unit {0}) × Disk → Type 0
End env w d p out = (ms : Moves w d p out.1 idle) × Returns env out.0 ms

module _ (env : Env) (w : Writer) where
  ends : {d : Disk} {p : Pc} (e : Error) → End env w d p (err e, d)
  ends e = (next fails done, (tt, (e, refl, tt)))

  goes_on :
      {d d' : Disk} {p p' : Pc} {out : Result (Unit {0}) × Disk} (mv : Move w d p d' p')
      → Fits env mv
      → is_failure mv ≡ false
      → End env w d' p' out
      → End env w d p out
  goes_on mv fits passes (ms, h) = (next mv ms, (fits, rw passes h))

  -- After the pruning.
  recorded :
      (date : String) (cutoff : ℕ) (m : Manifest) (d : Disk)
      → m.games_last_refreshed ≡ env.refreshed_at
      → m.retention_games_days ≡ w.retention_days
      → End env w d (pruning date cutoff []) (write_manifest env w.base_path m d)
  unfolding write_manifest
  recorded date cutoff m d at kept =
      let m' = record m { generated_at = env.generated_at } in
      elim (Replaces-cases env (manifest_path w.base_path) (manifest_json m') d) [
        | inl (er, e) ↦ rw e (ends er)
        | inr (inl (er, part, e)) ↦ rw e (goes_on (opens_manifest part) tt refl (ends er))
        | inr (inr (f, e)) ↦ rw e (
            goes_on (opens_manifest (manifest_json m')) tt refl (
              goes_on closes_manifest tt refl (
                goes_on (places (file (manifest_json m')) f) (m', refl, refl, at, kept) refl
                  (done, refl))))
      ]

  pruned :
      (date : String) (cutoff : ℕ) (xs : List String) (m : List String → Manifest) (d : Disk)
      → ((l : List String) → (m l).games_last_refreshed ≡ env.refreshed_at)
      → ((l : List String) → (m l).retention_games_days ≡ w.retention_days)
      → End env w d (pruning date cutoff xs) (
          write_manifest env w.base_path
            (m (prune_loop env w kind_games cutoff xs d).0)
            (prune_loop env w kind_games cutoff xs d).1)
  unfolding prune_loop snapshot_path
  pruned date cutoff [] m d at kept = recorded date cutoff (m []) d (at []) (kept [])
  pruned date cutoff (x ∷ xs) m d at kept = elim (Bool-cases (is_expired cutoff (parse_date x))) [
    | inl e ↦ rw e (
        goes_on (prunes env e) refl refl
          (pruned date cutoff xs m (remove env (games_path w x) d) at kept))
    | inr e ↦ rw e (
        goes_on (keeps e) tt refl
          (pruned date cutoff xs (λ l. m (x ∷ l)) d (λ l. at (x ∷ l)) (λ l. kept (x ∷ l))))
  ]

  updated :
      (date : String) (d : Disk)
      → End env w d (updating date) (update_manifest env w kind_games date d)
  unfolding update_manifest prune_old_snapshots
  updated date d = go (list_dates env w kind_games d) refl
    where
      go :
          (r : Result (List String))
          → list_dates env w kind_games d ≡ r
          → End env w d (updating date) (update_manifest env w kind_games date d)
      go (err e) f = rw (f, update_manifest) (ends e)
      go (ok dates) f =
          rw (f, update_manifest)
            (goes_on (lists env dates f) refl refl (
              pruned date (cutoff_day env w) (with_date dates date)
                (λ l.
                  refreshed env w kind_games (sort_strings l)
                    (read_manifest env (manifest_path w.base_path) w.retention_days d))
                d (λ l. refl) (λ l. refl)))

  module _ (date : String) (snapshot : TodayResponse) where
    abbrev target : FilePath
    target = games_path w date

    abbrev payload : TodayResponse
    payload = prepared date snapshot

    abbrev rest : Io (Unit {0})
    rest d = (replace_unless_same env target payload >> update_manifest env w kind_games date) d

    abbrev go : Unit {0} → Io (Unit {0})
    go _ = update_manifest env w kind_games date

    -- What a call returns and leaves, from its entry on.
    abbrev P : Disk → Result (Unit {0}) × Disk → Type 0
    P d out = End env w d (entered date snapshot) out

    -- A file written twice is a file written once.
    closed :
        {out : Result (Unit {0}) × Disk} (d : Disk)
        → let x = file (snapshot_json payload) in
          End env w (put_node (tmp_path target) x d) (renaming date snapshot) out
          → End env w (put_node (tmp_path target) x d) (writing date snapshot) out
    closed {out} d h =
        let x = file (snapshot_json payload) in
        goes_on closes tt refl (
          subst (λ d'. End env w d' (renaming date snapshot) out)
            (sym (put_node_twice (tmp_path target) x x d)) h)

    replaced : (d : Disk) → P d (rest d)
    replaced d = elim (Bool-cases (is_same (read_file env target d) payload)) [
      | inl k ↦
          bind_at (P d) (replace_unless_same env target payload) go d (ok tt) d
            (unfold replace_unless_same in rw k refl)
            (goes_on (same (is_same_inv env target d payload k)) tt refl (updated date d))
      | inr k ↦
          let written : replace_unless_same env target payload d
              ≡ replace_file env target (snapshot_json payload) d =
            unfold replace_unless_same in rw k refl in
          elim (Replaces-cases env target (snapshot_json payload) d) [
            | inl (er, f) ↦
                bind_at (P d) (replace_unless_same env target payload) go d (err er) d (written ∙ f)
                  (ends er)
            | inr (inl (er, part, f)) ↦
                bind_at (P d) (replace_unless_same env target payload) go d (err er) _ (written ∙ f)
                  (goes_on (opens part) tt refl (ends er))
            | inr (inr (g, f)) ↦
                bind_at (P d) (replace_unless_same env target payload) go d (ok tt) _ (written ∙ f)
                  (goes_on (opens (snapshot_json payload)) tt refl (
                    closed d (
                      goes_on (renames (file (snapshot_json payload)) g) tt refl (updated date _))))
          ]
    ]

    stored : (d : Disk) → P d (store_payload env w kind_games date payload d)
    unfolding store_payload snapshot_path mkdir_all
    stored d = elim (Option-cases (env.mkdir_error w.base_path "games")) [
      | inl e ↦
          bind_at (P d) (mkdir_all env w.base_path "games") (λ _. rest) d (ok tt) d
            (rw (e, mkdir_all) refl) (replaced d)
      | inr (er, e) ↦
          bind_at (P d) (mkdir_all env w.base_path "games") (λ _. rest) d (err er) d
            (rw (e, mkdir_all) refl) (ends er)
    ]

    -- A call for a date that is not empty, with no other call in between, makes moves of one
    -- goroutine from its entry to its end that leave the disk that `write_games_snapshot` leaves. If
    -- it returns an error, the last of them fails, and no other; if not, none fails, so the call
    -- replaces its file or finds it the same, lists the dates, removes or keeps each of them, and
    -- puts a manifest in place. It lists and removes with the environment of the call, and what it
    -- puts in place is a whole manifest with the call's times and the writer's retention.
    pub Moves-write_games_snapshot :
        (d : Disk)
        → str_eq date "" ≡ false
        → let (result, after) = write_games_snapshot env (some w) date snapshot d in
          (ms : Moves w d (entered date snapshot) after idle) × Returns env result ms
    unfolding write_games_snapshot write_snapshot
    Moves-write_games_snapshot d h = rw h (stored d)
