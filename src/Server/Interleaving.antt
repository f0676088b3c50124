-- ===== src/Server/Interleaving.antt =====
-- The poller, the syncer and the admin handler on one disk, one call after another in any order.
pub mod Syncing
mod Tests
use nba_games_service.Base.{
  ℕ, ◌≡◌, ◌⊎◌, inl, inr, refl, sym, ap, ◌∙◌, subst, String, Bool, true, false, Option, none, some,
  List, [], ◌∷◌, str_eq, if◌then◌else◌, arith, eq_iff,
}
use nba_games_service.Base.Sort.{IsSorted, sort_by, sort_by-IsSorted}
use nba_games_service.Base.Strings.{trim_space}
use nba_games_service.Base.{Bool-cases, Option-cases}
use nba_games_service.Calendar.{Time, Civil, format_date, parse_date}
use nba_games_service.Domain.{Game, TodayResponse, new_today_response}
use nba_games_service.Errors.{Result, ok, err}
use nba_games_service.Http.Messages.{Request, require_method}
use nba_games_service.Http.Admin.{
  AdminHandler, Answer, refresh_snapshots, refresh_with, refresh_date, store_games, written,
  date_for, authorize, knows_zone,
}
use nba_games_service.Poller.{Poller, World, record_attempt, fetch_once, after_fetch, write_today}
use nba_games_service.Poller.Health.{Cycle}
use nba_games_service.Providers.Provider.{Provider}
use nba_games_service.Snapshots.Disk.{
  FilePath, Disk, Document, Node, file, snapshot_json, decode_snapshot, find_node,
}
use nba_games_service.Snapshots.Files.{Env, read_file}
use nba_games_service.Snapshots.Store.{load_games, load}
use nba_games_service.Snapshots.Sync.{Round, fetch_and_write}
use nba_games_service.Snapshots.Writer.{Writer, prepared, write_games_snapshot}
use nba_games_service.Snapshots.Writer.Pruning.{games_path}
use nba_games_service.Snapshots.Writer.Tearing.{IsWhole, write_games_snapshot-IsWhole}

abbrev after_refresh {ℓ} : {S : Type ℓ} → Answer S → World S → World S
after_refresh ans s = record s { disk = ans.1; outside = ans.2 }

module _ {ℓ} {S : Type ℓ} (p : Poller S) (w : Writer) (a : AdminHandler S) where
  -- A call of one of the three; what the syncer and the handler meet may be anything.
  pub data Step : World S → World S → Type ℓ where
    polls : (c : Cycle) (s : World S) → Step s (fetch_once p c.env c.start c.now s)
    syncs :
        (r : Round) (date : String) (s : World S)
        → Step s (record s { disk = fetch_and_write r (some w) date s.disk })
    refreshes :
        (env : Env) (now : Time) (r : Request) (s : World S)
        → Step s (after_refresh (refresh_snapshots env a now r s.disk s.outside) s)

  pub data Reach (s : World S) : World S → Type ℓ where
    here : Reach s s
    next : {t u : World S} → Reach s t → Step t u → Reach s u

-- Under each date there is nothing, or a whole snapshot of that date with its games in order.
abbrev pub IsStored : Writer → Disk → String → Type 0
IsStored w d x =
    (find_node (games_path w x) d ≡ none)
    ⊎ ((t : TodayResponse) × (find_node (games_path w x) d ≡ some (file (snapshot_json t)))
        × (t.date ≡ x)
        × IsSorted (λ g. g.id) t.games)

abbrev pub AllStored : Writer → Disk → Type 0
AllStored w d = (x : String) → IsStored w d x

prepared_date :
    (date : String) (games : List Game)
    → (prepared date (new_today_response date games)).date ≡ date
unfolding prepared new_today_response
prepared_date date games = ground arith

prepared-IsSorted :
    (date : String) (t : TodayResponse) → IsSorted (λ g. g.id) (prepared date t).games
unfolding prepared
prepared-IsSorted date t = sort_by-IsSorted (λ g. g.id) t.games

AllStored-write :
    (env : Env) (w : Writer) (date : String) (games : List Game) (d : Disk)
    → AllStored w d
    → AllStored w (write_games_snapshot env (some w) date (new_today_response date games) d).1
AllStored-write env w date games d h x = after_write (write_games_snapshot-IsWhole env w date t d x)
  where
    t : TodayResponse
    t = new_today_response date games

    d' : Disk
    d' = (write_games_snapshot env (some w) date t d).1

    after_write : IsWhole env w date t x d d' → IsStored w d' x
    after_write (inl e) =
        subst
          (λ o.
            (o ≡ none)
            ⊎ ((u : TodayResponse) × (o ≡ some (file (snapshot_json u)))
                × (u.date ≡ x)
                × IsSorted (λ g. g.id) u.games))
          (sym e) (h x)
    after_write (inr (inl (old, gone))) = inl gone
    after_write (inr (inr (same, at))) =
        inr (prepared date t, at, prepared_date date games ∙ same, prepared-IsSorted date t)

nothing_there : (q : FilePath) → find_node q [] ≡ none
unfolding find_node
nothing_there q = refl

loads_stored :
    (w : Writer) (d : Disk) (x : String) (reader : Env) (snap : TodayResponse)
    → IsStored w d x
    → load_games reader (some w.base_path) x d ≡ ok snap
    → (snap.date ≡ x) × IsSorted (λ g. g.id) snap.games
unfolding load_games load read_file decode_snapshot
loads_stored w d x reader snap (inl gone) e = ground (arith, gone, e)
loads_stored w d x reader snap (inr (t, at, dated, sorted)) e =
    let same : t ≡ snap = ground (arith, at, dated, e, eq_iff t.date "", eq_iff x "") in
    subst (λ u. (u.date ≡ x) × IsSorted (λ g. g.id) u.games) same (dated, sorted)

module _ {ℓ} {S : Type ℓ} (p : Poller S) (w : Writer) (a : AdminHandler S)
    (polls_to : p.writer ≡ some w) (refreshes_to : a.writer ≡ some w) where
  AllStored-fetch :
      (env : Env) (start : Time) (today : String) (s : World S) (q : Result (List Game) × S)
      → AllStored w s.disk
      → AllStored w (after_fetch p env start today s q).disk
  AllStored-fetch env start today s (err e, o) h = h
  AllStored-fetch env start today s (ok games, o) h =
      rw polls_to (AllStored-write env w today games s.disk h)

  AllStored-sync :
      (r : Round) (date : String) (d : Disk)
      → AllStored w d
      → AllStored w (fetch_and_write r (some w) date d)
  unfolding fetch_and_write
  AllStored-sync r date d h = by_fetched r.fetched
    where
      by_fetched :
          (f : Result (List Game))
          → AllStored w (fetch_and_write (record r { fetched = f }) (some w) date d)
      by_fetched (err e) = h
      by_fetched (ok []) = h
      by_fetched (ok (g ∷ gs)) = AllStored-write r.env w date (g ∷ gs) d h

  module _ (env : Env) (now : Time) (r : Request) (d : Disk) (s : S) (h : AllStored w d) where
    AllStored-written :
        (date : String) (n : ℕ) (o : S) (x : Result (Unit {0}) × Disk)
        → AllStored w x.1
        → AllStored w (written r date n o x).1
    AllStored-written date n o (ok u, d1) k = k
    AllStored-written date n o (err e, d1) k = k

    AllStored-store_games :
        (date : String) (q : Result (List Game) × S) → AllStored w (store_games env w r date d q).1
    AllStored-store_games date (err e, o) = h
    AllStored-store_games date (ok [], o) = h
    AllStored-store_games date (ok (g ∷ gs), o) =
        AllStored-written date _ o
          (write_games_snapshot env (some w) date (new_today_response date (g ∷ gs)) d)
          (AllStored-write env w date (g ∷ gs) d h)

    AllStored-refresh_date :
        (q : Provider S) (date : String) → AllStored w (refresh_date env a q w r date d s).1
    AllStored-refresh_date q date = elim (Option-cases (parse_date date)) [
      | inl e ↦ rw (e, refresh_date) h
      | inr (c, e) ↦ elim (Bool-cases (knows_zone a (trim_space r.tz))) [
        | inl k ↦ rw (e, k, refresh_date) (AllStored-store_games date (q date (trim_space r.tz) s))
        | inr k ↦ rw (e, k, refresh_date) h
      ]
    ]

    AllStored-refresh_with :
        (q : Option (Provider S)) → AllStored w (refresh_with env a now r q (some w) d s).1
    AllStored-refresh_with none = h
    AllStored-refresh_with (some q) = AllStored-refresh_date q (date_for a now r)

    AllStored-refresh : AllStored w (refresh_snapshots env a now r d s).1
    unfolding refresh_snapshots require_method
    AllStored-refresh = elim (Bool-cases (str_eq r.method "POST")) [
      | inr e ↦ rw e h
      | inl e ↦ elim (Bool-cases (authorize a r)) [
        | inl k ↦ rw (e, k, refreshes_to) (AllStored-refresh_with a.provider)
        | inr k ↦ rw (e, k) h
      ]
    ]

  AllStored-Step : {s t : World S} → Step p w a s t → AllStored w s.disk → AllStored w t.disk
  unfolding fetch_once
  AllStored-Step (polls c s) h =
      let today = format_date (p.loc c.now) in
      AllStored-fetch c.env c.start today (record s { status = record_attempt c.start s.status })
        (p.provider today "" s.outside) h
  AllStored-Step (syncs r date s) h = AllStored-sync r date s.disk h
  AllStored-Step (refreshes env now r s) h = AllStored-refresh env now r s.disk s.outside h

  AllStored-Reach : {s t : World S} → Reach p w a s t → AllStored w s.disk → AllStored w t.disk
  AllStored-Reach here h = h
  AllStored-Reach (next r q) h = AllStored-Step q (AllStored-Reach r h)

  -- Where the poller, the syncer and the admin handler share one writer, after any calls of the three,
  -- one after another in any order, with any failures and at any times, on a disk that was empty: if
  -- the store loads a date, then the snapshot has this date, and its games are in the order of their
  -- ids.
  pub load_games-Reach :
      {s t : World S} (reader : Env) (x : String) (snap : TodayResponse)
      → s.disk ≡ []
      → Reach p w a s t
      → load_games reader (some w.base_path) x t.disk ≡ ok snap
      → (snap.date ≡ x) × IsSorted (λ g. g.id) snap.games
  load_games-Reach {s} {t} reader x snap empty r e =
      let h =
        AllStored-Reach r
          (subst (AllStored w) (sym empty) (λ y. inl (nothing_there (games_path w y)))) in
      loads_stored w t.disk x reader snap (h x) e
