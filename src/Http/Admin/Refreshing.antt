-- ===== src/Http/Admin/Refreshing.antt =====
-- What a refresh may change.
use nba_games_service.Base.{
  String, ◌≡◌, ◌⊎◌, refl, Bool, true, false, Bool-cases, inl, inr, Option, none, some, List, [],
  ◌∷◌, str_eq, length, arith,
}
use nba_games_service.Base.Strings.{trim_space}
use nba_games_service.Calendar.{Civil, Time, parse_date}
use nba_games_service.Domain.{Game, new_today_response}
use nba_games_service.Errors.{Result, ok, err}
use nba_games_service.Http.Messages.{Request, write_error, require_method}
use nba_games_service.Http.Admin.{
  AdminHandler, Answer, authorize, refresh_snapshots, refresh_with, store_games, written, date_for,
  knows_zone,
}
use nba_games_service.Providers.Provider.{Provider}
use nba_games_service.Snapshots.Disk.{Disk}
use nba_games_service.Snapshots.Files.{Env}
use nba_games_service.Snapshots.Writer.{Writer, write_games_snapshot}

module _ {ℓ} {S : Type ℓ} (env : Env) (h : AdminHandler S) (now : Time) (r : Request) (d : Disk)
    (s : S) where
  abbrev out : Answer S
  out = refresh_snapshots env h now r d s

  -- Without the method POST or without the admin token, a refresh leaves the disk and the provider
  -- alone and answers 405 or 401.
  pub refresh_snapshots-guarded :
      (str_eq r.method "POST" ≡ false) ⊎ (authorize h r ≡ false)
      → (out.1 ≡ d) × (out.2 ≡ s) × ((out.0.status ≡ 405) ⊎ (out.0.status ≡ 401))
  unfolding refresh_snapshots require_method write_error
  refresh_snapshots-guarded (inl e) = rw e (refl, refl, inl refl)
  refresh_snapshots-guarded (inr e) = elim (Bool-cases (str_eq r.method "POST")) [
    | inl m ↦ rw (m, e) (refl, refl, inr refl)
    | inr m ↦ rw m (refl, refl, inl refl)
  ]

  abbrev date : String
  date = date_for h now r

  -- What stands behind an answer 200, `ans`.
  pub record Refreshed (ans : Answer S) : Type ℓ where
    pub posted : str_eq r.method "POST" ≡ true
    pub authorized : authorize h r ≡ true
    pub writer : Writer
    pub provider : Provider S
    pub has_writer : h.writer ≡ some writer
    pub has_provider : h.provider ≡ some provider
    pub civil : Civil
    pub dated : parse_date date ≡ some civil
    pub game : Game
    pub games : List Game
    pub fetched : (provider date (trim_space r.tz) s).0 ≡ ok (game ∷ games)
    pub stored :
        write_games_snapshot env (some writer) date (new_today_response date (game ∷ games)) d
        ≡ (ok tt, ans.1)

  -- The part of it that the provider and the writer answer for.
  record Stored (w : Writer) (q : Result (List Game) × S) (ans : Answer S) : Type ℓ where
    game : Game
    games : List Game
    fetched : q.0 ≡ ok (game ∷ games)
    stored :
        write_games_snapshot env (some w) date (new_today_response date (game ∷ games)) d
        ≡ (ok tt, ans.1)

  store_games-Stored :
      (w : Writer) (q : Result (List Game) × S)
      → (store_games env w r date d q).0.status ≡ 200
      → Stored w q (store_games env w r date d q)
  unfolding write_error
  store_games-Stored w (err e, s1) k = absurd (omega (arith, k))
  store_games-Stored w (ok [], s1) k = absurd (omega (arith, k))
  store_games-Stored w (ok (g ∷ gs), s1) k =
      by_write (write_games_snapshot env (some w) date (new_today_response date (g ∷ gs)) d) refl k
    where
      by_write :
          (x : Result (Unit {0}) × Disk)
          → write_games_snapshot env (some w) date (new_today_response date (g ∷ gs)) d ≡ x
          → (written r date (length (g ∷ gs)) s1 x).0.status ≡ 200
          → Stored w (ok (g ∷ gs), s1) (written r date (length (g ∷ gs)) s1 x)
      by_write (err e, d1) h k = absurd (omega (arith, k))
      by_write (ok u, d1) h k = record { game = g; games = gs; fetched = refl; stored = h }

  refresh_with-Refreshed :
      str_eq r.method "POST" ≡ true
      → authorize h r ≡ true
      → (p : Option (Provider S)) (w : Option Writer) → h.provider ≡ p
      → h.writer ≡ w
      → (refresh_with env h now r p w d s).0.status ≡ 200
      → Refreshed (refresh_with env h now r p w d s)
  unfolding write_error
  refresh_with-Refreshed post auth none w hp hw k = absurd (omega (arith, k))
  refresh_with-Refreshed post auth (some p) none hp hw k = absurd (omega (arith, k))
  refresh_with-Refreshed post auth (some p) (some w) hp hw k = by_date (parse_date date) refl k
    where
      by_zone :
          (c : Civil)
          → parse_date date ≡ some c
          → (known : Bool)
          → (elim known as (λ _. Answer S) [
            | false ↦ (write_error r 400 "invalid timezone", d, s)
            | true ↦ store_games env w r date d (p date (trim_space r.tz) s)
          ]).0.status
            ≡ 200
          → Refreshed (elim known as (λ _. Answer S) [
            | false ↦ (write_error r 400 "invalid timezone", d, s)
            | true ↦ store_games env w r date d (p date (trim_space r.tz) s)
          ])
      by_zone c e false k = absurd (omega (arith, k))
      by_zone c e true k =
          let x = store_games-Stored w (p date (trim_space r.tz) s) k in
          record {
            posted = post;
            authorized = auth;
            writer = w;
            provider = p;
            has_writer = hw;
            has_provider = hp;
            civil = c;
            dated = e;
            game = x.game;
            games = x.games;
            fetched = x.fetched;
            stored = x.stored;
          }

      by_date :
          (c : Option Civil)
          → parse_date date ≡ c
          → (elim c as (λ _. Answer S) [
            | none ↦ (write_error r 400 "invalid date format", d, s)
            | some c ↦ elim (knows_zone h (trim_space r.tz)) as (λ _. Answer S) [
              | false ↦ (write_error r 400 "invalid timezone", d, s)
              | true ↦ store_games env w r date d (p date (trim_space r.tz) s)
            ]
          ]).0.status
            ≡ 200
          → Refreshed (elim c as (λ _. Answer S) [
            | none ↦ (write_error r 400 "invalid date format", d, s)
            | some c ↦ elim (knows_zone h (trim_space r.tz)) as (λ _. Answer S) [
              | false ↦ (write_error r 400 "invalid timezone", d, s)
              | true ↦ store_games env w r date d (p date (trim_space r.tz) s)
            ]
          ])
      by_date none e k = absurd (omega (arith, k))
      by_date (some c) e k = by_zone c e (knows_zone h (trim_space r.tz)) k

  -- An answer 200 to a refresh means that the request was an authorised POST, that its date, or
  -- today for none, is one that parses, that the provider gave at least one game for the date, and
  -- that the write of exactly these games under it succeeded.
  pub refresh_snapshots-Refreshed :
      (refresh_snapshots env h now r d s).0.status ≡ 200
      → Refreshed (refresh_snapshots env h now r d s)
  unfolding refresh_snapshots require_method write_error
  refresh_snapshots-Refreshed k = elim (Bool-cases (str_eq r.method "POST")) [
    | inr m ↦ let e : 405 ≡ 200 = rw m at k in absurd (omega (arith, e))
    | inl m ↦ elim (Bool-cases (authorize h r)) [
      | inr a ↦ let e : 401 ≡ 200 = rw (m, a) at k in absurd (omega (arith, e))
      | inl a ↦
          rw (m, a) (refresh_with-Refreshed m a h.provider h.writer refl refl (rw (m, a) at k))
    ]
  ]
