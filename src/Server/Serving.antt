-- ===== src/Server/Serving.antt =====
-- What a request to the service may do, and what it is told.
use nba_games_service.Base.{
  ℕ, String, true, false, Option, none, some, List, ◌≡◌, ◌⊎◌, refl, subst, str_eq, Bool-cases,
  Option-cases, inl, inr, [], ◌∷◌, length,
}
use nba_games_service.Http.Messages.{Request, request_id, write_error, require_method}
use nba_games_service.Http.Admin.{
  authorize, refresh_snapshots, refresh_with, refresh_date, store_games, written, knows_zone,
  date_for,
}
use nba_games_service.Base.Strings.{trim_space}
use nba_games_service.Calendar.{parse_date}
use nba_games_service.Domain.{Game, new_today_response}
use nba_games_service.Errors.{Result, ok, err}
use nba_games_service.Providers.Provider.{Provider}
use nba_games_service.Snapshots.Writer.{Writer, write_games_snapshot}
use nba_games_service.Http.Admin.Refreshing.{refresh_snapshots-guarded}
use nba_games_service.Http.Router.{Route, to_handler, to_admin, not_routed, redirect, route}
use nba_games_service.Http.Logged.{logging_middleware, with_request_id}
use nba_games_service.Http.Logged.Ids.{Names, Names-serve_http, request_id-with_request_id}
use nba_games_service.Http.Middleware.{
  sanitize_request_id, is_request_id, IsBytes, sanitize_request_id-is_request_id,
}
use nba_games_service.Server.{Service, Moment, routed, serve_routed, serve}
use nba_games_service.Snapshots.Disk.{Disk}

module _ {ℓ} {S : Type ℓ} (v : Service S) (m : Moment) (d : Disk) (s : S) (r : Request) where
  routed-guarded :
      (q : Request) (t : Route)
      → (t ≡ to_admin → (str_eq q.method "POST" ≡ false) ⊎ (authorize v.admin q ≡ false))
      → let ans = routed v m d s q t in (ans.1 ≡ d) × (ans.2 ≡ s)
  routed-guarded q to_handler h = (refl, refl)
  routed-guarded q not_routed h = (refl, refl)
  routed-guarded q (redirect p) h = (refl, refl)
  routed-guarded q to_admin h =
      let (a, b, c) = refresh_snapshots-guarded m.env v.admin m.now q d s (h refl) in (a, b)

  -- A request that is not a POST with the admin token to the admin route changes nothing on the disk
  -- and does not call the provider.
  pub serve-guarded :
      (str_eq r.method "POST" ≡ false)
        ⊎ (authorize v.admin r ≡ false)
        ⊎ ((route v.clean v.admin.token r.path ≡ to_admin) → ⊥)
      → ((serve v m d s r).1 ≡ d) × ((serve v m d s r).2 ≡ s)
  unfolding serve authorize
  serve-guarded h =
      routed-guarded (with_request_id r _) (route v.clean v.admin.token r.path) (excluded h)
    where
      excluded :
          (str_eq r.method "POST" ≡ false)
            ⊎ (authorize v.admin r ≡ false)
            ⊎ ((route v.clean v.admin.token r.path ≡ to_admin) → ⊥)
          → route v.clean v.admin.token r.path ≡ to_admin
          → (str_eq r.method "POST" ≡ false) ⊎ (authorize v.admin r ≡ false)
      excluded (inl a) e = inl a
      excluded (inr (inl b)) e = inr b
      excluded (inr (inr c)) e = absurd (c e)

module _ {ℓ} {S : Type ℓ} (v : Service S) (m : Moment) (d : Disk) (s : S) where
  Names-written :
      (r : Request) (date : String) (n : ℕ) (x : Result (Unit {0}) × Disk)
      → Names (request_id r) (written r date n s x).0
  unfolding write_error
  Names-written r date n (ok u, d1) = tt
  Names-written r date n (err e, d1) = refl

  Names-store_games :
      (r : Request) (w : Writer) (date : String) (q : Result (List Game) × S)
      → Names (request_id r) (store_games m.env w r date d q).0
  unfolding write_error
  Names-store_games r w date (err e, s1) = refl
  Names-store_games r w date (ok [], s1) = refl
  Names-store_games r w date (ok (g ∷ gs), s1) =
      by_write (write_games_snapshot m.env (some w) date (new_today_response date (g ∷ gs)) d)
    where
      by_write :
          (x : Result (Unit {0}) × Disk)
          → Names (request_id r) (written r date (length (g ∷ gs)) s1 x).0
      by_write (ok u, d1) = tt
      by_write (err e, d1) = refl

  Names-refresh_date :
      (r : Request) (p : Provider S) (w : Writer) (date : String)
      → Names (request_id r) (refresh_date m.env v.admin p w r date d s).0
  unfolding write_error
  Names-refresh_date r p w date = elim (Option-cases (parse_date date)) [
    | inl e ↦ rw (e, refresh_date) refl
    | inr (c, e) ↦ elim (Bool-cases (knows_zone v.admin (trim_space r.tz))) [
      | inl k ↦ rw (e, k, refresh_date) (Names-store_games r w date (p date (trim_space r.tz) s))
      | inr k ↦ rw (e, k, refresh_date) refl
    ]
  ]

  Names-refresh_with :
      (r : Request) (p : Option (Provider S)) (w : Option Writer)
      → Names (request_id r) (refresh_with m.env v.admin m.now r p w d s).0
  unfolding write_error
  Names-refresh_with r none w = refl
  Names-refresh_with r (some p) none = refl
  Names-refresh_with r (some p) (some w) = Names-refresh_date r p w (date_for v.admin m.now r)

  Names-refresh_snapshots :
      (r : Request) → Names (request_id r) (refresh_snapshots m.env v.admin m.now r d s).0
  unfolding refresh_snapshots require_method write_error
  Names-refresh_snapshots r = elim (Bool-cases (str_eq r.method "POST")) [
    | inr e ↦ rw e refl
    | inl e ↦ elim (Bool-cases (authorize v.admin r)) [
      | inl a ↦ rw (e, a) (Names-refresh_with r v.admin.provider v.admin.writer)
      | inr a ↦ rw (e, a) refl
    ]
  ]

  Names-routed : (r : Request) (t : Route) → Names (request_id r) (routed v m d s r t).0
  Names-routed r to_handler = Names-serve_http m.env v.handler d m.now r v.unescape
  Names-routed r to_admin = Names-refresh_snapshots r
  Names-routed r not_routed = tt
  Names-routed r (redirect p) = tt

  -- Each answer carries an id of the accepted form in its X-Request-ID header, and an error that its
  -- body reports is reported under that id; the random source, where it works, and the clock give
  -- from 1 to 32 bytes.
  pub serve-Names :
      (r : Request)
      → ((bytes : List ℕ) → m.random ≡ some bytes → IsBytes bytes)
      → IsBytes m.stamp
      → let x = (serve v m d s r).0 in
        (is_request_id x.id_header ≡ true) × Names x.id_header x.response
  unfolding serve logging_middleware
  serve-Names r h k =
      let id = sanitize_request_id m.random m.stamp r.id_header in
      let good = sanitize_request_id-is_request_id m.random m.stamp r.id_header h k in
      (
        good,
        subst (λ i. Names i (serve_routed v m d s (with_request_id r id)).0)
            (request_id-with_request_id r id good)
            (Names-routed (with_request_id r id) (route v.clean v.admin.token r.path)),
      )
