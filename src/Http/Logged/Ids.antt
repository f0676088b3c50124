-- ===== src/Http/Logged/Ids.antt =====
-- The id of a request, from its header to the body of an error.
use nba_games_service.Base.{
  String, true, Option, ◌≡◌, refl, sym, ap, ◌∙◌, arith, str_eq, eq_iff, Bool-cases, inl, inr,
}
use nba_games_service.Calendar.{Time}
use nba_games_service.Http.Messages.{
  Request, Response, error_body, request_id, write_error, require_method,
}
use nba_games_service.Http.Handlers.{Handler, health, ready, games_today, game_by_id, serve_http}
use nba_games_service.Http.Logged.{with_request_id}
use nba_games_service.Http.Middleware.{is_request_id}
use nba_games_service.Snapshots.Disk.{Disk}
use nba_games_service.Snapshots.Files.{Env}

-- An error that a response reports is reported under the id.
abbrev pub Names : String → Response → Type 0
Names id resp = elim resp.body [ error_body msg i ↦ i ≡ id | _ ↦ Unit {0} ]

module _ (env : Env) (h : Handler) (disk : Disk) (now : Time) (r : Request) where
  Names-games_today : Names (request_id r) (games_today env h disk now r)
  unfolding games_today require_method write_error
  Names-games_today = ground arith

  Names-health : Names (request_id r) (health r)
  unfolding health require_method write_error
  Names-health = ground arith

  Names-ready : Names (request_id r) (ready h r)
  unfolding ready require_method write_error
  Names-ready = ground arith

  Names-game_by_id :
      (unescape : String → Option String)
      → Names (request_id r) (game_by_id env h disk unescape now r)
  unfolding game_by_id require_method write_error
  Names-game_by_id unescape = ground arith

  pub Names-serve_http :
      (unescape : String → Option String)
      → Names (request_id r) (serve_http env h disk unescape now r)
  unfolding serve_http write_error
  Names-serve_http unescape =
      ground (arith, Names-health, Names-ready, Names-games_today, Names-game_by_id unescape)

pub request_id-with_request_id :
    (r : Request) (id : String) → is_request_id id ≡ true → request_id (with_request_id r id) ≡ id
unfolding request_id is_request_id
request_id-with_request_id r id h = elim (Bool-cases (str_eq id "")) [
  | inl e ↦
      let bad : is_request_id "" ≡ true = ap is_request_id (sym ((eq_iff id "").0 e)) ∙ h in cc
  | inr e ↦ rw e refl
]
