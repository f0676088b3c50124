-- ===== src/Http/Messages.antt =====
-- Requests and responses, and handlers/responder.go.
use nba_games_service.Base.{ℕ, String, Option, str_eq, if◌then◌else◌}
use nba_games_service.Domain.{Game, TodayResponse}
use nba_games_service.Errors.{Error}

-- What the handlers read of a request: the query's `date` and `tz`, the Authorization and
-- X-Request-ID headers, the id that the middleware put into the context, and the context's error.
pub record Request : Type 0 where
  pub method : String
  pub path : String
  pub date : String
  pub tz : String
  pub authorization : String
  pub id_header : String
  pub context_id : String
  pub context_error : Option Error

-- The JSON bodies, and the texts that `http.ServeMux` writes. `error_body` holds the message and the request's id, which is left out if empty.
pub data Body : Type 0 where
  status_body : String → Body
  error_body : String → String → Body
  games_body : TodayResponse → Body
  game_body : Game → Body
  refreshed_body : String → ℕ → Body
  text_body : String → Body

pub record Response : Type 0 where
  pub status : ℕ
  pub body : Body

abbrev pub write_json : ℕ → Body → Response
write_json status body = record { status = status; body = body }

unfoldable pub request_id : Request → String
request_id r = if str_eq r.context_id "" then r.id_header else r.context_id

unfoldable pub write_error : Request → ℕ → String → Response
write_error r status message = write_json status (error_body message (request_id r))

-- `requireMethod`, and what follows it.
unfoldable pub require_method {ℓ} : {A : Type ℓ} → Request → String → (Response → A) → A → A
require_method r method refused go =
    if str_eq r.method method then go else refused (write_error r 405 "method not allowed")
