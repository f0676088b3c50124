-- ===== src/Http/Logged.antt =====
-- LoggingMiddleware of internal/http/middleware/middleware.go around the handler. The log lines are
-- not kept.
pub mod Ids
use nba_games_service.Base.{ℕ, String, List, [], ◌∷◌, Option, none, some}
use nba_games_service.Http.Messages.{Request, Response}
use nba_games_service.Http.Middleware.{sanitize_request_id, normalize_path}

-- What RecordHTTPRequest is told, without the duration.
pub record Recorded : Type 0 where
  pub method : String
  pub path : String
  pub status : ℕ

-- A response with its X-Request-ID header, and the record that is made of it, where there is a
-- recorder.
pub record Exchange : Type 0 where
  pub response : Response
  pub id_header : String
  pub recorded : Option Recorded

-- `withRequestID`.
abbrev pub with_request_id : Request → String → Request
with_request_id r id = record r { context_id = id }

-- `random` and `stamp` are what NewRequestID reads; the handlers write a status before the body.
unfoldable pub logging_middleware :
    Option (List ℕ) → List ℕ → Option (Unit {0}) → (Request → Response) → Request → Exchange
logging_middleware random stamp recorder next r =
    let id = sanitize_request_id random stamp r.id_header in
    let resp = next (with_request_id r id) in
    record {
      response = resp;
      id_header = id;
      recorded = elim recorder [
        | none ↦ none
        | some u ↦
            some record { method = r.method; path = normalize_path r.path; status = resp.status }
      ];
    }
