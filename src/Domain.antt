-- ===== src/Domain.antt =====
-- internal/domain/games/models.go and internal/domain/teams/models.go: the shapes that the service
-- stores and serves. An `int` field is an `ℤ`.
use mathlib.Core.List.{List}
use Prim.Native.String.{String}
use nba_games_service.Base.{Bool, eq_iff, str_eq, Bool-cases, inl, inr, arith}
use nba_games_service.Base.Decimal.{ℤ}
use native.Mathlib.Decide.{ℕ_discrete}

pub record Team : Type 0 where
  pub id : String
  pub name : String
  pub full_name : String
  pub abbreviation : String
  pub city : String
  pub conference : String
  pub division : String

-- The texts of the Go constants.
pub data GameStatusKind : Type 0 where
  scheduled in_progress final postponed canceled : GameStatusKind

pub record Score : Type 0 where
  pub home : ℤ
  pub away : ℤ

pub record GameMeta : Type 0 where
  pub season : String
  pub upstream_game_id : ℤ
  pub period : ℤ
  pub postseason : Bool
  pub time : String

pub record Game : Type 0 where
  pub id : String
  pub provider : String
  pub home_team : Team
  pub away_team : Team
  pub start_time : String
  pub status : String
  pub status_kind : GameStatusKind
  pub score : Score
  pub meta : GameMeta

pub record TodayResponse : Type 0 where
  pub date : String
  pub games : List Game

unfoldable pub new_today_response : String → List Game → TodayResponse
new_today_response date games = record { date = date; games = games }

pub String-discrete : Discrete String
String-discrete s t = elim (Bool-cases (str_eq s t)) [
  | inl p ↦ yes ((eq_iff s t).0 p)
  | inr p ↦ no (λ e. ground (arith, (eq_iff s t).1 e))
]

pub ℤ-discrete : Discrete ℤ
ℤ-discrete = hlevel ℕ_discrete

pub Team-discrete : Discrete Team
Team-discrete = hlevel String-discrete

-- Equality of payloads, which is equality of their JSON texts.
pub TodayResponse-discrete : Discrete TodayResponse
TodayResponse-discrete = hlevel (String-discrete, ℤ-discrete)
